-- ===== src/Xfer/Tests.antt =====
-- Runs of a transfer, and the theorems at concrete values.
use encedo_chat.Prelude.{
  length, take, drop, get_or, take-length, drop-length, Bytes, be, read_be, ℕ, zero, suc, ◌+◌, ◌*◌,
  ◌≤◌, ◌<◌, ◌≡◌, refl, ap, Option, none, some, [], ◌∷◌, ◌++◌, arith,
}
use encedo_chat.Xfer.{
  Text, Offer, OfferJson, JsonCodec, Ev, chunk_size, chunks_of, receipt_every, max_offer_body,
  non_empty, encode_offer, decode_offer, frame, u32, t_accept, t_cancel, clamp_name, clamp_mime,
  octet_stream, encode_chunk, dc_max_message,
}
use encedo_chat.Xfer.Offers.{IsFaithful, IsOffer, decode_offer-encode_offer}
use encedo_chat.Xfer.Sender
use encedo_chat.Xfer.Sender.{Sender, FileInfo}
use encedo_chat.Xfer.Sender.Invariant.{IsStep, on_frame-IsStep}
use encedo_chat.Xfer.Receiver
use encedo_chat.Xfer.Receiver.{Receiver}
use encedo_chat.Xfer.Receiver.Invariant.{total}
use encedo_chat.Xfer.Receiver.Reach.{Reach, start, next, accepts, hears, finished_whole}
use encedo_chat.Xfer.Receiver.Order.{IsInOrder, frames, held-IsInOrder}
use encedo_chat.Xfer.Receipts.{receipts, receipts_few}
use encedo_chat.Xfer.Transfer.{run_transfer}
use encedo_chat.Xfer.Transfer.Complete.{IsComplete}
use encedo_chat.Xfer.Transfer.EndToEnd.{run_transfer-IsComplete}

-- A codec that gives back what it was given: the numbers of the offer and the sizes of its texts,
-- each plus one, and then the texts.
count_of : Option ℕ → ℕ
count_of none = 0
count_of (some n) = suc n

number_of : ℕ → Option ℕ
number_of zero = none
number_of (suc n) = some n

units : Option Text → Text
units none = []
units (some t) = t

size_of : Option Text → ℕ
size_of none = 0
size_of (some t) = suc (length t)

text_of : ℕ → Bytes → Option Text
text_of zero b = none
text_of (suc n) b = some (take n b)

after : ℕ → Bytes → Bytes
after zero b = b
after (suc n) b = drop n b

write_offer : OfferJson → Bytes
write_offer j =
    count_of j.size
      ∷ count_of j.chunk
      ∷ count_of j.chunks
      ∷ size_of j.name
      ∷ size_of j.mime
      ∷ size_of j.body
      ∷ units j.name
    ++ (units j.mime ++ (units j.body ++ []))

read_offer : Bytes → Option OfferJson
read_offer (a ∷ b ∷ c ∷ n ∷ m ∷ k ∷ rest) = some (record {
  name = text_of n rest;
  size = number_of a;
  mime = text_of m (after n rest);
  chunk = number_of b;
  chunks = number_of c;
  body = text_of k (after m (after n rest));
})
read_offer _ = none

toy : JsonCodec
toy = record { stringify = write_offer; parse = read_offer }

number_back : (o : Option ℕ) → number_of (count_of o) ≡ o
unfolding number_of count_of
number_back none = refl
number_back (some n) = refl

text_back : (t : Option Text) (rest : Bytes) → text_of (size_of t) (units t ++ rest) ≡ t
unfolding text_of size_of units
text_back none rest = refl
text_back (some t) rest = ap some (take-length t rest)

after_back : (t : Option Text) (rest : Bytes) → after (size_of t) (units t ++ rest) ≡ rest
unfolding after size_of units
after_back none rest = refl
after_back (some t) rest = drop-length t rest

toy-IsFaithful : IsFaithful toy
unfolding toy read_offer write_offer
toy-IsFaithful j = simp (number_back, text_back, after_back)

abbrev photo : FileInfo
photo = record { name = 112 ∷ []; size = 3; mime = 105 ∷ []; body = some (104 ∷ 105 ∷ []) }

abbrev photo_bytes : Bytes
photo_bytes = 1 ∷ 2 ∷ 3 ∷ []

photo_offer_short :
    length (encode_offer toy (Sender.create_sender photo 77).offer) ≤ 6 + max_offer_body
unfolding encode_offer toy write_offer count_of size_of units frame Sender.create_sender be
    clamp_name clamp_mime take non_empty chunks_of
photo_offer_short = omega arith

run_transfer-IsComplete_example :
    (ends : Sender × Receiver) × (run_transfer toy photo 77 photo_bytes 1000 ≡ some ends)
    × IsComplete photo_bytes ends
run_transfer-IsComplete_example =
    run_transfer-IsComplete toy photo 77 photo_bytes 1000 toy-IsFaithful (omega arith) (omega arith)
      refl (omega arith) (omega arith) photo_offer_short

abbrev photo_offer : Offer
photo_offer = record {
  id = 77;
  name = 112 ∷ [];
  size = 3;
  mime = 105 ∷ [];
  chunk = 65526;
  chunks = 1;
  body = some (104 ∷ 105 ∷ []);
}

photo_offer-IsOffer : IsOffer photo_offer
unfolding chunks_of
photo_offer-IsOffer = record {
  id = omega arith;
  name = omega arith;
  mime = omega arith;
  chunk = refl;
  chunks = refl;
  body = omega arith;
}

photo_offer_fits : length (encode_offer toy photo_offer) ≤ 6 + max_offer_body
unfolding encode_offer toy write_offer count_of size_of units frame be non_empty
photo_offer_fits = omega arith

decode_offer-encode_offer_example :
    decode_offer toy (encode_offer toy photo_offer) ≡ some photo_offer
decode_offer-encode_offer_example =
    decode_offer-encode_offer toy photo_offer toy-IsFaithful photo_offer-IsOffer photo_offer_fits

abbrev running : Receiver
running = record {
  offer = photo_offer;
  state = Receiver.receiving;
  want = 0;
  got = 0;
  last = 5;
  parts = [];
}

-- The only chunk of the file arrives.
abbrev last_chunk : Bytes
last_chunk = encode_chunk 77 0 photo_bytes

abbrev ended : Receiver
ended =
    (Receiver.on_frame (Receiver.accept (Receiver.create_receiver photo_offer) 5).0 last_chunk 9).0

ended-Reach : Reach photo_offer ended
ended-Reach =
    next (next start (accepts 5 (unfold Receiver.create_receiver in refl))) (hears last_chunk 9)

ended_finished : ended.state ≡ Receiver.finished
unfolding Receiver.on_frame Receiver.accept Receiver.create_receiver Receiver.dispatch
    Receiver.take_chunk Receiver.confirm encode_chunk encedo_chat.Xfer.is_xfer
    encedo_chat.Xfer.read_u32 u32 be read_be take drop get_or
ended_finished = refl

photo_chunks : photo_offer.chunks ≡ chunks_of photo_offer.size
unfolding chunks_of
photo_chunks = refl

finished_whole_example : total ended.parts ≡ 3
finished_whole_example = finished_whole photo_chunks ended-Reach ended_finished

held-IsInOrder_example :
    IsInOrder photo_offer (frames ended-Reach) 0 ended.parts × (total ended.parts ≤ 3)
held-IsInOrder_example = held-IsInOrder photo_chunks ended-Reach

abbrev waiting : Sender
waiting = record {
  offer = photo_offer;
  state = Sender.offering;
  sent = 0;
  acked_count = 0;
  last = 1;
}

on_frame-IsStep_example : IsStep waiting (Sender.on_frame waiting (frame t_accept 77 []) 2)
on_frame-IsStep_example = on_frame-IsStep waiting (frame t_accept 77 []) 2

abbrev long_transfer : Receiver
long_transfer = record running { offer = record photo_offer { size = 65526 * 250; chunks = 250 } }

receipts_few_example : (receipts long_transfer 250 < 100) × (receipts long_transfer 250 < 250)
receipts_few_example = receipts_few long_transfer 249 refl

-- A transfer of ten chunks sends nine receipts.
nine_receipts :
    receipts (record running { offer = record photo_offer { size = 65526 * 10; chunks = 10 } }) 10
    ≡ 9
unfolding receipts Receiver.confirm receipt_every frame u32 get_or
nine_receipts = refl
