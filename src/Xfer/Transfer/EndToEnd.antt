-- ===== src/Xfer/Transfer/EndToEnd.antt =====
-- From the offer to the finished file, through the frames of both ends.
use encedo_chat.Prelude.{
  ltb, ◌==◌, ltb-eq-false_of_le, length, take, Bytes, ℕ, zero, suc, ◌+◌, ◌^◌, ◌≤◌, ◌<◌, ◌≡◌, refl,
  false, Option, none, some, List, [], ◌∷◌, arith,
}
use encedo_chat.Wc.{concat}
use encedo_chat.Xfer.{
  frame, t_accept, accepted, Text, JsonCodec, Offer, chunks_of, max_direct, max_offer_body,
  clamp_name, clamp_mime, non_empty, encode_offer,
}
use encedo_chat.Xfer.Offers.{IsFaithful, IsNote, IsOffer, decode_offer-encode_offer}
use encedo_chat.Xfer.Sender
use encedo_chat.Xfer.Sender.{Sender, FileInfo}
use encedo_chat.Xfer.Receiver
use encedo_chat.Xfer.Receiver.{Receiver, Opening}
use encedo_chat.Xfer.Transfer.{exchange, run_transfer}
use encedo_chat.Xfer.Transfer.Complete.{IsComplete, exchange-IsComplete}
use encedo_chat.Xfer.Transfer.Step.{hear_accept, InStep}

length-take-le {ℓ} : {A : Type ℓ} (n : ℕ) (xs : List A) → length (take n xs) ≤ n
unfolding take
length-take-le zero xs = omega arith
length-take-le (suc n) [] = omega arith
length-take-le (suc n) (x ∷ xs) = omega (arith, length-take-le n xs)

length-clamp_mime : (s : Text) → length (clamp_mime s) ≤ 100
unfolding clamp_mime
length-clamp_mime [] = omega arith
length-clamp_mime (c ∷ s) = length-take-le 100 (c ∷ s)

non_empty-IsNote : (body : Option Text) → IsNote body → IsNote (non_empty body)
unfolding non_empty
non_empty-IsNote none h = tt
non_empty-IsNote (some []) h = tt
non_empty-IsNote (some (c ∷ t)) h = h

-- The offer of a sender is one that the receiver reads back.
create_sender-IsOffer :
    (info : FileInfo) (id : ℕ)
    → id < 2 ^ 32
    → IsNote info.body
    → IsOffer (Sender.create_sender info id).offer
unfolding Sender.create_sender clamp_name
create_sender-IsOffer info id fits note = record {
  id = fits;
  name = length-take-le 200 info.name;
  mime = length-clamp_mime info.mime;
  chunk = refl;
  chunks = refl;
  body = non_empty-IsNote info.body note;
}

abbrev offer_of : FileInfo → ℕ → Offer
offer_of info id = (Sender.create_sender info id).offer

open_offer_fine :
    (json : JsonCodec) (o : Offer)
    → IsFaithful json
    → IsOffer o
    → 0 < o.size
    → o.size ≤ max_direct
    → length (encode_offer json o) ≤ 6 + max_offer_body
    → Receiver.open_offer json (encode_offer json o) ≡ some (Opening.fine o)
open_offer_fine json o faithful v pos small fits =
    let e = decode_offer-encode_offer json o faithful v fits in
    let within : ltb max_direct o.size ≡ false = ltb-eq-false_of_le max_direct o.size small in
    let not_empty : (o.size == 0) ≡ false = ground arith in
    unfold Receiver.open_offer in rw (e, within, not_empty, Receiver.open_offer)

-- After the acceptance both ends are in step for chunk 0.
InStep-start :
    (info : FileInfo) (id now : ℕ) (file : Bytes)
    → id < 2 ^ 32
    → info.size ≡ length file
    → info.size ≤ max_direct
    → 0 < info.size
    → InStep file
        (record (Sender.create_sender info id) { last = now; state = Sender.sending })
        (Receiver.accept (Receiver.create_receiver (offer_of info id)) now).0
unfolding Sender.create_sender Receiver.accept Receiver.create_receiver concat chunks_of take
InStep-start info id now file fits size small pos = record {
  offer = refl;
  size = size;
  id_fits = fits;
  chunks_fit = omega arith;
  sends = refl;
  receives = refl;
  at_ = refl;
  books = record {
    geometry = refl;
    held = refl;
    kept = refl;
    progress = omega arith;
    more = λ h. omega arith;
    whole = λ h. cc;
  };
  so_far = refl;
}

-- A non-empty file of at most 512 MiB that is offered, accepted and sent arrives whole: the sender
-- and the receiver both finish, and the receiver's parts, joined, are the file. The offer's JSON is
-- within its ceiling, the codec gives an object back as it was, the id is a 32-bit number and the
-- note, if any, is within its bound.
pub run_transfer-IsComplete :
    (json : JsonCodec) (info : FileInfo) (id : ℕ) (file : Bytes) (now : ℕ)
    → IsFaithful json
    → id < 2 ^ 32
    → IsNote info.body
    → info.size ≡ length file
    → 0 < info.size
    → info.size ≤ max_direct
    → length (encode_offer json (offer_of info id)) ≤ 6 + max_offer_body
    → (ends : Sender × Receiver) × (run_transfer json info id file now ≡ some ends)
      × IsComplete file ends
unfolding Sender.create_sender
run_transfer-IsComplete json info id file now faithful fits note size pos small short =
    let o : Offer = offer_of info id in
    let opened : Receiver.open_offer json (encode_offer json o) ≡ some (Opening.fine o) =
      open_offer_fine json o faithful (create_sender-IsOffer info id fits note) pos small short in
    let s : Sender = record (Sender.create_sender info id) { last = now } in
    let r : Receiver = (Receiver.accept (Receiver.create_receiver o) now).0 in
    let heard : Sender.on_frame s (frame t_accept id []) now
        ≡ (record s { state = Sender.sending; last = now }, accepted ∷ []) =
      hear_accept s now id refl fits refl in
    let heard_all : Sender.on_frame s (Receiver.accept (Receiver.create_receiver o) now).1 now
        ≡ (record s { state = Sender.sending; last = now }, accepted ∷ []) =
      unfold Receiver.accept Receiver.create_receiver in heard in
    let start : InStep file (record s { state = Sender.sending; last = now }) r =
      InStep-start info id now file fits size small pos in
    let complete : IsComplete file
        (exchange o.chunks (record s { state = Sender.sending; last = now }) r file now) =
      exchange-IsComplete o.chunks file _ r now start
        (unfold Receiver.accept Receiver.create_receiver in omega arith) in
    (
      exchange o.chunks (record s { state = Sender.sending; last = now }) r file now,
      unfold run_transfer Sender.open_ in rw (opened, heard_all),
      complete,
    )
