-- ===== src/Xfer/Transfer/Step.antt =====
-- One chunk of a transfer: it is taken, answered, and the two ends stay in step.
use encedo_chat.Prelude.{
  ltb, ◌==◌, ltb-eq-false_of_le, ==_iff, length, take, drop, length-take, length-drop, Bytes, ℕ,
  zero, suc, ◌+◌, ◌-◌, ◌*◌, ◌^◌, ◌≤◌, ◌<◌, min, ◌≡◌, refl, sym, ap, ◌∙◌, subst, true, false, some,
  List, [], ◌∷◌, ◌++◌, arith,
}
use encedo_chat.Wc.{concat, concat-append}
use encedo_chat.Xfer.{
  dc_max_message, accepted, frame, t_accept, t_receipt, t_done, chunk_size, read_u32, encode_chunk,
}
use encedo_chat.Xfer.Frames.{
  is_xfer-frame, read_id-frame, subtype-frame, read_chunk, length-encode_chunk,
}
use encedo_chat.Xfer.Sender
use encedo_chat.Xfer.Sender.{Sender}
use encedo_chat.Xfer.Receiver
use encedo_chat.Xfer.Receiver.{Receiver}
use encedo_chat.Xfer.Receiver.Invariant.{on_frame-IsReceiver, IsReceiver, before_last}
use encedo_chat.Xfer.Transfer.{chunk_body, hear}

take-add {ℓ} :
    {A : Type ℓ} (m n : ℕ) (xs : List A) → take m xs ++ take n (drop m xs) ≡ take (m + n) xs
unfolding take drop
take-add zero n xs = let e : n ≡ zero + n = omega arith in ap (λ k. take k xs) e
take-add (suc m) zero [] = let e : suc m ≡ suc m + zero = omega arith in ap (λ k. take k []) e
take-add (suc m) (suc n) [] =
    let e : suc (m + suc n) ≡ suc m + suc n = omega arith in ap (λ k. take k []) e
take-add (suc m) n (x ∷ xs) =
    let e : suc (m + n) ≡ suc m + n = omega arith in
    ap (λ t. x ∷ t) (take-add m n xs) ∙ ap (λ k. take k (x ∷ xs)) e

-- The chunk that a receiver asks for is taken.
on_frame_chunk :
    (r : Receiver) (index now : ℕ) (body : Bytes)
    → r.offer.id < 2 ^ 32
    → index < 2 ^ 32
    → r.want ≡ index
    → r.state ≡ Receiver.receiving
    → length body ≡ min chunk_size (r.offer.size - r.got)
    → Receiver.on_frame r (encode_chunk r.offer.id index body) now
      ≡ Receiver.confirm (record r {
        last = now;
        parts = r.parts ++ body ∷ [];
        got = r.got + length body;
        want = r.want + 1;
      })
on_frame_chunk r index now body hid hindex want run full =
    let (ours, id, tag, i, payload) = read_chunk r.offer.id index body hid hindex in
    let b : Bytes = encode_chunk r.offer.id index body in
    let is_ours : (read_u32 b 2 == r.offer.id) ≡ true = (==_iff (read_u32 b 2) r.offer.id).1 id in
    let long : ltb (length b) 10 ≡ false =
      ltb-eq-false_of_le (length b) 10 (omega (arith, length-encode_chunk r.offer.id index body)) in
    let in_order : (read_u32 b 6 == r.want) ≡ true =
      (==_iff (read_u32 b 6) r.want).1 (i ∙ sym want) in
    let whole : (length body == min chunk_size (r.offer.size - r.got)) ≡ true =
      (==_iff (length body) (min chunk_size (r.offer.size - r.got))).1 full in
    let live : Receiver.is_receiving r.state ≡ true = ap Receiver.is_receiving run in
    unfold Receiver.on_frame Receiver.dispatch Receiver.take_chunk in
    rw (ours, is_ours, tag, live, long, in_order, payload, whole)

-- What the two ends have in common while a file goes: the same offer, the next chunk sent is the one
-- that is asked for, and the receiver holds the file so far.
pub record InStep (file : Bytes) (s : Sender) (r : Receiver) : Type 0 where
  pub offer : s.offer ≡ r.offer
  pub size : r.offer.size ≡ length file
  pub id_fits : r.offer.id < 2 ^ 32
  pub chunks_fit : r.offer.chunks ≤ 2 ^ 32
  pub sends : s.state ≡ Sender.sending
  pub receives : r.state ≡ Receiver.receiving
  pub at_ : s.sent ≡ r.want
  pub books : IsReceiver r
  pub so_far : concat r.parts ≡ take r.got file

-- The receiver after it took the chunk that it wants.
abbrev pub taken : Receiver → Bytes → ℕ → Receiver
taken r file now =
    let body = chunk_body file r.want in
    record r {
      last = now;
      parts = r.parts ++ body ∷ [];
      got = r.got + length body;
      want = r.want + 1;
    }

module _ (file : Bytes) (s : Sender) (r : Receiver) (now : ℕ) (v : InStep file s r) where
  pub more : r.want < r.offer.chunks
  more = v.books.more (rw v.receives)

  pub exact_start : r.got ≡ r.want * chunk_size
  exact_start =
      omega
        (arith, v.books.progress, before_last r.offer.size r.want (rw (← v.books.geometry) more))

  length-chunk_body : length (chunk_body file r.want) ≡ min chunk_size (r.offer.size - r.got)
  length-chunk_body =
      let c : ℕ = min (r.want * chunk_size + chunk_size) (length file) - r.want * chunk_size in
      let rest = length-drop (r.want * chunk_size) file in
      let room : c ≤ length (drop (r.want * chunk_size) file) = omega (arith, rest) in
      unfold chunk_body in
      omega (arith, length-take c (drop (r.want * chunk_size) file) room, v.size, exact_start)

  body-eq-take : chunk_body file r.want ≡ take (length (chunk_body file r.want)) (drop r.got file)
  body-eq-take =
      let c : ℕ = min (r.want * chunk_size + chunk_size) (length file) - r.want * chunk_size in
      let rest = length-drop (r.want * chunk_size) file in
      let room : c ≤ length (drop (r.want * chunk_size) file) = omega (arith, rest) in
      let size : length (take c (drop (r.want * chunk_size) file)) ≡ c =
        length-take c (drop (r.want * chunk_size) file) room in
      unfold chunk_body in rw (size, exact_start)

  pub takes_chunk :
      Receiver.on_frame r (encode_chunk r.offer.id r.want (chunk_body file r.want)) now
      ≡ Receiver.confirm (taken r file now)
  takes_chunk =
      on_frame_chunk r r.want now (chunk_body file r.want) v.id_fits
        (omega (arith, more, v.chunks_fit)) refl v.receives length-chunk_body

  pub so_far-taken : concat (taken r file now).parts ≡ take (taken r file now).got file
  so_far-taken =
      let body : Bytes = chunk_body file r.want in
      concat-append r.parts body
      ∙ ap (λ t. t ++ body) v.so_far
      ∙ ap (λ t. take r.got file ++ t) body-eq-take
      ∙ take-add r.got (length body) file

  -- A chunk that is not the last leaves both ends in step for the next one.
  pub InStep-taken :
      (s' : Sender)
      → s'.offer ≡ s.offer
      → s'.state ≡ Sender.sending
      → s'.sent ≡ r.want + 1
      → (Receiver.confirm (taken r file now)).0 ≡ taken r file now
      → InStep file s' (taken r file now)
  InStep-taken s' offer sends at_ kept = record {
    offer = offer ∙ v.offer;
    size = v.size;
    id_fits = v.id_fits;
    chunks_fit = v.chunks_fit;
    sends = sends;
    receives = v.receives;
    at_ = at_;
    books =
        let b : Bytes = encode_chunk r.offer.id r.want (chunk_body file r.want) in
        subst IsReceiver (ap (λ (p : Receiver × Receiver.Out). p.0) takes_chunk ∙ kept)
          (on_frame-IsReceiver r b now v.books);
    so_far = so_far-taken;
  }

pub hear-some :
    (s : Sender) (b : Bytes) (now : ℕ) → hear s (some b) now ≡ (Sender.on_frame s b now).0
unfolding hear
hear-some s b now = refl

-- A frame under a sender's id arrives at it.
module _ (s : Sender) (now id : ℕ) (same : s.offer.id ≡ id) (fits : id < 2 ^ 32) where
  ours :
      (sub : ℕ) (rest : Bytes)
      → 1 ≤ sub
      → sub ≤ 7
      → Sender.on_frame s (frame sub id rest) now
        ≡ Sender.dispatch (record s { last = now }) sub (frame sub id rest)
  ours sub rest lo hi =
      let b : Bytes = frame sub id rest in
      let is_ours : (read_u32 b 2 == s.offer.id) ≡ true =
        (==_iff (read_u32 b 2) s.offer.id).1 (read_id-frame sub id rest fits ∙ sym same) in
      unfold Sender.on_frame in
      rw (is_xfer-frame sub id rest lo hi, is_ours, subtype-frame sub id rest)

  pub hear_receipt :
      (rest : Bytes)
      → s.state ≡ Sender.sending
      → let s' = hear s (some (frame t_receipt id rest)) now in
        (s'.offer ≡ s.offer) × (s'.state ≡ Sender.sending) × (s'.sent ≡ s.sent)
  hear_receipt rest sends =
      rw (hear-some s _ now, ours t_receipt rest (omega arith) (omega arith))
        (unfold Sender.dispatch Sender.on_receipt in ground arith)

  pub hear_done :
      s.state ≡ Sender.sending → (hear s (some (frame t_done id [])) now).state ≡ Sender.finished
  hear_done sends =
      rw (hear-some s _ now, ours t_done [] (omega arith) (omega arith))
        (unfold Sender.dispatch Sender.on_done in rw sends)

  pub hear_accept :
      s.state ≡ Sender.offering
      → Sender.on_frame s (frame t_accept id []) now
        ≡ (record s { state = Sender.sending; last = now }, accepted ∷ [])
  hear_accept waits =
      rw (ours t_accept [] (omega arith) (omega arith))
        (unfold Sender.dispatch Sender.on_accept in rw waits)

length-take-le {ℓ} : {A : Type ℓ} (n : ℕ) (xs : List A) → length (take n xs) ≤ n
unfolding take
length-take-le zero xs = omega arith
length-take-le (suc n) [] = omega arith
length-take-le (suc n) (x ∷ xs) = omega (arith, length-take-le n xs)

-- Every chunk frame of a file fits one message of the channel, whatever the file and the chunk.
pub chunk_frame_fits :
    (id index : ℕ) (file : Bytes)
    → length (encode_chunk id index (chunk_body file index)) ≤ dc_max_message
chunk_frame_fits id index file =
    let c : ℕ = min (index * chunk_size + chunk_size) (length file) - index * chunk_size in
    let small = length-take-le c (drop (index * chunk_size) file) in
    let size = length-encode_chunk id index (chunk_body file index) in
    unfold chunk_body in omega (arith, size, small)
