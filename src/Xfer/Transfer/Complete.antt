-- ===== src/Xfer/Transfer/Complete.antt =====
-- A transfer that starts ends, with the receiver holding the file.
use encedo_chat.Prelude.{
  ltb, ◌==◌, lt→ltb, Bool-cases, length, take, take_all, Bytes, ℕ, zero, suc, ◌+◌, ◌-◌, ◌%◌, ◌≤◌,
  ◌<◌, ◌≡◌, refl, ap, ◌∙◌, subst, inl, inr, true, false, none, some, [], ◌∷◌, arith,
}
use encedo_chat.Wc.{concat}
use encedo_chat.Xfer.{
  JsonCodec, Offer, Ev, done, encode_chunk, frame, u32, t_done, t_receipt, receipt_every,
  chunk_size, chunks_of,
}
use encedo_chat.Xfer
use encedo_chat.Xfer.Sender
use encedo_chat.Xfer.Sender.{Sender, FileInfo}
use encedo_chat.Xfer.Receiver
use encedo_chat.Xfer.Receiver.{Receiver, Out}
use encedo_chat.Xfer.Receiver.Invariant.{IsReceiver, on_frame-IsReceiver}
use encedo_chat.Xfer.Transfer.{chunk_body, hear, exchange}
use encedo_chat.Xfer.Transfer.Step.{
  so_far-taken, InStep-taken, hear_receipt, hear_done, InStep, taken, more, takes_chunk,
}

-- Both ends have finished, and the parts are the file.
pub record IsComplete (file : Bytes) (ends : Sender × Receiver) : Type 0 where
  pub sent : ends.0.state ≡ Sender.finished
  pub received : ends.1.state ≡ Receiver.finished
  pub whole : concat ends.1.parts ≡ file

-- One round of the loop.
exchange_round :
    (n i now : ℕ) (s : Sender) (r : Receiver) (file : Bytes) (p : Receiver × Out)
    → Sender.next s ≡ some i
    → Receiver.on_frame r (encode_chunk s.offer.id i (chunk_body file i)) now ≡ p
    → exchange (suc n) s r file now
      ≡ exchange n (hear (record s { sent = i + 1 }) p.1.reply now) p.0 file now
unfolding exchange Sender.chunk
exchange_round n i now s r file p e q = rw (e, q, exchange)

module _ (file : Bytes) (s : Sender) (r : Receiver) (now : ℕ) (v : InStep file s r) where
  next-InStep : Sender.next s ≡ some r.want
  unfolding Sender.next
  next-InStep =
      let sends : Sender.is_sending s.state ≡ true = ap Sender.is_sending v.sends in
      let room : ltb s.sent s.offer.chunks ≡ true =
        lt→ltb s.sent s.offer.chunks
          (omega (arith, more file s r now v, v.at_, ap (λ (o : Offer). o.chunks) v.offer)) in
      rw (sends, room) (ap some v.at_)

  round :
      (n : ℕ) (p : Receiver × Out)
      → Receiver.confirm (taken r file now) ≡ p
      → exchange (suc n) s r file now
        ≡ exchange n (hear (record s { sent = r.want + 1 }) p.1.reply now) p.0 file now
  round n p e = exchange_round n r.want now s r file p next-InStep (
      ap
        (λ (o : Offer). Receiver.on_frame r (encode_chunk o.id r.want (chunk_body file r.want)) now)
        v.offer
      ∙ takes_chunk file s r now v
      ∙ e)

confirm_last :
    (r : Receiver)
    → r.offer.chunks ≤ r.want
    → Receiver.confirm r ≡ (
      record r { state = Receiver.finished },
      record {
        evs = Xfer.progress r.got r.offer.size ∷ done ∷ [];
        reply = some (frame t_done r.offer.id []);
      },
    )
unfolding Receiver.confirm
confirm_last r h = ground arith

confirm_due :
    (r : Receiver)
    → r.want < r.offer.chunks
    → (r.want % receipt_every r.offer.chunks == 0) ≡ true
    → Receiver.confirm r ≡ (
      r,
      record {
        evs = Xfer.progress r.got r.offer.size ∷ [];
        reply = some (frame t_receipt r.offer.id (u32 (r.want - 1)));
      },
    )
unfolding Receiver.confirm
confirm_due r h e = ground arith

confirm_not_due :
    (r : Receiver)
    → r.want < r.offer.chunks
    → (r.want % receipt_every r.offer.chunks == 0) ≡ false
    → Receiver.confirm r ≡ (r, record { evs = Xfer.progress r.got r.offer.size ∷ []; reply = none })
unfolding Receiver.confirm
confirm_not_due r h e = ground arith

module _ (file : Bytes) (s : Sender) (r : Receiver) (now : ℕ) (v : InStep file s r) where
  -- Any chunk but the last: both ends are in step for the next.
  after_middle :
      r.want + 1 < r.offer.chunks
      → (p : Receiver × Out) × (Receiver.confirm (taken r file now) ≡ p)
        × (p.0 ≡ taken r file now)
        × InStep file (hear (record s { sent = r.want + 1 }) p.1.reply now) (taken r file now)
  unfolding hear
  after_middle h = elim (Bool-cases ((r.want + 1) % receipt_every r.offer.chunks == 0)) [
    | inl due ↦
        let e = confirm_due (taken r file now) h due in
        let id_same : s.offer.id ≡ r.offer.id = ap (λ (o : Offer). o.id) v.offer in
        let (offer, sends, sent) =
          hear_receipt (record s { sent = r.want + 1 }) now r.offer.id id_same v.id_fits
            (u32 (r.want + 1 - 1)) v.sends in
        (
          _,
          e,
          refl,
          InStep-taken file s r now v _ offer sends sent (ap (λ (p : Receiver × Out). p.0) e),
        )
    | inr quiet ↦
        let e = confirm_not_due (taken r file now) h quiet in
        (
          _,
          e,
          refl,
          InStep-taken file s r now v (record s { sent = r.want + 1 }) refl v.sends refl
              (ap (λ (p : Receiver × Out). p.0) e),
        )
  ]

  -- The last chunk: both ends finish.
  after_last : r.want + 1 ≡ r.offer.chunks → IsComplete file (exchange 1 s r file now)
  after_last h =
      let e = confirm_last (taken r file now) (omega arith) in
      let id_same : s.offer.id ≡ r.offer.id = ap (λ (o : Offer). o.id) v.offer in
      let books : IsReceiver (Receiver.confirm (taken r file now)).0 =
        subst IsReceiver (ap (λ (p : Receiver × Out). p.0) (takes_chunk file s r now v)) (
          on_frame-IsReceiver r (encode_chunk r.offer.id r.want (chunk_body file r.want)) now
            v.books) in
      let done_books : IsReceiver (record (taken r file now) { state = Receiver.finished }) =
        subst IsReceiver (ap (λ (p : Receiver × Out). p.0) e) books in
      rw (round file s r now v 0 _ e) (
        unfold exchange in
        record {
          sent =
              hear_done (record s { sent = r.want + 1 }) now r.offer.id id_same v.id_fits v.sends;
          received = refl;
          whole =
              so_far-taken file s r now v
              ∙ ap (λ k. take k file) (done_books.whole refl ∙ v.size)
              ∙ take_all (length file) file (omega arith);
        })

-- From two ends in step with `n` chunks to go, `n` rounds finish the transfer.
pub exchange-IsComplete :
    (n : ℕ) (file : Bytes) (s : Sender) (r : Receiver) (now : ℕ)
    → InStep file s r
    → r.want + n ≡ r.offer.chunks
    → IsComplete file (exchange n s r file now)
exchange-IsComplete zero file s r now v h = absurd (omega (arith, more file s r now v))
exchange-IsComplete (suc zero) file s r now v h = after_last file s r now v (omega arith)
exchange-IsComplete (suc (suc n)) file s r now v h =
    let (p, e, state, v') = after_middle file s r now v (omega arith) in
    rw (round file s r now v (suc n) p e, state)
      (exchange-IsComplete (suc n) file _ (taken r file now) now v' (omega arith))
