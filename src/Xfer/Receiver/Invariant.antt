-- ===== src/Xfer/Receiver/Invariant.antt =====
-- What holds of a receiver whatever frames arrive, in whatever order.
use encedo_chat.Prelude.{
  ltb, leb, ◌==◌, leb→le, ==_iff, Bool-cases, length, drop, get_or, length-append, Bytes, ℕ, ◌+◌,
  ◌-◌, ◌*◌, ◌%◌, ◌≤◌, ◌<◌, min, ◌≡◌, inl, inr, true, false, not, ◌||◌, List, [], ◌∷◌, ◌++◌, arith,
}
use encedo_chat.Xfer.{chunks_of}
use encedo_chat.Xfer.{
  chunk_size, chunks_of, receipt_every, out_of_order, bad_frame, cancelled_peer, t_cancel, t_chunk,
  is_xfer, read_u32, Why,
}
use encedo_chat.Xfer.Receiver.{
  Receiver, is_receiving, is_finished, on_frame, dispatch, take_chunk, confirm, fail,
}

-- The total size of the parts.
abbrev pub total : List Bytes → ℕ
total [] = 0
total (p ∷ ps) = length p + total ps

pub total-append : (ps : List Bytes) (p : Bytes) → total (ps ++ p ∷ []) ≡ total ps + length p
total-append [] p = omega arith
total-append (q ∷ ps) p = omega (arith, total-append ps p)

-- The books of a receiver: `want` chunks are kept, which make up `got` bytes, as many as `want` chunks
-- of full size but at most the size of the offer, and one that has finished holds that size.
pub record IsReceiver (r : Receiver) : Type 0 where
  pub geometry : r.offer.chunks ≡ chunks_of r.offer.size
  pub held : total r.parts ≡ r.got
  pub kept : length r.parts ≡ r.want
  pub progress : r.got ≡ min r.offer.size (r.want * chunk_size)
  pub more : is_receiving r.state ≡ true → r.want < r.offer.chunks
  pub whole : is_finished r.state ≡ true → r.got ≡ r.offer.size

fail-IsReceiver : (r : Receiver) (why : Why) → IsReceiver r → IsReceiver (fail r why).0
unfolding fail
fail-IsReceiver r why v = record {
  geometry = v.geometry;
  held = v.held;
  kept = v.kept;
  progress = v.progress;
  more = λ h. cc;
  whole = λ h. cc;
}

-- The last chunk is the one that reaches the size.
pub last_chunk : (size want : ℕ) → chunks_of size ≤ want → size ≤ want * chunk_size
unfolding chunks_of
last_chunk size want h = omega arith

pub before_last : (size want : ℕ) → want < chunks_of size → want * chunk_size ≤ size
unfolding chunks_of
before_last size want h = omega arith

confirm-IsReceiver :
    (r : Receiver)
    → r.offer.chunks ≡ chunks_of r.offer.size
    → total r.parts ≡ r.got
    → length r.parts ≡ r.want
    → r.got ≡ min r.offer.size (r.want * chunk_size)
    → is_finished r.state ≡ false
    → IsReceiver (confirm r).0
unfolding confirm
confirm-IsReceiver r geometry held kept progress live =
    elim (Bool-cases (leb r.offer.chunks r.want)) [
      | inl end ↦ rw end (record {
        geometry = geometry;
        held = held;
        kept = kept;
        progress = progress;
        more = λ h. cc;
        whole = λ h. omega (
          arith,
          last_chunk r.offer.size r.want
              (omega (arith, geometry, leb→le r.offer.chunks r.want end)),
        );
      })
      | inr more ↦
          let same : IsReceiver r = record {
            geometry = geometry;
            held = held;
            kept = kept;
            progress = progress;
            more = λ h. ground arith;
            whole = λ h. absurd (ground arith);
          } in
          rw more (elim (Bool-cases (r.want % receipt_every r.offer.chunks == 0)) [
            | inl due ↦ rw due same
            | inr not_due ↦ rw not_due same
          ])
    ]

take_chunk-IsReceiver :
    (r : Receiver) (i : ℕ) (body : Bytes)
    → IsReceiver r
    → is_receiving r.state ≡ true
    → IsReceiver (take_chunk r i body).0
unfolding take_chunk
take_chunk-IsReceiver r i body v run = elim (Bool-cases (i == r.want)) [
  | inr gap ↦ rw gap (fail-IsReceiver r out_of_order v)
  | inl next ↦ rw next (elim (Bool-cases (length body == min chunk_size (r.offer.size - r.got))) [
    | inr short ↦ rw short (fail-IsReceiver r bad_frame v)
    | inl full ↦ rw full (
        confirm-IsReceiver
          (record r { parts = r.parts ++ body ∷ []; got = r.got + length body; want = r.want + 1 })
          v.geometry (omega (arith, total-append r.parts body, v.held))
          (omega (arith, length-append r.parts (body ∷ []), v.kept))
          (let fits = (==_iff (length body) (min chunk_size (r.offer.size - r.got))).0 full in
            let room = before_last r.offer.size r.want (rw (← v.geometry) (v.more run)) in
            omega (arith, fits, room, v.progress))
          (ground arith))
  ])
]

dispatch-IsReceiver :
    (r : Receiver) (sub : ℕ) (b : Bytes) → IsReceiver r → IsReceiver (dispatch r sub b).0
unfolding dispatch
dispatch-IsReceiver r sub b v = elim (Bool-cases (sub == t_cancel)) [
  | inl stop ↦ rw stop (elim (Bool-cases (is_finished r.state)) [
    | inl over ↦ rw over v
    | inr live ↦ rw live (fail-IsReceiver r cancelled_peer v)
  ])
  | inr other ↦ rw other (elim (Bool-cases (sub == t_chunk)) [
    | inr unknown ↦ rw unknown v
    | inl is_chunk ↦ rw is_chunk (elim (Bool-cases (is_receiving r.state)) [
      | inr idle ↦ rw idle v
      | inl run ↦ rw run (elim (Bool-cases (ltb (length b) 10)) [
        | inl short ↦ rw short (fail-IsReceiver r bad_frame v)
        | inr long ↦ rw long (take_chunk-IsReceiver r (read_u32 b 6) (drop 10 b) v run)
      ])
    ])
  ])
]

-- The books stay right whatever bytes arrive.
pub on_frame-IsReceiver :
    (r : Receiver) (b : Bytes) (now : ℕ) → IsReceiver r → IsReceiver (on_frame r b now).0
unfolding on_frame
on_frame-IsReceiver r b now v =
    elim (Bool-cases (not (is_xfer b) || not (read_u32 b 2 == r.offer.id))) [
      | inl foreign ↦ rw foreign v
      | inr ours ↦ rw ours (
          dispatch-IsReceiver (record r { last = now }) (get_or b 1 0) b
            (record {
              geometry = v.geometry;
              held = v.held;
              kept = v.kept;
              progress = v.progress;
              more = v.more;
              whole = v.whole;
            }))
    ]
