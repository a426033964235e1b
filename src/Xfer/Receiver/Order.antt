-- ===== src/Xfer/Receiver/Order.antt =====
-- The chunks that a receiver keeps, by the frames it heard.
use encedo_chat.Prelude.{
  ltb, ◌==◌, ==_iff, Bool-cases, length, drop, get_or, Bytes, ℕ, ◌+◌, ◌-◌, ◌*◌, ◌≤◌, min, ◌≡◌, refl,
  sym, ap, ◌∙◌, subst, ◌⊎◌, inl, inr, true, not, ◌||◌, List, [], ◌∷◌, ◌++◌, arith,
}
use encedo_chat.Xfer.{Offer, Why, chunks_of, chunk_size, is_xfer, read_u32, t_cancel, t_chunk}
use encedo_chat.Xfer.Receiver.{
  Receiver, create_receiver, accept, reject, cancel, tick, on_frame, dispatch, take_chunk, confirm,
  fail, is_finished, is_receiving,
}
use encedo_chat.Xfer.Receiver.Invariant.{IsReceiver, total}
use encedo_chat.Xfer.Receiver.Reach.{
  Reach, start, next, accepts, rejects, cancels, ticks, hears, Reach-Holds,
}

-- The frames that a receiver heard on its way, the last one first.
unfoldable pub frames : {o : Offer} {r : Receiver} → Reach o r → List Bytes
frames start = []
frames (next w (accepts now e)) = frames w
frames (next w rejects) = frames w
frames (next w cancels) = frames w
frames (next w (ticks now)) = frames w
frames (next w (hears b now)) = b ∷ frames w

-- A chunk of an offer among the frames, by its number and its body.
unfoldable pub Sent : Offer → List Bytes → ℕ → Bytes → Type 0
Sent o [] i body = ⊥
Sent o (b ∷ bs) i body =
    ((get_or b 1 0 ≡ t_chunk) × (read_u32 b 2 ≡ o.id) × (read_u32 b 6 ≡ i) × (drop 10 b ≡ body))
    ⊎ Sent o bs i body

-- Parts that stand one after the other, from a number on: each is the body of a frame that has its
-- number, and as long as the chunk of the number is.
unfoldable pub IsInOrder : Offer → List Bytes → ℕ → List Bytes → Type 0
IsInOrder o bs i [] = Unit {0}
IsInOrder o bs i (p ∷ ps) =
    Sent o bs i p
    × (length p ≡ min chunk_size (o.size - i * chunk_size))
    × IsInOrder o bs (i + 1) ps

module _ (o : Offer) where
  later-IsInOrder :
      (b : Bytes) (bs : List Bytes) (i : ℕ) (ps : List Bytes)
      → IsInOrder o bs i ps
      → IsInOrder o (b ∷ bs) i ps
  unfolding IsInOrder Sent
  later-IsInOrder b bs i [] v = tt
  later-IsInOrder b bs i (p ∷ ps) (s, size, v) = (inr s, size, later-IsInOrder b bs (i + 1) ps v)

  append-IsInOrder :
      (bs : List Bytes) (i : ℕ) (ps : List Bytes) (p : Bytes)
      → IsInOrder o bs i ps
      → Sent o bs (i + length ps) p
      → length p ≡ min chunk_size (o.size - (i + length ps) * chunk_size)
      → IsInOrder o bs i (ps ++ p ∷ [])
  unfolding IsInOrder
  append-IsInOrder bs i [] p v s size =
      let at : i + 0 ≡ i = omega arith in
      (
        subst (λ j. Sent o bs j p) at s,
        size ∙ ap (λ j. min chunk_size (o.size - j * chunk_size)) at,
        tt,
      )
  append-IsInOrder bs i (q ∷ ps) p (t, full, v) s size =
      let at : i + length (q ∷ ps) ≡ i + 1 + length ps = omega arith in
      (
        t,
        full,
        append-IsInOrder bs (i + 1) ps p v (subst (λ j. Sent o bs j p) at s)
            (size ∙ ap (λ j. min chunk_size (o.size - j * chunk_size)) at),
      )

-- What a frame does to the parts: nothing, or it is the next chunk.
data Kept (r : Receiver) (b : Bytes) (parts : List Bytes) : Type 0 where
  nothing : parts ≡ r.parts → Kept r b parts
  chunk :
      get_or b 1 0 ≡ t_chunk
      → read_u32 b 2 ≡ r.offer.id
      → read_u32 b 6 ≡ r.want
      → length (drop 10 b) ≡ min chunk_size (r.offer.size - r.got)
      → parts ≡ r.parts ++ drop 10 b ∷ []
      → Kept r b parts

confirm-parts : (r : Receiver) → (confirm r).0.parts ≡ r.parts
unfolding confirm
confirm-parts r = ground arith

fail-parts : (r : Receiver) (why : Why) → (fail r why).0.parts ≡ r.parts
unfolding fail
fail-parts r why = refl

take_chunk-Kept :
    (r : Receiver) (b : Bytes)
    → get_or b 1 0 ≡ t_chunk
    → read_u32 b 2 ≡ r.offer.id
    → Kept r b (take_chunk r (read_u32 b 6) (drop 10 b)).0.parts
unfolding take_chunk fail
take_chunk-Kept r b is_chunk ours = elim (Bool-cases (read_u32 b 6 == r.want)) [
  | inr gap ↦ nothing (rw gap refl)
  | inl number ↦ elim (Bool-cases (length (drop 10 b) == min chunk_size (r.offer.size - r.got))) [
    | inr short ↦ nothing (rw (number, short) refl)
    | inl full ↦
        chunk is_chunk ours ((==_iff (read_u32 b 6) r.want).0 number)
          ((==_iff (length (drop 10 b)) (min chunk_size (r.offer.size - r.got))).0 full)
          (rw (number, full) (confirm-parts _))
  ]
]

dispatch-Kept :
    (r : Receiver) (b : Bytes)
    → read_u32 b 2 ≡ r.offer.id
    → Kept r b (dispatch r (get_or b 1 0) b).0.parts
unfolding dispatch fail
dispatch-Kept r b ours = elim (Bool-cases (get_or b 1 0 == t_cancel)) [
  | inl stop ↦ nothing (elim (Bool-cases (is_finished r.state)) [
    | inl over ↦ rw (stop, over, dispatch) refl
    | inr live ↦ rw (stop, live, dispatch) refl
  ])
  | inr other ↦ elim (Bool-cases (get_or b 1 0 == t_chunk)) [
    | inr unknown ↦ nothing (rw (other, unknown, dispatch) refl)
    | inl is_chunk ↦ elim (Bool-cases (is_receiving r.state)) [
      | inr idle ↦ nothing (rw (other, is_chunk, idle, dispatch) refl)
      | inl run ↦ elim (Bool-cases (ltb (length b) 10)) [
        | inl short ↦ nothing (rw (other, is_chunk, run, short, dispatch) refl)
        | inr long ↦
            rw (other, is_chunk, run, long, dispatch)
              (take_chunk-Kept r b ((==_iff (get_or b 1 0) t_chunk).0 is_chunk) ours)
      ]
    ]
  ]
]

on_frame-Kept : (r : Receiver) (b : Bytes) (now : ℕ) → Kept r b (on_frame r b now).0.parts
unfolding on_frame
on_frame-Kept r b now = elim (Bool-cases (not (is_xfer b) || not (read_u32 b 2 == r.offer.id))) [
  | inl foreign ↦ nothing (rw foreign refl)
  | inr ours ↦
      let mine : (read_u32 b 2 == r.offer.id) ≡ true = ground arith in
      rw ours
        (elim (dispatch-Kept (record r { last = now }) b
          ((==_iff (read_u32 b 2) r.offer.id).0 mine)) [
            | nothing e ↦ nothing e
            | chunk a i n l e ↦ chunk a i n l e
          ])
]

hears-IsInOrder :
    {o : Offer} (r : Receiver) (b : Bytes) (now : ℕ) (bs : List Bytes)
    → IsReceiver r
    → r.offer ≡ o
    → IsInOrder o bs 0 r.parts
    → IsInOrder o (b ∷ bs) 0 (on_frame r b now).0.parts
unfolding Sent
hears-IsInOrder {o} r b now bs v same before = elim (on_frame-Kept r b now) [
  | nothing e ↦ subst (IsInOrder o (b ∷ bs) 0) (sym e) (later-IsInOrder o b bs 0 r.parts before)
  | chunk is_chunk ours number full e ↦
      let size = ap (λ (x : Offer). x.size) same in
      let in_turn : r.want ≡ 0 + length r.parts = omega (arith, v.kept) in
      subst (IsInOrder o (b ∷ bs) 0) (sym e) (
        append-IsInOrder o (b ∷ bs) 0 r.parts (drop 10 b) (later-IsInOrder o b bs 0 r.parts before)
          (inl (is_chunk, ours ∙ ap (λ (x : Offer). x.id) same, number ∙ in_turn, refl))
          (omega (arith, full, v.progress, size, ap (λ (k : ℕ). k * chunk_size) v.kept)))
]

tick-parts : (r : Receiver) (now : ℕ) → (tick r now).0.parts ≡ r.parts
unfolding tick fail
tick-parts r now = ground arith

Reach-IsInOrder :
    {o : Offer} {r : Receiver}
    → o.chunks ≡ chunks_of o.size
    → (w : Reach o r) → IsInOrder o (frames w) 0 r.parts
unfolding frames accept reject cancel tick fail create_receiver IsInOrder
Reach-IsInOrder h start = tt
Reach-IsInOrder h (next w (accepts now e)) = Reach-IsInOrder h w
Reach-IsInOrder h (next w rejects) = Reach-IsInOrder h w
Reach-IsInOrder h (next w cancels) = Reach-IsInOrder h w
Reach-IsInOrder {o} h (next {r} w (ticks now)) =
    subst (IsInOrder o (frames w) 0) (sym (tick-parts r now)) (Reach-IsInOrder h w)
Reach-IsInOrder h (next {r} w (hears b now)) =
    let v = Reach-Holds h w in
    hears-IsInOrder r b now (frames w) v.books v.same (Reach-IsInOrder h w)

-- The parts that a receiver keeps, whatever calls, clock ticks and bytes brought it there from the offer,
-- are bodies of chunk frames of the offer that it heard, numbered from 0 in order, each of the size
-- that the chunk of its number has; together they never exceed the size of the offer.
pub held-IsInOrder :
    {o : Offer} {r : Receiver}
    → o.chunks ≡ chunks_of o.size
    → (w : Reach o r) → IsInOrder o (frames w) 0 r.parts × (total r.parts ≤ o.size)
held-IsInOrder {o} {r} h w =
    let v = Reach-Holds h w in
    let size = ap (λ (x : Offer). x.size) v.same in
    (Reach-IsInOrder h w, omega (arith, v.books.held, v.books.progress, size))
