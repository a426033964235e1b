-- ===== src/Xfer/Receipts.antt =====
-- How many receipts a receiver sends over a whole transfer: `confirm`, chunk after chunk.
use native.Mathlib.Nat.{lt_of_mul-lt-mul_right, mul-le-mul_left, div-add-mod, mul_comm}
use encedo_chat.Prelude.{
  ◌==◌, if◌then◌else◌, Bool-cases, get_or, Bytes, ℕ, zero, suc, ◌+◌, ◌*◌, ◌/◌, ◌%◌, ◌≤◌, ◌<◌, ◌≡◌,
  ap, ◌∙◌, inl, inr, Bool, true, false, Option, none, some, arith,
}
use encedo_chat.Xfer.{receipt_every, t_receipt, frame}
use encedo_chat.Xfer.Receiver
use encedo_chat.Xfer.Receiver.{Receiver, Out}

-- Is the answer to a chunk a receipt?
abbrev is_receipt : Option Bytes → Bool
is_receipt none = false
is_receipt (some b) = get_or b 1 0 == t_receipt

-- The receipts among the answers to the first `k` chunks.
unfoldable pub receipts : Receiver → ℕ → ℕ
receipts r zero = 0
receipts r (suc k) =
    let rest = receipts r k in
    if is_receipt (Receiver.confirm (record r { want = suc k })).1.reply then suc rest else rest

receipt_due :
    (r : Receiver)
    → is_receipt (Receiver.confirm r).1.reply ≡ true
    → (r.want < r.offer.chunks) × (r.want % receipt_every r.offer.chunks ≡ 0)
unfolding Receiver.confirm frame get_or
receipt_due r h = ground arith

next_multiple : (c k e : ℕ) → c * e ≤ k → suc k % e ≡ 0 → suc c * e ≤ suc k
next_multiple c k e h z =
    let m : ℕ = suc k / e in
    let whole : e * m + suc k % e ≡ suc k = div-add-mod (suc k) e in
    let below : c * e < m * e = omega (arith, whole, mul_comm e m) in
    let next : c < m = lt_of_mul-lt-mul_right e below in grind (arith, whole, z, next)

receipts-mul-le : (r : Receiver) (k : ℕ) → (receipts r k * receipt_every r.offer.chunks ≤ k)
unfolding receipts
receipts-mul-le r zero = omega arith
receipts-mul-le r (suc k) =
    elim (Bool-cases (is_receipt (Receiver.confirm (record r { want = suc k })).1.reply)) [
      | inr quiet ↦ rw quiet (omega (arith, receipts-mul-le r k))
      | inl due ↦ rw due (
          next_multiple (receipts r k) k (receipt_every r.offer.chunks) (receipts-mul-le r k)
            (receipt_due (record r { want = suc k }) due).1)
    ]

under_hundred : (c n e : ℕ) → c * e ≤ n → e ≡ receipt_every (suc n) → c < 100
unfolding receipt_every
under_hundred c n e h d =
    let below : c * e < 100 * e = omega (arith, d) in lt_of_mul-lt-mul_right e below

last_is_quiet : (r : Receiver) (n : ℕ) → r.offer.chunks ≡ suc n → receipts r (suc n) ≡ receipts r n
unfolding receipts
last_is_quiet r n h =
    elim (Bool-cases (is_receipt (Receiver.confirm (record r { want = suc n })).1.reply)) [
      | inr quiet ↦ rw quiet
      | inl due ↦ absurd (omega (arith, (receipt_due (record r { want = suc n }) due).0))
    ]

-- Over the chunks of a whole transfer, whatever its size, a receiver sends fewer than a hundred
-- receipts, and fewer than the transfer has chunks.
pub receipts_few :
    (r : Receiver) (n : ℕ)
    → r.offer.chunks ≡ suc n
    → (receipts r r.offer.chunks < 100) × (receipts r r.offer.chunks < r.offer.chunks)
unfolding receipt_every
receipts_few r n h =
    let e : ℕ = receipt_every r.offer.chunks in
    let sent : receipts r r.offer.chunks ≡ receipts r n = ap (receipts r) h ∙ last_is_quiet r n h in
    let bound = receipts-mul-le r n in
    let one : 1 ≤ receipt_every r.offer.chunks = omega arith in
    let spread : receipts r n * 1 ≤ receipts r n * receipt_every r.offer.chunks =
      mul-le-mul_left (receipts r n) one in
    (
      omega (arith, sent, under_hundred (receipts r n) n e bound (ap receipt_every h)),
      omega (arith, sent, bound, spread, h),
    )
