-- ===== src/Prelude/ByteStrings.antt =====
-- Byte strings (`Uint8Array`) as lists of numbers, and big-endian numbers in them (`DataView`'s
-- `setUint16`, `setUint32` and `setBigUint64`, and what reads them back).
use Prim.Native.Nat.{ℕ, zero, suc, ◌+◌, ◌*◌, ◌/◌, ◌%◌, ◌^◌, ◌<◌}
use mathlib.Core.Path.{◌≡◌, refl, ap, ◌∙◌}
use mathlib.Core.List.{List, [], ◌∷◌, reverse, reverse-reverse}
use native.Mathlib.Nat.{pow-suc}
use native.Mathlib.Omega.{arith}
use encedo_chat.Prelude.Lists.{length, length-reverse, All, All-reverse}

abbrev pub Bytes : Type 0
Bytes = List ℕ

abbrev pub IsByte : ℕ → Type 0
IsByte b = b < 256

-- A string whose elements are bytes.
abbrev pub IsBytes : Bytes → Type 0
IsBytes bs = All IsByte bs

-- `w` bytes of `n`, the lowest first.
le_bytes : ℕ → ℕ → Bytes
le_bytes zero n = []
le_bytes (suc w) n = (n % 256) ∷ le_bytes w (n / 256)

read_le : Bytes → ℕ
read_le [] = 0
read_le (b ∷ bs) = b + 256 * read_le bs

-- `w` bytes of `n`, the highest first; what does not fit is lost, as in `DataView`.
unfoldable pub be : ℕ → ℕ → Bytes
unfolding le_bytes
be w n = reverse (le_bytes w n)

unfoldable pub read_be : Bytes → ℕ
unfolding read_le
read_be bs = read_le (reverse bs)

length-le_bytes : (w n : ℕ) → length (le_bytes w n) ≡ w
unfolding le_bytes
length-le_bytes zero n = refl
length-le_bytes (suc w) n = ap suc (length-le_bytes w (n / 256))

pub length-be : (w n : ℕ) → length (be w n) ≡ w
length-be w n = unfold be in length-reverse (le_bytes w n) ∙ length-le_bytes w n

le_bytes-IsBytes : (w n : ℕ) → IsBytes (le_bytes w n)
unfolding le_bytes
le_bytes-IsBytes zero n = tt
le_bytes-IsBytes (suc w) n = (omega arith, le_bytes-IsBytes w (n / 256))

pub be-IsBytes : (w n : ℕ) → IsBytes (be w n)
unfolding be
be-IsBytes w n = All-reverse IsByte (le_bytes w n) (le_bytes-IsBytes w n)

read_le-le_bytes : (w n : ℕ) → n < 256 ^ w → read_le (le_bytes w n) ≡ n
unfolding le_bytes read_le
read_le-le_bytes zero n h = omega arith
read_le-le_bytes (suc w) n h =
    omega (arith, read_le-le_bytes w (n / 256) (omega (arith, pow-suc 256 w)))

pub read_be-be : (w n : ℕ) → n < 256 ^ w → read_be (be w n) ≡ n
unfolding read_be be
read_be-be w n h = ap read_le (reverse-reverse (le_bytes w n)) ∙ read_le-le_bytes w n h

le_bytes-read_le : (bs : Bytes) → IsBytes bs → le_bytes (length bs) (read_le bs) ≡ bs
unfolding le_bytes read_le
le_bytes-read_le [] h = refl
le_bytes-read_le (b ∷ bs) (p, h) =
    let low : (b + 256 * read_le bs) % 256 ≡ b = omega arith in
    let high : (b + 256 * read_le bs) / 256 ≡ read_le bs = omega arith in
    λ i. low i ∷ (ap (le_bytes (length bs)) high ∙ le_bytes-read_le bs h) i

pub be-read_be : (w : ℕ) (bs : Bytes) → length bs ≡ w → IsBytes bs → be w (read_be bs) ≡ bs
unfolding be read_be
be-read_be w bs e h =
    let same : w ≡ length (reverse bs) = omega (arith, e, length-reverse bs) in
    ap (λ k. reverse (le_bytes k (read_le (reverse bs)))) same
    ∙ ap reverse (le_bytes-read_le (reverse bs) (All-reverse IsByte bs h))
    ∙ reverse-reverse bs
