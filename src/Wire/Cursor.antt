-- ===== src/Wire/Cursor.antt =====
-- Where a decoder stands: `drop o b` is what it has not read. One lemma for each reading step
-- forwards (what lies ahead is read), and one backwards (what was read lay ahead).
use encedo_chat.Prelude.{
  leb, leb→le, length, take, drop, get_or, length-append, length-take, length-drop,
  take-append-drop, drop-drop, drop_all, take_ahead, All-left, All-right, Bytes, IsByte, IsBytes,
  be, read_be, length-be, read_be-be, be-read_be, guard-elim, ℕ, ◌+◌, ◌-◌, ◌^◌, ◌≤◌, ◌<◌, String,
  ◌≡◌, sym, ap, ◌∙◌, true, [], ◌∷◌, ◌++◌, arith, ok,
}
use encedo_chat.Wire.{header}
use encedo_chat.Wire.{slice, exact, read_u16, read_u64be, max_safe_integer}

module _ (b f rest : Bytes) (o len : ℕ) (ahead : drop o b ≡ f ++ rest) (fits : length f ≡ len) where
  pub room_ahead : 0 < len → leb (o + len) (length b) ≡ true
  room_ahead h =
      let total : length (drop o b) ≡ length b - o = length-drop o b in
      let parts : length (drop o b) ≡ length f + length rest =
        ap length ahead ∙ length-append f rest in
      ground (arith, total, parts)

  pub slice_ahead : (name : String) → 0 < len → slice b o len name ≡ ok f
  unfolding slice
  slice_ahead name h = rw (room_ahead h) (ap ok (take_ahead b f rest o len ahead fits))

-- A 16-bit length that lies ahead is read, and then its room is there too.
pub read_u16_ahead :
    (b rest : Bytes) (o n : ℕ) → drop o b ≡ be 2 n ++ rest → n < 2 ^ 16 → read_u16 b o ≡ n
unfolding read_u16
read_u16_ahead b rest o n ahead h =
    ap read_be (take_ahead b (be 2 n) rest o 2 ahead (length-be 2 n)) ∙ read_be-be 2 n (omega arith)

pub read_u64be_ahead :
    (b rest : Bytes) (o n : ℕ)
    → drop o b ≡ be 8 n ++ rest
    → n ≤ max_safe_integer
    → read_u64be b o ≡ ok n
unfolding read_u64be
read_u64be_ahead b rest o n ahead h =
    let value : read_be (take 8 (drop o b)) ≡ n =
      ap read_be (take_ahead b (be 8 n) rest o 8 ahead (length-be 8 n))
      ∙ read_be-be 8 n (omega arith) in
    rw value (ground arith)

pub exact_end : (b : Bytes) (o : ℕ) (name : String) → o ≡ length b → exact b o name ≡ ok tt
unfolding exact
exact_end b o name h = ground arith

module _ (b : Bytes) (o len : ℕ) where
  split_ahead : drop o b ≡ take len (drop o b) ++ drop (o + len) b
  split_ahead =
      sym (take-append-drop len (drop o b))
      ∙ ap (λ t. take len (drop o b) ++ t) (sym (drop-drop o len b))

  length-take-drop : leb (o + len) (length b) ≡ true → length (take len (drop o b)) ≡ len
  length-take-drop h = length-take len (drop o b) (omega (arith, leb→le _ _ h, length-drop o b))

  pub slice_behind :
      (name : String) (f : Bytes)
      → slice b o len name ≡ ok f
      → (length f ≡ len) × (drop o b ≡ f ++ drop (o + len) b)
  unfolding slice
  slice_behind name f h = guard-elim _ _ _ h λ room same.
      let taken : take len (drop o b) ≡ f = cc same in
      (rw taken at (length-take-drop room), rw taken at split_ahead)

IsBytes-drop : (n : ℕ) (b : Bytes) → IsBytes b → IsBytes (drop n b)
IsBytes-drop n b h = All-right IsByte (take n b) (drop n b) (rw take-append-drop h)

IsBytes-take : (n : ℕ) (b : Bytes) → IsBytes b → IsBytes (take n b)
IsBytes-take n b h = All-left IsByte (take n b) (drop n b) (rw take-append-drop h)

-- What `w` bytes ahead read as, encoded again, is what lay ahead.
pub number_behind :
    (w : ℕ) (b : Bytes) (o : ℕ)
    → IsBytes b
    → leb (o + w) (length b) ≡ true
    → drop o b ≡ be w (read_be (take w (drop o b))) ++ drop (o + w) b
number_behind w b o h room =
    split_ahead b o w
    ∙ ap (λ t. t ++ drop (o + w) b)
        (sym (
          be-read_be w (take w (drop o b)) (length-take-drop b o w room)
            (IsBytes-take w (drop o b) (IsBytes-drop o b h))))

pub read_u64be_behind :
    (b : Bytes) (o ts : ℕ)
    → IsBytes b
    → leb (o + 8) (length b) ≡ true
    → read_u64be b o ≡ ok ts
    → (ts ≤ max_safe_integer) × (drop o b ≡ be 8 ts ++ drop (o + 8) b)
unfolding read_u64be
read_u64be_behind b o ts h room e =
    guard-elim (leb (read_be (take 8 (drop o b))) max_safe_integer) _ _ e λ safe same.
      let value : read_be (take 8 (drop o b)) ≡ ts = cc same in
      (
        omega (arith, value, leb→le (read_be (take 8 (drop o b))) max_safe_integer safe),
        rw value at (number_behind 8 b o h room),
      )

pub header_behind :
    (b : Bytes) (w o : ℕ) (name : String)
    → header b w name ≡ ok o
    → (o ≡ 2) × (b ≡ w ∷ 3 ∷ drop 2 b)
unfolding header drop get_or
header_behind [] w o name h = absurd (ground arith)
header_behind (x ∷ []) w o name h = absurd (ground arith)
header_behind (x ∷ y ∷ b) w o name h =
    let e : (o ≡ 2) × (x ≡ w) × (y ≡ 3) = ground arith in (e.0, cc (e.1, e.2))

pub exact_behind : (b : Bytes) (o : ℕ) (name : String) → exact b o name ≡ ok tt → drop o b ≡ []
unfolding exact
exact_behind b o name h = drop_all o b (ground arith)
