-- ===== src/Ratchet/Headers/RoundTrip.antt =====
-- A frame's header is read back as it was written, whatever the sealed text behind it.
use encedo_chat.Prelude.{
  ltb, ◌==◌, ltb-eq-false_of_le, Bool-cases, length, take, drop, get_or, length-append, length-drop,
  drop-drop, take_ahead, drop_ahead, Bytes, be, read_be, length-be, read_be-be, ℕ, zero, suc, ◌+◌,
  ◌-◌, ◌/◌, ◌%◌, ◌^◌, ◌≤◌, ◌<◌, ◌≡◌, refl, sym, ap, ◌∙◌, inl, inr, true, false, ◌||◌, Option, none,
  some, [], ◌∷◌, ◌++◌, arith,
}
use mathlib.Core.List.{append_assoc}
use encedo_chat.Ratchet.Headers.{
  Header, is_some, base, encode_field, encode_header, decode_header, decode_field, decode_pq,
  read_base, flags_of, t_data, t_data_pq, hdr_len,
}

-- A field that the wire can carry.
abbrev pub IsField : Option Bytes → Type 0
IsField none = Unit {0}
IsField (some f) = (0 < length f) × (length f < 2 ^ 16)

pub record IsHeader (h : Header) : Type 0 where
  pub dh_pub : length h.dh_pub ≡ 32
  pub pn : h.pn < 2 ^ 32
  pub n : h.n < 2 ^ 32
  pub pq_ct : IsField h.pq_ct
  pub pq_pub : IsField h.pq_pub

get_or-drop : (b : Bytes) (o d : ℕ) → get_or b o d ≡ get_or (drop o b) 0 d
unfolding get_or drop
get_or-drop [] zero d = refl
get_or-drop [] (suc o) d = refl
get_or-drop (x ∷ b) zero d = refl
get_or-drop (x ∷ b) (suc o) d = get_or-drop b o d

-- A written field ahead is read, and what follows it comes next.
decode_field_ahead :
    (b rest : Bytes) (o : ℕ) (f : Option Bytes)
    → IsField f
    → drop o b ≡ encode_field f ++ rest
    → (decode_field b o (is_some f) ≡ some (f, o + length (encode_field f)))
      × (drop (o + length (encode_field f)) b ≡ rest)
unfolding decode_field encode_field
decode_field_ahead b rest o none v ahead = let e : o + 0 ≡ o = omega arith in (rw e, rw e ahead)
decode_field_ahead b rest o (some f) (pos, fits) ahead =
    let size : length (be 2 (length f) ++ f) ≡ 2 + length f =
      omega (arith, length-append (be 2 (length f)) f, length-be 2 (length f)) in
    let split : drop o b ≡ be 2 (length f) ++ (f ++ rest) =
      ahead ∙ append_assoc (be 2 (length f)) f rest in
    let at_f : drop (o + 2) b ≡ f ++ rest =
      drop_ahead b (be 2 (length f)) (f ++ rest) o 2 split (length-be 2 (length f)) in
    let n : read_be (take 2 (drop o b)) ≡ length f =
      ap read_be (take_ahead b (be 2 (length f)) (f ++ rest) o 2 split (length-be 2 (length f)))
      ∙ read_be-be 2 (length f) (omega arith) in
    let got : take (length f) (drop (o + 2) b) ≡ f =
      take_ahead b f rest (o + 2) (length f) at_f refl in
    let after : drop (o + 2 + length f) b ≡ rest =
      drop_ahead b f rest (o + 2) (length f) at_f refl in
    let room : length (drop (o + 2) b) ≡ length b - (o + 2) = length-drop (o + 2) b in
    let room2 : length (drop (o + 2) b) ≡ length f + length rest =
      ap length at_f ∙ length-append f rest in
    let t1 : ltb (length b) (o + 2) ≡ false = ltb-eq-false_of_le (length b) (o + 2) (omega arith) in
    let t2 : (length f == 0) ≡ false = ground arith in
    let t3 : ltb (length b) (o + 2 + length f) ≡ false =
      ltb-eq-false_of_le (length b) (o + 2 + length f) (omega arith) in
    let e : o + (2 + length f) ≡ o + 2 + length f = omega arith in
    (rw (n, t1, t2, t3, got, size, e), rw (size, e) after)

-- The fixed part in front of anything.
record IsFront (tag : ℕ) (h : Header) (x b : Bytes) : Type 0 where
  fields : read_base b ≡ record h { pq_ct = none; pq_pub = none }
  behind : drop 42 b ≡ x
  tagged : get_or b 0 0 ≡ tag
  versioned : get_or b 1 0 ≡ 3
  size : length b ≡ 42 + length x

front : (tag : ℕ) (h : Header) (x : Bytes) → IsHeader h → IsFront tag h x (base tag h ++ x)
front tag h x v =
    let b : Bytes = base tag h ++ x in
    let nums : (h.dh_pub ++ (be 4 h.pn ++ be 4 h.n)) ++ x
        ≡ h.dh_pub ++ (be 4 h.pn ++ (be 4 h.n ++ x)) =
      append_assoc h.dh_pub (be 4 h.pn ++ be 4 h.n) x
      ∙ ap (λ t. h.dh_pub ++ t) (append_assoc (be 4 h.pn) (be 4 h.n) x) in
    let at_key : drop 2 b ≡ h.dh_pub ++ (be 4 h.pn ++ (be 4 h.n ++ x)) = unfold base drop in nums in
    let at_pn : drop 34 b ≡ be 4 h.pn ++ (be 4 h.n ++ x) =
      drop_ahead b h.dh_pub _ 2 32 at_key v.dh_pub in
    let at_n : drop 38 b ≡ be 4 h.n ++ x =
      drop_ahead b (be 4 h.pn) _ 34 4 at_pn (length-be 4 h.pn) in
    let at_x : drop 42 b ≡ x = drop_ahead b (be 4 h.n) x 38 4 at_n (length-be 4 h.n) in
    let key : take 32 (drop 2 b) ≡ h.dh_pub = take_ahead b h.dh_pub _ 2 32 at_key v.dh_pub in
    let pn : read_be (take 4 (drop 34 b)) ≡ h.pn =
      ap read_be (take_ahead b (be 4 h.pn) _ 34 4 at_pn (length-be 4 h.pn))
      ∙ read_be-be 4 h.pn (omega (arith, v.pn)) in
    let n : read_be (take 4 (drop 38 b)) ≡ h.n =
      ap read_be (take_ahead b (be 4 h.n) x 38 4 at_n (length-be 4 h.n))
      ∙ read_be-be 4 h.n (omega (arith, v.n)) in
    record {
      fields =
          unfold read_base in
          λ i. record { dh_pub = key i; pn = pn i; n = n i; pq_ct = none; pq_pub = none };
      behind = at_x;
      tagged = unfold base get_or in refl;
      versioned = unfold base get_or in refl;
      size =
          unfold base in
          omega (
            arith,
            length-append (h.dh_pub ++ (be 4 h.pn ++ be 4 h.n)) x,
            length-append h.dh_pub (be 4 h.pn ++ be 4 h.n),
            length-append (be 4 h.pn) (be 4 h.n),
            length-be 4 h.pn,
            length-be 4 h.n,
            v.dh_pub,
          );
    }

length-base : (tag : ℕ) (h : Header) → IsHeader h → length (base tag h) ≡ 42
length-base tag h v =
    let f = front tag h [] v in omega (arith, f.size, length-append (base tag h) [])

flags_fine :
    (a b : Option Bytes)
    → (is_some a || is_some b) ≡ true
    → ((flags_of a b == 0) ≡ false)
      × (ltb 3 (flags_of a b) ≡ false)
      × ((flags_of a b % 2 == 1) ≡ is_some a)
      × ((flags_of a b / 2 == 1) ≡ is_some b)
flags_fine none none h = cc
flags_fine none (some b) h = (refl, refl, refl, refl)
flags_fine (some a) none h = (refl, refl, refl, refl)
flags_fine (some a) (some b) h = (refl, refl, refl, refl)

module _ (h : Header) (ct : Bytes) (v : IsHeader h) (tag : 16 ≤ length ct) where
  decode_plain :
      h.pq_ct ≡ none → h.pq_pub ≡ none → decode_header (base t_data h ++ ct) ≡ some (h, 42)
  decode_plain no_ct no_pub =
      let f = front t_data h ct v in
      let b : Bytes = base t_data h ++ ct in
      let long : ltb (length b) (hdr_len + 16) ≡ false =
        ltb-eq-false_of_le (length b) (hdr_len + 16) (omega (arith, f.size)) in
      let whole : read_base b ≡ h =
        f.fields ∙ (λ i. record h { pq_ct = sym no_ct i; pq_pub = sym no_pub i }) in
      unfold decode_header in rw (long, f.versioned, f.tagged, whole)

  decode_hybrid :
      (is_some h.pq_ct || is_some h.pq_pub) ≡ true
      → decode_header (
          base t_data_pq h
          ++ (flags_of h.pq_ct h.pq_pub ∷ encode_field h.pq_ct ++ (encode_field h.pq_pub ++ ct)))
        ≡ some (h, 43 + length (encode_field h.pq_ct) + length (encode_field h.pq_pub))
  unfolding encode_field drop
  decode_hybrid some_pq =
      let x : Bytes =
        flags_of h.pq_ct h.pq_pub ∷ encode_field h.pq_ct ++ (encode_field h.pq_pub ++ ct) in
      let b : Bytes = base t_data_pq h ++ x in
      let f = front t_data_pq h x v in
      let l1 = length (encode_field h.pq_ct) in
      let l2 = length (encode_field h.pq_pub) in
      let lx : length x ≡ 1 + l1 + l2 + length ct = omega (
        arith,
        length-append (encode_field h.pq_ct) (encode_field h.pq_pub ++ ct),
        length-append (encode_field h.pq_pub) ct,
      ) in
      let long : ltb (length b) (hdr_len + 16) ≡ false =
        ltb-eq-false_of_le (length b) (hdr_len + 16) (omega (arith, f.size, lx)) in
      let head : get_or x 0 0 ≡ flags_of h.pq_ct h.pq_pub = unfold get_or in refl in
      let flags : get_or b 42 0 ≡ flags_of h.pq_ct h.pq_pub =
        get_or-drop b 42 0 ∙ ap (λ t. get_or t 0 0) f.behind ∙ head in
      let (nonzero, known, has_ct, has_pub) = flags_fine h.pq_ct h.pq_pub some_pq in
      let at_43 : drop 43 b ≡ encode_field h.pq_ct ++ (encode_field h.pq_pub ++ ct) =
        unfold drop in drop-drop 42 1 b ∙ ap (drop 1) f.behind in
      let (got_ct, next) = decode_field_ahead b _ 43 h.pq_ct v.pq_ct at_43 in
      let (got_pub, _) = decode_field_ahead b ct (43 + l1) h.pq_pub v.pq_pub next in
      let end : ltb (length b) (43 + l1 + l2 + 16) ≡ false =
        ltb-eq-false_of_le (length b) (43 + l1 + l2 + 16) (omega (arith, f.size, lx)) in
      unfold decode_header decode_pq in
      rw (long, f.versioned, f.tagged, flags, nonzero, known, has_ct, got_ct, has_pub, got_pub, end)
        (ap (λ g. some (record g { pq_ct = h.pq_ct; pq_pub = h.pq_pub }, 43 + l1 + l2)) f.fields)

  size_hybrid :
      length (
        base t_data_pq h
        ++ (flags_of h.pq_ct h.pq_pub ∷ encode_field h.pq_ct ++ encode_field h.pq_pub))
      ≡ 43 + length (encode_field h.pq_ct) + length (encode_field h.pq_pub)
  size_hybrid =
      let f =
        front t_data_pq h
          (flags_of h.pq_ct h.pq_pub ∷ encode_field h.pq_ct ++ encode_field h.pq_pub) v in
      omega (arith, f.size, length-append (encode_field h.pq_ct) (encode_field h.pq_pub))

no_fields : (a b : Option Bytes) → (is_some a || is_some b) ≡ false → (a ≡ none) × (b ≡ none)
no_fields none none e = (refl, refl)
no_fields none (some b) e = cc
no_fields (some a) b e = cc

-- A header whose key has 32 bytes, whose counters fit four, and whose ML-KEM fields fit two and are
-- not empty is read back from the bytes `encode_header` wrote, with its length, whatever text of at
-- least a tag follows.
pub decode_header-encode_header :
    (h : Header) (ct : Bytes)
    → IsHeader h
    → 16 ≤ length ct
    → decode_header (encode_header h ++ ct) ≡ some (h, length (encode_header h))
decode_header-encode_header h ct v tag = elim (Bool-cases (is_some h.pq_ct || is_some h.pq_pub)) [
  | inl hybrid ↦
      let shape : encode_header h
          ≡ base t_data_pq h
            ++ (flags_of h.pq_ct h.pq_pub ∷ encode_field h.pq_ct ++ encode_field h.pq_pub) =
        unfold encode_header in rw (hybrid, encode_header) refl in
      let reassoc =
        append_assoc (base t_data_pq h)
          (flags_of h.pq_ct h.pq_pub ∷ encode_field h.pq_ct ++ encode_field h.pq_pub) ct
        ∙ ap (λ t. base t_data_pq h ++ (flags_of h.pq_ct h.pq_pub ∷ t))
            (append_assoc (encode_field h.pq_ct) (encode_field h.pq_pub) ct) in
      ap (λ e. decode_header (e ++ ct)) shape
      ∙ ap decode_header reassoc
      ∙ decode_hybrid h ct v tag hybrid
      ∙ ap (λ l. some (h, l)) (sym (size_hybrid h ct v tag))
      ∙ ap (λ e. some (h, length e)) (sym shape)
  | inr plain ↦
      let shape : encode_header h ≡ base t_data h =
        unfold encode_header in rw (plain, encode_header) refl in
      let (no_ct, no_pub) = no_fields h.pq_ct h.pq_pub plain in
      ap (λ e. decode_header (e ++ ct)) shape
      ∙ decode_plain h ct v tag no_ct no_pub
      ∙ ap (λ l. some (h, l)) (sym (length-base t_data h v))
      ∙ ap (λ e. some (h, length e)) (sym shape)
]
