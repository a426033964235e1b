-- ===== src/Ratchet/Headers.antt =====
-- The header of a ratchet frame, and its bytes.
pub mod RoundTrip
use encedo_chat.Prelude.{
  ltb, ◌==◌, if◌then◌else◌, length, take, drop, get_or, Bytes, be, read_be, ℕ, ◌+◌, ◌/◌, ◌%◌, Bool,
  true, false, not, ◌||◌, Option, none, some, [], ◌∷◌, ◌++◌,
}

abbrev pub t_data : ℕ
t_data = 0x10

abbrev pub t_data_pq : ℕ
t_data_pq = 0x11

abbrev pub version : ℕ
version = 3

abbrev pub hdr_len : ℕ
hdr_len = 2 + 32 + 4 + 4

abbrev pub flag_ct : ℕ
flag_ct = 0x01

abbrev pub flag_pub : ℕ
flag_pub = 0x02

pub record Header : Type 0 where
  pub dh_pub : Bytes
  pub pn : ℕ
  pub n : ℕ
  pub pq_ct : Option Bytes
  pub pq_pub : Option Bytes

abbrev pub is_some : Option Bytes → Bool
is_some none = false
is_some (some _) = true

-- One field behind the flags: its length in two bytes, and itself.
unfoldable pub encode_field : Option Bytes → Bytes
encode_field none = []
encode_field (some f) = be 2 (length f) ++ f

abbrev pub flags_of : Option Bytes → Option Bytes → ℕ
flags_of ct pub_ = (if is_some ct then flag_ct else 0) + (if is_some pub_ then flag_pub else 0)

-- The fixed part, 42 bytes for a key of 32.
unfoldable pub base : ℕ → Header → Bytes
base tag h = tag ∷ version ∷ h.dh_pub ++ (be 4 h.pn ++ be 4 h.n)

unfoldable pub encode_header : Header → Bytes
unfolding base encode_field
encode_header h =
    if is_some h.pq_ct || is_some h.pq_pub
    then base t_data_pq h
      ++ (flags_of h.pq_ct h.pq_pub ∷ encode_field h.pq_ct ++ encode_field h.pq_pub)
    else base t_data h

-- A field that the flags announce: its value and where the next one starts, or nothing where the
-- frame is too short or the field empty.
unfoldable pub decode_field : Bytes → ℕ → Bool → Option (Option Bytes × ℕ)
decode_field frame o false = some (none, o)
decode_field frame o true =
    let n = read_be (take 2 (drop o frame)) in
    if ltb (length frame) (o + 2) || ((n == 0) || ltb (length frame) (o + 2 + n))
    then none
    else some (some (take n (drop (o + 2) frame)), o + 2 + n)

infixl 5 ◌>>=?◌
abbrev pub ◌>>=?◌ {ℓ κ} : {A : Type ℓ} {B : Type κ} → Option A → (A → Option B) → Option B
none >>=? k = none
some a >>=? k = k a

unfoldable pub read_base : Bytes → Header
read_base frame = record {
  dh_pub = take 32 (drop 2 frame);
  pn = read_be (take 4 (drop 34 frame));
  n = read_be (take 4 (drop 38 frame));
  pq_ct = none;
  pq_pub = none;
}

-- The fields of a hybrid header, behind the flags at byte 42.
unfoldable pub decode_pq : Bytes → Option (Header × ℕ)
unfolding read_base decode_field
decode_pq frame =
    let flags = get_or frame 42 0 in
    if (flags == 0) || ltb 3 flags
    then none
    else (decode_field frame 43 (flags % 2 == 1) >>=? λ (ct, o).
        (decode_field frame o (flags / 2 == 1) >>=? λ (pub_, o').
        if ltb (length frame) (o' + 16)
        then none
        else some (record (read_base frame) { pq_ct = ct; pq_pub = pub_ }, o')))

unfoldable pub decode_header : Bytes → Option (Header × ℕ)
unfolding read_base decode_pq
decode_header frame =
    if ltb (length frame) (hdr_len + 16)
    then none
    else if not (get_or frame 1 0 == version)
    then none
    else if get_or frame 0 0 == t_data
    then some (read_base frame, hdr_len)
    else if not (get_or frame 0 0 == t_data_pq)
    then none
    else decode_pq frame
