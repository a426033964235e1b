-- ===== src/Wire.antt =====
-- impl/eh2/wire.ts: the three frames of the EH-2 handshake as bytes, and back.
-- A thrown `WireError` is a value that names the frame or field and says what is wrong with it.
-- A timestamp is a natural number, so the tests for a negative or fractional one are not there.
mod Cursor
pub mod RoundTrip
pub mod Canonical
mod Tests
use encedo_chat.Wc.{concat}
use encedo_chat.Prelude.{
  ℕ, ◌+◌, ◌-◌, ◌^◌, ◌≡◌, String, Bool, List, [], ◌∷◌, ◌++◌, Bytes, take, drop, get_or, length, be,
  read_be, leb, ◌==◌, if◌then◌else◌, Result, ok, err, ◌>>=◌, ◌>>◌, guard,
}

pub data WireError : Type 0 where
  truncated_header : String → WireError
  wrong_type : String → ℕ → WireError
  unsupported_version : String → ℕ → WireError
  truncated : String → WireError
  trailing : String → ℕ → WireError
  bad_length : String → ℕ → ℕ → WireError
  length_overflow : ℕ → WireError
  unsafe_timestamp : ℕ → WireError

abbrev pub Wire : Type 0 → Type 0
Wire A = Result WireError A

abbrev pub eh2_version : ℕ
eh2_version = 3

abbrev pub t_msg1 : ℕ
t_msg1 = 1

abbrev pub t_msg2 : ℕ
t_msg2 = 2

abbrev pub t_msg3 : ℕ
t_msg3 = 3

abbrev pub x25519_pub : ℕ
x25519_pub = 32

abbrev pub mac_len : ℕ
mac_len = 32

abbrev pub ts_len : ℕ
ts_len = 8

abbrev pub initiator_tag_len : ℕ
initiator_tag_len = 32

abbrev pub mlkem768_pk : ℕ
mlkem768_pk = 1184

abbrev pub mlkem768_ct : ℕ
mlkem768_ct = 1088

abbrev pub max_safe_integer : ℕ
max_safe_integer = 2 ^ 53 - 1

pub record Msg1 : Type 0 where
  pub ek_pub : Bytes
  pub pq_pub : Bytes
  pub ts : ℕ
  pub initiator_tag : Bytes

pub record Msg2 : Type 0 where
  pub ek_pub : Bytes
  pub pq_ct : Bytes
  pub ts : ℕ
  pub mac_r : Bytes

pub record Msg3 : Type 0 where
  pub mac_i : Bytes

unfoldable pub u64be : ℕ → Wire Bytes
u64be n = do guard (leb n max_safe_integer) (unsafe_timestamp n); ok (be ts_len n)

unfoldable pub read_u64be : Bytes → ℕ → Wire ℕ
read_u64be b off = do
  let v = read_be (take ts_len (drop off b))
  guard (leb v max_safe_integer) (unsafe_timestamp v)
  ok v

unfoldable pub u16be : ℕ → Wire Bytes
u16be n = do guard (leb n 0xffff) (length_overflow n); ok (be 2 n)

-- `(b[o] << 8) | b[o + 1]`
unfoldable pub read_u16 : Bytes → ℕ → ℕ
read_u16 b o = read_be (take 2 (drop o b))

unfoldable pub fixed : String → Bytes → ℕ → Wire Bytes
fixed name v len = do guard (length v == len) (bad_length name len (length v)); ok v

unfoldable pub header : Bytes → ℕ → String → Wire ℕ
header b want name = do
  guard (leb 2 (length b)) (truncated_header name)
  guard (get_or b 0 0 == want) (wrong_type name (get_or b 0 0))
  guard (get_or b 1 0 == eh2_version) (unsupported_version name (get_or b 1 0))
  ok 2

unfoldable pub exact : Bytes → ℕ → String → Wire (Unit {0})
exact b off name = guard (off == length b) (trailing name (length b - off))

unfoldable pub slice : Bytes → ℕ → ℕ → String → Wire Bytes
slice b off len name = do
  guard (leb (off + len) (length b)) (truncated name)
  ok (take len (drop off b))

unfoldable pub encode_msg1 : Msg1 → Wire Bytes
encode_msg1 m = do
  _ ← fixed "msg1.ekPub" m.ek_pub x25519_pub
  _ ← fixed "msg1.pqPub" m.pq_pub mlkem768_pk
  _ ← fixed "msg1.initiatorTag" m.initiator_tag initiator_tag_len
  pq_len ← u16be (length m.pq_pub)
  ts ← u64be m.ts
  ok (
      concat
        ((t_msg1 ∷ eh2_version ∷ []) ∷ m.ek_pub ∷ pq_len ∷ m.pq_pub ∷ ts ∷ m.initiator_tag ∷ []))

unfoldable pub decode_msg1 : Bytes → Wire Msg1
decode_msg1 b = do
  o ← header b t_msg1 "msg1"
  ek_pub ← slice b o x25519_pub "msg1.ekPub"
  let o1 = o + x25519_pub
  guard (leb (o1 + 2) (length b)) (truncated "msg1.pqPub")
  let pq_len = read_u16 b o1
  let o2 = o1 + 2
  guard (pq_len == mlkem768_pk) (bad_length "msg1.pqPub" mlkem768_pk pq_len)
  pq_pub ← slice b o2 pq_len "msg1.pqPub"
  let o3 = o2 + pq_len
  guard (leb (o3 + ts_len) (length b)) (truncated "msg1.ts")
  ts ← read_u64be b o3
  let o4 = o3 + ts_len
  initiator_tag ← slice b o4 initiator_tag_len "msg1.initiatorTag"
  let o5 = o4 + initiator_tag_len
  exact b o5 "msg1"
  ok (record { ek_pub = ek_pub; pq_pub = pq_pub; ts = ts; initiator_tag = initiator_tag })

unfoldable pub encode_msg2 : Msg2 → Wire Bytes
encode_msg2 m = do
  _ ← fixed "msg2.ekPub" m.ek_pub x25519_pub
  _ ← fixed "msg2.pqCt" m.pq_ct mlkem768_ct
  _ ← fixed "msg2.macR" m.mac_r mac_len
  ct_len ← u16be (length m.pq_ct)
  ts ← u64be m.ts
  ok (concat ((t_msg2 ∷ eh2_version ∷ []) ∷ m.ek_pub ∷ ct_len ∷ m.pq_ct ∷ ts ∷ m.mac_r ∷ []))

unfoldable pub decode_msg2 : Bytes → Wire Msg2
decode_msg2 b = do
  o ← header b t_msg2 "msg2"
  ek_pub ← slice b o x25519_pub "msg2.ekPub"
  let o1 = o + x25519_pub
  guard (leb (o1 + 2) (length b)) (truncated "msg2.pqCt")
  let ct_len = read_u16 b o1
  let o2 = o1 + 2
  guard (ct_len == mlkem768_ct) (bad_length "msg2.pqCt" mlkem768_ct ct_len)
  pq_ct ← slice b o2 ct_len "msg2.pqCt"
  let o3 = o2 + ct_len
  guard (leb (o3 + ts_len) (length b)) (truncated "msg2.ts")
  ts ← read_u64be b o3
  let o4 = o3 + ts_len
  mac_r ← slice b o4 mac_len "msg2.macR"
  let o5 = o4 + mac_len
  exact b o5 "msg2"
  ok (record { ek_pub = ek_pub; pq_ct = pq_ct; ts = ts; mac_r = mac_r })

unfoldable pub encode_msg3 : Msg3 → Wire Bytes
encode_msg3 m = do
  _ ← fixed "msg3.macI" m.mac_i mac_len
  ok (concat ((t_msg3 ∷ eh2_version ∷ []) ∷ m.mac_i ∷ []))

unfoldable pub decode_msg3 : Bytes → Wire Msg3
decode_msg3 b = do
  o ← header b t_msg3 "msg3"
  mac_i ← slice b o mac_len "msg3.macI"
  let o1 = o + mac_len
  exact b o1 "msg3"
  ok (record { mac_i = mac_i })

-- The transcript hashes, over the `sha256` of WebCrypto.
module _ (sha256 : Bytes → Bytes) where
  unfoldable pub h1 : Bytes → Bytes
  h1 msg1_bytes = sha256 msg1_bytes

  unfoldable pub h2_partial : Bytes → Bytes → Bytes → ℕ → Wire Bytes
  h2_partial msg1_bytes ek_r_pub pq_ct ts_r = do
    _ ← fixed "h2_partial.ekRPub" ek_r_pub x25519_pub
    _ ← fixed "h2_partial.pqCt" pq_ct mlkem768_ct
    ts ← u64be ts_r
    ok (sha256 (concat (msg1_bytes ∷ ek_r_pub ∷ pq_ct ∷ ts ∷ [])))

  unfoldable pub h3 : Bytes → Bytes → Wire Bytes
  h3 h2partial mac_r = do
    _ ← fixed "h3.h2partial" h2partial 32
    _ ← fixed "h3.macR" mac_r mac_len
    ok (sha256 (concat (h2partial ∷ mac_r ∷ [])))
