-- ===== src/Wire/RoundTrip.antt =====
-- Decoding what was encoded, for the three handshake frames.
use encedo_chat.Wc.{concat}
use encedo_chat.Prelude.{
  leb, leb→le, length, drop, get_or, length-append, length-drop, drop_ahead, Bytes, be, length-be,
  ◌>>=◌, ℕ, ◌+◌, ◌^◌, ◌≤◌, ◌<◌, String, ◌≡◌, refl, sym, ap, true, [], ◌∷◌, ◌++◌, arith, ok,
}
use encedo_chat.Wire.{Msg3, encode_msg3, decode_msg3}
use encedo_chat.Wire.{
  Msg1, Msg2, fixed, header, slice, read_u16, read_u64be, exact, u16be, u64be, concat,
  max_safe_integer, encode_msg1, decode_msg1, encode_msg2, decode_msg2,
}
use encedo_chat.Wire.Cursor.{room_ahead, slice_ahead, read_u16_ahead, read_u64be_ahead, exact_end}

-- The fields of a frame that the encoder accepts.
pub record IsMsg1 (m : Msg1) : Type 0 where
  pub ek_pub : length m.ek_pub ≡ 32
  pub pq_pub : length m.pq_pub ≡ 1184
  pub initiator_tag : length m.initiator_tag ≡ 32
  pub ts : m.ts ≤ max_safe_integer

fixed_ok : (name : String) (v : Bytes) (len : ℕ) → length v ≡ len → fixed name v len ≡ ok v
unfolding fixed
fixed_ok name v len h = ground arith

u64be_ok : (n : ℕ) → n ≤ max_safe_integer → u64be n ≡ ok (be 8 n)
unfolding u64be
u64be_ok n h = ground arith

u16be_ok : (n : ℕ) → n ≤ 0xffff → u16be n ≡ ok (be 2 n)
unfolding u16be
u16be_ok n h = ground arith

abbrev pub msg1_bytes : Msg1 → Bytes
msg1_bytes m =
    1 ∷ 3 ∷ m.ek_pub ++ (be 2 1184 ++ (m.pq_pub ++ (be 8 m.ts ++ (m.initiator_tag ++ []))))

pub encode_msg1_lem : (m : Msg1) → IsMsg1 m → encode_msg1 m ≡ ok (msg1_bytes m)
unfolding encode_msg1 concat
encode_msg1_lem m v = rw (
  fixed_ok "msg1.ekPub" m.ek_pub 32 v.ek_pub,
  fixed_ok "msg1.pqPub" m.pq_pub 1184 v.pq_pub,
  fixed_ok "msg1.initiatorTag" m.initiator_tag 32 v.initiator_tag,
  v.pq_pub,
  u16be_ok 1184 (omega arith),
  u64be_ok m.ts v.ts,
)

pub record IsMsg2 (m : Msg2) : Type 0 where
  pub ek_pub : length m.ek_pub ≡ 32
  pub pq_ct : length m.pq_ct ≡ 1088
  pub mac_r : length m.mac_r ≡ 32
  pub ts : m.ts ≤ max_safe_integer

abbrev pub msg2_bytes : Msg2 → Bytes
msg2_bytes m = 2 ∷ 3 ∷ m.ek_pub ++ (be 2 1088 ++ (m.pq_ct ++ (be 8 m.ts ++ (m.mac_r ++ []))))

pub encode_msg2_lem : (m : Msg2) → IsMsg2 m → encode_msg2 m ≡ ok (msg2_bytes m)
unfolding encode_msg2 concat
encode_msg2_lem m v = rw (
  fixed_ok "msg2.ekPub" m.ek_pub 32 v.ek_pub,
  fixed_ok "msg2.pqCt" m.pq_ct 1088 v.pq_ct,
  fixed_ok "msg2.macR" m.mac_r 32 v.mac_r,
  v.pq_ct,
  u16be_ok 1088 (omega arith),
  u64be_ok m.ts v.ts,
)

header_ok : (w : ℕ) (rest : Bytes) (name : String) → header (w ∷ 3 ∷ rest) w name ≡ ok 2
unfolding header get_or
header_ok w rest name = ground arith

-- The common body of msg1 and msg2 as a decoder meets it: a key, a counted key or ciphertext of
-- `n` bytes, a timestamp, a tag, and the end.
record Reads (b ek pq mac : Bytes) (n ts : ℕ) : Type 0 where
  ek_pub : (name : String) → slice b 2 32 name ≡ ok ek
  length_room : leb 36 (length b) ≡ true
  pq_length : read_u16 b 34 ≡ n
  counted : (name : String) → slice b 36 n name ≡ ok pq
  ts_room : leb (36 + n + 8) (length b) ≡ true
  timestamp : read_u64be b (36 + n) ≡ ok ts
  tag : (name : String) → slice b (36 + n + 8) 32 name ≡ ok mac
  end : (name : String) → exact b (36 + n + 8 + 32) name ≡ ok tt

reads :
    (b ek pq mac : Bytes) (n ts : ℕ)
    → 0 < n
    → n < 2 ^ 16
    → ts ≤ max_safe_integer
    → length ek ≡ 32
    → length pq ≡ n
    → length mac ≡ 32
    → drop 2 b ≡ ek ++ (be 2 n ++ (pq ++ (be 8 ts ++ (mac ++ []))))
    → Reads b ek pq mac n ts
reads b ek pq mac n ts long short ts_fits ek_len pq_len mac_len body =
    let l_ts = length-be 8 ts in
    let l_n = length-be 2 n in
    let at_length = drop_ahead b ek _ 2 32 body ek_len in
    let at_pq = drop_ahead b (be 2 n) _ 34 2 at_length l_n in
    let at_ts = drop_ahead b pq _ 36 n at_pq pq_len in
    let at_mac = drop_ahead b (be 8 ts) _ (36 + n) 8 at_ts l_ts in
    let at_end = drop_ahead b mac [] (36 + n + 8) 32 at_mac mac_len in
    let last = room_ahead b mac [] (36 + n + 8) 32 at_mac mac_len (omega arith) in
    record {
      ek_pub = λ name. slice_ahead b ek _ 2 32 body ek_len name (omega arith);
      length_room = room_ahead b (be 2 n) _ 34 2 at_length l_n (omega arith);
      pq_length = read_u16_ahead b _ 34 n at_length short;
      counted = λ name. slice_ahead b pq _ 36 n at_pq pq_len name long;
      ts_room = room_ahead b (be 8 ts) _ (36 + n) 8 at_ts l_ts (omega arith);
      timestamp = read_u64be_ahead b _ (36 + n) ts at_ts ts_fits;
      tag = λ name. slice_ahead b mac [] (36 + n + 8) 32 at_mac mac_len name (omega arith);
      end = λ name.
          exact_end b (36 + n + 8 + 32) name
            (omega (arith, leb→le _ _ last, length-drop (36 + n + 8 + 32) b, ap length at_end));
    }

pub decode_msg1_bytes : (m : Msg1) → IsMsg1 m → decode_msg1 (msg1_bytes m) ≡ ok m
unfolding decode_msg1
decode_msg1_bytes m v =
    let r : Reads (msg1_bytes m) m.ek_pub m.pq_pub m.initiator_tag 1184 m.ts =
      reads (msg1_bytes m) m.ek_pub m.pq_pub m.initiator_tag 1184 m.ts (omega arith) (omega arith)
        v.ts v.ek_pub v.pq_pub v.initiator_tag (unfold drop in refl) in
    rw (
      header_ok 1,
      r.ek_pub "msg1.ekPub",
      r.length_room,
      r.pq_length,
      r.counted "msg1.pqPub",
      r.ts_room,
      r.timestamp,
      r.tag "msg1.initiatorTag",
      r.end "msg1",
    )

pub decode_msg2_bytes : (m : Msg2) → IsMsg2 m → decode_msg2 (msg2_bytes m) ≡ ok m
unfolding decode_msg2
decode_msg2_bytes m v =
    let r : Reads (msg2_bytes m) m.ek_pub m.pq_ct m.mac_r 1088 m.ts =
      reads (msg2_bytes m) m.ek_pub m.pq_ct m.mac_r 1088 m.ts (omega arith) (omega arith) v.ts
        v.ek_pub v.pq_ct v.mac_r (unfold drop in refl) in
    rw (
      header_ok 2,
      r.ek_pub "msg2.ekPub",
      r.length_room,
      r.pq_length,
      r.counted "msg2.pqCt",
      r.ts_room,
      r.timestamp,
      r.tag "msg2.macR",
      r.end "msg2",
    )

pub record IsMsg3 (m : Msg3) : Type 0 where
  pub mac_i : length m.mac_i ≡ 32

pub encode_msg3_lem : (m : Msg3) → IsMsg3 m → encode_msg3 m ≡ ok (3 ∷ 3 ∷ m.mac_i ++ [])
unfolding encode_msg3 concat
encode_msg3_lem m v = rw (fixed_ok "msg3.macI" m.mac_i 32 v.mac_i)

pub decode_msg3_bytes : (m : Msg3) → IsMsg3 m → decode_msg3 (3 ∷ 3 ∷ m.mac_i ++ []) ≡ ok m
unfolding decode_msg3
decode_msg3_bytes m v =
    let b : Bytes = 3 ∷ 3 ∷ m.mac_i ++ [] in
    let body : drop 2 b ≡ m.mac_i ++ [] = unfold drop in refl in
    let size : length b ≡ 34 = omega (arith, length-append m.mac_i [], v.mac_i) in
    rw (
      header_ok 3,
      slice_ahead b m.mac_i [] 2 32 body v.mac_i "msg3.macI" (omega arith),
      exact_end b 34 "msg3" (sym size),
    )

-- Each of the three handshake frames, its fields of the fixed sizes and its timestamp a safe
-- integer, is encoded, and decoding the bytes gives the frame back.
pub decode-encode :
    (m1 : Msg1) (m2 : Msg2) (m3 : Msg3)
    → IsMsg1 m1
    → IsMsg2 m2
    → IsMsg3 m3
    → ((encode_msg1 m1 >>= decode_msg1) ≡ ok m1)
      × ((encode_msg2 m2 >>= decode_msg2) ≡ ok m2)
      × ((encode_msg3 m3 >>= decode_msg3) ≡ ok m3)
decode-encode m1 m2 m3 v1 v2 v3 = (
  rw (encode_msg1_lem m1 v1) (decode_msg1_bytes m1 v1),
  rw (encode_msg2_lem m2 v2) (decode_msg2_bytes m2 v2),
  rw (encode_msg3_lem m3 v3) (decode_msg3_bytes m3 v3),
)
