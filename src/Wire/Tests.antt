-- ===== src/Wire/Tests.antt =====
-- Runs of the handshake codec, and the theorems at concrete frames.
use encedo_chat.Prelude.{
  take, drop, get_or, replicate, length-replicate, All-append, All-replicate, IsByte, IsBytes, be,
  be-IsBytes, ◌>>=◌, ℕ, ◌<◌, ◌≡◌, refl, [], ◌∷◌, ◌++◌, arith, ok, err,
}
use encedo_chat.Wire.{
  Msg1, Msg2, Msg3, WireError, truncated, wrong_type, unsupported_version, trailing, encode_msg1,
  decode_msg1, encode_msg2, decode_msg2, encode_msg3, decode_msg3,
}
use encedo_chat.Wire.RoundTrip.{
  IsMsg1, IsMsg2, IsMsg3, msg1_bytes, decode-encode, decode_msg1_bytes,
}
use encedo_chat.Wire.Canonical.{encode-decode_msg1}

abbrev one : Msg1
one = record {
  ek_pub = replicate 32 5;
  pq_pub = replicate 1184 6;
  ts = 1_700_000_000_000;
  initiator_tag = replicate 32 7;
}

abbrev two : Msg2
two = record {
  ek_pub = replicate 32 5;
  pq_ct = replicate 1088 6;
  ts = 1_700_000_000_001;
  mac_r = replicate 32 7;
}

abbrev three : Msg3
three = record { mac_i = replicate 32 200 }

one-IsMsg1 : IsMsg1 one
one-IsMsg1 = record {
  ek_pub = length-replicate 32 5;
  pq_pub = length-replicate 1184 6;
  initiator_tag = length-replicate 32 7;
  ts = omega arith;
}

two-IsMsg2 : IsMsg2 two
two-IsMsg2 = record {
  ek_pub = length-replicate 32 5;
  pq_ct = length-replicate 1088 6;
  mac_r = length-replicate 32 7;
  ts = omega arith;
}

three-IsMsg3 : IsMsg3 three
three-IsMsg3 = record { mac_i = length-replicate 32 200 }

body-IsBytes :
    (ek n pq ts mac m : ℕ)
    → ek < 256
    → pq < 256
    → mac < 256
    → IsBytes
        (replicate 32 ek ++ (be 2 n ++ (replicate m pq ++ (be 8 ts ++ (replicate 32 mac ++ [])))))
body-IsBytes ek n pq ts mac m a b c =
    All-append IsByte (replicate 32 ek) _ (All-replicate IsByte 32 a) (
      All-append IsByte (be 2 n) _ (be-IsBytes 2 n) (
        All-append IsByte (replicate m pq) _ (All-replicate IsByte m b) (
          All-append IsByte (be 8 ts) _ (be-IsBytes 8 ts)
            (All-append IsByte (replicate 32 mac) [] (All-replicate IsByte 32 c) tt))))

decode-encode_example :
    ((encode_msg1 one >>= decode_msg1) ≡ ok one)
    × ((encode_msg2 two >>= decode_msg2) ≡ ok two)
    × ((encode_msg3 three >>= decode_msg3) ≡ ok three)
decode-encode_example = decode-encode one two three one-IsMsg1 two-IsMsg2 three-IsMsg3

encode-decode_msg1_example : encode_msg1 one ≡ ok (msg1_bytes one)
encode-decode_msg1_example =
    encode-decode_msg1 (msg1_bytes one) one
      (
        omega arith,
        (
          omega arith,
          body-IsBytes 5 1184 6 1_700_000_000_000 7 1184 (omega arith) (omega arith) (omega arith),
        ),
      )
      (decode_msg1_bytes one one-IsMsg1)

-- A frame cut short, of another type, of another version, and with a byte too many.
refused :
    (decode_msg3 (3 ∷ 3 ∷ 9 ∷ []) ≡ err (truncated "msg3.macI"))
    × (decode_msg3 (1 ∷ 3 ∷ []) ≡ err (wrong_type "msg3" 1))
    × (decode_msg3 (3 ∷ 2 ∷ []) ≡ err (unsupported_version "msg3" 2))
    × (decode_msg3 (3 ∷ 3 ∷ replicate 33 0) ≡ err (trailing "msg3" 1))
unfolding decode_msg3 encedo_chat.Wire.header encedo_chat.Wire.slice encedo_chat.Wire.exact
    replicate get_or take drop
refused = (refl, refl, refl, refl)
