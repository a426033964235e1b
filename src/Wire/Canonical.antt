-- ===== src/Wire/Canonical.antt =====
-- The encoding is canonical: a byte string that decodes is the encoding of what it decodes to, so
-- two different strings never stand for one frame, and the transcript hashes of both sides agree.
use encedo_chat.Prelude.{
  leb, ◌==◌, ==_iff, length, drop, Bytes, IsBytes, be, >>=-elim, guard-elim, >>-elim, ok-injective,
  ℕ, ◌+◌, String, ◌≡◌, sym, ap, ◌∙◌, true, [], ◌∷◌, ◌++◌, ok,
}
use encedo_chat.Wire.{
  Msg2, Msg3, encode_msg1, encode_msg2, encode_msg3, decode_msg1, decode_msg2, decode_msg3, slice,
  header, read_u64be,
}
use encedo_chat.Wire.RoundTrip.{
  IsMsg1, IsMsg2, IsMsg3, msg1_bytes, msg2_bytes, encode_msg1_lem, encode_msg2_lem, encode_msg3_lem,
}
use encedo_chat.Wire.Cursor.{header_behind, slice_behind, read_u64be_behind}
use encedo_chat.Wire.{
  Msg1, Msg2, Msg3, header, slice, exact, read_u16, read_u64be, encode_msg1, decode_msg1,
  encode_msg2, decode_msg2, encode_msg3, decode_msg3,
}
use encedo_chat.Wire.Cursor.{
  slice_behind, number_behind, read_u64be_behind, header_behind, exact_behind,
}
use encedo_chat.Wire.RoundTrip.{
  IsMsg1, IsMsg2, IsMsg3, msg1_bytes, msg2_bytes, encode_msg1_lem, encode_msg2_lem, encode_msg3_lem,
}

-- The body of msg1 and msg2 once its fields have been read.
pub body_behind :
    (b ek pq mac : Bytes) (n ts : ℕ) (name : String)
    → IsBytes b
    → drop 2 b ≡ ek ++ drop 34 b
    → leb 36 (length b) ≡ true
    → read_u16 b 34 ≡ n
    → drop 36 b ≡ pq ++ drop (36 + n) b
    → drop (36 + n) b ≡ be 8 ts ++ drop (36 + n + 8) b
    → drop (36 + n + 8) b ≡ mac ++ drop (36 + n + 8 + 32) b
    → exact b (36 + n + 8 + 32) name ≡ ok tt
    → drop 2 b ≡ ek ++ (be 2 n ++ (pq ++ (be 8 ts ++ (mac ++ []))))
unfolding read_u16
body_behind b ek pq mac n ts name bytes at_ek room len at_pq at_ts at_mac end =
    let at_len : drop 34 b ≡ be 2 n ++ drop 36 b = rw len at (number_behind 2 b 34 bytes room) in
    at_ek
    ∙ ap (λ t. ek ++ t)
        (at_len
          ∙ ap (λ t. be 2 n ++ t)
              (at_pq
                ∙ ap (λ t. pq ++ t)
                    (at_ts
                      ∙ ap (λ t. be 8 ts ++ t)
                          (at_mac
                            ∙ ap (λ t. mac ++ t) (exact_behind b (36 + n + 8 + 32) name end)))))

decode_msg1_behind :
    (b : Bytes) (m : Msg1) → IsBytes b → decode_msg1 b ≡ ok m → IsMsg1 m × (b ≡ msg1_bytes m)
unfolding decode_msg1
decode_msg1_behind b m bytes h = >>=-elim (header b 1 "msg1") _ h λ o is_header h0.
    let (two, front) = header_behind b 1 o "msg1" is_header in
    >>=-elim (slice b 2 32 "msg1.ekPub") _ (rw two at h0) λ ek got_ek h1.
      guard-elim (leb 36 (length b)) _ _ h1 λ room h2.
        guard-elim (read_u16 b 34 == 1184) _ _ h2 λ counted h3.
          let len : read_u16 b 34 ≡ 1184 = (==_iff (read_u16 b 34) 1184).0 counted in
          >>=-elim (slice b 36 1184 "msg1.pqPub") _ (rw len at h3) λ pq got_pq h4.
            guard-elim (leb 1228 (length b)) _ _ h4 λ room_ts h5.
              >>=-elim (read_u64be b 1220) _ h5 λ ts got_ts h6.
                >>=-elim (slice b 1228 32 "msg1.initiatorTag") _ h6 λ mac got_mac h7.
                  >>-elim (exact b 1260 "msg1") _ h7 λ end h8.
                    let (ek_len, at_ek) = slice_behind b 2 32 "msg1.ekPub" ek got_ek in
                    let (pq_len, at_pq) = slice_behind b 36 1184 "msg1.pqPub" pq got_pq in
                    let (mac_len, at_mac) =
                      slice_behind b 1228 32 "msg1.initiatorTag" mac got_mac in
                    let (ts_fits, at_ts) = read_u64be_behind b 1220 ts bytes room_ts got_ts in
                    let body =
                      body_behind b ek pq mac 1184 ts "msg1" bytes at_ek room len at_pq at_ts at_mac
                        end in
                    let read : Msg1 = record {
                      ek_pub = ek;
                      pq_pub = pq;
                      ts = ts;
                      initiator_tag = mac;
                    } in
                    let same : read ≡ m = ok-injective h8 in
                    let valid : IsMsg1 read = record {
                      ek_pub = ek_len;
                      pq_pub = pq_len;
                      initiator_tag = mac_len;
                      ts = ts_fits;
                    } in
                    rw (← same) (valid, front ∙ ap (λ t. 1 ∷ 3 ∷ t) body)

decode_msg2_behind :
    (b : Bytes) (m : Msg2) → IsBytes b → decode_msg2 b ≡ ok m → IsMsg2 m × (b ≡ msg2_bytes m)
unfolding decode_msg2
decode_msg2_behind b m bytes h = >>=-elim (header b 2 "msg2") _ h λ o is_header h0.
    let (two, front) = header_behind b 2 o "msg2" is_header in
    >>=-elim (slice b 2 32 "msg2.ekPub") _ (rw two at h0) λ ek got_ek h1.
      guard-elim (leb 36 (length b)) _ _ h1 λ room h2.
        guard-elim (read_u16 b 34 == 1088) _ _ h2 λ counted h3.
          let len : read_u16 b 34 ≡ 1088 = (==_iff (read_u16 b 34) 1088).0 counted in
          >>=-elim (slice b 36 1088 "msg2.pqCt") _ (rw len at h3) λ pq got_pq h4.
            guard-elim (leb 1132 (length b)) _ _ h4 λ room_ts h5.
              >>=-elim (read_u64be b 1124) _ h5 λ ts got_ts h6.
                >>=-elim (slice b 1132 32 "msg2.macR") _ h6 λ mac got_mac h7.
                  >>-elim (exact b 1164 "msg2") _ h7 λ end h8.
                    let (ek_len, at_ek) = slice_behind b 2 32 "msg2.ekPub" ek got_ek in
                    let (pq_len, at_pq) = slice_behind b 36 1088 "msg2.pqCt" pq got_pq in
                    let (mac_len, at_mac) = slice_behind b 1132 32 "msg2.macR" mac got_mac in
                    let (ts_fits, at_ts) = read_u64be_behind b 1124 ts bytes room_ts got_ts in
                    let body =
                      body_behind b ek pq mac 1088 ts "msg2" bytes at_ek room len at_pq at_ts at_mac
                        end in
                    let read : Msg2 = record { ek_pub = ek; pq_ct = pq; ts = ts; mac_r = mac } in
                    let same : read ≡ m = ok-injective h8 in
                    let valid : IsMsg2 read = record {
                      ek_pub = ek_len;
                      pq_ct = pq_len;
                      mac_r = mac_len;
                      ts = ts_fits;
                    } in
                    rw (← same) (valid, front ∙ ap (λ t. 2 ∷ 3 ∷ t) body)

pub decode_msg3_behind :
    (b : Bytes) (m : Msg3) → decode_msg3 b ≡ ok m → IsMsg3 m × (b ≡ 3 ∷ 3 ∷ m.mac_i ++ [])
unfolding decode_msg3
decode_msg3_behind b m h = >>=-elim (header b 3 "msg3") _ h λ o is_header h0.
    let (two, front) = header_behind b 3 o "msg3" is_header in
    >>=-elim (slice b 2 32 "msg3.macI") _ (rw two at h0) λ mac got_mac h1.
      >>-elim (exact b 34 "msg3") _ h1 λ end h2.
        let (mac_len, at_mac) = slice_behind b 2 32 "msg3.macI" mac got_mac in
        let read : Msg3 = record { mac_i = mac } in
        let same : read ≡ m = ok-injective h2 in
        let valid : IsMsg3 read = record { mac_i = mac_len } in
        rw (← same) (
          valid,
          front ∙ ap (λ t. 3 ∷ 3 ∷ t) (at_mac ∙ ap (λ t. mac ++ t) (exact_behind b 34 "msg3" end)),
        )

-- A byte string that decodes as msg1 is the encoding of the frame it decodes to.
pub encode-decode_msg1 :
    (b : Bytes) (m : Msg1) → IsBytes b → decode_msg1 b ≡ ok m → encode_msg1 m ≡ ok b
encode-decode_msg1 b m bytes h =
    let (v, e) = decode_msg1_behind b m bytes h in encode_msg1_lem m v ∙ ap ok (sym e)

-- A byte string that decodes as msg2 is the encoding of the frame it decodes to.
pub encode-decode_msg2 :
    (b : Bytes) (m : Msg2) → IsBytes b → decode_msg2 b ≡ ok m → encode_msg2 m ≡ ok b
encode-decode_msg2 b m bytes h =
    let (v, e) = decode_msg2_behind b m bytes h in encode_msg2_lem m v ∙ ap ok (sym e)

-- A byte string that decodes as msg3 is the encoding of the frame it decodes to.
pub encode-decode_msg3 : (b : Bytes) (m : Msg3) → decode_msg3 b ≡ ok m → encode_msg3 m ≡ ok b
encode-decode_msg3 b m h =
    let (v, e) = decode_msg3_behind b m h in encode_msg3_lem m v ∙ ap ok (sym e)
