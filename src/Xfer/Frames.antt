-- ===== src/Xfer/Frames.antt =====
-- What the encoders of impl/lib/xfer.ts write, as its readers see it.
use encedo_chat.Prelude.{
  length, drop, get_or, length-append, take_ahead, drop_ahead, Bytes, be, read_be, length-be,
  read_be-be, ℕ, ◌+◌, ◌^◌, ◌≤◌, ◌<◌, ◌≡◌, refl, ap, ◌∙◌, true, ◌++◌, arith,
}
use encedo_chat.Xfer.{frame, u32, read_u32, is_xfer, encode_chunk, t_chunk}

module _ (b rest : Bytes) (o n : ℕ) (ahead : drop o b ≡ be 4 n ++ rest) (fits : n < 2 ^ 32) where
  pub read_u32_ahead : read_u32 b o ≡ n
  unfolding read_u32
  read_u32_ahead =
      ap read_be (take_ahead b (be 4 n) rest o 4 ahead (length-be 4 n))
      ∙ read_be-be 4 n (omega arith)

  pub past_u32 : drop (o + 4) b ≡ rest
  past_u32 = drop_ahead b (be 4 n) rest o 4 ahead (length-be 4 n)

module _ (sub id : ℕ) (rest : Bytes) where
  pub length-frame : length (frame sub id rest) ≡ 6 + length rest
  unfolding frame
  length-frame = omega (arith, length-append (be 4 id) rest, length-be 4 id)

  pub is_xfer-frame : 1 ≤ sub → sub ≤ 7 → is_xfer (frame sub id rest) ≡ true
  is_xfer-frame lo hi =
      let len = length-frame in
      unfold is_xfer in
      (let tag : get_or (frame sub id rest) 1 0 ≡ sub = unfold frame get_or in refl in
        let first : get_or (frame sub id rest) 0 0 ≡ 0 = unfold frame get_or in refl in
        rw (tag, first) (ground (arith, len)))

  pub read_id-frame : id < 2 ^ 32 → read_u32 (frame sub id rest) 2 ≡ id
  read_id-frame fits =
      read_u32_ahead (frame sub id rest) rest 2 id (unfold frame u32 drop in refl) fits

  pub subtype-frame : get_or (frame sub id rest) 1 0 ≡ sub
  unfolding frame get_or
  subtype-frame = refl

  pub payload-frame : drop 6 (frame sub id rest) ≡ rest
  payload-frame =
      drop_ahead (frame sub id rest) (be 4 id) rest 2 4 (unfold frame u32 drop in refl)
        (length-be 4 id)

-- A chunk frame is a frame whose payload is the index and the body.
pub encode_chunk-eq-frame :
    (id index : ℕ) (body : Bytes)
    → encode_chunk id index body ≡ frame t_chunk id (u32 index ++ body)
unfolding encode_chunk frame
encode_chunk-eq-frame id index body = refl

pub length-encode_chunk :
    (id index : ℕ) (body : Bytes) → length (encode_chunk id index body) ≡ 10 + length body
length-encode_chunk id index body = rw encode_chunk-eq-frame (
    unfold u32 in
    (omega (
      arith,
      length-frame t_chunk id (be 4 index ++ body),
      length-append (be 4 index) body,
      length-be 4 index,
    )))

-- What a receiver reads out of a chunk frame: the transfer's id, the index, and the body.
pub read_chunk :
    (id index : ℕ) (body : Bytes)
    → id < 2 ^ 32
    → index < 2 ^ 32
    → (is_xfer (encode_chunk id index body) ≡ true)
      × (read_u32 (encode_chunk id index body) 2 ≡ id)
      × (get_or (encode_chunk id index body) 1 0 ≡ t_chunk)
      × (read_u32 (encode_chunk id index body) 6 ≡ index)
      × (drop 10 (encode_chunk id index body) ≡ body)
read_chunk id index body hid hindex =
    let payload : drop 6 (frame t_chunk id (u32 index ++ body)) ≡ be 4 index ++ body =
      unfold u32 in payload-frame t_chunk id (u32 index ++ body) in
    let at_ : Bytes = frame t_chunk id (u32 index ++ body) in
    rw encode_chunk-eq-frame (
      is_xfer-frame t_chunk id (u32 index ++ body) (omega arith) (omega arith),
      read_id-frame t_chunk id (u32 index ++ body) hid,
      subtype-frame t_chunk id (u32 index ++ body),
      read_u32_ahead at_ body 6 index payload hindex,
      past_u32 at_ body 6 index payload hindex,
    )
