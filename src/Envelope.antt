-- ===== src/Envelope.antt =====
-- impl/lib/fileenvelope.ts: the prefix of an uploaded file.
mod Tests
use encedo_chat.Prelude.{
  ltb, ◌==◌, if◌then◌else◌, ltb-eq-false_of_le, length, drop, get_or, Bytes, Result, ℕ, ◌≡◌, refl,
  Bool, true, false, not, ◌&&◌, [], ◌∷◌, ◌++◌, arith, ok, err,
}

abbrev pub magic : Bytes
magic = 0x45 ∷ 0x43 ∷ 0x46 ∷ 0x31 ∷ []

abbrev pub envelope_version : ℕ
envelope_version = 1

abbrev pub header_len : ℕ
header_len = 8

unfoldable pub wrap_blob : Bytes → Bytes
wrap_blob cipher = magic ++ envelope_version ∷ 0 ∷ 0 ∷ 0 ∷ cipher

-- Whether the bytes start with the prefix, byte by byte.
unfoldable pub starts_with : Bytes → Bytes → Bool
starts_with [] bytes = true
starts_with (m ∷ ms) [] = false
starts_with (m ∷ ms) (b ∷ bytes) = let rest = starts_with ms bytes in (m == b) && rest

unfoldable pub has_envelope : Bytes → Bool
has_envelope bytes = if ltb (length bytes) header_len then false else starts_with magic bytes

-- `unwrapBlob`; `err` carries the version that this build does not read.
unfoldable pub unwrap_blob : Bytes → Result ℕ Bytes
unwrap_blob bytes =
    if not (has_envelope bytes)
    then ok bytes
    else if not (get_or bytes 4 0 == envelope_version)
    then err (get_or bytes 4 0)
    else ok (drop header_len bytes)

-- A wrapped file is unwrapped to itself, and bytes that have no envelope are passed through.
pub unwrap_blob-wrap_blob :
    (cipher plain : Bytes)
    → has_envelope plain ≡ false
    → (unwrap_blob (wrap_blob cipher) ≡ ok cipher) × (unwrap_blob plain ≡ ok plain)
unfolding unwrap_blob wrap_blob has_envelope starts_with drop get_or
unwrap_blob-wrap_blob cipher plain bare =
    let long : ltb (length (wrap_blob cipher)) header_len ≡ false =
      ltb-eq-false_of_le (length (wrap_blob cipher)) header_len (omega arith) in
    let has : has_envelope (wrap_blob cipher) ≡ true = rw long refl in (rw has refl, rw bare refl)
