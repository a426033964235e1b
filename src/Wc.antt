-- ===== src/Wc.antt =====
-- impl/lib/wc.ts: the byte helpers over WebCrypto.
use encedo_chat.Prelude.{Bytes, be, ℕ, String, ◌≡◌, ap, List, [], ◌∷◌, ◌++◌}
use Prim.Native.Char.{code}
use encedo_chat.Crypto.{Crypto}
use mathlib.Core.List.{append-nil, append_assoc}

-- The bytes of an ASCII label.
abbrev pub codes : String → Bytes
codes String.[] = []
codes (String.◌∷◌ c s) = code c ∷ codes s

-- `kdf`: the label is HKDF's info, the context its salt.
unfoldable pub kdf : Crypto → Bytes → Bytes → Bytes → ℕ → Bytes
kdf c label ikm ctx len = c.hkdf_bits ikm ctx label len

unfoldable pub aead_nonce : Crypto → Bytes → ℕ → Bytes
unfolding kdf
aead_nonce c mk n = kdf c (codes "encedo-aead-nonce") mk (be 4 n) 12

-- `concat`
unfoldable pub concat : List Bytes → Bytes
concat [] = []
concat (p ∷ parts) = p ++ concat parts

pub concat-append : (ps : List Bytes) (p : Bytes) → concat (ps ++ p ∷ []) ≡ concat ps ++ p
unfolding concat
concat-append [] p = append-nil p
concat-append (q ∷ ps) p = rw append_assoc (ap (λ t. q ++ t) (concat-append ps p))
