-- ===== src/Crypto.antt =====
-- What the program takes from WebCrypto and from its ML-KEM library, as a parameter of the modules
-- that use it, with the documented laws that a theorem may ask for.
use encedo_chat.Prelude.{length, Bytes, ℕ, ◌+◌, ◌≡◌, Option, some}

-- An X25519 key: its public half, and the private half that `dh` computes with.
pub record Dh : Type 0 where
  pub pub_ : Bytes
  pub priv : Bytes

-- An ML-KEM key pair.
pub record KemKey : Type 0 where
  pub pub_ : Bytes
  pub priv : Bytes

pub record Crypto : Type 0 where
  -- HKDF-SHA256: ikm, salt, info, length
  pub hkdf_bits : Bytes → Bytes → Bytes → ℕ → Bytes
  pub sha256 : Bytes → Bytes
  -- HMAC-SHA256: key, data
  pub hmac : Bytes → Bytes → Bytes
  -- raw X25519: private key, public key
  pub x25519 : Bytes → Bytes → Bytes
  -- AES-256-GCM: key, nonce, associated data, text
  pub seal : Bytes → Bytes → Bytes → Bytes → Bytes
  pub unseal : Bytes → Bytes → Bytes → Bytes → Option Bytes
  -- ML-KEM: public key and randomness to ciphertext and secret; private key and ciphertext to secret
  pub encapsulate : Bytes → Bytes → Bytes × Bytes
  pub decapsulate : Bytes → Bytes → Option Bytes

-- The lengths that SHA-256 and HMAC-SHA256 have.
pub record IsHash (c : Crypto) : Type 0 where
  pub sha256_size : (x : Bytes) → length (c.sha256 x) ≡ 32
  pub hmac_size : (k x : Bytes) → length (c.hmac k x) ≡ 32

-- Two keys compute one secret, each with the other's public half.
abbrev pub Agree : Crypto → Dh → Dh → Type 0
Agree c a b = c.x25519 a.priv b.pub_ ≡ c.x25519 b.priv a.pub_

-- What is sealed opens, under the same key, nonce and associated data, and carries a 16-byte tag.
pub record IsAead (c : Crypto) : Type 0 where
  pub opens : (k n a t : Bytes) → c.unseal k n a (c.seal k n a t) ≡ some t
  pub tag : (k n a t : Bytes) → length (c.seal k n a t) ≡ length t + 16
