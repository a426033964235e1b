-- ===== src/Toy.antt =====
-- A toy of the cryptography and two parties over it, for the tests: it meets the documented laws and
-- protects nothing.
use encedo_chat.Prelude.{
  length, take, get_or, replicate, length-append, take-length, length-replicate, Bytes, ℕ, ◌+◌, ◌-◌,
  ◌≡◌, refl, Option, some, [], ◌∷◌, ◌++◌, arith,
}
use encedo_chat.Crypto.{Crypto, Dh, KemKey, IsAead, IsHash}
use encedo_chat.Handshake.Honest.{Parties, IsHonest}

unfoldable pub toy_seal : Bytes → Bytes → Bytes → Bytes → Bytes
toy_seal k n a t = t ++ replicate 16 (get_or k 0 0)

unfoldable pub toy_unseal : Bytes → Bytes → Bytes → Bytes → Option Bytes
toy_unseal k n a s = some (take (length s - 16) s)

-- The secret of two keys is the sum of their first bytes; a hash shows the first byte of its key and
-- the last byte of its data.
abbrev pub toy : Crypto
toy = record {
  hkdf_bits = λ ikm salt info len. replicate len (get_or ikm 0 0);
  sha256 = λ x. replicate 32 (length x);
  hmac = λ k x. replicate 32 (get_or k 0 0 + get_or x 0 0);
  x25519 = λ priv pub_. replicate 32 (get_or priv 0 0 + get_or pub_ 0 0);
  seal = toy_seal;
  unseal = toy_unseal;
  encapsulate = λ pub_ random. (replicate 1088 (get_or random 0 0), random);
  decapsulate = λ priv ct. some (take 1 ct);
}

pub toy-IsHash : IsHash toy
toy-IsHash = record {
  sha256_size = λ x. length-replicate 32 (length x);
  hmac_size = λ k x. length-replicate 32 (get_or k 0 0 + get_or x 0 0);
}

pub toy-IsAead : IsAead toy
unfolding toy_seal toy_unseal
toy-IsAead = record {
  opens = λ k n a t.
      let tag = replicate 16 (get_or k 0 0) in
      let size : length (t ++ tag) - 16 ≡ length t =
        omega (arith, length-append t tag, length-replicate 16 (get_or k 0 0)) in
      rw (size, take-length t tag) refl;
  tag = λ k n a t.
      omega
        (arith, length-append t (replicate 16 (get_or k 0 0)), length-replicate 16 (get_or k 0 0));
}

abbrev pub key : ℕ → Dh
key n = record { pub_ = replicate 32 n; priv = replicate 32 n }

abbrev pub pq : KemKey
pq = record { pub_ = replicate 1184 6; priv = 6 ∷ [] }

abbrev pub parties : Parties
parties = record {
  ik_i = key 1;
  ik_r = key 2;
  ek_i = key 3;
  ek_r = key 4;
  pq = pq;
  tag_key = replicate 32 9;
  random = 7 ∷ [];
  t1 = 1_000_000;
  t2 = 1_100_000;
  t3 = 1_000_500;
}

pub parties-IsHonest : IsHonest toy parties 300_000
unfolding replicate get_or take
parties-IsHonest = record {
  ik_i = length-replicate {A = ℕ} 32 1;
  ik_r = length-replicate {A = ℕ} 32 2;
  ek_i = length-replicate {A = ℕ} 32 3;
  ek_r = length-replicate {A = ℕ} 32 4;
  pq = length-replicate {A = ℕ} 1184 6;
  tag_key = length-replicate {A = ℕ} 32 9;
  ct = length-replicate {A = ℕ} 1088 7;
  long_term = refl;
  other = refl;
  ephemeral = refl;
  kem = refl;
  near1 = omega arith;
  near2 = omega arith;
  safe1 = omega arith;
  safe2 = omega arith;
}
