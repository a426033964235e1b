-- ===== src/Ratchet/Tests.antt =====
-- Runs of a ratchet over a toy of the cryptography, and the theorems at concrete values.
use encedo_chat.Prelude.{
  if◌then◌else◌, length, take, drop, get_or, replicate, length-append, take-length, drop-length,
  length-replicate, Bytes, be, read_be, ℕ, ◌+◌, ◌-◌, ◌%◌, ◌<◌, ◌≡◌, refl, true, Option, none, some,
  [], ◌∷◌, ◌++◌, arith,
}
use encedo_chat.Ratchet.Waiting.{none_yet, came}
use encedo_chat.Ratchet.Overtaken.{overtaken_opens}
use encedo_chat.Ratchet.Skipped.Distinct.{IsMap}
use encedo_chat.Ratchet.Skipped.Bounds.{IsBounded}
use encedo_chat.Ratchet.Store.{decrypt-IsBounded}
use encedo_chat.Ratchet.Replay.{replay_refused, at_once, heard}
use encedo_chat.Crypto.{Crypto, IsAead, Dh}
use encedo_chat.JsMap.{bytes_beq, bytes_beq_iff, lookup}
use encedo_chat.Ratchet.State.{
  Ratchet, World, default_opts, initiator, responder, ratchet_from, dh_step, message_key, opened,
  null, every_same, chain_next,
}
use encedo_chat.Ratchet.Sending.{header_of, ready, encrypt, seal_next}
use encedo_chat.Ratchet.Receiving.{
  walk_chain, pruned, stash, note_peer_pq_pub, decrypt, open_frame, open_same, open_current,
  try_open, advance,
}
use encedo_chat.Ratchet.Headers.{Header, encode_header, decode_header, read_base, base}
use encedo_chat.Ratchet.Headers.RoundTrip.{IsHeader, decode_header-encode_header}
use encedo_chat.Ratchet.Delivery.{InStep, deliver, deliver_opens}
use encedo_chat.Ratchet.Skipped
use encedo_chat.Ratchet.Skipped.{prune_chains, evict, set_in}
use encedo_chat.Wc.{codes, kdf, aead_nonce}

-- A tag that shows its key.
toy_seal : Bytes → Bytes → Bytes → Bytes → Bytes
toy_seal k n a t = t ++ replicate 16 (get_or k 0 0)

toy_unseal : Bytes → Bytes → Bytes → Bytes → Option Bytes
toy_unseal k n a s =
    if bytes_beq (drop (length s - 16) s) (replicate 16 (get_or k 0 0))
    then some (take (length s - 16) s)
    else none

abbrev toy : Crypto
toy = record {
  hkdf_bits = λ ikm salt info len. replicate len ((get_or ikm 0 0 + length info) % 256);
  sha256 = λ x. replicate 32 (length x % 256);
  hmac = λ k x. replicate 32 (get_or k 0 0);
  x25519 = λ priv pub_. take 32 (priv ++ pub_);
  seal = toy_seal;
  unseal = toy_unseal;
  encapsulate = λ pub_ random. (random, pub_);
  decapsulate = λ priv ct. some priv;
}

toy_opens : (k n a t : Bytes) → toy_unseal k n a (toy_seal k n a t) ≡ some t
unfolding toy_unseal toy_seal
toy_opens k n a t =
    let tag = replicate 16 (get_or k 0 0) in
    let size : length (t ++ tag) - 16 ≡ length t =
      omega (arith, length-append t tag, length-replicate 16 (get_or k 0 0)) in
    rw (size, drop-length t tag, (bytes_beq_iff tag tag).1 refl, take-length t tag) refl

toy-IsAead : IsAead toy
toy-IsAead = record {
  opens = toy_opens;
  tag = λ k n a t.
      unfold toy_seal in
      omega
        (arith, length-append t (replicate 16 (get_or k 0 0)), length-replicate 16 (get_or k 0 0));
}

abbrev key : ℕ → Dh
key n = record { pub_ = replicate 32 n; priv = replicate 32 n }

abbrev world : World
world = record {
  now = 5;
  fresh_dh = key 3;
  fresh_kem = record { pub_ = 1 ∷ []; priv = 1 ∷ [] };
  random = 2 ∷ [];
}

abbrev alice : Ratchet
alice =
    ratchet_from toy
      (record {
        role = initiator;
        sk = replicate 32 1;
        ek_self = some (key 7);
        ek_peer_pub = replicate 32 9;
        first_step_ikm = replicate 32 2;
      })
      default_opts 5

abbrev bob : Ratchet
bob =
    ratchet_from toy
      (record {
        role = responder;
        sk = replicate 32 1;
        ek_self = some (key 9);
        ek_peer_pub = replicate 32 7;
        first_step_ikm = replicate 32 2;
      })
      default_opts 5

abbrev long_header : Header
long_header = record {
  dh_pub = replicate 32 7;
  pn = 3;
  n = 70_000;
  pq_ct = none;
  pq_pub = some (4 ∷ 5 ∷ []);
}

long_header-IsHeader : IsHeader long_header
long_header-IsHeader = record {
  dh_pub = length-replicate 32 7;
  pn = omega arith;
  n = omega arith;
  pq_ct = tt;
  pq_pub = (omega arith, omega arith);
}

decode_header-encode_header_example :
    decode_header (encode_header long_header ++ replicate 16 0)
    ≡ some (long_header, length (encode_header long_header))
decode_header-encode_header_example =
    decode_header-encode_header long_header (replicate 16 0) long_header-IsHeader
      (omega (arith, length-replicate {A = ℕ} 16 0))

in_step : InStep toy default_opts (ready toy default_opts alice world) (pruned toy bob 5)
unfolding ratchet_from ready dh_step pruned Skipped.prune prune_chains header_of walk_chain
    Skipped.peek lookup
in_step = record {
  d = key 7;
  ck = drop 32 (toy.hkdf_bits (replicate 32 2) (replicate 32 1) (codes "encedo-ratchet-dh-v1") 64);
  behind_ck =
      drop 32 (toy.hkdf_bits (replicate 32 2) (replicate 32 1) (codes "encedo-ratchet-dh-v1") 64);
  own = refl;
  sending = refl;
  header = record {
    dh_pub = length-replicate 32 7;
    pn = omega arith;
    n = omega arith;
    pq_ct = tt;
    pq_pub = tt;
  };
  receiving = refl;
  known = refl;
  behind = omega arith;
  near = omega arith;
  reaches = refl;
  unseen = refl;
}

deliver_opens_example :
    (a' : Ratchet) × (b' : Ratchet) × (deliver toy default_opts alice bob world world (65 ∷ [])
      ≡ some (a', (b', opened (65 ∷ []))))
    × (b'.ck_recv ≡ a'.ck_send)
    × (b'.n_recv ≡ a'.n_send)
deliver_opens_example =
    deliver_opens toy default_opts alice bob world world (65 ∷ []) toy-IsAead in_step

sent : Option (Ratchet × Bytes) → Ratchet × Bytes
sent none = (alice, [])
sent (some p) = p

abbrev first : Ratchet × Bytes
first = sent (encrypt toy default_opts alice world (65 ∷ []))

first_sent : encrypt toy default_opts alice world (65 ∷ []) ≡ some (first.0, first.1)
unfolding ratchet_from encrypt ready seal_next dh_step sent
first_sent = refl

abbrev forged : Bytes
forged = 16 ∷ 3 ∷ replicate 32 7 ++ replicate 24 0

bob_IsMap : IsMap bob.skipped.chains
unfolding IsMap ratchet_from
bob_IsMap = tt

abbrev first_header : Header
first_header = record { dh_pub = replicate 32 7; pn = 0; n = 0; pq_ct = none; pq_pub = none }

first_read : decode_header first.1 ≡ some (first_header, 42)
unfolding ratchet_from encrypt ready seal_next dh_step sent header_of encode_header base
    decode_header read_base read_be be replicate get_or take drop message_key chain_next kdf
    aead_nonce toy_seal
first_read = refl

nothing_held :
    (mk : Bytes)
    → Skipped.peek (pruned toy bob world.now).skipped (replicate 32 7) 0 ≡ some mk
    → (every_same (replicate 32 7) bob.dh_peer_pub ≡ true) × (0 < bob.n_recv)
unfolding pruned Skipped.prune prune_chains ratchet_from Skipped.peek lookup
nothing_held mk held = cc

first_heard : (decrypt toy default_opts bob world first.1).1 ≡ opened (65 ∷ [])
unfolding decrypt decode_header replicate get_or open_frame Skipped.peek lookup pruned Skipped.prune
    ratchet_from every_same take drop open_current open_same read_be advance try_open message_key
    walk_chain kdf aead_nonce be read_base prune_chains dh_step toy_unseal toy_seal encrypt ready
    seal_next sent header_of encode_header base chain_next
first_heard = refl

forged_stays :
    (decrypt toy default_opts
      (decrypt toy default_opts bob world first.1).0
      world
      forged).0.dh_peer_pub
    ≡ (decrypt toy default_opts bob world first.1).0.dh_peer_pub
unfolding decrypt decode_header replicate get_or open_frame Skipped.peek lookup pruned Skipped.prune
    ratchet_from every_same take drop open_current open_same read_be advance try_open message_key
    walk_chain kdf aead_nonce be read_base prune_chains dh_step toy_unseal toy_seal encrypt ready
    seal_next sent header_of encode_header base chain_next stash note_peer_pq_pub
forged_stays = refl

replay_refused_example :
    decrypt toy default_opts
      (decrypt toy default_opts (decrypt toy default_opts bob world first.1).0 world forged).0
      world
      first.1
    ≡ (
      pruned toy
          (decrypt toy default_opts (decrypt toy default_opts bob world first.1).0 world forged).0
          5,
      null,
    )
replay_refused_example =
    replay_refused toy default_opts bob
      (decrypt toy default_opts (decrypt toy default_opts bob world first.1).0 world forged).0 world
      world first.1 (65 ∷ []) first_header 42 bob_IsMap first_read nothing_held first_heard
      (heard world forged at_once forged_stays)

decrypt-IsBounded_example : IsBounded (decrypt toy default_opts bob world first.1).0.skipped
decrypt-IsBounded_example =
    decrypt-IsBounded toy default_opts bob world first.1
      (unfold ratchet_from IsBounded in omega arith)

abbrev second : Ratchet × Bytes
second = sent (encrypt toy default_opts first.0 world (66 ∷ []))

second_sent : encrypt toy default_opts first.0 world (66 ∷ []) ≡ some (second.0, second.1)
unfolding ratchet_from encrypt ready seal_next dh_step sent
second_sent = refl

abbrev first_key : Bytes
first_key =
    drop 32 (toy.hkdf_bits (replicate 32 2) (replicate 32 1) (codes "encedo-ratchet-dh-v1") 64)

skipping : InStep toy default_opts (ready toy default_opts first.0 world) (pruned toy bob 5)
unfolding ratchet_from encrypt ready seal_next dh_step sent pruned Skipped.prune prune_chains
    header_of walk_chain Skipped.peek lookup
skipping = record {
  d = key 7;
  ck = chain_next toy first_key;
  behind_ck = first_key;
  own = refl;
  sending = refl;
  header = record {
    dh_pub = length-replicate {A = ℕ} 32 7;
    pn = omega arith;
    n = omega arith;
    pq_ct = tt;
    pq_pub = tt;
  };
  receiving = refl;
  known = refl;
  behind = omega arith;
  near = omega arith;
  reaches = refl;
  unseen = refl;
}

first_opens :
    try_open toy
      (message_key toy (walk_chain toy 0 first_key).1)
      (take 42 first.1)
      (drop 42 first.1)
      0
    ≡ some (65 ∷ [])
unfolding ratchet_from encrypt ready seal_next dh_step sent header_of encode_header base read_be be
    replicate get_or take drop message_key chain_next kdf aead_nonce toy_seal toy_unseal try_open
    walk_chain
first_opens = refl

abbrev second_header : Header
second_header = record { dh_pub = replicate 32 7; pn = 0; n = 1; pq_ct = none; pq_pub = none }

second_read : decode_header second.1 ≡ some (second_header, 42)
unfolding ratchet_from encrypt ready seal_next dh_step sent header_of encode_header base
    decode_header read_base read_be be replicate get_or take drop message_key chain_next kdf
    aead_nonce toy_seal
second_read = refl

-- The overtaking message comes again in between.
abbrev overtaken : Ratchet
overtaken =
    (decrypt toy default_opts (decrypt toy default_opts bob world second.1).0 world second.1).0

overtaken_opens_example : (decrypt toy default_opts overtaken world first.1).1 ≡ opened (65 ∷ [])
unfolding skipping ratchet_from encrypt ready seal_next dh_step sent
overtaken_opens_example =
    overtaken_opens toy default_opts first.0 bob second.0 overtaken world world world (66 ∷ [])
      second.1 first.1 (65 ∷ []) first_header 42 toy-IsAead skipping second_sent first_read refl
      (omega arith) (omega arith) (omega arith) (omega arith) first_opens
      (came world second.1 second_header 42 none_yet second_read refl refl (omega arith))
