-- ===== src/Ratchet/State.antt =====
-- impl/eh2/ratchet.ts: the state of a ratchet, and how a handshake starts it.
use encedo_chat.Prelude.{
  ◌==◌, length, take, drop, Bytes, ℕ, ◌*◌, Bool, true, false, ◌&&◌, Option, none, some, [], ◌∷◌,
}
use encedo_chat.Crypto.{Crypto, Dh, KemKey}
use encedo_chat.Wc.{codes, kdf}
use encedo_chat.Ratchet.Skipped.{SkippedKeys}

pub record Opts : Type 0 where
  pub max_skip : ℕ
  pub max_chains_back : ℕ
  pub skipped_ttl_ms : ℕ
  pub pq_every_steps : ℕ
  pub pq_every_ms : ℕ

-- The bounds of section 7.3 and the hybrid cadence of 7.2.
abbrev pub default_opts : Opts
default_opts = record {
  max_skip = 1000;
  max_chains_back = 5;
  skipped_ttl_ms = 24 * 60 * 60 * 1000;
  pq_every_steps = 4;
  pq_every_ms = 30 * 60_000;
}

pub data Role : Type 0 where
  initiator responder : Role

-- What a completed handshake hands over.
pub record HandshakeResult : Type 0 where
  pub role : Role
  pub sk : Bytes
  pub ek_self : Option Dh
  pub ek_peer_pub : Bytes
  pub first_step_ikm : Bytes

pub record Ratchet : Type 0 where
  pub rk : Bytes
  pub dh_self : Option Dh
  pub dh_peer_pub : Bytes
  pub ck_send : Option Bytes
  pub ck_recv : Option Bytes
  pub n_send : ℕ
  pub n_recv : ℕ
  pub pn : ℕ
  pub step_before_send : Bool
  pub pq_key : Option KemKey
  pub pending_ss : Option Bytes
  pub pending_ct : Option Bytes
  pub ct_in_flight : Option Bytes
  pub seen_peer_pq_pub : Option Bytes
  pub steps_since_pq : ℕ
  pub last_pq_at : ℕ
  pub pq_steps_done : ℕ
  pub skipped : SkippedKeys

-- What a call may draw: the time, a fresh DH key, a fresh ML-KEM key, and ML-KEM's randomness.
pub record World : Type 0 where
  pub now : ℕ
  pub fresh_dh : Dh
  pub fresh_kem : KemKey
  pub random : Bytes

-- What `decrypt` answers: null, the plaintext, or a thrown `RatchetError`.
pub data Outcome : Type 0 where
  null : Outcome
  opened : Bytes → Outcome
  over_bound : Outcome

abbrev pub rk_info : Bytes
rk_info = codes "encedo-ratchet-dh-v1"

abbrev pub rk_pq_info : Bytes
rk_pq_info = codes "encedo-ratchet-hybrid-v1"

-- `h.dhPub.every((b, i) => b === dhPeerPub[i])`
unfoldable pub every_same : Bytes → Bytes → Bool
every_same [] ys = true
every_same (x ∷ xs) [] = false
every_same (x ∷ xs) (y ∷ ys) = (x == y) && every_same xs ys

-- `sameBytes`
unfoldable pub same_bytes : Bytes → Bytes → Bool
unfolding every_same
same_bytes a b = (length a == length b) && every_same a b

abbrev pub kem_pub : Option KemKey → Option Bytes
kem_pub none = none
kem_pub (some k) = some k.pub_

module _ (c : Crypto) where
  -- `dhStep`: the new root key and chain key
  unfoldable pub dh_step : Bytes → Bytes → Bytes → Bytes × Bytes
  dh_step rk ikm info = let out = c.hkdf_bits ikm rk info 64 in (take 32 out, drop 32 out)

  unfoldable pub message_key : Bytes → Bytes
  message_key ck = kdf c (codes "encedo-msg-key") ck [] 32

  unfoldable pub chain_next : Bytes → Bytes
  chain_next ck = kdf c (codes "encedo-chain-key") ck [] 32

  unfoldable pub ratchet_from : HandshakeResult → Opts → ℕ → Ratchet
  ratchet_from hs o now =
      let (rk, ck) = dh_step hs.sk hs.first_step_ikm rk_info in
      record {
        rk = rk;
        dh_self = hs.ek_self;
        dh_peer_pub = hs.ek_peer_pub;
        ck_send = elim hs.role [ initiator ↦ some ck | responder ↦ none ];
        ck_recv = elim hs.role [ initiator ↦ none | responder ↦ some ck ];
        n_send = 0;
        n_recv = 0;
        pn = 0;
        step_before_send = elim hs.role [ initiator ↦ false | responder ↦ true ];
        pq_key = none;
        pending_ss = none;
        pending_ct = none;
        ct_in_flight = none;
        seen_peer_pq_pub = none;
        steps_since_pq = 0;
        last_pq_at = now;
        pq_steps_done = 0;
        skipped = record { chains = []; ttl_ms = o.skipped_ttl_ms; max_chains = o.max_chains_back };
      }
