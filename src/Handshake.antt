-- ===== src/Handshake.antt =====
-- impl/eh2/handshake.ts: the four steps of the EH-2 handshake. What a step draws (a fresh key, the
-- ML-KEM key pair, the randomness of ML-KEM, the time) is an argument. What a step throws is an error
-- value. Of the wiping of buffers, the one that reaches a state which is used again is modelled: a
-- msg3 whose MAC does not verify zeroes the responder's session key (`left_by`).
pub mod Honest
pub mod Guards
pub mod Session
mod Tests
use encedo_chat.Prelude.{
  leb, ◌==◌, if◌then◌else◌, length, replicate, Bytes, ◌>>=◌, ◌>>◌, guard, Result, ℕ, ◌+◌, ◌-◌, ◌*◌,
  String, Bool, Option, none, some, [], ◌∷◌, ok, err,
}
use encedo_chat.Crypto.{Crypto, Dh, KemKey}
use encedo_chat.JsMap.{bytes_beq}
use encedo_chat.Ratchet.State.{HandshakeResult, initiator, responder}
use encedo_chat.Wc.{codes, concat}
use encedo_chat.Wire.{
  Wire, WireError, Msg1, Msg2, Msg3, encode_msg1, decode_msg1, encode_msg2, decode_msg2,
  encode_msg3, decode_msg3, h1, h2_partial, h3,
}

pub data HandshakeError : Type 0 where
  wire : WireError → HandshakeError
  tag_key_size peer_key_size : HandshakeError
  skew : String → HandshakeError
  own_identity tag_mismatch : HandshakeError
  kem_failed : HandshakeError
  bad_mac_r bad_mac_i : HandshakeError

abbrev pub Shake : Type 0 → Type 0
Shake A = Result HandshakeError A

-- What the codec throws passes through.
abbrev pub lift {ℓ} : {A : Type ℓ} → Result WireError A → Result HandshakeError A
lift (ok a) = ok a
lift (err e) = err (wire e)

abbrev pub sk_info : Bytes
sk_info = codes "encedo-handshake-v2"

abbrev pub label_r : Bytes
label_r = codes "responder"

abbrev pub label_i : Bytes
label_i = codes "initiator"

abbrev pub max_skew_ms : ℕ
max_skew_ms = 5 * 60_000

pub record InitiatorState : Type 0 where
  pub ik : Dh
  pub peer_ik_pub : Bytes
  pub ek_i : Dh
  pub pq : KemKey
  pub msg1_bytes : Bytes
  pub max_skew : ℕ

pub record ResponderState : Type 0 where
  pub sk : Bytes
  pub h3 : Bytes
  pub ek_peer_pub : Bytes
  pub first_step_ikm : Bytes

-- `wipe`: as many zeros.
abbrev pub wipe : Bytes → Bytes
wipe b = replicate (length b) 0

unfoldable pub wiped : ResponderState → ResponderState
wiped st = record st { sk = wipe st.sk; first_step_ikm = wipe st.first_step_ikm }

-- The state behind an error of `responderComplete`: a wrong MAC wipes it, a frame that is no msg3
-- does not.
abbrev pub left_by : HandshakeError → ResponderState → ResponderState
left_by bad_mac_i st = wiped st
left_by _ st = st

-- `Math.abs(now - ts) > maxSkewMs`
unfoldable pub check_skew : ℕ → ℕ → String → ℕ → Shake (Unit {0})
check_skew ts now what max_skew = guard (leb ((now - ts) + (ts - now)) max_skew) (skew what)

module _ (c : Crypto) where
  unfoldable pub initiator_tag_key : Bytes → Bytes
  initiator_tag_key announce_key = c.hmac announce_key (codes "encedo-eh2-initiator-tag-v1")

  unfoldable pub initiator_tag : Bytes → Bytes → Shake Bytes
  initiator_tag tag_key ik_pub =
      guard (length tag_key == 32) tag_key_size >> ok (c.hmac tag_key ik_pub)

  unfoldable pub derive_sk : Bytes → Bytes → Bytes → Bytes → Bytes → Bytes
  derive_sk dh1 dh2 dh3 ss h = c.hkdf_bits (concat (dh1 ∷ dh2 ∷ dh3 ∷ ss ∷ [])) h sk_info 32

  unfoldable pub mac : Bytes → Bytes → Bytes → Bytes
  mac sk label transcript = c.hmac sk (concat (label ∷ transcript ∷ []))

  unfoldable pub mac_verify : Bytes → Bytes → Bytes → Bytes → Bool
  unfolding mac
  mac_verify sk label transcript tag = bytes_beq (mac sk label transcript) tag

  unfoldable pub initiate :
      Dh → Bytes → Bytes → Dh → KemKey → ℕ → ℕ → Shake (Bytes × InitiatorState)
  initiate ik peer_ik_pub tag_key ek_i pq now max_skew = do
    guard (length peer_ik_pub == 32) peer_key_size
    tag ← initiator_tag tag_key ik.pub_
    msg1 ← lift (
        encode_msg1
          (record { ek_pub = ek_i.pub_; pq_pub = pq.pub_; ts = now; initiator_tag = tag }))
    ok (
      msg1,
      record {
        ik = ik;
        peer_ik_pub = peer_ik_pub;
        ek_i = ek_i;
        pq = pq;
        msg1_bytes = msg1;
        max_skew = max_skew;
      },
    )

  -- `pq.decapsulate`, which throws where it cannot.
  abbrev pub opened_ss : Option Bytes → Shake Bytes
  opened_ss none = err kem_failed
  opened_ss (some ss) = ok ss

  unfoldable pub initiator_complete : InitiatorState → Bytes → ℕ → Shake (Bytes × HandshakeResult)
  initiator_complete st msg2_bytes now = do
    msg2 ← lift (decode_msg2 msg2_bytes)
    check_skew msg2.ts now "msg2" st.max_skew
    let dh1 = c.x25519 st.ek_i.priv st.peer_ik_pub
    let dh2 = c.x25519 st.ik.priv msg2.ek_pub
    let dh3 = c.x25519 st.ek_i.priv msg2.ek_pub
    ss ← opened_ss (c.decapsulate st.pq.priv msg2.pq_ct)
    let sk = derive_sk dh1 dh2 dh3 ss (h1 c.sha256 st.msg1_bytes)
    h2p ← lift (h2_partial c.sha256 st.msg1_bytes msg2.ek_pub msg2.pq_ct msg2.ts)
    guard (mac_verify sk label_r h2p msg2.mac_r) bad_mac_r
    h ← lift (h3 c.sha256 h2p msg2.mac_r)
    msg3 ← lift (encode_msg3 (record { mac_i = mac sk label_i h }))
    ok (
      msg3,
      record {
        role = initiator;
        sk = sk;
        ek_self = some st.ek_i;
        ek_peer_pub = msg2.ek_pub;
        first_step_ikm = dh3;
      },
    )

  -- Who sent msg1: the contact, or else a second window of our own identity, or a stranger.
  unfoldable pub check_tag : Bytes → Bytes → Bytes → Bytes → Shake (Unit {0})
  check_tag tag_key peer_ik_pub ik_pub tag = do
    theirs ← initiator_tag tag_key peer_ik_pub
    if bytes_beq tag theirs then ok tt else do
      ours ← initiator_tag tag_key ik_pub
      if bytes_beq tag ours then err own_identity else err tag_mismatch

  unfoldable pub respond :
      Dh → Bytes → Bytes → Bytes → Dh → Bytes → ℕ → ℕ → Shake (Bytes × ResponderState)
  respond ik peer_ik_pub tag_key msg1_bytes ek_r random now max_skew = do
    guard (length peer_ik_pub == 32) peer_key_size
    msg1 ← lift (decode_msg1 msg1_bytes)
    check_skew msg1.ts now "msg1" max_skew
    check_tag tag_key peer_ik_pub ik.pub_ msg1.initiator_tag
    let (ct, ss) = c.encapsulate msg1.pq_pub random
    let dh1 = c.x25519 ik.priv msg1.ek_pub
    let dh2 = c.x25519 ek_r.priv peer_ik_pub
    let dh3 = c.x25519 ek_r.priv msg1.ek_pub
    let sk = derive_sk dh1 dh2 dh3 ss (h1 c.sha256 msg1_bytes)
    h2p ← lift (h2_partial c.sha256 msg1_bytes ek_r.pub_ ct now)
    let mac_r = mac sk label_r h2p
    msg2 ← lift (encode_msg2 (record { ek_pub = ek_r.pub_; pq_ct = ct; ts = now; mac_r = mac_r }))
    h ← lift (h3 c.sha256 h2p mac_r)
    ok (msg2, record { sk = sk; h3 = h; ek_peer_pub = msg1.ek_pub; first_step_ikm = dh3 })

  unfoldable pub responder_complete : ResponderState → Bytes → Shake HandshakeResult
  responder_complete st msg3_bytes = do
    msg3 ← lift (decode_msg3 msg3_bytes)
    guard (mac_verify st.sk label_i st.h3 msg3.mac_i) bad_mac_i
    ok (record {
      role = responder;
      sk = st.sk;
      ek_self = none;
      ek_peer_pub = st.ek_peer_pub;
      first_step_ikm = st.first_step_ikm;
    })
