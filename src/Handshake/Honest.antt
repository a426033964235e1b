-- ===== src/Handshake/Honest.antt =====
-- Two honest parties that hold each other's keys agree.
use encedo_chat.Prelude.{
  le→leb, length, Bytes, be, ◌>>=◌, ℕ, ◌+◌, ◌-◌, ◌≤◌, String, ◌≡◌, refl, true, none, some, [], ◌∷◌,
  ◌++◌, ok,
}
use encedo_chat.Crypto.{Crypto, Dh, KemKey, Agree, IsHash}
use encedo_chat.JsMap.{bytes_beq, bytes_beq_iff}
use encedo_chat.Ratchet.State.{HandshakeResult, initiator, responder}
use encedo_chat.Wc.{concat}
use encedo_chat.Wire.{Msg1, Msg2, Msg3, h1, h2_partial, h3, u64be, fixed, max_safe_integer}
use encedo_chat.Wire.RoundTrip.{
  IsMsg1, IsMsg2, IsMsg3, msg1_bytes, msg2_bytes, encode_msg1_lem, decode_msg1_bytes,
  encode_msg2_lem, decode_msg2_bytes, encode_msg3_lem, decode_msg3_bytes,
}
use encedo_chat.Handshake.{
  InitiatorState, ResponderState, Shake, check_skew, initiator_tag, check_tag, derive_sk, mac,
  mac_verify, initiate, respond, initiator_complete, responder_complete, label_r, label_i,
}

-- The keys of two parties, what the steps draw, and the times of the steps.
pub record Parties : Type 0 where
  pub ik_i : Dh
  pub ik_r : Dh
  pub ek_i : Dh
  pub ek_r : Dh
  pub pq : KemKey
  pub tag_key : Bytes
  pub random : Bytes
  pub t1 : ℕ
  pub t2 : ℕ
  pub t3 : ℕ

-- The keys have their sizes, each two of them agree, ML-KEM opens what it sealed, and the clocks differ
-- by no more than `max_skew`.
pub record IsHonest (c : Crypto) (p : Parties) (max_skew : ℕ) : Type 0 where
  pub ik_i : length p.ik_i.pub_ ≡ 32
  pub ik_r : length p.ik_r.pub_ ≡ 32
  pub ek_i : length p.ek_i.pub_ ≡ 32
  pub ek_r : length p.ek_r.pub_ ≡ 32
  pub pq : length p.pq.pub_ ≡ 1184
  pub tag_key : length p.tag_key ≡ 32
  pub ct : length (c.encapsulate p.pq.pub_ p.random).0 ≡ 1088
  pub long_term : Agree c p.ik_r p.ek_i
  pub other : Agree c p.ek_r p.ik_i
  pub ephemeral : Agree c p.ek_r p.ek_i
  pub kem :
      c.decapsulate p.pq.priv (c.encapsulate p.pq.pub_ p.random).0
      ≡ some (c.encapsulate p.pq.pub_ p.random).1
  pub near1 : (p.t2 - p.t1) + (p.t1 - p.t2) ≤ max_skew
  pub near2 : (p.t3 - p.t2) + (p.t2 - p.t3) ≤ max_skew
  pub safe1 : p.t1 ≤ max_safe_integer
  pub safe2 : p.t2 ≤ max_safe_integer

-- The four steps, each frame handed to the other party.
unfoldable pub shake : Crypto → Parties → ℕ → Shake (HandshakeResult × HandshakeResult)
shake c p max_skew = do
  (msg1, st_i) ← initiate c p.ik_i p.ik_r.pub_ p.tag_key p.ek_i p.pq p.t1 max_skew
  (msg2, st_r) ← respond c p.ik_r p.ik_i.pub_ p.tag_key msg1 p.ek_r p.random p.t2 max_skew
  (msg3, result_i) ← initiator_complete c st_i msg2 p.t3
  result_r ← responder_complete c st_r msg3
  ok (result_i, result_r)

bytes_beq_self : (b : Bytes) → bytes_beq b b ≡ true
bytes_beq_self b = (bytes_beq_iff b b).1 refl

pub check_skew_ok :
    (ts now : ℕ) (what : String) (max_skew : ℕ)
    → (now - ts) + (ts - now) ≤ max_skew
    → check_skew ts now what max_skew ≡ ok tt
unfolding check_skew
check_skew_ok ts now what max_skew near = rw (le→leb ((now - ts) + (ts - now)) max_skew near) refl

module _ (c : Crypto) (p : Parties) (max_skew : ℕ) (hash : IsHash c)
    (v : IsHonest c p max_skew) where
  abbrev pub ct : Bytes
  ct = (c.encapsulate p.pq.pub_ p.random).0

  abbrev pub ss : Bytes
  ss = (c.encapsulate p.pq.pub_ p.random).1

  abbrev pub m1 : Msg1
  m1 = record {
    ek_pub = p.ek_i.pub_;
    pq_pub = p.pq.pub_;
    ts = p.t1;
    initiator_tag = c.hmac p.tag_key p.ik_i.pub_;
  }

  m1-IsMsg1 : IsMsg1 m1
  m1-IsMsg1 = record {
    ek_pub = v.ek_i;
    pq_pub = v.pq;
    initiator_tag = hash.hmac_size p.tag_key p.ik_i.pub_;
    ts = v.safe1;
  }

  abbrev pub b1 : Bytes
  b1 = msg1_bytes m1

  abbrev pub dh3 : Bytes
  dh3 = c.x25519 p.ek_r.priv p.ek_i.pub_

  abbrev pub sk : Bytes
  sk =
      derive_sk c (c.x25519 p.ik_r.priv p.ek_i.pub_) (c.x25519 p.ek_r.priv p.ik_i.pub_) dh3 ss
        (h1 c.sha256 b1)

  abbrev pub st_i : InitiatorState
  st_i = record {
    ik = p.ik_i;
    peer_ik_pub = p.ik_r.pub_;
    ek_i = p.ek_i;
    pq = p.pq;
    msg1_bytes = b1;
    max_skew = max_skew;
  }

  pub initiate_ok :
      initiate c p.ik_i p.ik_r.pub_ p.tag_key p.ek_i p.pq p.t1 max_skew ≡ ok (b1, st_i)
  unfolding initiate initiator_tag
  initiate_ok = rw (v.ik_r, v.tag_key, encode_msg1_lem m1 m1-IsMsg1) refl

  abbrev pub h2p : Bytes
  h2p = c.sha256 (concat (b1 ∷ p.ek_r.pub_ ∷ ct ∷ be 8 p.t2 ∷ []))

  h2_partial_ok : h2_partial c.sha256 b1 p.ek_r.pub_ ct p.t2 ≡ ok h2p
  unfolding h2_partial fixed u64be
  h2_partial_ok = rw (v.ek_r, v.ct, le→leb p.t2 max_safe_integer v.safe2) refl

  abbrev pub m2 : Msg2
  m2 = record { ek_pub = p.ek_r.pub_; pq_ct = ct; ts = p.t2; mac_r = mac c sk label_r h2p }

  m2-IsMsg2 : IsMsg2 m2
  unfolding mac
  m2-IsMsg2 = record { ek_pub = v.ek_r; pq_ct = v.ct; mac_r = hash.hmac_size sk _; ts = v.safe2 }

  abbrev pub h : Bytes
  h = c.sha256 (concat (h2p ∷ mac c sk label_r h2p ∷ []))

  h3_ok : h3 c.sha256 h2p (mac c sk label_r h2p) ≡ ok h
  unfolding h3 fixed mac
  h3_ok =
      rw
        (
          hash.sha256_size (concat (b1 ∷ p.ek_r.pub_ ∷ ct ∷ be 8 p.t2 ∷ [])),
          hash.hmac_size sk (concat (label_r ∷ h2p ∷ [])),
        )
        refl

  abbrev pub st_r : ResponderState
  st_r = record { sk = sk; h3 = h; ek_peer_pub = p.ek_i.pub_; first_step_ikm = dh3 }

  pub respond_ok :
      respond c p.ik_r p.ik_i.pub_ p.tag_key b1 p.ek_r p.random p.t2 max_skew
      ≡ ok (msg2_bytes m2, st_r)
  unfolding respond check_tag initiator_tag
  respond_ok =
      rw
        (
          v.ik_i,
          decode_msg1_bytes m1 m1-IsMsg1,
          check_skew_ok p.t1 p.t2 "msg1" max_skew v.near1,
          v.tag_key,
          bytes_beq_self (c.hmac p.tag_key p.ik_i.pub_),
          h2_partial_ok,
          encode_msg2_lem m2 m2-IsMsg2,
          h3_ok,
        )
        refl

  abbrev pub m3 : Msg3
  m3 = record { mac_i = mac c sk label_i h }

  m3-IsMsg3 : IsMsg3 m3
  unfolding mac
  m3-IsMsg3 = record { mac_i = hash.hmac_size sk _ }

  abbrev pub result_i : HandshakeResult
  result_i = record {
    role = initiator;
    sk = sk;
    ek_self = some p.ek_i;
    ek_peer_pub = p.ek_r.pub_;
    first_step_ikm = dh3;
  }

  abbrev pub result_r : HandshakeResult
  result_r = record {
    role = responder;
    sk = sk;
    ek_self = none;
    ek_peer_pub = p.ek_i.pub_;
    first_step_ikm = dh3;
  }

  pub initiator_complete_ok :
      initiator_complete c st_i (msg2_bytes m2) p.t3 ≡ ok (3 ∷ 3 ∷ m3.mac_i ++ [], result_i)
  unfolding initiator_complete mac_verify
  initiator_complete_ok =
      rw
        (
          decode_msg2_bytes m2 m2-IsMsg2,
          check_skew_ok p.t2 p.t3 "msg2" max_skew v.near2,
          ← v.long_term,
          ← v.other,
          ← v.ephemeral,
          v.kem,
          h2_partial_ok,
          bytes_beq_self (mac c sk label_r h2p),
          h3_ok,
          encode_msg3_lem m3 m3-IsMsg3,
        )
        refl

  pub responder_complete_ok : responder_complete c st_r (3 ∷ 3 ∷ m3.mac_i ++ []) ≡ ok result_r
  unfolding responder_complete mac_verify
  responder_complete_ok =
      rw (decode_msg3_bytes m3 m3-IsMsg3, bytes_beq_self (mac c sk label_i h)) refl

-- Two honest parties complete the handshake, and hold the same session key and the same input of the
-- first ratchet step; the initiator keeps its ephemeral key, and each has the other's public half.
pub shake_agrees :
    (c : Crypto) (p : Parties) (max_skew : ℕ)
    → IsHash c
    → IsHonest c p max_skew
    → (sk : Bytes) × (ikm : Bytes) × (shake c p max_skew
        ≡ ok (
          record {
            role = initiator;
            sk = sk;
            ek_self = some p.ek_i;
            ek_peer_pub = p.ek_r.pub_;
            first_step_ikm = ikm;
          },
          record {
            role = responder;
            sk = sk;
            ek_self = none;
            ek_peer_pub = p.ek_i.pub_;
            first_step_ikm = ikm;
          },
        ))
unfolding shake
shake_agrees c p max_skew hash v = (
  sk c p max_skew hash v,
  dh3 c p max_skew hash v,
  rw
      (
        initiate_ok c p max_skew hash v,
        respond_ok c p max_skew hash v,
        initiator_complete_ok c p max_skew hash v,
        responder_complete_ok c p max_skew hash v,
      )
      refl,
)
