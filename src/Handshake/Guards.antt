-- ===== src/Handshake/Guards.antt =====
-- What a step that returned has checked.
use encedo_chat.Prelude.{
  ◌==◌, Bool-cases, length, Bytes, ◌>>=◌, >>=-elim, guard-elim, >>-elim, ok-injective, Result, ℕ,
  ◌+◌, ◌-◌, ◌≤◌, String, ◌≡◌, refl, sym, ap, ◌∙◌, subst, ◌≢◌, ◌↔◌, inl, inr, true, false, none, [],
  ◌∷◌, ◌++◌, arith, ok, err,
}
use encedo_chat.Handshake.Honest.{check_skew_ok}
use encedo_chat.Crypto.{Crypto, Dh, KemKey, IsHash}
use encedo_chat.JsMap.{bytes_beq, bytes_beq_iff}
use encedo_chat.Ratchet.State.{HandshakeResult, responder}
use encedo_chat.Wire.{
  Msg1, Msg2, WireError, decode_msg1, decode_msg2, encode_msg3, decode_msg3, h2_partial, h3,
  max_safe_integer, encode_msg2,
}
use encedo_chat.Wire.RoundTrip.{IsMsg1, encode_msg1_lem, decode_msg1_bytes, decode_msg3_bytes}
use encedo_chat.Wire.Canonical.{decode_msg3_behind}
use encedo_chat.Handshake.{
  InitiatorState, ResponderState, Shake, own_identity, lift, check_skew, initiator_tag, check_tag,
  mac, mac_verify, initiate, respond, initiator_complete, responder_complete, opened_ss, label_r,
  label_i, tag_mismatch,
}

lift-ok {ℓ} : {A : Type ℓ} (m : Result WireError A) {a : A} → lift m ≡ ok a → m ≡ ok a
lift-ok (ok x) h = ap ok (ok-injective h)
lift-ok (err e) h = absurd (cc)

check_skew-near :
    (ts now : ℕ) (what : String) (max_skew : ℕ)
    → check_skew ts now what max_skew ≡ ok tt
    → (now - ts) + (ts - now) ≤ max_skew
unfolding check_skew
check_skew-near ts now what max_skew h = ground arith

initiator_tag-hmac :
    (c : Crypto) (tag_key ik_pub tag : Bytes)
    → initiator_tag c tag_key ik_pub ≡ ok tag
    → tag ≡ c.hmac tag_key ik_pub
unfolding initiator_tag
initiator_tag-hmac c tag_key ik_pub tag h =
    guard-elim (length tag_key == 32) _ _ h λ sized g. sym (ok-injective g)

check_tag-theirs :
    (c : Crypto) (tag_key peer own tag : Bytes)
    → check_tag c tag_key peer own tag ≡ ok tt
    → tag ≡ c.hmac tag_key peer
unfolding check_tag
check_tag-theirs c tag_key peer own tag h =
    >>=-elim (initiator_tag c tag_key peer) _ h λ theirs is g.
      elim (Bool-cases (bytes_beq tag theirs)) [
        | inl same ↦ (bytes_beq_iff tag theirs).0 same ∙ initiator_tag-hmac c tag_key peer theirs is
        | inr other ↦ >>=-elim (initiator_tag c tag_key own) _ (rw other at g) λ ours is' g'.
            elim (Bool-cases (bytes_beq tag ours)) [
              | inl e ↦
                  let clash : ◌≡◌ {A = Shake (Unit {0})} (err own_identity) (ok tt) = rw e at g' in
                  cc
              | inr e ↦
                  let clash : ◌≡◌ {A = Shake (Unit {0})} (err tag_mismatch) (ok tt) = rw e at g' in
                  cc
            ]
      ]

-- A responder that answers has read a msg1 that is recent, and that carries the tag which the key of
-- the pair gives for the contact.
pub respond-guards :
    (c : Crypto) (ik ek_r : Dh) (peer tag_key msg1_bytes random msg2 : Bytes) (now max_skew : ℕ)
    (st : ResponderState)
    → respond c ik peer tag_key msg1_bytes ek_r random now max_skew ≡ ok (msg2, st)
    → (m : Msg1) × (decode_msg1 msg1_bytes ≡ ok m)
      × (m.initiator_tag ≡ c.hmac tag_key peer)
      × ((now - m.ts) + (m.ts - now) ≤ max_skew)
      × (st.ek_peer_pub ≡ m.ek_pub)
unfolding respond
respond-guards c ik ek_r peer tag_key msg1_bytes random msg2 now max_skew st h =
    guard-elim (length peer == 32) _ _ h λ sized h1'.
      >>=-elim (lift (decode_msg1 msg1_bytes)) _ h1' λ m read h2'.
        >>-elim (check_skew m.ts now "msg1" max_skew) _ h2' λ near h3'.
          >>-elim (check_tag c tag_key peer ik.pub_ m.initiator_tag) _ h3' λ tagged h4'.
            >>=-elim
              (lift
                (h2_partial c.sha256 msg1_bytes ek_r.pub_ (c.encapsulate m.pq_pub random).0 now))
              _ h4'
              λ h2p _ h5'. >>=-elim (lift (encode_msg2 _)) _ h5' λ b2 _ h6'.
                >>=-elim (lift (h3 c.sha256 h2p _)) _ h6' λ hash _ h7'. (
                  m,
                  lift-ok (decode_msg1 msg1_bytes) read,
                  check_tag-theirs c tag_key peer ik.pub_ m.initiator_tag tagged,
                  check_skew-near m.ts now "msg1" max_skew near,
                  ap (λ r. ResponderState.ek_peer_pub r.1) (sym (ok-injective h7')),
                )

-- One frame alone opens the responder's gate: the tag over the transcript under the session key, in a
-- frame of its type and version. Then the result carries the keys of the state, and any other bytes
-- are refused.
pub responder_complete_iff :
    (c : Crypto) (st : ResponderState) (msg3 : Bytes) (r : HandshakeResult)
    → length (mac c st.sk label_i st.h3) ≡ 32
    → (responder_complete c st msg3 ≡ ok r) ↔ (
        (msg3 ≡ 3 ∷ 3 ∷ mac c st.sk label_i st.h3 ++ [])
        × (r ≡ record {
          role = responder;
          sk = st.sk;
          ek_self = none;
          ek_peer_pub = st.ek_peer_pub;
          first_step_ikm = st.first_step_ikm;
        }))
unfolding responder_complete mac_verify
responder_complete_iff c st msg3 r size =
    let tag = mac c st.sk label_i st.h3 in
    (
      λ h. >>=-elim (lift (decode_msg3 msg3)) _ h λ m read g.
          guard-elim (bytes_beq tag m.mac_i) _ _ g λ same g'.
            let (_, e) = decode_msg3_behind msg3 m (lift-ok (decode_msg3 msg3) read) in
            (
              e ∙ ap (λ t. 3 ∷ 3 ∷ t ++ []) (sym ((bytes_beq_iff tag m.mac_i).0 same)),
              sym (ok-injective g'),
            ),
      λ p.
          let read = decode_msg3_bytes (record { mac_i = tag }) (record { mac_i = size }) in
          let self = (bytes_beq_iff tag tag).1 refl in
          subst (λ b. responder_complete c st b ≡ ok r) (sym p.0)
            (rw (read, self) (ap ok (sym p.1))),
    )

-- An initiator that completes has read a recent msg2 whose tag is the one that the session key gives
-- over the transcript, and takes the peer's ephemeral key from it.
pub initiator_complete-guards :
    (c : Crypto) (st : InitiatorState) (msg2 msg3 : Bytes) (now : ℕ) (r : HandshakeResult)
    → initiator_complete c st msg2 now ≡ ok (msg3, r)
    → (m : Msg2) × (h2p : Bytes) × (decode_msg2 msg2 ≡ ok m)
      × (h2_partial c.sha256 st.msg1_bytes m.ek_pub m.pq_ct m.ts ≡ ok h2p)
      × (m.mac_r ≡ mac c r.sk label_r h2p)
      × ((now - m.ts) + (m.ts - now) ≤ st.max_skew)
      × (r.ek_peer_pub ≡ m.ek_pub)
unfolding initiator_complete mac_verify
initiator_complete-guards c st msg2 msg3 now r h =
    >>=-elim (lift (decode_msg2 msg2)) _ h λ m read g1.
      >>-elim (check_skew m.ts now "msg2" st.max_skew) _ g1 λ near g2.
        >>=-elim (opened_ss c (c.decapsulate st.pq.priv m.pq_ct)) _ g2 λ ss _ g3.
          >>=-elim (lift (h2_partial c.sha256 st.msg1_bytes m.ek_pub m.pq_ct m.ts)) _ g3
            λ h2p is_h2p g4. guard-elim (bytes_beq (mac c _ label_r h2p) m.mac_r) _ _ g4 λ same g5.
              >>=-elim (lift (h3 c.sha256 h2p m.mac_r)) _ g5 λ hash _ g6.
                >>=-elim (lift (encode_msg3 _)) _ g6 λ b3 _ g7.
                  let is_r = ap (λ p. p.1) (ok-injective g7) in
                  (
                    m,
                    h2p,
                    lift-ok (decode_msg2 msg2) read,
                    lift-ok (h2_partial c.sha256 st.msg1_bytes m.ek_pub m.pq_ct m.ts) is_h2p,
                    sym ((bytes_beq_iff (mac c _ label_r h2p) m.mac_r).0 same)
                        ∙ ap (λ t. mac c (HandshakeResult.sk t) label_r h2p) is_r,
                    check_skew-near m.ts now "msg2" st.max_skew near,
                    ap HandshakeResult.ek_peer_pub (sym is_r),
                  )

-- A second window of our own identity: a msg1 that our own key initiated towards the contact is
-- refused as our own and not as a stranger's, where the tags of the two keys differ.
pub own_window-refused :
    (c : Crypto) (ik ek_i ek_r : Dh) (pq : KemKey) (peer tag_key random : Bytes)
    (t1 t2 max_skew : ℕ)
    → IsHash c
    → length peer ≡ 32
    → length tag_key ≡ 32
    → length ek_i.pub_ ≡ 32
    → length pq.pub_ ≡ 1184
    → t1 ≤ max_safe_integer
    → (t2 - t1) + (t1 - t2) ≤ max_skew
    → c.hmac tag_key ik.pub_ ≢ c.hmac tag_key peer
    → (initiate c ik peer tag_key ek_i pq t1 max_skew >>= λ (msg1, _).
        respond c ik peer tag_key msg1 ek_r random t2 max_skew)
      ≡ err own_identity
unfolding initiate respond initiator_tag check_tag
own_window-refused c ik ek_i ek_r pq peer tag_key random t1 t2 max_skew hash p32 k32 e32 q safe near
      differ =
    let m : Msg1 = record {
      ek_pub = ek_i.pub_;
      pq_pub = pq.pub_;
      ts = t1;
      initiator_tag = c.hmac tag_key ik.pub_;
    } in
    let v : IsMsg1 m = record {
      ek_pub = e32;
      pq_pub = q;
      initiator_tag = hash.hmac_size tag_key ik.pub_;
      ts = safe;
    } in
    let other : bytes_beq (c.hmac tag_key ik.pub_) (c.hmac tag_key peer) ≡ false =
      elim (Bool-cases (bytes_beq (c.hmac tag_key ik.pub_) (c.hmac tag_key peer))) [
        | inl e ↦ absurd (differ ((bytes_beq_iff _ _).0 e))
        | inr e ↦ e
      ] in
    let self : bytes_beq (c.hmac tag_key ik.pub_) (c.hmac tag_key ik.pub_) ≡ true =
      (bytes_beq_iff (c.hmac tag_key ik.pub_) (c.hmac tag_key ik.pub_)).1 refl in
    rw
      (
        p32,
        k32,
        encode_msg1_lem m v,
        decode_msg1_bytes m v,
        check_skew_ok t1 t2 "msg1" max_skew near,
        other,
        self,
      )
      refl
