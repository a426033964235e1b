-- ===== src/Establish/Run.antt =====
-- The four frames of two honest parties, fed to their handshakes.
use encedo_chat.Prelude.{
  Bytes, Result, ◌≡◌, refl, true, false, Option, none, some, List, [], ◌∷◌, ◌++◌, ok, err,
}
use encedo_chat.Wire.RoundTrip.{msg2_bytes}
use encedo_chat.Wire.{Msg3}
use encedo_chat.Crypto.{Crypto, IsHash}
use encedo_chat.Ratchet.State.{Opts, initiator, responder, ratchet_from}
use encedo_chat.Handshake.{max_skew_ms}
use encedo_chat.Handshake.Honest
use encedo_chat.Handshake.Honest.{
  Parties, IsHonest, initiate_ok, respond_ok, initiator_complete_ok, responder_complete_ok,
}
use encedo_chat.Establish.{
  EstablishError, InitiatorHs, ResponderHs, Draw, start_initiator, start_responder,
  complete_initiator, feed_initiator, answer_msg1, complete_responder, feed_responder,
}

-- What a call answered, where it answered a frame.
abbrev pub frame_of : Result EstablishError (Option Bytes) → Bytes
frame_of (ok (some f)) = f
frame_of _ = []

abbrev pub first : List Bytes → Bytes
first [] = []
first (x ∷ xs) = x

-- The responder's half of a run, from the frame the initiator sent first.
unfoldable pub answer : Crypto → Opts → Parties → InitiatorHs → Bytes → InitiatorHs × ResponderHs
answer c o p i0 msg1 =
    let draw : Draw = record { now = p.t2; ek = p.ek_r; random = p.random } in
    let (r1, msg2) =
      feed_responder c o p.ik_r p.ik_i.pub_ p.tag_key
        (start_responder c o p.ik_r p.ik_i.pub_ p.tag_key) msg1 draw in
    let (i1, msg3) = feed_initiator c o p.ik_i p.ik_r.pub_ p.tag_key i0 (frame_of msg2) p.t3 in
    let (r2, _) = feed_responder c o p.ik_r p.ik_i.pub_ p.tag_key r1 (frame_of msg3) draw in
    (i1, r2)

-- Both handshakes behind msg1, msg2 and msg3; nothing where the initiator cannot start.
unfoldable pub establish : Crypto → Opts → Parties → Option (InitiatorHs × ResponderHs)
establish c o p = elim (start_initiator c o p.ik_i p.ik_r.pub_ p.tag_key p.ek_i p.pq p.t1) [
  | err e ↦ none
  | ok (frames, i0) ↦ some (answer c o p i0 (first frames))
]

module _ (c : Crypto) (o : Opts) (p : Parties) (hash : IsHash c)
    (v : IsHonest c p max_skew_ms) where
  abbrev pub b1 : Bytes
  b1 = Honest.b1 c p max_skew_ms hash v

  abbrev pub b2 : Bytes
  b2 = msg2_bytes (Honest.m2 c p max_skew_ms hash v)

  abbrev pub b3 : Bytes
  b3 = 3 ∷ 3 ∷ Msg3.mac_i (Honest.m3 c p max_skew_ms hash v) ++ []

  abbrev pub draw : Draw
  draw = record { now = p.t2; ek = p.ek_r; random = p.random }

  abbrev pub i0 : InitiatorHs
  i0 = record {
    state = some (Honest.st_i c p max_skew_ms hash v);
    authenticated = false;
    session = none;
  }

  abbrev pub i1 : InitiatorHs
  i1 = record {
    state = none;
    authenticated = true;
    session = some (ok (ratchet_from c (Honest.result_i c p max_skew_ms hash v) o p.t3));
  }

  abbrev pub r1 : ResponderHs
  r1 = record {
    pending = some (Honest.st_r c p max_skew_ms hash v);
    authenticated = false;
    session = none;
  }

  abbrev pub r2 : ResponderHs
  r2 = record {
    pending = none;
    authenticated = true;
    session = some (ok (ratchet_from c (Honest.result_r c p max_skew_ms hash v) o p.t2));
  }

  started : start_initiator c o p.ik_i p.ik_r.pub_ p.tag_key p.ek_i p.pq p.t1 ≡ ok (b1 ∷ [], i0)
  started = unfold start_initiator in rw (initiate_ok c p max_skew_ms hash v, start_initiator) refl

  pub answered :
      feed_responder c o p.ik_r p.ik_i.pub_ p.tag_key
        (start_responder c o p.ik_r p.ik_i.pub_ p.tag_key)
        b1
        draw
      ≡ (r1, ok (some b2))
  unfolding feed_responder answer_msg1
  answered = rw (respond_ok c p max_skew_ms hash v, feed_responder, answer_msg1) refl

  confirmed : feed_initiator c o p.ik_i p.ik_r.pub_ p.tag_key i0 b2 p.t3 ≡ (i1, ok (some b3))
  unfolding feed_initiator complete_initiator
  confirmed =
      rw (initiator_complete_ok c p max_skew_ms hash v, feed_initiator, complete_initiator) refl

  pub accepted : (feed_responder c o p.ik_r p.ik_i.pub_ p.tag_key r1 b3 draw).0 ≡ r2
  unfolding feed_responder complete_responder
  accepted =
      rw (responder_complete_ok c p max_skew_ms hash v, feed_responder, complete_responder) refl

  answer_lem : answer c o p i0 b1 ≡ (i1, r2)
  unfolding answer
  answer_lem = rw (answered, confirmed, accepted) refl

-- Two honest parties that feed each other's frames both end authenticated, with open sessions over the
-- ratchets of one session key.
pub establish_completes :
    (c : Crypto) (o : Opts) (p : Parties)
    → IsHash c
    → IsHonest c p max_skew_ms
    → (sk : Bytes) × (ikm : Bytes) × (establish c o p
        ≡ some (
          record {
            state = none;
            authenticated = true;
            session = some (
                ok (
                  ratchet_from c
                    (record {
                      role = initiator;
                      sk = sk;
                      ek_self = some p.ek_i;
                      ek_peer_pub = p.ek_r.pub_;
                      first_step_ikm = ikm;
                    })
                    o
                    p.t3));
          },
          record {
            pending = none;
            authenticated = true;
            session = some (
                ok (
                  ratchet_from c
                    (record {
                      role = responder;
                      sk = sk;
                      ek_self = none;
                      ek_peer_pub = p.ek_i.pub_;
                      first_step_ikm = ikm;
                    })
                    o
                    p.t2));
          },
        ))
establish_completes c o p hash v = (
  Honest.sk c p max_skew_ms hash v,
  Honest.dh3 c p max_skew_ms hash v,
  unfold establish in rw (started c o p hash v, establish, answer_lem c o p hash v) refl,
)
