-- ===== src/Establish.antt =====
-- impl/eh2/establish.ts: a handshake fed with frames. The promise of the session is an option that the
-- first `resolve` or `reject` fills. The choice between this engine, the WASM one and the native one is
-- not modelled.
pub mod Gate
pub mod Run
mod Tests
use encedo_chat.Prelude.{
  ltb, ◌==◌, if◌then◌else◌, length, get_or, Bytes, Result, ℕ, Bool, true, false, ◌&&◌, ◌||◌, Option,
  none, some, List, [], ◌∷◌, ok, err,
}
use encedo_chat.Crypto.{Crypto, Dh, KemKey}
use encedo_chat.Ratchet.State.{Ratchet, Opts, HandshakeResult, ratchet_from}
use encedo_chat.Wire.{t_msg1, t_msg2, t_msg3}
use encedo_chat.Handshake.{
  InitiatorState, ResponderState, HandshakeError, initiate, respond, initiator_complete,
  responder_complete, max_skew_ms, left_by,
}

pub data EstablishError : Type 0 where
  shaken : HandshakeError → EstablishError
  completed_already : EstablishError
  expected_msg1 expected_msg2 expected_msg3 : EstablishError

-- Pending, resolved with a ratchet, or rejected.
abbrev pub Session : Type 0
Session = Option (Result EstablishError Ratchet)

-- The first one to settle a promise wins.
abbrev pub settle : Session → Result EstablishError Ratchet → Session
settle none r = some r
settle (some x) r = some x

pub record InitiatorHs : Type 0 where
  pub state : Option InitiatorState
  pub authenticated : Bool
  pub session : Session

pub record ResponderHs : Type 0 where
  pub pending : Option ResponderState
  pub authenticated : Bool
  pub session : Session

-- What a call of `feed` answers: a frame to send, nothing, or what it throws.
abbrev pub Fed : Type 0
Fed = Result EstablishError (Option Bytes)

unfoldable pub is_handshake_frame : Bytes → Bool
is_handshake_frame frame =
    ltb 2 (length frame)
    && ((get_or frame 0 0 == t_msg1)
        || ((get_or frame 0 0 == t_msg2) || (get_or frame 0 0 == t_msg3)))

-- Whether a frame has a type; an empty one has none.
abbrev pub has_type : Bytes → ℕ → Bool
has_type [] t = false
has_type (x ∷ xs) t = x == t

-- What a call may draw: the time, and ephemeral keys and randomness for one that answers.
pub record Draw : Type 0 where
  pub now : ℕ
  pub ek : Dh
  pub random : Bytes

module _ (c : Crypto) (o : Opts) (ik : Dh) (peer_ik_pub tag_key : Bytes) where
  unfoldable pub start_initiator :
      Dh → KemKey → ℕ → Result EstablishError (List Bytes × InitiatorHs)
  start_initiator ek pq now = elim (initiate c ik peer_ik_pub tag_key ek pq now max_skew_ms) [
    | ok (msg1, st) ↦
        ok (msg1 ∷ [], record { state = some st; authenticated = false; session = none })
    | err e ↦ err (shaken e)
  ]

  abbrev pub start_responder : ResponderHs
  start_responder = record { pending = none; authenticated = false; session = none }

  -- `initiatorComplete` and what follows it.
  unfoldable pub complete_initiator : InitiatorHs → InitiatorState → Bytes → ℕ → InitiatorHs × Fed
  complete_initiator hs st frame now = elim (initiator_complete c st frame now) [
    | ok (msg3, result) ↦ (
      record {
        state = none;
        authenticated = true;
        session = settle hs.session (ok (ratchet_from c result o now));
      },
      ok (some msg3),
    )
    | err e ↦ (record hs { session = settle hs.session (err (shaken e)) }, err (shaken e))
  ]

  unfoldable pub feed_initiator : InitiatorHs → Bytes → ℕ → InitiatorHs × Fed
  feed_initiator hs frame now = elim hs.state [
    | none ↦ (hs, err completed_already)
    | some st ↦
        if has_type frame t_msg2
        then complete_initiator hs st frame now
        else (hs, err expected_msg2)
  ]

  -- What a responder's `feed` throws also rejects the session.
  abbrev pub refuse : ResponderHs → EstablishError → ResponderHs × Fed
  refuse hs e = (record hs { session = settle hs.session (err e) }, err e)

  unfoldable pub answer_msg1 : ResponderHs → Bytes → Draw → ResponderHs × Fed
  answer_msg1 hs frame d =
      elim (respond c ik peer_ik_pub tag_key frame d.ek d.random d.now max_skew_ms) [
        | ok (msg2, st) ↦ (record hs { pending = some st }, ok (some msg2))
        | err e ↦ refuse hs (shaken e)
      ]

  unfoldable pub complete_responder : ResponderHs → ResponderState → Bytes → ℕ → ResponderHs × Fed
  complete_responder hs st frame now = elim (responder_complete c st frame) [
    | ok result ↦ (
      record {
        pending = none;
        authenticated = true;
        session = settle hs.session (ok (ratchet_from c result o now));
      },
      ok none,
    )
    | err e ↦ refuse (record hs { pending = some (left_by e st) }) (shaken e)
  ]

  unfoldable pub feed_responder : ResponderHs → Bytes → Draw → ResponderHs × Fed
  feed_responder hs frame d = elim hs.pending [
    | none ↦ if has_type frame t_msg1 then answer_msg1 hs frame d else refuse hs expected_msg1
    | some st ↦
        if has_type frame t_msg3
        then complete_responder hs st frame d.now
        else refuse hs expected_msg3
  ]
