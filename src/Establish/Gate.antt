-- ===== src/Establish/Gate.antt =====
-- What holds of a responder whatever frames it is fed.
use encedo_chat.Prelude.{
  Bool-cases, Bytes, Result-cases, Result, ◌≡◌, refl, sym, subst, ◌⊎◌, inl, inr, Bool, true, false,
  none, some, List, [], ◌∷◌, arith, ok, err,
}
use encedo_chat.Wire.{t_msg1, t_msg3}
use encedo_chat.Crypto.{Crypto, Dh}
use encedo_chat.Ratchet.State.{Ratchet, Opts, HandshakeResult, ratchet_from}
use encedo_chat.Handshake.{ResponderState, respond, responder_complete, max_skew_ms}
use encedo_chat.Establish.{
  EstablishError, Session, ResponderHs, Draw, has_type, start_responder, answer_msg1,
  complete_responder, feed_responder, expected_msg1, expected_msg3, shaken,
}

abbrev pub is_open : Session → Bool
is_open (some (ok r)) = true
is_open (some (err e)) = false
is_open none = false

shut-open : (s : Session) (e : EstablishError) → s ≡ some (err e) → is_open s ≡ true → ⊥
shut-open s e shut opens = cc

module _ (c : Crypto) (o : Opts) (ik : Dh) (peer tag_key : Bytes) where
  -- The frames that a responder is fed, one after the other, with what each call draws.
  unfoldable pub feed_all : ResponderHs → List (Bytes × Draw) → ResponderHs
  feed_all hs [] = hs
  feed_all hs ((frame, d) ∷ rest) = feed_all (feed_responder c o ik peer tag_key hs frame d).0 rest

  -- A responder that has not settled stays so only behind a msg1 that it answered.
  pub data First (frame : Bytes) (d : Draw) : ResponderHs → Type 0 where
    answered :
        {hs : ResponderHs} (msg2 : Bytes) (st : ResponderState)
        → respond c ik peer tag_key frame d.ek d.random d.now max_skew_ms ≡ ok (msg2, st)
        → hs ≡ record { pending = some st; authenticated = false; session = none }
        → First frame d hs
    failed : {hs : ResponderHs} (e : EstablishError) → hs.session ≡ some (err e) → First frame d hs

  answer_msg1-First :
      (frame : Bytes) (d : Draw)
      → First frame d
          (answer_msg1 c o ik peer tag_key (start_responder c o ik peer tag_key) frame d).0
  unfolding answer_msg1
  answer_msg1-First frame d =
      elim (Result-cases (respond c ik peer tag_key frame d.ek d.random d.now max_skew_ms)) [
        | inl ((msg2, st), e) ↦ answered msg2 st e (rw (e, answer_msg1) refl)
        | inr (e, bad) ↦ failed (shaken e) (rw (bad, answer_msg1) refl)
      ]

  feed_responder-First :
      (frame : Bytes) (d : Draw)
      → First frame d
          (feed_responder c o ik peer tag_key (start_responder c o ik peer tag_key) frame d).0
  unfolding feed_responder
  feed_responder-First frame d = elim (Bool-cases (has_type frame t_msg1)) [
    | inl msg1 ↦ rw (msg1, feed_responder) (answer_msg1-First frame d)
    | inr other ↦ failed expected_msg1 (rw (other, feed_responder) refl)
  ]

  -- The msg3 that a responder which waits for one accepted, or the error it was refused with.
  feed_responder-second :
      (st : ResponderState) (frame : Bytes) (d : Draw)
      → ((r : HandshakeResult) × (responder_complete c st frame ≡ ok r)
          × ((feed_responder c o ik peer tag_key
                (record { pending = some st; authenticated = false; session = none })
                frame
                d).0.session
              ≡ some (ok (ratchet_from c r o d.now))))
        ⊎ ((e : EstablishError) × ((feed_responder c o ik peer tag_key
                (record { pending = some st; authenticated = false; session = none })
                frame
                d).0.session
              ≡ some (err e)))
  unfolding feed_responder complete_responder
  feed_responder-second st frame d = elim (Bool-cases (has_type frame t_msg3)) [
    | inr other ↦ inr (expected_msg3, rw other refl)
    | inl msg3 ↦ elim (Result-cases (responder_complete c st frame)) [
      | inl (r, e) ↦ inl (r, e, rw (msg3, e, complete_responder) refl)
      | inr (e, bad) ↦ inr (shaken e, rw (msg3, bad, complete_responder) refl)
    ]
  ]

  feed_responder-settled :
      (hs : ResponderHs) (frame : Bytes) (d : Draw) (x : Result EstablishError Ratchet)
      → hs.session ≡ some x
      → (feed_responder c o ik peer tag_key hs frame d).0.session ≡ some x
  unfolding feed_responder answer_msg1 complete_responder
  feed_responder-settled hs frame d x e = ground arith

  feed_all-settled :
      (hs : ResponderHs) (frames : List (Bytes × Draw)) (x : Result EstablishError Ratchet)
      → hs.session ≡ some x
      → (feed_all hs frames).session ≡ some x
  unfolding feed_all
  feed_all-settled hs [] x e = e
  feed_all-settled hs ((frame, d) ∷ rest) x e =
      feed_all-settled (feed_responder c o ik peer tag_key hs frame d).0 rest x
        (feed_responder-settled hs frame d x e)

  -- The frames start with a msg1 that was answered and a msg3 that the state of the answer accepted,
  -- and the session is the one of that exchange.
  pub data OpenedBy : List (Bytes × Draw) → Session → Type 0 where
    opened_by :
        {msg1 msg3 : Bytes} {d1 d3 : Draw} {rest : List (Bytes × Draw)} {s : Session} (msg2 : Bytes)
        (st : ResponderState) (r : HandshakeResult)
        → respond c ik peer tag_key msg1 d1.ek d1.random d1.now max_skew_ms ≡ ok (msg2, st)
        → responder_complete c st msg3 ≡ ok r
        → s ≡ some (ok (ratchet_from c r o d3.now))
        → OpenedBy ((msg1, d1) ∷ (msg3, d3) ∷ rest) s

  waits-OpenedBy :
      (msg1 msg2 : Bytes) (d1 : Draw) (st : ResponderState) (rest : List (Bytes × Draw))
      → respond c ik peer tag_key msg1 d1.ek d1.random d1.now max_skew_ms ≡ ok (msg2, st)
      → is_open
          (feed_all
            (record { pending = some st; authenticated = false; session = none })
            rest).session
        ≡ true
      → OpenedBy
          ((msg1, d1) ∷ rest)
          (feed_all
            (record { pending = some st; authenticated = false; session = none })
            rest).session
  unfolding feed_all
  waits-OpenedBy msg1 msg2 d1 st [] e opens = absurd (cc)
  waits-OpenedBy msg1 msg2 d1 st ((msg3, d3) ∷ rest) e opens =
      elim (feed_responder-second st msg3 d3) [
        | inl (r, done, now_open) ↦ opened_by msg2 st r e done (feed_all-settled _ rest _ now_open)
        | inr (e', refused) ↦
            let still = feed_all-settled _ rest _ refused in absurd (shut-open _ e' still opens)
      ]

  First-OpenedBy :
      (msg1 : Bytes) (d1 : Draw) (hs : ResponderHs) (rest : List (Bytes × Draw))
      → First msg1 d1 hs
      → is_open (feed_all hs rest).session ≡ true
      → OpenedBy ((msg1, d1) ∷ rest) (feed_all hs rest).session
  First-OpenedBy msg1 d1 hs rest (answered msg2 st e is_hs) opens =
      subst (λ t. OpenedBy ((msg1, d1) ∷ rest) (feed_all t rest).session) (sym is_hs)
        (waits-OpenedBy msg1 msg2 d1 st rest e
          (subst (λ t. is_open (feed_all t rest).session ≡ true) is_hs opens))
  First-OpenedBy msg1 d1 hs rest (failed e shut) opens =
      absurd (shut-open _ e (feed_all-settled hs rest (err e) shut) opens)

  opens-OpenedBy :
      (frames : List (Bytes × Draw))
      → is_open (feed_all (start_responder c o ik peer tag_key) frames).session ≡ true
      → OpenedBy frames (feed_all (start_responder c o ik peer tag_key) frames).session
  unfolding feed_all
  opens-OpenedBy [] opens = absurd (cc)
  opens-OpenedBy ((frame, d) ∷ rest) opens =
      First-OpenedBy frame d _ rest (feed_responder-First frame d) opens

-- A responder that was fed any frames has an open session only if the first frame was a msg1 that it
-- answered and the second a msg3 that `responderComplete` accepted for the state of that answer, and
-- the session is the ratchet of that exchange, whatever came after.
pub session-needs-msg3 :
    (c : Crypto) (o : Opts) (ik : Dh) (peer tag_key : Bytes) (frames : List (Bytes × Draw))
    → is_open (feed_all c o ik peer tag_key (start_responder c o ik peer tag_key) frames).session
      ≡ true
    → OpenedBy c o ik peer tag_key frames
        (feed_all c o ik peer tag_key (start_responder c o ik peer tag_key) frames).session
session-needs-msg3 c o ik peer tag_key frames opens =
    opens-OpenedBy c o ik peer tag_key frames opens
