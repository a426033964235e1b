-- ===== src/Handshake/Tests.antt =====
-- Runs of the handshake over a toy of the cryptography, and the theorems at concrete parties.
use encedo_chat.Prelude.{
  get_or, replicate, length-replicate, Bytes, ◌>>=◌, ℕ, ◌+◌, ◌-◌, ◌≤◌, ◌≡◌, ap, ◌≢◌, ◌↔◌, none,
  some, [], ◌∷◌, ◌++◌, arith, ok, err,
}
use encedo_chat.Ratchet.State.{
  Ratchet, HandshakeResult, World, default_opts, ratchet_from, initiator, responder, opened,
}
use encedo_chat.Ratchet.Delivery.{deliver}
use encedo_chat.Wire.{Msg1, Msg2, decode_msg1, decode_msg2, h2_partial}
use encedo_chat.Handshake.{
  InitiatorState, ResponderState, own_identity, initiate, respond, responder_complete, mac, label_i,
  label_r,
}
use encedo_chat.Handshake.Honest.{Parties, IsHonest, shake, shake_agrees}
use encedo_chat.Wire.RoundTrip.{msg2_bytes}
use encedo_chat.Handshake.Honest
use encedo_chat.Toy.{toy, toy-IsHash, toy-IsAead, key, pq, parties, parties-IsHonest}
use encedo_chat.Handshake.Session.{session_opens}
use encedo_chat.Handshake.Guards.{
  respond-guards, responder_complete_iff, initiator_complete-guards, own_window-refused,
}

shake_agrees_example :
    (sk : Bytes) × (ikm : Bytes) × (shake toy parties 300_000
      ≡ ok (
        record {
          role = initiator;
          sk = sk;
          ek_self = some (key 3);
          ek_peer_pub = replicate 32 4;
          first_step_ikm = ikm;
        },
        record {
          role = responder;
          sk = sk;
          ek_self = none;
          ek_peer_pub = replicate 32 3;
          first_step_ikm = ikm;
        },
      ))
shake_agrees_example = shake_agrees toy parties 300_000 toy-IsHash parties-IsHonest

abbrev world : World
world = record { now = 5; fresh_dh = key 5; fresh_kem = pq; random = 2 ∷ [] }

session_opens_example :
    (ri : HandshakeResult) × (rr : HandshakeResult) × (a : Ratchet) × (b : Ratchet) × (shake toy
        parties 300_000
      ≡ ok (ri, rr))
    × (deliver toy default_opts
          (ratchet_from toy ri default_opts 1)
          (ratchet_from toy rr default_opts 2)
          world
          world
          (65 ∷ [])
        ≡ some (a, (b, opened (65 ∷ []))))
    × (b.ck_recv ≡ a.ck_send)
    × (b.n_recv ≡ a.n_send)
session_opens_example =
    session_opens toy default_opts parties 300_000 1 2 world world (65 ∷ []) toy-IsHash toy-IsAead
      parties-IsHonest

tags_differ :
    toy.hmac (replicate 32 9) (replicate 32 1) ≢ toy.hmac (replicate 32 9) (replicate 32 2)
unfolding replicate get_or
tags_differ e = let d : 10 ≡ 11 = ap (λ t. get_or t 0 0) e in absurd (omega (arith, d))

own_window-refused_example :
    (initiate toy (key 1) (replicate 32 2) (replicate 32 9) (key 3) pq 1_000_000 300_000
      >>= λ (msg1, _).
          respond toy
            (key 1)
            (replicate 32 2)
            (replicate 32 9)
            msg1
            (key 4)
            (7 ∷ [])
            1_000_001
            300_000)
    ≡ err own_identity
own_window-refused_example =
    own_window-refused toy (key 1) (key 3) (key 4) pq (replicate 32 2) (replicate 32 9) (7 ∷ [])
      1_000_000 1_000_001 300_000 toy-IsHash (length-replicate {A = ℕ} 32 2)
      (length-replicate {A = ℕ} 32 9) (length-replicate {A = ℕ} 32 3)
      (length-replicate {A = ℕ} 1184 6) (omega arith) (omega arith) tags_differ

abbrev waiting : ResponderState
waiting = record {
  sk = replicate 32 1;
  h3 = replicate 32 2;
  ek_peer_pub = replicate 32 3;
  first_step_ikm = replicate 32 4;
}

abbrev complete : HandshakeResult
complete = record {
  role = responder;
  sk = replicate 32 1;
  ek_self = none;
  ek_peer_pub = replicate 32 3;
  first_step_ikm = replicate 32 4;
}

responder_complete_iff_example :
    (responder_complete toy waiting
        (3 ∷ 3 ∷ mac toy (replicate 32 1) label_i (replicate 32 2) ++ [])
      ≡ ok complete)
    ↔ ((3 ∷ 3 ∷ mac toy (replicate 32 1) label_i (replicate 32 2) ++ []
          ≡ 3 ∷ 3 ∷ mac toy (replicate 32 1) label_i (replicate 32 2) ++ [])
        × (complete ≡ complete))
unfolding mac
responder_complete_iff_example =
    responder_complete_iff toy waiting
      (3 ∷ 3 ∷ mac toy (replicate 32 1) label_i (replicate 32 2) ++ []) complete
      (toy-IsHash.hmac_size (replicate 32 1) _)

respond-guards_example :
    (m : Msg1) × (decode_msg1 (Honest.b1 toy parties 300_000 toy-IsHash parties-IsHonest) ≡ ok m)
    × (m.initiator_tag ≡ toy.hmac (replicate 32 9) (replicate 32 1))
    × ((1_100_000 - m.ts) + (m.ts - 1_100_000) ≤ 300_000)
    × ((Honest.st_r toy parties 300_000 toy-IsHash parties-IsHonest).ek_peer_pub ≡ m.ek_pub)
respond-guards_example =
    respond-guards toy (key 2) (key 4) (replicate 32 1) (replicate 32 9)
      (Honest.b1 toy parties 300_000 toy-IsHash parties-IsHonest) (7 ∷ [])
      (msg2_bytes (Honest.m2 toy parties 300_000 toy-IsHash parties-IsHonest)) 1_100_000 300_000
      (Honest.st_r toy parties 300_000 toy-IsHash parties-IsHonest)
      (Honest.respond_ok toy parties 300_000 toy-IsHash parties-IsHonest)

abbrev i_state : InitiatorState
i_state = Honest.st_i toy parties 300_000 toy-IsHash parties-IsHonest

abbrev msg2 : Bytes
msg2 = msg2_bytes (Honest.m2 toy parties 300_000 toy-IsHash parties-IsHonest)

abbrev i_result : HandshakeResult
i_result = Honest.result_i toy parties 300_000 toy-IsHash parties-IsHonest

initiator_complete-guards_example :
    (m : Msg2) × (h2p : Bytes) × (decode_msg2 msg2 ≡ ok m)
    × (h2_partial toy.sha256 i_state.msg1_bytes m.ek_pub m.pq_ct m.ts ≡ ok h2p)
    × (m.mac_r ≡ mac toy i_result.sk label_r h2p)
    × ((1_000_500 - m.ts) + (m.ts - 1_000_500) ≤ 300_000)
    × (i_result.ek_peer_pub ≡ m.ek_pub)
initiator_complete-guards_example =
    initiator_complete-guards toy i_state msg2 _ 1_000_500 i_result
      (Honest.initiator_complete_ok toy parties 300_000 toy-IsHash parties-IsHonest)
