-- ===== src/Establish/Tests.antt =====
-- The theorems on establishing a session, at toy parties.
use encedo_chat.Prelude.{replicate, Bytes, ◌≡◌, ap, ◌∙◌, true, none, some, List, [], ◌∷◌, ok}
use encedo_chat.Ratchet.State.{initiator, responder, default_opts, ratchet_from}
use encedo_chat.Toy.{toy, toy-IsHash, parties, parties-IsHonest, key}
use encedo_chat.Establish.{ResponderHs, Draw, start_responder, feed_responder}
use encedo_chat.Establish.Gate.{feed_all, is_open, OpenedBy, session-needs-msg3}
use encedo_chat.Establish.Run.{establish, establish_completes, b1, b3, draw, answered, accepted}

establish_completes_example :
    (sk : Bytes) × (ikm : Bytes) × (establish toy default_opts parties
      ≡ some (
        record {
          state = none;
          authenticated = true;
          session = some (
              ok (
                ratchet_from toy
                  (record {
                    role = initiator;
                    sk = sk;
                    ek_self = some (key 3);
                    ek_peer_pub = replicate 32 4;
                    first_step_ikm = ikm;
                  })
                  default_opts
                  1_000_500));
        },
        record {
          pending = none;
          authenticated = true;
          session = some (
              ok (
                ratchet_from toy
                  (record {
                    role = responder;
                    sk = sk;
                    ek_self = none;
                    ek_peer_pub = replicate 32 3;
                    first_step_ikm = ikm;
                  })
                  default_opts
                  1_100_000));
        },
      ))
establish_completes_example =
    establish_completes toy default_opts parties toy-IsHash parties-IsHonest

abbrev frames : List (Bytes × Draw)
frames =
    (
      b1 toy default_opts parties toy-IsHash parties-IsHonest,
      draw toy default_opts parties toy-IsHash parties-IsHonest,
    )
    ∷ (
      b3 toy default_opts parties toy-IsHash parties-IsHonest,
      draw toy default_opts parties toy-IsHash parties-IsHonest,
    )
    ∷ []

frames_open :
    is_open
      (feed_all toy default_opts
        (key 2)
        (replicate 32 1)
        (replicate 32 9)
        (start_responder toy default_opts (key 2) (replicate 32 1) (replicate 32 9))
        frames).session
    ≡ true
unfolding feed_all
frames_open =
    ap (λ hs. is_open (ResponderHs.session hs))
      (ap
          (λ q.
            (feed_responder toy default_opts (key 2) (replicate 32 1) (replicate 32 9) q.0
              (b3 toy default_opts parties toy-IsHash parties-IsHonest)
              (draw toy default_opts parties toy-IsHash parties-IsHonest)).0)
          (answered toy default_opts parties toy-IsHash parties-IsHonest)
        ∙ accepted toy default_opts parties toy-IsHash parties-IsHonest)

session-needs-msg3_example :
    OpenedBy toy default_opts
      (key 2)
      (replicate 32 1)
      (replicate 32 9)
      frames
      (feed_all toy default_opts
        (key 2)
        (replicate 32 1)
        (replicate 32 9)
        (start_responder toy default_opts (key 2) (replicate 32 1) (replicate 32 9))
        frames).session
session-needs-msg3_example =
    session-needs-msg3 toy default_opts (key 2) (replicate 32 1) (replicate 32 9) frames frames_open
