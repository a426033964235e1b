-- ===== src/Handshake/Session.antt =====
-- The session that a handshake starts: both ratchets, and the first message over them.
use encedo_chat.Prelude.{length, Bytes, ℕ, ◌≡◌, refl, none, some, arith, ok}
use encedo_chat.Crypto.{Crypto, Dh, IsAead, IsHash}
use encedo_chat.Ratchet.State.{
  Ratchet, Opts, World, HandshakeResult, initiator, responder, ratchet_from, dh_step, rk_info,
  opened,
}
use encedo_chat.Ratchet.Sending.{ready, header_of}
use encedo_chat.Ratchet.Receiving.{pruned, walk_chain}
use encedo_chat.Ratchet.Delivery.{InStep, deliver, deliver_opens}
use encedo_chat.Ratchet.Skipped
use encedo_chat.Ratchet.Skipped.{prune_chains}
use encedo_chat.JsMap.{lookup}
use encedo_chat.Handshake.Honest.{Parties, IsHonest, shake, shake_agrees}

-- The ratchets of two results with one session key and one first input.
ratchets-InStep :
    (c : Crypto) (o : Opts) (ek : Dh) (sk ikm peer_i : Bytes) (now_i now_r : ℕ) (w : World) (at : ℕ)
    → length ek.pub_ ≡ 32
    → InStep c o
        (ready c o
          (ratchet_from c
            (record {
              role = initiator;
              sk = sk;
              ek_self = some ek;
              ek_peer_pub = peer_i;
              first_step_ikm = ikm;
            })
            o
            now_i)
          w)
        (pruned c
          (ratchet_from c
            (record {
              role = responder;
              sk = sk;
              ek_self = none;
              ek_peer_pub = ek.pub_;
              first_step_ikm = ikm;
            })
            o
            now_r)
          at)
unfolding ratchet_from ready pruned Skipped.prune prune_chains Skipped.peek lookup header_of
    walk_chain
ratchets-InStep c o ek sk ikm peer_i now_i now_r w at size = record {
  d = ek;
  ck = (dh_step c sk ikm rk_info).1;
  behind_ck = (dh_step c sk ikm rk_info).1;
  own = refl;
  sending = refl;
  header = record { dh_pub = size; pn = omega arith; n = omega arith; pq_ct = tt; pq_pub = tt };
  receiving = refl;
  known = refl;
  behind = omega arith;
  near = omega arith;
  reaches = refl;
  unseen = refl;
}

-- Two honest parties that complete the handshake hold ratchets over which the first message of the
-- initiator opens at the responder to its plaintext, and both are at the same chain key and number
-- behind it.
pub session_opens :
    (c : Crypto) (o : Opts) (p : Parties) (max_skew now_i now_r : ℕ) (wi wr : World)
    (plaintext : Bytes)
    → IsHash c
    → IsAead c
    → IsHonest c p max_skew
    → (ri : HandshakeResult) × (rr : HandshakeResult) × (a : Ratchet) × (b : Ratchet) × (shake c p
          max_skew
        ≡ ok (ri, rr))
      × (deliver c o (ratchet_from c ri o now_i) (ratchet_from c rr o now_r) wi wr plaintext
          ≡ some (a, (b, opened plaintext)))
      × (b.ck_recv ≡ a.ck_send)
      × (b.n_recv ≡ a.n_send)
session_opens c o p max_skew now_i now_r wi wr plaintext hash aead v =
    let (sk, ikm, done) = shake_agrees c p max_skew hash v in
    let ri : HandshakeResult = record {
      role = initiator;
      sk = sk;
      ek_self = some p.ek_i;
      ek_peer_pub = p.ek_r.pub_;
      first_step_ikm = ikm;
    } in
    let rr : HandshakeResult = record {
      role = responder;
      sk = sk;
      ek_self = none;
      ek_peer_pub = p.ek_i.pub_;
      first_step_ikm = ikm;
    } in
    let (a, b, opens, chain, number) =
      deliver_opens c o (ratchet_from c ri o now_i) (ratchet_from c rr o now_r) wi wr plaintext aead
        (ratchets-InStep c o p.ek_i sk ikm p.ek_r.pub_ now_i now_r wi wr.now v.ek_i) in
    (ri, rr, a, b, done, opens, chain, number)
