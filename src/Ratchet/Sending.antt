-- ===== src/Ratchet/Sending.antt =====
-- impl/eh2/ratchet.ts: `encrypt`, with the step that a new sending chain takes.
use encedo_chat.Prelude.{
  leb, if◌then◌else◌, Bytes, ◌+◌, false, ◌||◌, Option, none, some, [], ◌∷◌, ◌++◌,
}
use encedo_chat.Crypto.{Crypto, Dh}
use encedo_chat.Wc.{aead_nonce, concat}
use encedo_chat.Ratchet.Headers.{Header, encode_header, ◌>>=?◌}
use encedo_chat.Ratchet.State.{
  Opts, Ratchet, World, rk_info, rk_pq_info, kem_pub, dh_step, message_key, chain_next,
}

module _ (c : Crypto) where
  -- The root step of a new sending chain, hybrid if a secret is owed.
  unfoldable pub send_step : Ratchet → World → Ratchet × Bytes
  send_step r w =
      let dh = c.x25519 w.fresh_dh.priv r.dh_peer_pub in
      elim r.pending_ss [
        | some ss ↦
            let (rk, ck) = dh_step c r.rk (concat (dh ∷ ss ∷ [])) rk_pq_info in
            (
              record r {
                rk = rk;
                pending_ss = none;
                ct_in_flight = r.pending_ct;
                pending_ct = none;
                steps_since_pq = 0;
                last_pq_at = w.now;
                pq_steps_done = r.pq_steps_done + 1;
              },
              ck,
            )
        | none ↦
            let (rk, ck) = dh_step c r.rk dh rk_info in
            (record r { rk = rk; steps_since_pq = r.steps_since_pq + 1 }, ck)
      ]

  -- Time for a fresh encapsulation key of our own? Only when none is outstanding.
  unfoldable pub issue_key : Opts → Ratchet → World → Ratchet
  issue_key o r w = elim r.pq_key [
    | some k ↦ r
    | none ↦
        if leb o.pq_every_steps r.steps_since_pq || leb (r.last_pq_at + o.pq_every_ms) w.now
        then record r { pq_key = some w.fresh_kem }
        else r
  ]

  -- `if (stepBeforeSend || !ckSend) { … }`
  unfoldable pub begin_chain : Opts → Ratchet → World → Ratchet
  begin_chain o r w =
      let (r1, ck) = send_step r w in
      issue_key o
        (record r1 {
          dh_self = some w.fresh_dh;
          ck_send = some ck;
          pn = r.n_send;
          n_send = 0;
          step_before_send = false;
        })
        w

  unfoldable pub ready : Opts → Ratchet → World → Ratchet
  ready o r w = elim r.ck_send [
    | none ↦ begin_chain o r w
    | some ck ↦ if r.step_before_send then begin_chain o r w else r
  ]

  unfoldable pub header_of : Ratchet → Dh → Header
  header_of r d = record {
    dh_pub = d.pub_;
    pn = r.pn;
    n = r.n_send;
    pq_ct = r.ct_in_flight;
    pq_pub = kem_pub r.pq_key;
  }

  -- The frame under the current chain key; `none` where the source would meet a null.
  unfoldable pub seal_next : Ratchet → Bytes → Option (Ratchet × Bytes)
  seal_next r plaintext = r.ck_send >>=? λ ck.
      (r.dh_self >>=? λ d.
      let mk = message_key c ck in
      let header = encode_header (header_of r d) in
      some (
        record r { ck_send = some (chain_next c ck); n_send = r.n_send + 1 },
        header ++ c.seal mk (aead_nonce c mk r.n_send) header plaintext,
      ))

  unfoldable pub encrypt : Opts → Ratchet → World → Bytes → Option (Ratchet × Bytes)
  encrypt o r w plaintext = seal_next (ready o r w) plaintext
