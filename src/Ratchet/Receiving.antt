-- ===== src/Ratchet/Receiving.antt =====
-- impl/eh2/ratchet.ts: `decrypt`, with its four cases.
use encedo_chat.Prelude.{
  ltb, if◌then◌else◌, take, drop, Bytes, ℕ, zero, suc, ◌+◌, ◌-◌, true, not, ◌&&◌, Option, none,
  some, List, [], ◌∷◌,
}
use encedo_chat.Crypto.{Crypto}
use encedo_chat.Wc.{aead_nonce, concat}
use encedo_chat.Ratchet.Headers.{is_some, Header, decode_header, ◌>>=?◌}
use encedo_chat.Ratchet.Skipped.{SkippedKeys}
use encedo_chat.Ratchet.Skipped
use encedo_chat.Ratchet.State.{
  Opts, Ratchet, World, Outcome, rk_info, rk_pq_info, every_same, same_bytes, kem_pub, dh_step,
  message_key, chain_next, null, opened, over_bound,
}

module _ (c : Crypto) where
  -- The loop of `advance`: the keys passed over, and the chain key behind them.
  unfoldable pub walk_chain : ℕ → Bytes → List Bytes × Bytes
  walk_chain zero ck = ([], ck)
  walk_chain (suc n) ck =
      let (keys, end) = walk_chain n (chain_next c ck) in (message_key c ck ∷ keys, end)

  -- `advance`; `none` is the thrown `RatchetError`.
  unfoldable pub advance : Opts → Bytes → ℕ → ℕ → Option (List Bytes × Bytes)
  advance o ck from to =
      if ltb o.max_skip (to - from) then none else some (walk_chain (to - from) ck)

  unfoldable pub try_open : Bytes → Bytes → Bytes → ℕ → Option Bytes
  try_open mk header ct n = c.unseal mk (aead_nonce c mk n) header ct

  -- `notePeerPqPub`
  unfoldable pub note_peer_pq_pub : Ratchet → World → Option Bytes → Ratchet
  note_peer_pq_pub r w none = r
  note_peer_pq_pub r w (some pub_) =
      let (ct, ss) = c.encapsulate pub_ w.random in
      let noted = record r {
        pending_ss = some ss;
        pending_ct = some ct;
        seen_peer_pq_pub = some pub_;
      } in
      elim r.seen_peer_pq_pub [
        | none ↦ noted
        | some seen ↦ if same_bytes seen pub_ then r else noted
      ]

  -- `for (i …) skipped.put(pub, from + i, keys[i], now())`
  unfoldable pub stash : SkippedKeys → Bytes → ℕ → List Bytes → ℕ → SkippedKeys
  stash keys dh_pub from [] now = keys
  stash keys dh_pub from (mk ∷ mks) now =
      stash (Skipped.put keys dh_pub from mk now) dh_pub (from + 1) mks now

  -- 1. A key that was derived for a message that overtook this one.
  unfoldable pub open_stashed : Ratchet → World → Header → Bytes → Bytes → Bytes → Ratchet × Outcome
  open_stashed r w h header ct mk = elim (try_open mk header ct h.n) [
    | none ↦ (r, null)
    | some pt ↦ (
      note_peer_pq_pub (record r { skipped = Skipped.drop_key r.skipped h.dh_pub h.n }) w h.pq_pub,
      opened pt,
    )
  ]

  -- 2. The same chain, walked forward. The state moves only if the frame opens.
  unfoldable pub open_same :
      Opts → Ratchet → World → Header → Bytes → Bytes → Bytes → Ratchet × Outcome
  open_same o r w h header ct ck =
      if ltb h.n r.n_recv then (r, null) else (elim (advance o ck r.n_recv h.n) [
        | none ↦ (r, over_bound)
        | some (keys, end) ↦ elim (try_open (message_key c end) header ct h.n) [
          | none ↦ (r, null)
          | some pt ↦ (
            note_peer_pq_pub
                (record r {
                  skipped = stash r.skipped h.dh_pub r.n_recv keys w.now;
                  ck_recv = some (chain_next c end);
                  n_recv = h.n + 1;
                })
                w h.pq_pub,
            opened pt,
          )
        ]
      ])

  -- The key is the current one: `if (sameKey && !ckRecv) return null`, then the walk.
  unfoldable pub open_current :
      Opts → Ratchet → World → Header → Bytes → Bytes → Option Bytes → Ratchet × Outcome
  open_current o r w h header ct none = (r, null)
  open_current o r w h header ct (some ck) = open_same o r w h header ct ck

  -- The keys of the chain that a turn closes.
  unfoldable pub close_chain : Opts → Ratchet → ℕ → Option (List Bytes)
  close_chain o r pn = elim r.ck_recv [
    | none ↦ some []
    | some ck ↦ advance o ck r.n_recv pn >>=? λ (keys, end). some keys
  ]

  -- The ikm and label of the turn: hybrid where the header carries a ciphertext. `none` where there is
  -- no key for it, or it does not decapsulate.
  unfoldable pub turn_ikm : Ratchet → Header → Bytes → Option (Bytes × Bytes)
  turn_ikm r h dh = elim h.pq_ct [
    | none ↦ some (dh, rk_info)
    | some ct ↦ r.pq_key >>=? λ k.
        (c.decapsulate k.priv ct >>=? λ ss. some (concat (dh ∷ ss ∷ []), rk_pq_info))
  ]

  -- What a verified turn commits.
  unfoldable pub commit_turn :
      Ratchet → World → Header → Bytes → List Bytes → List Bytes → Bytes → Ratchet
  commit_turn r w h rk closing keys end =
      let held =
        stash (stash r.skipped r.dh_peer_pub r.n_recv closing w.now) h.dh_pub 0 keys w.now in
      let turned = record r {
        rk = rk;
        ck_recv = some (chain_next c end);
        dh_peer_pub = h.dh_pub;
        n_recv = h.n + 1;
        step_before_send = true;
        ct_in_flight = none;
        skipped = held;
      } in
      let counted =
        if is_some h.pq_ct
        then record turned {
          pq_key = none;
          steps_since_pq = 0;
          last_pq_at = w.now;
          pq_steps_done = r.pq_steps_done + 1;
        }
        else turned in
      note_peer_pq_pub counted w h.pq_pub

  -- 3. The conversation turned: a new chain of the peer, provisional until the frame opens.
  unfoldable pub open_turn : Opts → Ratchet → World → Header → Bytes → Bytes → Ratchet × Outcome
  open_turn o r w h header ct = elim r.dh_self [
    | none ↦ (r, null)
    | some d ↦
        if is_some h.pq_ct && not (is_some (kem_pub r.pq_key))
        then (r, null)
        else (elim (close_chain o r h.pn) [
          | none ↦ (r, over_bound)
          | some closing ↦ elim (turn_ikm r h (c.x25519 d.priv h.dh_pub)) [
            | none ↦ (r, null)
            | some (ikm, info) ↦
                let (rk, ck) = dh_step c r.rk ikm info in
                elim (advance o ck 0 h.n) [
                  | none ↦ (r, over_bound)
                  | some (keys, end) ↦ elim (try_open (message_key c end) header ct h.n) [
                    | none ↦ (r, null)
                    | some pt ↦ (commit_turn r w h rk closing keys end, opened pt)
                  ]
                ]
          ]
        ])
  ]

  -- A frame whose header was read, against a ratchet whose old keys were pruned.
  unfoldable pub open_frame : Opts → Ratchet → World → Header → Bytes → Bytes → Ratchet × Outcome
  open_frame o r w h header ct = elim (Skipped.peek r.skipped h.dh_pub h.n) [
    | some mk ↦ open_stashed r w h header ct mk
    | none ↦
        if every_same h.dh_pub r.dh_peer_pub
        then open_current o r w h header ct r.ck_recv
        else open_turn o r w h header ct
  ]

  unfoldable pub pruned : Ratchet → ℕ → Ratchet
  pruned r now = record r { skipped = Skipped.prune r.skipped now }

  unfoldable pub decrypt : Opts → Ratchet → World → Bytes → Ratchet × Outcome
  decrypt o r w frame = elim (decode_header frame) [
    | none ↦ (r, null)
    | some (h, len) ↦ open_frame o (pruned r w.now) w h (take len frame) (drop len frame)
  ]
