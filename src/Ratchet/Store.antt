-- ===== src/Ratchet/Store.antt =====
-- What `decrypt` may do to the store of skipped keys.
use encedo_chat.Prelude.{
  ltb, Bool-cases, Option-cases, take, drop, Bytes, ℕ, ◌+◌, inl, inr, not, ◌&&◌, Option, none, some,
  List, [], ◌∷◌,
}
use encedo_chat.Crypto.{Crypto}
use encedo_chat.Ratchet.State.{
  Opts, Ratchet, World, Outcome, same_bytes, message_key, kem_pub, dh_step,
}
use encedo_chat.Ratchet.Receiving.{
  note_peer_pq_pub, stash, open_stashed, open_same, open_turn, pruned, decrypt, try_open, advance,
  close_chain, turn_ikm, commit_turn,
}
use encedo_chat.Ratchet.Headers.{Header, is_some, decode_header}
use encedo_chat.Ratchet.Skipped
use encedo_chat.Ratchet.Skipped.{SkippedKeys}
use encedo_chat.Ratchet.Skipped.Bounds.{
  IsBounded, put-IsBounded, drop_key-IsBounded, prune-IsBounded,
}
use encedo_chat.Ratchet.Transaction.{Case, stashed, same, unopened, turn, open_frame-Case}

module _ (c : Crypto) where
  stash-IsBounded :
      (keys : SkippedKeys) (dh_pub : Bytes) (from : ℕ) (mks : List Bytes) (now : ℕ)
      → IsBounded keys
      → IsBounded (stash c keys dh_pub from mks now)
  unfolding stash
  stash-IsBounded keys dh_pub from [] now v = v
  stash-IsBounded keys dh_pub from (mk ∷ mks) now v =
      stash-IsBounded (Skipped.put keys dh_pub from mk now) dh_pub (from + 1) mks now
        (put-IsBounded keys dh_pub from mk now v)

  note_peer_pq_pub-IsBounded :
      (r : Ratchet) (w : World) (p : Option Bytes)
      → IsBounded r.skipped
      → IsBounded (note_peer_pq_pub c r w p).skipped
  unfolding note_peer_pq_pub
  note_peer_pq_pub-IsBounded r w none v = v
  note_peer_pq_pub-IsBounded r w (some p) v = elim (Option-cases r.seen_peer_pq_pub) [
    | inl e ↦ rw (e, note_peer_pq_pub) v
    | inr (x, e) ↦ elim (Bool-cases (same_bytes x p)) [
      | inl e' ↦ rw (e, e', note_peer_pq_pub) v
      | inr e' ↦ rw (e, e', note_peer_pq_pub) v
    ]
  ]

  module _ (o : Opts) (r : Ratchet) (w : World) (v : IsBounded r.skipped) (h : Header)
      (header ct : Bytes) where
    open_stashed-IsBounded : (mk : Bytes) → IsBounded (open_stashed c r w h header ct mk).0.skipped
    unfolding open_stashed
    open_stashed-IsBounded mk = elim (Option-cases (try_open c mk header ct h.n)) [
      | inl e ↦ rw (e, open_stashed) v
      | inr (pt, e) ↦
          rw (e, open_stashed)
            (note_peer_pq_pub-IsBounded
              (record r { skipped = Skipped.drop_key r.skipped h.dh_pub h.n }) w h.pq_pub
              (drop_key-IsBounded r.skipped h.dh_pub h.n v))
    ]

    open_same-IsBounded : (ck : Bytes) → IsBounded (open_same c o r w h header ct ck).0.skipped
    unfolding open_same
    open_same-IsBounded ck = elim (Bool-cases (ltb h.n r.n_recv)) [
      | inl e ↦ rw (e, open_same) v
      | inr e ↦ elim (Option-cases (advance c o ck r.n_recv h.n)) [
        | inl e' ↦ rw (e, e', open_same) v
        | inr ((keys, end), e') ↦
            elim (Option-cases (try_open c (message_key c end) header ct h.n)) [
              | inl e2 ↦ rw (e, e', e2, open_same) v
              | inr (pt, e2) ↦
                  rw (e, e', e2, open_same)
                    (note_peer_pq_pub-IsBounded _ w h.pq_pub
                      (stash-IsBounded r.skipped h.dh_pub r.n_recv keys w.now v))
            ]
      ]
    ]

    commit_turn-IsBounded :
        (rk : Bytes) (closing keys : List Bytes) (end : Bytes)
        → IsBounded (commit_turn c r w h rk closing keys end).skipped
    unfolding commit_turn
    commit_turn-IsBounded rk closing keys end =
        let held =
          stash-IsBounded (stash c r.skipped r.dh_peer_pub r.n_recv closing w.now) h.dh_pub 0 keys
            w.now (stash-IsBounded r.skipped r.dh_peer_pub r.n_recv closing w.now v) in
        elim (Bool-cases (is_some h.pq_ct)) [
          | inl e ↦ rw (e, commit_turn) (note_peer_pq_pub-IsBounded _ w h.pq_pub held)
          | inr e ↦ rw (e, commit_turn) (note_peer_pq_pub-IsBounded _ w h.pq_pub held)
        ]

    open_turn-IsBounded : IsBounded (open_turn c o r w h header ct).0.skipped
    unfolding open_turn
    open_turn-IsBounded = elim (Option-cases r.dh_self) [
      | inl e ↦ rw (e, open_turn) v
      | inr (d, e) ↦ elim (Bool-cases (is_some h.pq_ct && not (is_some (kem_pub r.pq_key)))) [
        | inl e1 ↦ rw (e, e1, open_turn) v
        | inr e1 ↦ elim (Option-cases (close_chain c o r h.pn)) [
          | inl e2 ↦ rw (e, e1, e2, open_turn) v
          | inr (closing, e2) ↦ elim (Option-cases (turn_ikm c r h (c.x25519 d.priv h.dh_pub))) [
            | inl e3 ↦ rw (e, e1, e2, e3, open_turn) v
            | inr ((ikm, info), e3) ↦
                let (rk, ck) = dh_step c r.rk ikm info in
                elim (Option-cases (advance c o ck 0 h.n)) [
                  | inl e4 ↦ rw (e, e1, e2, e3, e4, open_turn) v
                  | inr ((keys, end), e4) ↦
                      elim (Option-cases (try_open c (message_key c end) header ct h.n)) [
                        | inl e5 ↦ rw (e, e1, e2, e3, e4, e5, open_turn) v
                        | inr (pt, e5) ↦
                            rw (e, e1, e2, e3, e4, e5, open_turn)
                              (commit_turn-IsBounded rk closing keys end)
                      ]
                ]
          ]
        ]
      ]
    ]

  Case-IsBounded :
      (o : Opts) (r : Ratchet) (w : World) (h : Header) (header ct : Bytes) {p : Ratchet × Outcome}
      → IsBounded r.skipped
      → Case c o r w h header ct p
      → IsBounded p.0.skipped
  Case-IsBounded o r w h header ct v (stashed mk held) =
      open_stashed-IsBounded o r w v h header ct mk
  Case-IsBounded o r w h header ct v (same ck missing known key) =
      open_same-IsBounded o r w v h header ct ck
  Case-IsBounded o r w h header ct v unopened = v
  Case-IsBounded o r w h header ct v (turn missing new) = open_turn-IsBounded o r w v h header ct

-- Whatever frame `decrypt` is given, and whether it opens or not, the store of skipped keys holds no
-- more chains than its bound if it held no more before.
pub decrypt-IsBounded :
    (c : Crypto) (o : Opts) (r : Ratchet) (w : World) (frame : Bytes)
    → IsBounded r.skipped
    → IsBounded (decrypt c o r w frame).0.skipped
unfolding pruned
decrypt-IsBounded c o r w frame v = elim (Option-cases (decode_header frame)) [
  | inl bad ↦ unfold decrypt in rw (bad, decrypt) v
  | inr ((h, len), good) ↦
      unfold decrypt in
      rw (good, decrypt)
        (Case-IsBounded c o (pruned c r w.now) w h (take len frame) (drop len frame)
          (prune-IsBounded r.skipped w.now v)
          (open_frame-Case c o (pruned c r w.now) w h (take len frame) (drop len frame)))
]
