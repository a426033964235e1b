-- ===== src/Ratchet/Opened.antt =====
-- What `decrypt` opens leaves its number spent.
use encedo_chat.Prelude.{
  Bool-cases, Option-cases, length, take, drop, Bytes, ℕ, ◌<◌, ◌≡◌, refl, sym, ap, ◌∙◌, subst, inl,
  inr, true, false, not, ◌&&◌, some, List, arith,
}
use encedo_chat.Crypto.{Crypto}
use encedo_chat.JsMap.{bytes_eq, nat_eq}
use encedo_chat.Ratchet.State.{
  Opts, Ratchet, World, Outcome, opened, every_same, message_key, kem_pub, dh_step,
}
use encedo_chat.Ratchet.Receiving.{
  advance, try_open, open_turn, open_frame, close_chain, turn_ikm, commit_turn, pruned, decrypt,
}
use encedo_chat.Ratchet.Headers.{Header, is_some, decode_header}
use encedo_chat.Ratchet.Skipped
use encedo_chat.Ratchet.Skipped.Absence.{prune-Lacks}
use encedo_chat.Ratchet.Skipped.Distinct.{IsMap, prune-IsMap}
use encedo_chat.Ratchet.Transaction.{
  is_opened, Case, stashed, same, unopened, turn, open_frame-Case,
}
use encedo_chat.Ratchet.Spent.{
  IsSpent, length-advance, open_stashed-IsSpent, open_same-IsSpent, commit_turn-IsSpent,
}

module _ (c : Crypto) (o : Opts) where
  -- A turn that did not move the ratchet, or one that was committed.
  pub data Turned (r : Ratchet) (w : World) (h : Header) : Ratchet × Outcome → Type 0 where
    stays : {p : Ratchet × Outcome} → p.0 ≡ r → is_opened p.1 ≡ false → Turned r w h p
    committed :
        {p : Ratchet × Outcome} (rk : Bytes) (closing keys : List Bytes) (end : Bytes)
        → length keys ≡ h.n
        → p.0 ≡ commit_turn c r w h rk closing keys end
        → Turned r w h p

  pub open_turn-Turned :
      (r : Ratchet) (w : World) (h : Header) (header ct : Bytes)
      → Turned r w h (open_turn c o r w h header ct)
  unfolding open_turn
  open_turn-Turned r w h header ct = elim (Option-cases r.dh_self) [
    | inl e ↦ simp (e, open_turn) (stays refl refl)
    | inr (d, e) ↦ elim (Bool-cases (is_some h.pq_ct && not (is_some (kem_pub r.pq_key)))) [
      | inl e1 ↦ simp (e, e1, open_turn) (stays refl refl)
      | inr e1 ↦ elim (Option-cases (close_chain c o r h.pn)) [
        | inl e2 ↦ simp (e, e1, e2, open_turn) (stays refl refl)
        | inr (closing, e2) ↦ elim (Option-cases (turn_ikm c r h (c.x25519 d.priv h.dh_pub))) [
          | inl e3 ↦ simp (e, e1, e2, e3, open_turn) (stays refl refl)
          | inr ((ikm, info), e3) ↦
              let (rk, ck) = dh_step c r.rk ikm info in
              elim (Option-cases (advance c o ck 0 h.n)) [
                | inl e4 ↦ simp (e, e1, e2, e3, e4, open_turn) (stays refl refl)
                | inr ((keys, end), e4) ↦
                    elim (Option-cases (try_open c (message_key c end) header ct h.n)) [
                      | inl e5 ↦ simp (e, e1, e2, e3, e4, e5, open_turn) (stays refl refl)
                      | inr (pt, e5) ↦
                          simp (e, e1, e2, e3, e4, e5, open_turn)
                            (committed rk closing keys end
                              (omega (arith, length-advance c o ck 0 h.n keys end e4)) refl)
                    ]
              ]
        ]
      ]
    ]
  ]

  -- What a frame opens leaves its number spent.
  Case-IsSpent :
      (r : Ratchet) (w : World) (h : Header) (header ct pt : Bytes) {p : Ratchet × Outcome}
      → IsMap r.skipped.chains
      → ((mk : Bytes)
          → Skipped.peek r.skipped h.dh_pub h.n ≡ some mk
          → (every_same h.dh_pub r.dh_peer_pub ≡ true) × (h.n < r.n_recv))
      → Case c o r w h header ct p
      → p.1 ≡ opened pt
      → IsSpent h p.0
  Case-IsSpent r w h header ct pt v late (stashed mk held) e =
      let (known, past) = late mk held in
      open_stashed-IsSpent c o r w h header ct pt v mk known past e
  Case-IsSpent r w h header ct pt v late (same ck missing known key) e =
      open_same-IsSpent c o r w h header ct pt v ck missing known e
  Case-IsSpent r w h header ct pt v late unopened e = absurd (cc)
  Case-IsSpent r w h header ct pt v late (turn missing new) e =
      elim (open_turn-Turned r w h header ct) [
        | stays is_p shut ↦ absurd (cc)
        | committed rk closing keys end size is_p ↦
            subst (IsSpent h) (sym is_p)
              (commit_turn-IsSpent c o r w h header ct pt v rk closing keys end missing new size)
      ]

  pub pruned-IsSpent :
      (h : Header) (r : Ratchet) (now : ℕ) → IsSpent h r → IsSpent h (pruned c r now)
  unfolding pruned
  pruned-IsSpent h r now v = record {
    known = v.known;
    past = v.past;
    gone = prune-Lacks h.dh_pub h.n r.skipped now v.gone;
  }

  pub decrypt-IsSpent :
      (h : Header) (r : Ratchet) (w : World) (frame pt : Bytes) (len : ℕ)
      → decode_header frame ≡ some (h, len)
      → IsMap r.skipped.chains
      → ((mk : Bytes)
          → Skipped.peek (pruned c r w.now).skipped h.dh_pub h.n ≡ some mk
          → (every_same h.dh_pub r.dh_peer_pub ≡ true) × (h.n < r.n_recv))
      → (decrypt c o r w frame).1 ≡ opened pt
      → IsSpent h (decrypt c o r w frame).0
  unfolding pruned
  decrypt-IsSpent h r w frame pt len read v late e =
      let b = pruned c r w.now in
      let p = open_frame c o b w h (take len frame) (drop len frame) in
      let is_p : decrypt c o r w frame ≡ p = unfold decrypt in rw (read, decrypt) refl in
      subst (λ q. IsSpent h q.0) (sym is_p)
        (Case-IsSpent b w h (take len frame) (drop len frame) pt (prune-IsMap r.skipped w.now v)
          late (open_frame-Case c o b w h (take len frame) (drop len frame))
          (ap (λ q. q.1) (sym is_p) ∙ e))
