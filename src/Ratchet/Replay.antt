-- ===== src/Ratchet/Replay.antt =====
-- A frame that opened does not open again.
use encedo_chat.Prelude.{
  ltb, lt→ltb, Bool-cases, Option-cases, take, drop, Bytes, ℕ, ◌<◌, ◌≡◌, refl, sym, ap, ◌∙◌, subst,
  inl, inr, true, some, List, arith,
}
use encedo_chat.Crypto.{Crypto}
use encedo_chat.JsMap.{bytes_eq, nat_eq}
use encedo_chat.Ratchet.State.{Opts, Ratchet, World, Outcome, null, opened, every_same, message_key}
use encedo_chat.Ratchet.Sending.{encrypt, ready, begin_chain, send_step, issue_key, seal_next}
use encedo_chat.Ratchet.Receiving.{
  advance, try_open, open_stashed, open_same, open_current, open_frame, commit_turn, pruned,
  decrypt,
}
use encedo_chat.Ratchet.Headers.{Header, is_some, decode_header}
use encedo_chat.Ratchet.Delivery.{every_same_self, note_peer_pq_pub-chain}
use encedo_chat.Ratchet.Skipped
use encedo_chat.Ratchet.Skipped.Absence.{Lacks, peek-Lacks}
use encedo_chat.Ratchet.Skipped.Distinct.{IsMap, drop_key_keeps-Lacks}
use encedo_chat.Ratchet.Transaction.{Case, stashed, same, unopened, turn, open_frame-Case}
use encedo_chat.Ratchet.Spent.{IsSpent, stash_behind-Lacks, note_peer_pq_pub-IsSpent}
use encedo_chat.Ratchet.Opened.{stays, committed, open_turn-Turned, pruned-IsSpent, decrypt-IsSpent}

module _ (c : Crypto) (o : Opts) where
  -- A frame with a spent number is refused.
  IsSpent-refused :
      (h : Header) (r : Ratchet) (w : World) (header ct : Bytes)
      → IsSpent h r
      → open_frame c o r w h header ct ≡ (r, null)
  unfolding open_frame open_current open_same
  IsSpent-refused h r w header ct v =
      let missing = peek-Lacks h.dh_pub h.n r.skipped v.gone in
      let late : ltb h.n r.n_recv ≡ true = lt→ltb h.n r.n_recv v.past in
      rw (missing, v.known, open_frame)
        (elim (Option-cases r.ck_recv) [ inl e ↦ rw e refl | inr (ck, e) ↦ rw (e, late) refl ])

  -- Other frames of the chain leave it spent.
  module _ (h : Header) (r : Ratchet) (w : World) (v : IsSpent h r) (i : Header)
      (header ct : Bytes) where
    open_stashed-stays : (mk : Bytes) → IsSpent h (open_stashed c r w i header ct mk).0
    unfolding open_stashed
    open_stashed-stays mk = elim (Option-cases (try_open c mk header ct i.n)) [
      | inl shut ↦ rw (shut, open_stashed) v
      | inr (pt, opens) ↦
          rw (opens, open_stashed)
            (note_peer_pq_pub-IsSpent c h
              (record r { skipped = Skipped.drop_key r.skipped i.dh_pub i.n }) w i.pq_pub
              (record {
                known = v.known;
                past = v.past;
                gone = drop_key_keeps-Lacks h.dh_pub h.n r.skipped i.dh_pub i.n v.gone;
              }))
    ]

    open_same-stays : (ck : Bytes) → IsSpent h (open_same c o r w i header ct ck).0
    unfolding open_same
    open_same-stays ck = elim (Bool-cases (ltb i.n r.n_recv)) [
      | inl late ↦ rw (late, open_same) v
      | inr due ↦ elim (Option-cases (advance c o ck r.n_recv i.n)) [
        | inl far ↦ rw (due, far, open_same) v
        | inr ((keys, end), near) ↦
            elim (Option-cases (try_open c (message_key c end) header ct i.n)) [
              | inl shut ↦ rw (due, near, shut, open_same) v
              | inr (pt, opens) ↦
                  rw (due, near, opens, open_same)
                    (note_peer_pq_pub-IsSpent c h _ w i.pq_pub (record {
                      known = v.known;
                      past = ground (arith, v.past);
                      gone =
                          stash_behind-Lacks c h.dh_pub h.n r.skipped i.dh_pub r.n_recv keys w.now
                            v.past v.gone;
                    }))
            ]
      ]
    ]

    commit_turn-peer :
        (rk : Bytes) (closing keys : List Bytes) (end : Bytes)
        → (commit_turn c r w i rk closing keys end).dh_peer_pub ≡ i.dh_pub
    unfolding commit_turn
    commit_turn-peer rk closing keys end = elim (Bool-cases (is_some i.pq_ct)) [
      | inl e ↦
          rw (e, commit_turn) (let (_, _, _, peer) = note_peer_pq_pub-chain c _ w i.pq_pub in peer)
      | inr e ↦
          rw (e, commit_turn) (let (_, _, _, peer) = note_peer_pq_pub-chain c _ w i.pq_pub in peer)
    ]

    Case-stays :
        {p : Ratchet × Outcome}
        → Case c o r w i header ct p
        → p.0.dh_peer_pub ≡ r.dh_peer_pub
        → IsSpent h p.0
    Case-stays (stashed mk held) e = open_stashed-stays mk
    Case-stays (same ck missing known key) e = open_same-stays ck
    Case-stays unopened e = v
    Case-stays (turn missing new) e = elim (open_turn-Turned c o r w i header ct) [
      | stays is_p shut ↦ subst (IsSpent h) (sym is_p) v
      | committed rk closing keys end size is_p ↦
          let peer : i.dh_pub ≡ r.dh_peer_pub =
            sym (ap (λ (x : Ratchet). x.dh_peer_pub) is_p ∙ commit_turn-peer rk closing keys end)
            ∙ e in
          let self : every_same i.dh_pub r.dh_peer_pub ≡ true =
            ap (every_same i.dh_pub) (sym peer) ∙ every_same_self i.dh_pub in
          absurd (cc)
    ]

  ready-receiving :
      (r : Ratchet) (w : World)
      → ((ready c o r w).dh_peer_pub ≡ r.dh_peer_pub)
        × ((ready c o r w).n_recv ≡ r.n_recv)
        × ((ready c o r w).skipped ≡ r.skipped)
  unfolding ready begin_chain send_step issue_key
  ready-receiving r w = ground arith

  seal_next-receiving :
      (r r' : Ratchet) (plaintext frame : Bytes)
      → seal_next c r plaintext ≡ some (r', frame)
      → (r'.dh_peer_pub ≡ r.dh_peer_pub) × (r'.n_recv ≡ r.n_recv) × (r'.skipped ≡ r.skipped)
  unfolding seal_next
  seal_next-receiving r r' plaintext frame e = ground arith

  encrypt-IsSpent :
      (h : Header) (r r' : Ratchet) (w : World) (plaintext frame : Bytes)
      → encrypt c o r w plaintext ≡ some (r', frame)
      → IsSpent h r
      → IsSpent h r'
  unfolding encrypt
  encrypt-IsSpent h r r' w plaintext frame e v =
      let (peer, n, keys) = ready-receiving r w in
      let (peer', n', keys') = seal_next-receiving (ready c o r w) r' plaintext frame e in
      record {
        known = ap (every_same h.dh_pub) (peer' ∙ peer) ∙ v.known;
        past = omega (arith, n, n', v.past);
        gone = subst (λ t. Lacks h.dh_pub h.n t.chains) (sym (keys' ∙ keys)) v.gone;
      }

  decrypt-stays :
      (h : Header) (r : Ratchet) (w : World) (frame : Bytes)
      → (decrypt c o r w frame).0.dh_peer_pub ≡ r.dh_peer_pub
      → IsSpent h r
      → IsSpent h (decrypt c o r w frame).0
  decrypt-stays h r w frame e v = elim (Option-cases (decode_header frame)) [
    | inl bad ↦ unfold decrypt in rw (bad, decrypt) v
    | inr ((i, len), read) ↦
        let p = open_frame c o (pruned c r w.now) w i (take len frame) (drop len frame) in
        let is_p : decrypt c o r w frame ≡ p = unfold decrypt in rw (read, decrypt) refl in
        subst (λ q. IsSpent h q.0) (sym is_p)
          (Case-stays h (pruned c r w.now) w (pruned-IsSpent c o h r w.now v) i (take len frame)
            (drop len frame)
            (open_frame-Case c o (pruned c r w.now) w i (take len frame) (drop len frame))
            (ap (λ q. q.0.dh_peer_pub) (sym is_p) ∙ e ∙ (unfold pruned in refl)))
  ]

  decrypt-spent :
      (h : Header) (r : Ratchet) (w : World) (frame : Bytes) (len : ℕ)
      → decode_header frame ≡ some (h, len)
      → IsSpent h r
      → decrypt c o r w frame ≡ (pruned c r w.now, null)
  unfolding decrypt
  decrypt-spent h r w frame len read v =
      rw (read, decrypt)
        (IsSpent-refused h (pruned c r w.now) w (take len frame) (drop len frame)
          (pruned-IsSpent c o h r w.now v))

  -- What may happen while the peer keeps its chain: messages are sent, and frames heard.
  pub data Later (r : Ratchet) : Ratchet → Type 0 where
    at_once : Later r r
    heard :
        {r' : Ratchet} (w : World) (frame : Bytes)
        → Later r r'
        → (decrypt c o r' w frame).0.dh_peer_pub ≡ r'.dh_peer_pub
        → Later r (decrypt c o r' w frame).0
    sent :
        {r' r'' : Ratchet} (w : World) (plaintext frame : Bytes)
        → Later r r'
        → encrypt c o r' w plaintext ≡ some (r'', frame)
        → Later r r''

  Later-IsSpent : {r r' : Ratchet} (h : Header) → IsSpent h r → Later r r' → IsSpent h r'
  Later-IsSpent h v at_once = v
  Later-IsSpent h v (heard {r'} w frame before e) =
      decrypt-stays h r' w frame e (Later-IsSpent h v before)
  Later-IsSpent h v (sent {r'} {r''} w plaintext frame before e) =
      encrypt-IsSpent h r' r'' w plaintext frame e (Later-IsSpent h v before)

-- A frame that opened is refused when it comes again, at once or after any messages sent and any
-- frames heard while the peer keeps its ratchet key: nothing is opened, and only expired keys go. The
-- store has no public key twice, and where the frame opened with a held key, it is of the chain that
-- is received and its number is behind.
pub replay_refused :
    (c : Crypto) (o : Opts) (r r' : Ratchet) (w w' : World) (frame pt : Bytes) (h : Header)
    (len : ℕ)
    → IsMap r.skipped.chains
    → decode_header frame ≡ some (h, len)
    → ((mk : Bytes)
        → Skipped.peek (pruned c r w.now).skipped h.dh_pub h.n ≡ some mk
        → (every_same h.dh_pub r.dh_peer_pub ≡ true) × (h.n < r.n_recv))
    → (decrypt c o r w frame).1 ≡ opened pt
    → Later c o (decrypt c o r w frame).0 r'
    → decrypt c o r' w' frame ≡ (pruned c r' w'.now, null)
replay_refused c o r r' w w' frame pt h len v read late opens after =
    decrypt-spent c o h r' w' frame len read
      (Later-IsSpent c o h (decrypt-IsSpent c o h r w frame pt len read v late opens) after)
