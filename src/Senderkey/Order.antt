-- ===== src/Senderkey/Order.antt =====
-- The messages of a chain, opened in any order.
use encedo_chat.Prelude.{
  ltb, ◌==◌, ltb→lt, ltb-eq-false_of_le, ==_iff, Bool-cases, Bytes, ℕ, zero, suc, ◌+◌, ◌-◌, ◌≤◌,
  ◌<◌, ◌≡◌, refl, sym, ap, ◌∙◌, ◌⊎◌, inl, inr, false, none, some, [], arith,
}
use encedo_chat.Crypto.{Crypto, IsAead}
use encedo_chat.JsMap.{lookup, set, lookup-set, lookup-delete, nat_eq}
use encedo_chat.Ratchet.State.{Outcome, opened}
use encedo_chat.Ratchet.Skipped
use encedo_chat.Ratchet.Skipped.{Chain, fresh}
use encedo_chat.Ratchet.Skipped.Presence.{fresh-Held}
use encedo_chat.Ratchet.Skipped.Absence.{lookup-fresh}
use encedo_chat.Senderkey.{
  SendChain, SenderReceiver, send_chain_from, msg_key, next_key, aead_seal, aead_open, seal, pass,
  keep, prune, open_held, open_ahead, open_pruned, open_text,
}

module _ (c : Crypto) (ck0 : Bytes) (header plain : ℕ → Bytes) where
  -- The sender behind its first messages, and the text of each.
  unfoldable pub sender : ℕ → SendChain
  sender zero = send_chain_from ck0
  sender (suc n) = (seal c (sender n) (header n) (plain n)).0

  unfoldable pub sent : ℕ → Bytes
  sent n = (seal c (sender n) (header n) (plain n)).1.1

  unfoldable pub chain_at : ℕ → Bytes
  chain_at zero = ck0
  chain_at (suc n) = next_key c (chain_at n)

  sender_lem : (n : ℕ) → sender n ≡ record { key = chain_at n; n = n }
  unfolding sender send_chain_from chain_at seal
  sender_lem zero = refl
  sender_lem (suc n) =
      rw (sender_lem n) (λ i. record { key = next_key c (chain_at n); n = plus_one n i })
    where
      plus_one : (k : ℕ) → k + 1 ≡ suc k
      plus_one k = omega arith

  pub sent_lem : (n : ℕ) → sent n ≡ aead_seal c (msg_key c (chain_at n)) n (header n) (plain n)
  unfolding sent seal
  sent_lem n = rw (sender_lem n) refl

  -- The key of a message, put away at a time.
  abbrev pub key_of : ℕ → ℕ → Skipped.Skipped
  key_of n ts = record { mk = msg_key c (chain_at n); ts = ts }

  pub pass-end : (d i : ℕ) → (pass c d i (chain_at i)).1 ≡ chain_at (i + d)
  unfolding pass chain_at
  pass-end zero i = let e : i ≡ i + 0 = omega arith in ap chain_at e
  pass-end (suc d) i =
      let e : i + 1 ≡ suc i = omega arith in
      let e' : suc i + d ≡ i + suc d = omega arith in
      ap (λ j. (pass c d j (next_key c (chain_at i))).1) e ∙ pass-end d (suc i) ∙ ap chain_at e'

  -- Keeping the keys of a walk leaves every other number as it was …
  keep-outside :
      (skipped : Chain) (d i m now : ℕ) (cur : Bytes)
      → (m < i) ⊎ (i + d ≤ m)
      → lookup m (keep c skipped (pass c d i cur).0 now) ≡ lookup m skipped
  unfolding keep pass
  keep-outside skipped zero i m now cur out = refl
  keep-outside skipped (suc d) i m now cur out =
      keep-outside (set i (record { mk = msg_key c cur; ts = now }) skipped) d (i + 1) m now
        (next_key c cur)
        (elim out [
          | inl below ↦ inl (omega (arith, below))
          | inr above ↦ inr (omega (arith, above))
        ])
      ∙ lookup-set i m (record { mk = msg_key c cur; ts = now }) skipped
      ∙ (let other : (i == m) ≡ false = (elim out [
        | inl below ↦ ground (arith, below)
        | inr above ↦ ground (arith, above)
      ]) in
          rw other refl)

  -- … and has each number of the walk with its key.
  keep-inside :
      (skipped : Chain) (d i m now : ℕ)
      → i ≤ m
      → m < i + d
      → lookup m (keep c skipped (pass c d i (chain_at i)).0 now) ≡ some (key_of m now)
  unfolding keep pass chain_at
  keep-inside skipped zero i m now from below = absurd (omega (arith, from, below))
  keep-inside skipped (suc d) i m now from below =
      let e : i + 1 ≡ suc i = omega arith in
      let put = set i (key_of i now) skipped in
      ap (λ j. lookup m (keep c put (pass c d j (next_key c (chain_at i))).0 now)) e
      ∙ (elim (Bool-cases (i == m)) [
        | inl first ↦
            let is : i ≡ m = (==_iff i m).0 first in
            keep-outside put d (suc i) m now (next_key c (chain_at i)) (inl (omega (arith, is)))
            ∙ lookup-set i m (key_of i now) skipped
            ∙ rw first (ap (λ k. some (key_of k now)) is)
        | inr later ↦
            keep-inside put d (suc i) m now (ground (arith, from, later)) (omega (arith, below))
      ])

  -- A key is held for a number, put away at a time or later.
  pub record Holds (t0 m : ℕ) (skipped : Chain) : Type 0 where
    pub ts : ℕ
    pub later : t0 ≤ ts
    pub found : lookup m skipped ≡ some (key_of m ts)

  -- A number whose message was not opened: it is ahead, or its key is held.
  abbrev pub IsReady : ℕ → SenderReceiver → ℕ → Type 0
  IsReady t0 r m = ((r.n ≤ m) × (lookup m r.skipped ≡ none)) ⊎ Holds t0 m r.skipped

  prune-IsReady :
      (t0 : ℕ) (r : SenderReceiver) (t m : ℕ)
      → t ≤ t0 + r.ttl_ms
      → IsReady t0 r m
      → IsReady t0 (prune c r t) m
  unfolding prune
  prune-IsReady t0 r t m near (inl (ahead, missing)) =
      inl (ahead, lookup-fresh [] m r.ttl_ms t r.skipped missing)
  prune-IsReady t0 r t m near (inr v) =
      let later = v.later in
      inr (record {
        ts = v.ts;
        later = v.later;
        found =
            (fresh-Held [] m (key_of m v.ts) r.ttl_ms t r.skipped (omega (arith, near, later))
              v.found).0;
      })

  -- The state behind an opened text, and what it is still ready for.
  pub record IsStep (t0 m : ℕ) (r : SenderReceiver) (out : SenderReceiver × Outcome) : Type 0 where
    pub text : out.1 ≡ opened (plain m)
    pub key : out.0.key ≡ chain_at out.0.n
    pub ttl : out.0.ttl_ms ≡ r.ttl_ms
    pub most : out.0.max_skip ≡ r.max_skip
    pub others : (k : ℕ) → (m == k) ≡ false → IsReady t0 r k → IsReady t0 out.0 k

  module _ (aead : IsAead c) (t0 : ℕ) where
    open_sent :
        (m : ℕ) → aead_open c (msg_key c (chain_at m)) m (header m) (sent m) ≡ some (plain m)
    unfolding aead_open aead_seal
    open_sent m = rw (sent_lem m) (aead.opens _ _ _ _)

    open_held-IsStep :
        (r : SenderReceiver) (m : ℕ)
        → r.key ≡ chain_at r.n
        → IsStep t0 m r (open_held c r m (header m) (sent m) (msg_key c (chain_at m)))
    open_held-IsStep r m key =
        unfold open_held in
        rw (open_sent m, open_held)
          (record {
            text = refl;
            key = key;
            ttl = refl;
            most = refl;
            others = λ k other v. elim v [
              | inl (ahead, missing) ↦ inl (ahead, lookup-delete m k r.skipped ∙ rw other missing)
              | inr h ↦ inr (record {
                ts = h.ts;
                later = h.later;
                found = lookup-delete m k r.skipped ∙ rw other h.found;
              })
            ];
          })

    keep-IsReady :
        (r : SenderReceiver) (t m k : ℕ) (moved : Bytes)
        → t0 ≤ t
        → r.key ≡ chain_at r.n
        → r.n ≤ m
        → (m == k) ≡ false
        → IsReady t0 r k
        → IsReady t0
            (record r {
              skipped = keep c r.skipped (pass c (m - r.n) r.n r.key).0 t;
              key = moved;
              n = m + 1;
            })
            k
    keep-IsReady r t m k moved from key ahead other v =
        let walk = pass c (m - r.n) r.n r.key in
        let same : pass c (m - r.n) r.n (chain_at r.n) ≡ walk =
          ap (pass c (m - r.n) r.n) (sym key) in
        let outside : (k < r.n) ⊎ (r.n + (m - r.n) ≤ k)
            → lookup k (keep c r.skipped walk.0 t) ≡ lookup k r.skipped =
          λ out. keep-outside r.skipped (m - r.n) r.n k t r.key out in
        let inside : r.n ≤ k → k < m → Holds t0 k (keep c r.skipped walk.0 t) = λ low high. record {
          ts = t;
          later = from;
          found =
              ap (λ w. lookup k (keep c r.skipped w.0 t)) (sym same)
              ∙ keep-inside r.skipped (m - r.n) r.n k t low (omega (arith, ahead, high));
        } in
        elim v [
          | inl (low, missing) ↦ elim (Bool-cases (ltb k m)) [
            | inl high ↦ inr (inside low (ltb→lt k m high))
            | inr past ↦
                let above : r.n + (m - r.n) ≤ k = ground (arith, past, ahead, other) in
                inl (ground (arith, past, other), outside (inr above) ∙ missing)
          ]
          | inr h ↦ elim (Bool-cases (ltb k m)) [
            | inl high ↦ elim (Bool-cases (ltb k r.n)) [
              | inl low ↦ inr (record {
                ts = h.ts;
                later = h.later;
                found = outside (inl (ltb→lt k r.n low)) ∙ h.found;
              })
              | inr low ↦ inr (inside (ground (arith, low)) (ltb→lt k m high))
            ]
            | inr past ↦
                let above : r.n + (m - r.n) ≤ k = ground (arith, past, ahead) in
                inr (record { ts = h.ts; later = h.later; found = outside (inr above) ∙ h.found })
          ]
        ]

    open_ahead-IsStep :
        (r : SenderReceiver) (t m : ℕ)
        → t0 ≤ t
        → r.key ≡ chain_at r.n
        → r.n ≤ m
        → IsStep t0 m r (open_ahead c r t m (header m) (sent m))
    open_ahead-IsStep r t m from key ahead =
        let walk = pass c (m - r.n) r.n r.key in
        let end : walk.1 ≡ chain_at m =
          ap (λ x. (pass c (m - r.n) r.n x).1) key
          ∙ pass-end (m - r.n) r.n
          ∙ ap chain_at (let e : r.n + (m - r.n) ≡ m = omega (arith, ahead) in e) in
        let next : chain_at (m + 1) ≡ next_key c (chain_at m) =
          (let e : m + 1 ≡ suc m = omega arith in ap chain_at e ∙ (unfold chain_at in refl)) in
        unfold open_ahead in
        rw (end, open_sent m, open_ahead)
          (record {
            text = refl;
            key = ap (next_key c) end ∙ sym next;
            ttl = refl;
            most = refl;
            others = λ k other v. keep-IsReady r t m k (next_key c walk.1) from key ahead other v;
          })

    after_prune :
        (r : SenderReceiver) (t m : ℕ) (out : SenderReceiver × Outcome)
        → t ≤ t0 + r.ttl_ms
        → IsStep t0 m (prune c r t) out
        → IsStep t0 m r out
    unfolding prune
    after_prune r t m out near w = record {
      text = w.text;
      key = w.key;
      ttl = w.ttl;
      most = w.most;
      others = λ k other u. w.others k other (prune-IsReady t0 r t k near u);
    }

    pub open_text-IsStep :
        (r : SenderReceiver) (t m : ℕ)
        → t0 ≤ t
        → t ≤ t0 + r.ttl_ms
        → m ≤ r.max_skip
        → r.key ≡ chain_at r.n
        → IsReady t0 r m
        → IsStep t0 m r (open_text c r t m (header m) (sent m))
    unfolding prune
    open_text-IsStep r t m from near few key v =
        let p = prune c r t in
        unfold open_text open_pruned in
        elim (prune-IsReady t0 r t m near v) [
          | inl (ahead, missing) ↦
              let step : ltb m r.n ≡ false = ltb-eq-false_of_le m r.n ahead in
              let close : ltb r.max_skip (m - r.n) ≡ false =
                ltb-eq-false_of_le r.max_skip (m - r.n) (omega (arith, few)) in
              rw (missing, step, close, open_pruned)
                (after_prune r t m _ near (open_ahead-IsStep p t m from key ahead))
          | inr h ↦
              let e = h.found in
              rw (e, open_pruned) (after_prune r t m _ near (open_held-IsStep p m key))
        ]
