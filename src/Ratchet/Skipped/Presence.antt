-- ===== src/Ratchet/Skipped/Presence.antt =====
-- A key that was put is there until it is dropped or too old.
use encedo_chat.Prelude.{
  ltb, ◌==◌, ltb-eq-false_of_le, Bool-cases, Option-cases, length, Bytes, ℕ, ◌-◌, ◌≤◌, ◌≡◌, refl,
  ap, ◌∙◌, inl, inr, true, false, none, some, List, [], ◌∷◌, arith,
}
use mathlib.Core.Option.{some-injective}
use encedo_chat.JsMap.{
  lookup, set, delete, lookup-set, lookup-delete, bytes_eq, nat_eq, bytes_beq, bytes_beq_iff,
}
use encedo_chat.Ratchet.Skipped
use encedo_chat.Ratchet.Skipped.{SkippedKeys, Chain, evict, set_in, is_empty, fresh, prune_chains}

module _ (k : Bytes) (n : ℕ) (s : Skipped.Skipped) where
  -- The chain of a public key that the store finds holds a key under a number.
  pub record Held (cs : List (Bytes × Chain)) : Type 0 where
    pub chain : Chain
    pub found : lookup k cs ≡ some chain
    pub key : lookup n chain ≡ some s

  pub peek-Held : (keys : SkippedKeys) → Held keys.chains → Skipped.peek keys k n ≡ some s.mk
  peek-Held keys v = unfold Skipped.peek in rw (v.found, v.key, Skipped.peek) refl

  set_in-Held :
      (cs : List (Bytes × Chain)) (chain : Chain)
      → lookup k cs ≡ some chain
      → Held (set_in k n s cs)
  unfolding set_in
  set_in-Held cs chain e =
      let self : bytes_beq k k ≡ true = (bytes_beq_iff k k).1 refl in
      rw (e, set_in)
        (record {
          chain = set n s chain;
          found = lookup-set k k (set n s chain) cs ∙ rw self refl;
          key = lookup-set n n s chain ∙ (ground arith);
        })

  evict_newest :
      (most : ℕ) (cs : List (Bytes × Chain))
      → 1 ≤ most
      → lookup k cs ≡ none
      → lookup k (evict most (set k [] cs)) ≡ some []
  unfolding evict set lookup
  evict_newest most [] room e =
      let self : bytes_beq k k ≡ true = (bytes_beq_iff k k).1 refl in
      let fits : ltb most 1 ≡ false = ltb-eq-false_of_le most 1 room in rw (fits, self) refl
  evict_newest most ((j, w) ∷ cs) room e = elim (Bool-cases (bytes_beq j k)) [
    | inl me ↦ let clash : some w ≡ none = rw me at e in cc
    | inr other ↦
        let self : bytes_beq k k ≡ true = (bytes_beq_iff k k).1 refl in
        let rest : lookup k cs ≡ none = rw other at e in
        let there : lookup k (set k [] cs) ≡ some [] = lookup-set k k [] cs ∙ rw self refl in
        elim (Bool-cases (ltb most (length ((j, w) ∷ set k [] cs)))) [
          | inl over ↦ rw (other, over) (evict_newest most cs room rest)
          | inr fits ↦ rw (other, fits, other) there
        ]
  ]

  pub put-Held :
      (keys : SkippedKeys) → 1 ≤ keys.max_chains → Held (Skipped.put keys k n s.mk s.ts).chains
  put-Held keys room = elim (Option-cases (lookup k keys.chains)) [
    | inl e ↦
        unfold Skipped.put in
        rw (e, Skipped.put) (set_in-Held _ [] (evict_newest keys.max_chains keys.chains room e))
    | inr (chain, e) ↦ unfold Skipped.put in rw (e, Skipped.put) (set_in-Held keys.chains chain e)
  ]

  pub fresh-Held :
      (ttl now : ℕ) (chain : Chain)
      → now - s.ts ≤ ttl
      → lookup n chain ≡ some s
      → (lookup n (fresh ttl now chain) ≡ some s) × (is_empty (fresh ttl now chain) ≡ false)
  unfolding fresh lookup
  fresh-Held ttl now [] young e = cc
  fresh-Held ttl now ((m, x) ∷ chain) young e = elim (Bool-cases (m == n)) [
    | inl me ↦
        let is_s : x ≡ s = some-injective x s (rw me at e) in
        let kept : ltb ttl (now - x.ts) ≡ false =
          ap (λ t. ltb ttl (now - t.ts)) is_s ∙ ltb-eq-false_of_le ttl (now - s.ts) young in
        rw (kept, me) (ap some is_s, refl)
    | inr other ↦
        let (found, more) = fresh-Held ttl now chain young (rw other at e) in
        elim (Bool-cases (ltb ttl (now - x.ts))) [
          | inl old ↦ rw old (found, more)
          | inr kept ↦ rw (kept, other) (found, refl)
        ]
  ]

  pub prune-Held :
      (ttl now : ℕ) (cs : List (Bytes × Chain))
      → now - s.ts ≤ ttl
      → Held cs
      → Held (prune_chains ttl now cs)
  unfolding prune_chains lookup
  prune-Held ttl now [] young v = let none_there = v.found in cc
  prune-Held ttl now ((j, chain) ∷ cs) young v = elim (Bool-cases (bytes_beq j k)) [
    | inl me ↦
        let mine : chain ≡ v.chain = some-injective chain v.chain (rw me at v.found) in
        let (kept, more) = fresh-Held ttl now chain young (ap (lookup n) mine ∙ v.key) in
        rw more (record { chain = fresh ttl now chain; found = rw me refl; key = kept })
    | inr other ↦
        let rest =
          prune-Held ttl now cs young
            (record { chain = v.chain; found = rw other at v.found; key = v.key }) in
        elim (Bool-cases (is_empty (fresh ttl now chain))) [
          | inl gone ↦ rw gone rest
          | inr more ↦
              rw more (record { chain = rest.chain; found = rw other rest.found; key = rest.key })
        ]
  ]

  pub put_other-Held :
      (keys : SkippedKeys) (m : ℕ) (mk : Bytes) (now : ℕ)
      → (m == n) ≡ false
      → Held keys.chains
      → Held (Skipped.put keys k m mk now).chains
  put_other-Held keys m mk now new v =
      let self : bytes_beq k k ≡ true = (bytes_beq_iff k k).1 refl in
      let x : Skipped.Skipped = record { mk = mk; ts = now } in
      let e = v.found in
      unfold Skipped.put set_in in
      rw (e, e, Skipped.put, set_in)
        (record {
          chain = set m x v.chain;
          found = lookup-set k k (set m x v.chain) keys.chains ∙ rw self refl;
          key = lookup-set m n x v.chain ∙ rw new v.key;
        })

  no_key_empty : (chain : Chain) → is_empty chain ≡ true → lookup n chain ≡ some s → ⊥
  unfolding lookup
  no_key_empty [] e found = cc
  no_key_empty (x ∷ chain) e found = cc

  -- Dropping another key of the chain.
  pub drop_other-Held :
      (keys : SkippedKeys) (m : ℕ)
      → (m == n) ≡ false
      → Held keys.chains
      → Held (Skipped.drop_key keys k m).chains
  drop_other-Held keys m other v =
      let self : bytes_beq k k ≡ true = (bytes_beq_iff k k).1 refl in
      let e = v.found in
      let still : lookup n (delete m v.chain) ≡ some s =
        lookup-delete m n v.chain ∙ rw other v.key in
      elim (Bool-cases (is_empty (delete m v.chain))) [
        | inl last ↦ absurd (no_key_empty (delete m v.chain) last still)
        | inr more ↦
            unfold Skipped.drop_key in
            rw (e, more, Skipped.drop_key)
              (record {
                chain = delete m v.chain;
                found = lookup-set k k (delete m v.chain) keys.chains ∙ rw self refl;
                key = still;
              })
      ]
