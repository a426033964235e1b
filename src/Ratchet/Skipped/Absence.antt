-- ===== src/Ratchet/Skipped/Absence.antt =====
-- No chain of a public key holds a key for a number.
use encedo_chat.Prelude.{
  ltb, ◌==◌, Bool-cases, Option-cases, length, Bytes, ℕ, ◌≡◌, refl, sym, ap, ◌∙◌, ◌⊎◌, inl, inr,
  false, none, some, List, [], ◌∷◌, arith,
}
use encedo_chat.JsMap.{lookup, set, lookup-set, bytes_eq, nat_eq, bytes_beq, bytes_beq_iff}
use encedo_chat.Ratchet.Skipped
use encedo_chat.Ratchet.Skipped.{SkippedKeys, Chain, evict, set_in, is_empty, fresh, prune_chains}

unfoldable pub Lacks : Bytes → ℕ → List (Bytes × Chain) → Type 0
Lacks k n [] = Unit {0}
Lacks k n ((j, chain) ∷ cs) = ((bytes_beq j k ≡ false) ⊎ (lookup n chain ≡ none)) × Lacks k n cs

module _ (k : Bytes) (n : ℕ) where
  pub lookup-Lacks :
      (cs : List (Bytes × Chain)) (chain : Chain)
      → Lacks k n cs
      → lookup k cs ≡ some chain
      → lookup n chain ≡ none
  unfolding Lacks lookup
  lookup-Lacks [] chain v e = cc
  lookup-Lacks ((j, x) ∷ cs) chain (here, v) e = elim (Bool-cases (bytes_beq j k)) [
    | inl same ↦
        let found : some x ≡ some chain = rw same at e in
        elim here [ inl other ↦ cc | inr missing ↦ cc ]
    | inr other ↦ lookup-Lacks cs chain v (rw other at e)
  ]

  pub peek-Lacks : (keys : SkippedKeys) → Lacks k n keys.chains → Skipped.peek keys k n ≡ none
  peek-Lacks keys v = elim (Option-cases (lookup k keys.chains)) [
    | inl e ↦ unfold Skipped.peek in rw (e, Skipped.peek) refl
    | inr (chain, e) ↦
        unfold Skipped.peek in rw (e, lookup-Lacks keys.chains chain v e, Skipped.peek) refl
  ]

  pub evict-Lacks :
      (most : ℕ) (cs : List (Bytes × Chain)) → Lacks k n cs → Lacks k n (evict most cs)
  unfolding evict Lacks
  evict-Lacks most [] v = v
  evict-Lacks most (x ∷ cs) v = elim (Bool-cases (ltb most (length (x ∷ cs)))) [
    | inl e ↦ rw e (evict-Lacks most cs v.1)
    | inr e ↦ rw e v
  ]

  pub set-Lacks :
      (j : Bytes) (chain : Chain) (cs : List (Bytes × Chain))
      → (bytes_beq j k ≡ false) ⊎ (lookup n chain ≡ none)
      → Lacks k n cs
      → Lacks k n (set j chain cs)
  unfolding set Lacks
  set-Lacks j chain [] e v = (e, tt)
  set-Lacks j chain ((i, x) ∷ cs) e v = elim (Bool-cases (bytes_beq i j)) [
    | inl same ↦ rw same (
      elim e [
        | inl other ↦ inl (ap (λ t. bytes_beq t k) ((bytes_beq_iff i j).0 same) ∙ other)
        | inr missing ↦ inr missing
      ],
      v.1,
    )
    | inr other ↦ rw other (v.0, set-Lacks j chain cs e v.1)
  ]

  set_in-Lacks :
      (j : Bytes) (m : ℕ) (s : Skipped.Skipped) (cs : List (Bytes × Chain))
      → (m == n) ≡ false
      → Lacks k n cs
      → Lacks k n (set_in j m s cs)
  unfolding set_in
  set_in-Lacks j m s cs new v = elim (Option-cases (lookup j cs)) [
    | inl e ↦ rw (e, set_in) v
    | inr (chain, e) ↦
        rw (e, set_in)
          (set-Lacks j (set m s chain) cs
            (elim (Bool-cases (bytes_beq j k)) [
              | inr other ↦ inl other
              | inl same ↦
                  let found : lookup k cs ≡ some chain =
                    ap (λ t. lookup t cs) (sym ((bytes_beq_iff j k).0 same)) ∙ e in
                  inr (lookup-set m n s chain ∙ rw new (lookup-Lacks cs chain v found))
            ])
            v)
  ]

  pub put-Lacks :
      (keys : SkippedKeys) (j : Bytes) (m : ℕ) (mk : Bytes) (now : ℕ)
      → (m == n) ≡ false
      → Lacks k n keys.chains
      → Lacks k n (Skipped.put keys j m mk now).chains
  put-Lacks keys j m mk now new v =
      let s : Skipped.Skipped = record { mk = mk; ts = now } in
      elim (Option-cases (lookup j keys.chains)) [
        | inl e ↦
            unfold Skipped.put in
            rw (e, Skipped.put)
              (set_in-Lacks j m s _ new (
                evict-Lacks keys.max_chains _
                  (set-Lacks j [] keys.chains (inr (unfold lookup in refl)) v)))
        | inr (chain, e) ↦
            unfold Skipped.put in rw (e, Skipped.put) (set_in-Lacks j m s keys.chains new v)
      ]

  pub lookup-fresh :
      (ttl now : ℕ) (chain : Chain) → lookup n chain ≡ none → lookup n (fresh ttl now chain) ≡ none
  unfolding fresh lookup
  lookup-fresh ttl now [] e = refl
  lookup-fresh ttl now ((m, s) ∷ chain) e = ground (arith, lookup-fresh ttl now chain)

  prune_chains-Lacks :
      (ttl now : ℕ) (cs : List (Bytes × Chain)) → Lacks k n cs → Lacks k n (prune_chains ttl now cs)
  unfolding prune_chains Lacks
  prune_chains-Lacks ttl now [] v = v
  prune_chains-Lacks ttl now ((j, chain) ∷ cs) v =
      elim (Bool-cases (is_empty (fresh ttl now chain))) [
        | inl e ↦ rw e (prune_chains-Lacks ttl now cs v.1)
        | inr e ↦ rw e (
          elim v.0 [
            | inl other ↦ inl other
            | inr missing ↦ inr (lookup-fresh ttl now chain missing)
          ],
          prune_chains-Lacks ttl now cs v.1,
        )
      ]

  pub prune-Lacks :
      (keys : SkippedKeys) (now : ℕ)
      → Lacks k n keys.chains
      → Lacks k n (Skipped.prune keys now).chains
  prune-Lacks keys now v = unfold Skipped.prune in prune_chains-Lacks keys.ttl_ms now keys.chains v
