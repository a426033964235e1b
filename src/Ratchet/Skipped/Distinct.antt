-- ===== src/Ratchet/Skipped/Distinct.antt =====
-- A store that has no public key twice, and the keys that it lacks.
use encedo_chat.Prelude.{
  Bool-cases, Option-cases, Bytes, ℕ, ◌≡◌, refl, sym, ap, ◌∙◌, subst, inl, inr, false, none, some,
  List, [], ◌∷◌, arith,
}
use encedo_chat.JsMap.{
  lookup, set, delete, lookup-delete, bytes_eq, nat_eq, bytes_beq, bytes_beq_iff,
}
use encedo_chat.Ratchet.Skipped
use encedo_chat.Ratchet.Skipped.{SkippedKeys, Chain, evict, set_in, is_empty, fresh, prune_chains}
use encedo_chat.Ratchet.Skipped.Absence.{Lacks, lookup-Lacks, evict-Lacks, set-Lacks}

unfoldable pub NotIn : Bytes → List (Bytes × Chain) → Type 0
NotIn k [] = Unit {0}
NotIn k ((j, chain) ∷ cs) = (bytes_beq j k ≡ false) × NotIn k cs

-- The entries of a map: no key stands twice.
unfoldable pub IsMap : List (Bytes × Chain) → Type 0
IsMap [] = Unit {0}
IsMap ((j, chain) ∷ cs) = NotIn j cs × IsMap cs

prune_chains-NotIn :
    (ttl now : ℕ) (k : Bytes) (cs : List (Bytes × Chain))
    → NotIn k cs
    → NotIn k (prune_chains ttl now cs)
unfolding prune_chains NotIn
prune_chains-NotIn ttl now k [] v = tt
prune_chains-NotIn ttl now k ((j, chain) ∷ cs) v =
    elim (Bool-cases (is_empty (fresh ttl now chain))) [
      | inl e ↦ rw e (prune_chains-NotIn ttl now k cs v.1)
      | inr e ↦ rw e (v.0, prune_chains-NotIn ttl now k cs v.1)
    ]

prune_chains-IsMap :
    (ttl now : ℕ) (cs : List (Bytes × Chain)) → IsMap cs → IsMap (prune_chains ttl now cs)
unfolding prune_chains IsMap
prune_chains-IsMap ttl now [] v = tt
prune_chains-IsMap ttl now ((j, chain) ∷ cs) v =
    elim (Bool-cases (is_empty (fresh ttl now chain))) [
      | inl e ↦ rw e (prune_chains-IsMap ttl now cs v.1)
      | inr e ↦ rw e (prune_chains-NotIn ttl now j cs v.0, prune_chains-IsMap ttl now cs v.1)
    ]

pub prune-IsMap :
    (keys : SkippedKeys) (now : ℕ) → IsMap keys.chains → IsMap (Skipped.prune keys now).chains
unfolding Skipped.prune
prune-IsMap keys now v = prune_chains-IsMap keys.ttl_ms now keys.chains v

module _ (k : Bytes) (n : ℕ) where
  NotIn-Lacks : (cs : List (Bytes × Chain)) → NotIn k cs → Lacks k n cs
  unfolding NotIn Lacks
  NotIn-Lacks [] v = tt
  NotIn-Lacks ((j, chain) ∷ cs) v = (inl v.0, NotIn-Lacks cs v.1)

  absent-Lacks :
      (cs : List (Bytes × Chain))
      → IsMap cs
      → ((chain : Chain) → lookup k cs ≡ some chain → lookup n chain ≡ none)
      → Lacks k n cs
  unfolding IsMap Lacks lookup
  absent-Lacks [] v f = tt
  absent-Lacks ((j, x) ∷ cs) v f = elim (Bool-cases (bytes_beq j k)) [
    | inl same ↦ (
      inr (f x (rw same refl)),
      NotIn-Lacks cs (subst (λ t. NotIn t cs) ((bytes_beq_iff j k).0 same) v.0),
    )
    | inr other ↦ (inl other, absent-Lacks cs v.1 (λ chain e. f chain (rw other e)))
  ]

  pub peek-none-Lacks :
      (keys : SkippedKeys)
      → IsMap keys.chains
      → Skipped.peek keys k n ≡ none
      → Lacks k n keys.chains
  unfolding Skipped.peek
  peek-none-Lacks keys v missing = absent-Lacks keys.chains v (λ chain found.
      elim (Option-cases (lookup n chain)) [
        | inl e ↦ e
        | inr (s, e) ↦ let there : some s.mk ≡ none = rw (found, e, Skipped.peek) at missing in cc
      ])

  delete-Lacks : (cs : List (Bytes × Chain)) → Lacks k n (delete k cs)
  unfolding delete Lacks
  delete-Lacks [] = tt
  delete-Lacks ((j, x) ∷ cs) = elim (Bool-cases (bytes_beq j k)) [
    | inl same ↦ rw same (delete-Lacks cs)
    | inr other ↦ rw other (inl other, delete-Lacks cs)
  ]

  delete_keeps-Lacks :
      (j : Bytes) (cs : List (Bytes × Chain)) → Lacks k n cs → Lacks k n (delete j cs)
  unfolding delete Lacks
  delete_keeps-Lacks j [] v = tt
  delete_keeps-Lacks j ((i, x) ∷ cs) v = elim (Bool-cases (bytes_beq i j)) [
    | inl same ↦ rw same (delete_keeps-Lacks j cs v.1)
    | inr other ↦ rw other (v.0, delete_keeps-Lacks j cs v.1)
  ]

  set_own-Lacks :
      (chain : Chain) (cs : List (Bytes × Chain))
      → IsMap cs
      → lookup n chain ≡ none
      → Lacks k n (set k chain cs)
  unfolding set Lacks IsMap
  set_own-Lacks chain [] v e = (inr e, tt)
  set_own-Lacks chain ((i, x) ∷ cs) v e = elim (Bool-cases (bytes_beq i k)) [
    | inl same ↦
        rw same (inr e, NotIn-Lacks cs (subst (λ t. NotIn t cs) ((bytes_beq_iff i k).0 same) v.0))
    | inr other ↦ rw other (inl other, set_own-Lacks chain cs v.1 e)
  ]

  -- A key that was dropped is gone.
  pub drop_key-Lacks :
      (keys : SkippedKeys) → IsMap keys.chains → Lacks k n (Skipped.drop_key keys k n).chains
  drop_key-Lacks keys v = elim (Option-cases (lookup k keys.chains)) [
    | inl e ↦
        unfold Skipped.drop_key in
        rw (e, Skipped.drop_key)
          (absent-Lacks keys.chains v
            (λ chain found. let clash : none ≡ some chain = rw e at found in cc))
    | inr (chain, e) ↦ elim (Bool-cases (is_empty (delete n chain))) [
      | inl last ↦
          unfold Skipped.drop_key in rw (e, last, Skipped.drop_key) (delete-Lacks keys.chains)
      | inr more ↦
          let gone : lookup n (delete n chain) ≡ none = lookup-delete n n chain ∙ (ground arith) in
          unfold Skipped.drop_key in
          rw (e, more, Skipped.drop_key) (set_own-Lacks (delete n chain) keys.chains v gone)
    ]
  ]

  pub drop_key_keeps-Lacks :
      (keys : SkippedKeys) (j : Bytes) (m : ℕ)
      → Lacks k n keys.chains
      → Lacks k n (Skipped.drop_key keys j m).chains
  drop_key_keeps-Lacks keys j m v = elim (Option-cases (lookup j keys.chains)) [
    | inl e ↦ unfold Skipped.drop_key in rw (e, Skipped.drop_key) v
    | inr (chain, e) ↦ elim (Bool-cases (is_empty (delete m chain))) [
      | inl last ↦
          unfold Skipped.drop_key in
          rw (e, last, Skipped.drop_key) (delete_keeps-Lacks j keys.chains v)
      | inr more ↦
          unfold Skipped.drop_key in
          rw (e, more, Skipped.drop_key)
            (set-Lacks k n j (delete m chain) keys.chains
              (elim (Bool-cases (bytes_beq j k)) [
                | inr other ↦ inl other
                | inl same ↦
                    let mine : lookup k keys.chains ≡ some chain =
                      ap (λ t. lookup t keys.chains) (sym ((bytes_beq_iff j k).0 same)) ∙ e in
                    let missing = lookup-Lacks k n keys.chains chain v mine in
                    inr (lookup-delete m n chain ∙ (ground (arith, missing)))
              ])
              v)
    ]
  ]

  set_in_other-Lacks :
      (j : Bytes) (m : ℕ) (s : Skipped.Skipped) (cs : List (Bytes × Chain))
      → bytes_beq j k ≡ false
      → Lacks k n cs
      → Lacks k n (set_in j m s cs)
  unfolding set_in
  set_in_other-Lacks j m s cs other v = elim (Option-cases (lookup j cs)) [
    | inl e ↦ rw (e, set_in) v
    | inr (chain, e) ↦ rw (e, set_in) (set-Lacks k n j (set m s chain) cs (inl other) v)
  ]

  -- A key of another chain.
  pub put_other-Lacks :
      (keys : SkippedKeys) (j : Bytes) (m : ℕ) (mk : Bytes) (now : ℕ)
      → bytes_beq j k ≡ false
      → Lacks k n keys.chains
      → Lacks k n (Skipped.put keys j m mk now).chains
  put_other-Lacks keys j m mk now other v =
      let s : Skipped.Skipped = record { mk = mk; ts = now } in
      elim (Option-cases (lookup j keys.chains)) [
        | inl e ↦
            unfold Skipped.put in
            rw (e, Skipped.put)
              (set_in_other-Lacks j m s _ other
                (evict-Lacks k n keys.max_chains _ (set-Lacks k n j [] keys.chains (inl other) v)))
        | inr (chain, e) ↦
            unfold Skipped.put in rw (e, Skipped.put) (set_in_other-Lacks j m s keys.chains other v)
      ]
