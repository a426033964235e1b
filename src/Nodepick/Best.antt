-- ===== src/Nodepick/Best.antt =====
-- The best candidate that the loop of `rebalanceChoice` sees.
use encedo_chat.Prelude.{
  ltb, ltb→lt, Bool-cases, Option-cases, All, Bytes, ℕ, ◌+◌, ◌≤◌, ◌<◌, ◌≡◌, sym, ap, ◌∙◌, ◌↔◌, ◌⊎◌,
  inl, inr, true, false, ◌&&◌, Option, none, some, List, [], ◌∷◌, ◌++◌, arith,
}
use mathlib.Core.Option.{some-injective}
use encedo_chat.JsMap.{lookup, bytes_eq, bytes_beq, bytes_beq_iff}
use encedo_chat.Nodepick.{LoadReading, Best, cool, is_fresh, is_better, consider, best_of}

-- A reading of the last 90 seconds, by a clock at most 30 seconds ahead of ours.
abbrev pub IsRecent : ℕ → LoadReading → Type 0
IsRecent now r = (now ≤ r.at + 90_000) × (r.at ≤ now + 30_000)

pub fresh_iff : (r : LoadReading) (now : ℕ) → (is_fresh r now ≡ true) ↔ IsRecent now r
unfolding is_fresh
fresh_iff r now = ground arith

module _ (current : Bytes) (loads : List (Bytes × LoadReading)) (now : ℕ) where
  -- A node one may move to, by a reading of it.
  pub record IsCool (k : Bytes) (r : LoadReading) : Type 0 where
    pub other : bytes_beq k current ≡ false
    pub heard : lookup k loads ≡ some r
    pub recent : IsRecent now r
    pub light : r.pct < 60

  -- The lightest of the candidates seen so far.
  unfoldable pub IsBest : Best → Type 0
  IsBest none = Unit {0}
  IsBest (some (k, r)) = IsCool k r

  consider-IsBest :
      (best : Best) (k : Bytes) → IsBest best → IsBest (consider current loads now best k)
  unfolding consider IsBest
  consider-IsBest best k v = elim (Bool-cases (bytes_beq k current)) [
    | inl me ↦ rw me v
    | inr other ↦ elim (Option-cases (lookup k loads)) [
      | inl e ↦ rw (other, e) v
      | inr (r, e) ↦ elim (Bool-cases (is_fresh r now && (ltb r.pct cool && is_better r best))) [
        | inr worse ↦ rw (other, e, worse) v
        | inl fine ↦
            rw (other, e, fine)
              (let fresh : is_fresh r now ≡ true = ground arith in
                record {
                  other = other;
                  heard = e;
                  recent = (fresh_iff r now).0 fresh;
                  light = ground arith;
                })
      ]
    ]
  ]

  pub best_of-IsBest :
      (best : Best) (ks : List Bytes) → IsBest best → IsBest (best_of current loads now best ks)
  unfolding best_of
  best_of-IsBest best [] v = v
  best_of-IsBest best (k ∷ ks) v =
      best_of-IsBest (consider current loads now best k) ks (consider-IsBest best k v)

  -- How light the best is, the bound of a cool node where there is none.
  abbrev pub weight : Best → ℕ
  weight none = cool
  weight (some (k, r)) = r.pct

  consider-lighter :
      (best : Best) (k : Bytes)
      → IsBest best
      → weight (consider current loads now best k) ≤ weight best
  unfolding consider IsBest
  consider-lighter none k v = ground arith
  consider-lighter (some (b, x)) k v = ground arith

  consider-lightest :
      (best : Best) (k : Bytes) (r : LoadReading)
      → IsBest best
      → IsCool k r
      → weight (consider current loads now best k) ≤ r.pct
  unfolding consider IsBest
  consider-lightest none k r v c =
      rw (c.other, c.heard, (fresh_iff r now).1 c.recent) (ground (arith, c.light))
  consider-lightest (some (b, x)) k r v c =
      rw (c.other, c.heard, (fresh_iff r now).1 c.recent) (ground (arith, c.light))

  best_of-lighter :
      (best : Best) (ks : List Bytes)
      → IsBest best
      → weight (best_of current loads now best ks) ≤ weight best
  unfolding best_of
  best_of-lighter best [] v = omega arith
  best_of-lighter best (k ∷ ks) v = omega (
    arith,
    best_of-lighter (consider current loads now best k) ks (consider-IsBest best k v),
    consider-lighter best k v,
  )

  -- A candidate that is no reason against a node of a load: our own, one that nothing recent is known
  -- of, one that is not cool, or one at least as loaded.
  unfoldable pub IsNoBetter : ℕ → Bytes → Type 0
  IsNoBetter pct k =
      (k ≡ current)
      ⊎ ((lookup k loads ≡ none)
          ⊎ ((r : LoadReading) × (lookup k loads ≡ some r)
              × ((¬ IsRecent now r) ⊎ ((60 ≤ r.pct) ⊎ (pct ≤ r.pct)))))

  consider-IsNoBetter :
      (best : Best) (k : Bytes) (pct : ℕ)
      → IsBest best
      → pct ≤ weight (consider current loads now best k)
      → IsNoBetter pct k
  unfolding IsNoBetter
  consider-IsNoBetter best k pct v le = elim (Bool-cases (bytes_beq k current)) [
    | inl me ↦ inl ((bytes_beq_iff k current).0 me)
    | inr other ↦ elim (Option-cases (lookup k loads)) [
      | inl unknown ↦ inr (inl unknown)
      | inr (r, heard) ↦ inr (
          inr (
            r,
            heard,
            elim (Bool-cases (is_fresh r now)) [
              | inr stale ↦ inl (λ recent. let fresh = (fresh_iff r now).1 recent in absurd (cc))
              | inl fresh ↦ elim (Bool-cases (ltb r.pct cool)) [
                | inr warm ↦ inr (inl (ground arith))
                | inl light ↦
                    let is_cool : IsCool k r = record {
                      other = other;
                      heard = heard;
                      recent = (fresh_iff r now).0 fresh;
                      light = ltb→lt r.pct cool light;
                    } in
                    inr (inr (omega (arith, consider-lightest best k r v is_cool, le)))
              ]
            ],
          ))
    ]
  ]

  pub best_of-IsNoBetter :
      (best : Best) (ks : List Bytes) (pct : ℕ)
      → IsBest best
      → pct ≤ weight (best_of current loads now best ks)
      → All (IsNoBetter pct) ks
  unfolding best_of
  best_of-IsNoBetter best [] pct v le = tt
  best_of-IsNoBetter best (k ∷ ks) pct v le =
      let v' = consider-IsBest best k v in
      let more = best_of-lighter (consider current loads now best k) ks v' in
      (
        consider-IsNoBetter best k pct v (omega (arith, more, le)),
        best_of-IsNoBetter (consider current loads now best k) ks pct v' le,
      )

  -- The best is one of those that were seen.
  abbrev pub name : Best → Option Bytes
  name none = none
  name (some (k, r)) = some k

  consider-name :
      (best : Best) (k : Bytes)
      → (name (consider current loads now best k) ≡ name best)
        ⊎ (name (consider current loads now best k) ≡ some k)
  unfolding consider
  consider-name best k = ground arith

  pub best_of-name :
      (best : Best) (ks : List Bytes) (k : Bytes)
      → name (best_of current loads now best ks) ≡ some k
      → (name best ≡ some k)
        ⊎ ((before : List Bytes) × (after : List Bytes) × (ks ≡ before ++ k ∷ after))
  unfolding best_of
  best_of-name best [] k e = inl e
  best_of-name best (x ∷ ks) k e = elim (best_of-name (consider current loads now best x) ks k e) [
    | inr (before, after, there) ↦ inr (x ∷ before, after, ap (λ t. x ∷ t) there)
    | inl e' ↦ elim (consider-name best x) [
      | inl old ↦ inl (sym old ∙ e')
      | inr new ↦ inr ([], ks, ap (λ t. t ∷ ks) (some-injective x k (sym new ∙ e')))
    ]
  ]
