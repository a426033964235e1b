-- ===== src/Nodepick/Rebalance.antt =====
-- A client leaves a hot relay only for a cool one that was heard from.
use encedo_chat.Prelude.{
  ltb, leb, Bool-cases, Option-cases, All, Bytes, ℕ, ◌+◌, ◌≤◌, ◌<◌, ◌≡◌, refl, subst, inl, inr,
  true, false, ◌&&◌, Option, none, some, List, ◌∷◌, ◌++◌, arith,
}
use mathlib.Core.Option.{some-injective}
use encedo_chat.JsMap.{lookup, bytes_eq}
use encedo_chat.Nodepick.{
  LoadReading, Best, hot, hot_for_ms, rebalance_millionths, is_fresh, best_of, may_leave,
  rebalance_choice,
}
use encedo_chat.Nodepick.Best.{
  IsRecent, fresh_iff, IsCool, IsBest, weight, IsNoBetter, name, best_of-IsBest, best_of-IsNoBetter,
  best_of-name,
}

module _ (current : Bytes) (loads : List (Bytes × LoadReading)) (now : ℕ) where
  -- What the loop chose, from the answer.
  chosen :
      (best : Best) (k : Bytes)
      → name current loads now best ≡ some k
      → IsBest current loads now best
      → (r : LoadReading) × IsCool current loads now k r × (r.pct ≡ weight current loads now best)
  unfolding IsBest
  chosen none k e v = cc
  chosen (some (j, r)) k e v =
      (r, subst (λ t. IsCool current loads now t r) (some-injective j k e) v, refl)

  -- Our own node: hot by a recent reading, and for a minute.
  pub record IsHot (hot_since : Option ℕ) (roll : ℕ) : Type 0 where
    pub mine : LoadReading
    pub since : ℕ
    pub heard : lookup current loads ≡ some mine
    pub hot_from : hot_since ≡ some since
    pub recent : IsRecent now mine
    pub loaded : 85 ≤ mine.pct
    pub dwelt : since + 60_000 ≤ now
    pub rolled : roll < 200_000

  may_leave-IsHot :
      (hot_since : Option ℕ) (roll : ℕ)
      → may_leave (lookup current loads) hot_since roll now ≡ true
      → IsHot hot_since roll
  unfolding may_leave
  may_leave-IsHot hot_since roll e = elim (Option-cases (lookup current loads)) [
    | inl unknown ↦ let clash : false ≡ true = rw (unknown, may_leave) at e in cc
    | inr (mine, heard) ↦ elim (Option-cases hot_since) [
      | inl never ↦ let clash : false ≡ true = rw (heard, never, may_leave) at e in cc
      | inr (since, hot_from) ↦
          let all : (is_fresh mine now
                && (leb hot mine.pct
                    && (leb (since + hot_for_ms) now && ltb roll rebalance_millionths)))
              ≡ true =
            rw (heard, hot_from, may_leave) at e in
          let fresh : is_fresh mine now ≡ true = ground arith in
          record {
            mine = mine;
            since = since;
            heard = heard;
            hot_from = hot_from;
            recent = (fresh_iff mine now).0 fresh;
            loaded = ground arith;
            dwelt = ground arith;
            rolled = ground arith;
          }
    ]
  ]

-- Where `rebalanceChoice` moves, a recent reading of our relay says 85 percent or more, it was hot for
-- a minute, and the roll was below a fifth; the node it names is a candidate and another one, that a
-- recent reading shows below 60 percent, and no such candidate has a lower reading.
pub rebalance_choice-lightest :
    (current : Bytes) (candidates : List Bytes) (loads : List (Bytes × LoadReading))
    (hot_since : Option ℕ) (roll now : ℕ) (k : Bytes)
    → rebalance_choice current candidates loads hot_since roll now ≡ some k
    → IsHot current loads now hot_since roll
      × ((before : List Bytes) × (after : List Bytes) × (candidates ≡ before ++ k ∷ after))
      × ((r : LoadReading) × IsCool current loads now k r
          × All (IsNoBetter current loads now r.pct) candidates)
unfolding rebalance_choice
rebalance_choice-lightest current candidates loads hot_since roll now k moved =
    elim (Bool-cases (may_leave (lookup current loads) hot_since roll now)) [
      | inr no_leave ↦ let e : none ≡ some k = rw no_leave at moved in cc
      | inl leave ↦
          let best = best_of current loads now none candidates in
          let named : name current loads now best ≡ some k = rw leave at moved in
          let start : IsBest current loads now none = unfold IsBest in tt in
          let (r, is_cool, w) =
            chosen current loads now best k named
              (best_of-IsBest current loads now none candidates start) in
          (
            may_leave-IsHot current loads now hot_since roll leave,
            elim (best_of-name current loads now none candidates k named) [
              | inl nobody ↦ let e : none ≡ some k = nobody in cc
              | inr place ↦ place
            ],
            (
              r,
              is_cool,
              best_of-IsNoBetter current loads now none candidates r.pct start (omega (arith, w)),
            ),
          )
    ]
