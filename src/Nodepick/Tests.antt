-- ===== src/Nodepick/Tests.antt =====
-- Choices of a relay, and the theorems at concrete values.
use encedo_chat.Prelude.{All, Bytes, ℕ, ◌≡◌, refl, some, List, [], ◌∷◌, ◌++◌}
use encedo_chat.JsMap.{lookup, bytes_eq}
use encedo_chat.Nodepick.{LoadReading, is_fresh, may_leave, rebalance_choice, best_of, consider}
use encedo_chat.Nodepick.Best.{IsCool, IsNoBetter}
use encedo_chat.Nodepick.Rebalance.{IsHot, rebalance_choice-lightest}

abbrev reading : ℕ → ℕ → LoadReading
reading n pct = record { node = n ∷ []; pct = pct; at = 100_000 }

abbrev loads : List (Bytes × LoadReading)
loads = (1 ∷ [], reading 1 90) ∷ (2 ∷ [], reading 2 50) ∷ (3 ∷ [], reading 3 40) ∷ []

abbrev nodes : List Bytes
nodes = (1 ∷ []) ∷ (2 ∷ []) ∷ (3 ∷ []) ∷ []

moves : rebalance_choice (1 ∷ []) nodes loads (some 30_000) 100_000 110_000 ≡ some (3 ∷ [])
unfolding rebalance_choice may_leave lookup is_fresh best_of consider
moves = refl

rebalance_choice-lightest_example :
    IsHot (1 ∷ []) loads 110_000 (some 30_000) 100_000
    × ((before : List Bytes) × (after : List Bytes) × (nodes ≡ before ++ (3 ∷ []) ∷ after))
    × ((r : LoadReading) × IsCool (1 ∷ []) loads 110_000 (3 ∷ []) r
        × All (IsNoBetter (1 ∷ []) loads 110_000 r.pct) nodes)
rebalance_choice-lightest_example =
    rebalance_choice-lightest (1 ∷ []) nodes loads (some 30_000) 100_000 110_000 (3 ∷ []) moves
