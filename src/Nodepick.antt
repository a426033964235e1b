-- ===== src/Nodepick.antt =====
-- impl/lib/nodepick.ts: which relay to dial. Names of nodes are lists of code units, loads are whole
-- percents, and a roll in [0, 1) is its number of millionths.
pub mod Best
pub mod Rebalance
pub mod Order
mod Tests
use encedo_chat.Prelude.{
  ltb, leb, if◌then◌else◌, Bytes, ℕ, zero, suc, ◌+◌, ◌-◌, Bool, true, false, ◌&&◌, Option, none,
  some, List, [], ◌∷◌,
}
use encedo_chat.JsMap.{lookup, bytes_eq, bytes_beq}

pub record LoadReading : Type 0 where
  pub node : Bytes
  pub pct : ℕ
  pub at : ℕ

abbrev pub hot : ℕ
hot = 85

abbrev pub cool : ℕ
cool = 60

abbrev pub hot_for_ms : ℕ
hot_for_ms = 60_000

abbrev pub rebalance_millionths : ℕ
rebalance_millionths = 200_000

abbrev pub load_stale_ms : ℕ
load_stale_ms = 90_000

-- `fresh`, of a reading that is there.
unfoldable pub is_fresh : LoadReading → ℕ → Bool
is_fresh r now = leb (now - r.at) load_stale_ms && leb r.at (now + 30_000)

abbrev pub Best : Type 0
Best = Option (Bytes × LoadReading)

abbrev pub is_better : LoadReading → Best → Bool
is_better r none = true
is_better r (some (k, b)) = ltb r.pct b.pct

-- One candidate of the loop of `rebalanceChoice`.
unfoldable pub consider : Bytes → List (Bytes × LoadReading) → ℕ → Best → Bytes → Best
consider current loads now best k = if bytes_beq k current then best else (elim (lookup k loads) [
  | none ↦ best
  | some r ↦ if is_fresh r now && (ltb r.pct cool && is_better r best) then some (k, r) else best
])

unfoldable pub best_of : Bytes → List (Bytes × LoadReading) → ℕ → Best → List Bytes → Best
best_of current loads now best [] = best
best_of current loads now best (k ∷ ks) =
    best_of current loads now (consider current loads now best k) ks

-- The guards of `rebalanceChoice`: a fresh and hot reading of ours, hot for long enough, and the roll.
unfoldable pub may_leave : Option LoadReading → Option ℕ → ℕ → ℕ → Bool
may_leave none since roll now = false
may_leave (some mine) none roll now = false
may_leave (some mine) (some since) roll now =
    is_fresh mine now
    && (leb hot mine.pct && (leb (since + hot_for_ms) now && ltb roll rebalance_millionths))

unfoldable pub rebalance_choice :
    Bytes → List Bytes → List (Bytes × LoadReading) → Option ℕ → ℕ → ℕ → Option Bytes
rebalance_choice current candidates loads hot_since roll now =
    if may_leave (lookup current loads) hot_since roll now
    then (elim (best_of current loads now none candidates) [ none ↦ none | some (k, r) ↦ some k ])
    else none

-- `splice` of one place: what was there, and the list without it.
unfoldable pub splice {ℓ} : {A : Type ℓ} → ℕ → List A → Option (A × List A)
splice i [] = none
splice zero (x ∷ xs) = some (x, xs)
splice (suc i) (x ∷ xs) =
    let rest = splice i xs in elim rest [ none ↦ none | some (y, ys) ↦ some (y, x ∷ ys) ]

-- `orderFrom`, for an index that is not negative.
unfoldable pub order_from {ℓ} : {A : Type ℓ} → List A → ℕ → List A
order_from nodes zero = nodes
order_from nodes (suc i) = elim (splice (suc i) nodes) [
  | none ↦ nodes
  | some (picked, rest) ↦ picked ∷ rest
]
