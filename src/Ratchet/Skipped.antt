-- ===== src/Ratchet/Skipped.antt =====
-- The store of skipped message keys: for each chain, by its public key, the keys by number.
-- The source keys the outer map by the base64 of the public key, which tells keys apart as the
-- bytes do.
pub mod Bounds
pub mod Absence
pub mod Presence
pub mod Distinct
use encedo_chat.Prelude.{
  ltb, if◌then◌else◌, length, Bytes, ℕ, ◌+◌, ◌-◌, Bool, true, false, Option, none, some, List, [],
  ◌∷◌,
}
use encedo_chat.JsMap.{lookup, set, delete, nat_eq, bytes_eq}

pub record Skipped : Type 0 where
  pub mk : Bytes
  pub ts : ℕ

abbrev pub Chain : Type 0
Chain = List (ℕ × Skipped)

pub record SkippedKeys : Type 0 where
  pub chains : List (Bytes × Chain)
  pub ttl_ms : ℕ
  pub max_chains : ℕ

-- `while (this.chains.size > this.maxChains)`: the oldest chains go.
unfoldable pub evict : ℕ → List (Bytes × Chain) → List (Bytes × Chain)
evict most [] = []
evict most (c ∷ cs) = if ltb most (length (c ∷ cs)) then evict most cs else c ∷ cs

-- `chain.set(n, …)`: a chain that was evicted at once is no longer in the map.
unfoldable pub set_in : Bytes → ℕ → Skipped → List (Bytes × Chain) → List (Bytes × Chain)
set_in k n s cs = elim (lookup k cs) [ none ↦ cs | some chain ↦ set k (set n s chain) cs ]

unfoldable pub put : SkippedKeys → Bytes → ℕ → Bytes → ℕ → SkippedKeys
unfolding evict set_in
put keys dh_pub n mk now =
    let s : Skipped = record { mk = mk; ts = now } in
    elim (lookup dh_pub keys.chains) [
      | none ↦ record keys {
        chains = set_in dh_pub n s (evict keys.max_chains (set dh_pub [] keys.chains));
      }
      | some chain ↦ record keys { chains = set_in dh_pub n s keys.chains }
    ]

unfoldable pub peek : SkippedKeys → Bytes → ℕ → Option Bytes
peek keys dh_pub n = elim (lookup dh_pub keys.chains) [
  | none ↦ none
  | some chain ↦ elim (lookup n chain) [ none ↦ none | some s ↦ some s.mk ]
]

-- An emptied chain is removed.
abbrev pub is_empty {ℓ} : {A : Type ℓ} → List A → Bool
is_empty [] = true
is_empty (x ∷ xs) = false

unfoldable pub drop_key : SkippedKeys → Bytes → ℕ → SkippedKeys
drop_key keys dh_pub n = elim (lookup dh_pub keys.chains) [
  | none ↦ keys
  | some chain ↦
      let rest = delete n chain in
      if is_empty rest
      then record keys { chains = delete dh_pub keys.chains }
      else record keys { chains = set dh_pub rest keys.chains }
]

-- The keys of a chain that are not too old.
unfoldable pub fresh : ℕ → ℕ → Chain → Chain
fresh ttl now [] = []
fresh ttl now ((n, s) ∷ chain) =
    let rest = fresh ttl now chain in if ltb ttl (now - s.ts) then rest else (n, s) ∷ rest

unfoldable pub prune_chains : ℕ → ℕ → List (Bytes × Chain) → List (Bytes × Chain)
unfolding fresh
prune_chains ttl now [] = []
prune_chains ttl now ((k, chain) ∷ cs) =
    let rest = prune_chains ttl now cs in
    let kept = fresh ttl now chain in if is_empty kept then rest else (k, kept) ∷ rest

unfoldable pub prune : SkippedKeys → ℕ → SkippedKeys
unfolding prune_chains
prune keys now = record keys { chains = prune_chains keys.ttl_ms now keys.chains }

abbrev pub size_chains : List (Bytes × Chain) → ℕ
size_chains [] = 0
size_chains ((k, c) ∷ cs) = length c + size_chains cs

unfoldable pub size : SkippedKeys → ℕ
size keys = size_chains keys.chains
