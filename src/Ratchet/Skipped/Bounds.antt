-- ===== src/Ratchet/Skipped/Bounds.antt =====
-- The store never holds more chains than it may, whatever `decrypt` is given.
use encedo_chat.Prelude.{
  ltb, Bool-cases, Option-cases, length, Bytes, ℕ, ◌≤◌, ◌≡◌, refl, inl, inr, List, [], ◌∷◌, arith,
}
use encedo_chat.JsMap.{lookup, set, delete, length-delete, length-set-found, bytes_eq, nat_eq}
use encedo_chat.Ratchet.Skipped
use encedo_chat.Ratchet.Skipped.{SkippedKeys, Chain, evict, set_in, is_empty, prune_chains}

-- At most `max_chains` chains are held.
unfoldable pub IsBounded : SkippedKeys → Type 0
IsBounded keys = length keys.chains ≤ keys.max_chains

length-evict : (most : ℕ) (cs : List (Bytes × Chain)) → length (evict most cs) ≤ most
unfolding evict
length-evict most [] = omega arith
length-evict most (x ∷ cs) = elim (Bool-cases (ltb most (length (x ∷ cs)))) [
  | inl e ↦ rw e (length-evict most cs)
  | inr e ↦ rw e (ground arith)
]

length-set_in :
    (k : Bytes) (n : ℕ) (s : Skipped.Skipped) (cs : List (Bytes × Chain))
    → length (set_in k n s cs) ≡ length cs
unfolding set_in
length-set_in k n s cs = elim (Option-cases (lookup k cs)) [
  | inl e ↦ rw (e, set_in) refl
  | inr (chain, e) ↦ rw (e, set_in) (length-set-found k (set n s chain) chain cs e)
]

length-prune_chains :
    (ttl now : ℕ) (cs : List (Bytes × Chain)) → length (prune_chains ttl now cs) ≤ length cs
unfolding prune_chains
length-prune_chains ttl now [] = omega arith
length-prune_chains ttl now ((k, chain) ∷ cs) = ground (arith, length-prune_chains ttl now cs)

pub put-IsBounded :
    (keys : SkippedKeys) (dh_pub : Bytes) (n : ℕ) (mk : Bytes) (now : ℕ)
    → IsBounded keys
    → IsBounded (Skipped.put keys dh_pub n mk now)
unfolding IsBounded
put-IsBounded keys dh_pub n mk now v =
    let s : Skipped.Skipped = record { mk = mk; ts = now } in
    elim (Option-cases (lookup dh_pub keys.chains)) [
      | inl e ↦
          unfold Skipped.put in
          rw (e, Skipped.put)
            (omega (
              arith,
              length-evict keys.max_chains (set dh_pub [] keys.chains),
              length-set_in dh_pub n s (evict keys.max_chains (set dh_pub [] keys.chains)),
            ))
      | inr (chain, e) ↦
          unfold Skipped.put in
          rw (e, Skipped.put) (omega (arith, v, length-set_in dh_pub n s keys.chains))
    ]

pub drop_key-IsBounded :
    (keys : SkippedKeys) (dh_pub : Bytes) (n : ℕ)
    → IsBounded keys
    → IsBounded (Skipped.drop_key keys dh_pub n)
unfolding IsBounded
drop_key-IsBounded keys dh_pub n v = elim (Option-cases (lookup dh_pub keys.chains)) [
  | inl e ↦ unfold Skipped.drop_key in rw (e, Skipped.drop_key) v
  | inr (chain, e) ↦
      unfold Skipped.drop_key in
      elim (Bool-cases (is_empty (delete n chain))) [
        | inl last ↦
            rw (e, last, Skipped.drop_key) (omega (arith, v, length-delete dh_pub keys.chains))
        | inr more ↦
            rw (e, more, Skipped.drop_key)
              (omega (arith, v, length-set-found dh_pub (delete n chain) chain keys.chains e))
      ]
]

pub prune-IsBounded :
    (keys : SkippedKeys) (now : ℕ) → IsBounded keys → IsBounded (Skipped.prune keys now)
unfolding IsBounded
prune-IsBounded keys now v =
    unfold Skipped.prune in omega (arith, length-prune_chains keys.ttl_ms now keys.chains)
