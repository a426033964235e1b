-- ===== src/Nodepick/Order.antt =====
-- The list to dial keeps its nodes.
use encedo_chat.Prelude.{
  length, ℕ, zero, suc, ◌≤◌, ◌≡◌, refl, none, some, List, [], ◌∷◌, ◌++◌, arith,
}
use encedo_chat.Nodepick.{splice, order_from}

module _ {ℓ} {A : Type ℓ} where
  splice-append :
      (before after : List A) (x : A)
      → splice (length before) (before ++ x ∷ after) ≡ some (x, before ++ after)
  unfolding splice
  splice-append [] after x = refl
  splice-append (b ∷ before) after x = rw (splice-append before after x) refl

  splice-out : (i : ℕ) (xs : List A) → length xs ≤ i → splice i xs ≡ none
  unfolding splice
  splice-out i [] h = refl
  splice-out zero (x ∷ xs) h = ground arith
  splice-out (suc i) (x ∷ xs) h = rw (splice-out i xs (omega (arith, h))) refl

order_from-out {ℓ} : {A : Type ℓ} (xs : List A) (i : ℕ) → length xs ≤ i → order_from xs i ≡ xs
unfolding order_from
order_from-out xs zero h = refl
order_from-out xs (suc i) h = rw (splice-out (suc i) xs h, order_from) refl

order_from-at {ℓ} :
    {A : Type ℓ} (before after : List A) (x : A)
    → order_from (before ++ x ∷ after) (length before) ≡ x ∷ before ++ after
unfolding order_from
order_from-at [] after x = refl
order_from-at (b ∷ before) after x = rw (splice-append (b ∷ before) after x, order_from) refl

-- `orderFrom` moves the node at the index to the front and keeps the order of all others, and an index
-- that is no node's changes nothing.
pub order_from-append {ℓ} :
    {A : Type ℓ} (before after : List A) (x : A) (i : ℕ)
    → length (before ++ x ∷ after) ≤ i
    → (order_from (before ++ x ∷ after) (length before) ≡ x ∷ before ++ after)
      × (order_from (before ++ x ∷ after) i ≡ before ++ x ∷ after)
order_from-append before after x i out =
    (order_from-at before after x, order_from-out (before ++ x ∷ after) i out)
