-- ===== src/Outbox/Sorting.antt =====
-- Lists of entries: what a filter keeps, and the sort by age.
use encedo_chat.Prelude.{
  leb, leb→le, Bool-cases, All, ◌≤◌, ◌≡◌, inl, inr, Bool, true, not, List, [], ◌∷◌, ◌++◌, arith,
}
use mathlib.Core.List.{Perm, perm_middle}
use mathlib.Core.List.Perm
use encedo_chat.Outbox.{Entry, filter, insert, sort}

-- Oldest first.
unfoldable pub IsOrdered : List Entry → Type 0
IsOrdered [] = Unit {0}
IsOrdered (x ∷ xs) = All (λ y. x.created ≤ y.created) xs × IsOrdered xs

pub filter-All : (p : Entry → Bool) (es : List Entry) → All (λ e. p e ≡ true) (filter p es)
unfolding filter
filter-All p [] = tt
filter-All p (x ∷ es) = elim (Bool-cases (p x)) [
  | inl e ↦ rw e (e, filter-All p es)
  | inr e ↦ rw e (filter-All p es)
]

pub All-map :
    (P Q : Entry → Type 0) (es : List Entry) → ((e : Entry) → P e → Q e) → All P es → All Q es
All-map P Q [] f v = tt
All-map P Q (x ∷ es) f v = (f x v.0, All-map P Q es f v.1)

All-insert :
    (P : Entry → Type 0) (e : Entry) (es : List Entry) → P e → All P es → All P (insert e es)
unfolding insert
All-insert P e [] p v = (p, tt)
All-insert P e (x ∷ es) p v = elim (Bool-cases (leb e.created x.created)) [
  | inl c ↦ rw c (p, v)
  | inr c ↦ rw c (v.0, All-insert P e es p v.1)
]

pub All-sort : (P : Entry → Type 0) (es : List Entry) → All P es → All P (sort es)
unfolding sort
All-sort P [] v = tt
All-sort P (x ∷ es) v = All-insert P x (sort es) v.0 (All-sort P es v.1)

insert-IsOrdered : (e : Entry) (es : List Entry) → IsOrdered es → IsOrdered (insert e es)
unfolding insert IsOrdered
insert-IsOrdered e [] v = (tt, tt)
insert-IsOrdered e (x ∷ es) v = elim (Bool-cases (leb e.created x.created)) [
  | inl c ↦
      let le = leb→le e.created x.created c in
      rw c (
        (
          le,
          All-map (λ y. x.created ≤ y.created) (λ y. e.created ≤ y.created) es
              (λ y l. omega (arith, le, l)) v.0,
        ),
        v,
      )
  | inr c ↦
      rw c
        (All-insert (λ y. x.created ≤ y.created) e es (ground arith) v.0, insert-IsOrdered e es v.1)
]

pub sort-IsOrdered : (es : List Entry) → IsOrdered (sort es)
unfolding sort IsOrdered
sort-IsOrdered [] = tt
sort-IsOrdered (x ∷ es) = insert-IsOrdered x (sort es) (sort-IsOrdered es)

insert-Perm : (e : Entry) (es : List Entry) → Perm (insert e es) (e ∷ es)
unfolding insert
insert-Perm e [] = Perm.refl (e ∷ [])
insert-Perm e (x ∷ es) = elim (Bool-cases (leb e.created x.created)) [
  | inl c ↦ rw c (Perm.refl (e ∷ x ∷ es))
  | inr c ↦ rw c (Perm.trans (Perm.cons x (insert-Perm e es)) (Perm.swap e x es))
]

pub sort-Perm : (es : List Entry) → Perm (sort es) es
unfolding sort
sort-Perm [] = Perm.refl []
sort-Perm (x ∷ es) = Perm.trans (insert-Perm x (sort es)) (Perm.cons x (sort-Perm es))

-- Two filters of which every entry passes exactly one.
pub filter-Perm :
    (p q : Entry → Bool) (es : List Entry)
    → ((e : Entry) → q e ≡ not (p e))
    → Perm (filter p es ++ filter q es) es
unfolding filter
filter-Perm p q [] other = Perm.refl []
filter-Perm p q (x ∷ es) other = elim (Bool-cases (p x)) [
  | inl e ↦ rw (e, other x, e) (Perm.cons x (filter-Perm p q es other))
  | inr e ↦
      rw (e, other x, e)
        (Perm.trans (perm_middle (filter p es) (filter q es))
          (Perm.cons x (filter-Perm p q es other)))
]

-- What a second filter keeps of what a first one does.
pub filter-filter-All :
    (p q : Entry → Bool) (es : List Entry) → All (λ e. p e ≡ true) (filter q (filter p es))
unfolding filter
filter-filter-All p q [] = tt
filter-filter-All p q (x ∷ es) = elim (Bool-cases (p x)) [
  | inr e ↦ rw e (filter-filter-All p q es)
  | inl e ↦ elim (Bool-cases (q x)) [
    | inl e' ↦ rw (e, e') (e, filter-filter-All p q es)
    | inr e' ↦ rw (e, e') (filter-filter-All p q es)
  ]
]

pub All-both :
    (P Q : Entry → Type 0) (es : List Entry) → All P es → All Q es → All (λ e. P e × Q e) es
All-both P Q [] u v = tt
All-both P Q (x ∷ es) u v = ((u.0, v.0), All-both P Q es u.1 v.1)
