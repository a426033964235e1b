-- ===== src/Outbox/Caps.antt =====
-- How many entries wait for one recipient.
use encedo_chat.Prelude.{
  Bool-cases, Option-cases, length, length-append, Bytes, ℕ, zero, suc, ◌+◌, ◌-◌, ◌≤◌, ◌≡◌, refl,
  ap, ◌∙◌, subst, inl, inr, Bool, ◌&&◌, Option, none, some, List, [], ◌∷◌, ◌++◌, arith,
}
use encedo_chat.Outbox.{
  Outbox, Entry, is_to, filter, merge_first, drop_first, push, add, cap_per_recipient, truthy,
  same_key, default_ttl_ms,
}
use encedo_chat.JsMap.{bytes_beq, bytes_beq_iff}

-- No more than the cap wait for anybody.
unfoldable pub IsCapped : Outbox → Type 0
IsCapped o = (to : Bytes) → length (filter (is_to to) o.entries) ≤ cap_per_recipient

filter-append :
    (p : Entry → Bool) (xs ys : List Entry) → filter p (xs ++ ys) ≡ filter p xs ++ filter p ys
unfolding filter
filter-append p [] ys = refl
filter-append p (x ∷ xs) ys = elim (Bool-cases (p x)) [
  | inl e ↦ rw (e, filter-append p xs ys) refl
  | inr e ↦ rw (e, filter-append p xs ys) refl
]

-- The entries to anyone, once the first `n` to a recipient are gone.
filter-drop_first :
    (n : ℕ) (to to' : Bytes) (es : List Entry)
    → length (filter (is_to to') (drop_first n to es)) ≤ length (filter (is_to to') es)
unfolding filter drop_first
filter-drop_first n to to' [] = omega arith
filter-drop_first zero to to' (e ∷ es) = omega arith
filter-drop_first (suc n) to to' (e ∷ es) =
    ground (arith, filter-drop_first n to to' es, filter-drop_first (suc n) to to' es)

filter-drop_first_own :
    (n : ℕ) (to : Bytes) (es : List Entry)
    → length (filter (is_to to) (drop_first n to es)) ≡ length (filter (is_to to) es) - n
unfolding filter drop_first
filter-drop_first_own n to [] = omega arith
filter-drop_first_own zero to (e ∷ es) = omega arith
filter-drop_first_own (suc n) to (e ∷ es) =
    ground (arith, filter-drop_first_own n to es, filter-drop_first_own (suc n) to es)

abbrev list_or : List Entry → Option (Entry × List Entry) → List Entry
list_or es none = es
list_or es (some (e, es')) = es'

-- A merge changes nobody's count.
merge_first-counts :
    (to : Bytes) (key : Option Bytes) (text : Bytes) (expires : ℕ) (to' : Bytes) (es : List Entry)
    → length (filter (is_to to') (list_or es (merge_first to key text expires es)))
      ≡ length (filter (is_to to') es)
unfolding merge_first filter
merge_first-counts to key text expires to' [] = refl
merge_first-counts to key text expires to' (x ∷ es) =
    let ih = merge_first-counts to key text expires to' es in
    elim (Bool-cases (is_to to x && same_key x.key key)) [
      | inl e ↦ rw e (elim (Bool-cases (is_to to' x)) [ inl e' ↦ rw e' refl | inr e' ↦ rw e' refl ])
      | inr e ↦ elim (Option-cases (merge_first to key text expires es)) [
        | inl r ↦ rw (e, r) refl
        | inr ((f, es2), r) ↦
            let ih2 : length (filter (is_to to') es2) ≡ length (filter (is_to to') es) =
              rw r at ih in
            rw (e, r)
              (elim (Bool-cases (is_to to' x)) [ inl e' ↦ rw e' (ap suc ih2) | inr e' ↦ rw e' ih2 ])
      ]
    ]

push-IsCapped :
    (o : Outbox) (to text : Bytes) (now expires : ℕ) (key : Option Bytes)
    → IsCapped o
    → IsCapped (push o to text now expires key).0
unfolding IsCapped push
push-IsCapped o to text now expires key v to' =
    let entry : Entry = record {
      qid = (now, o.seq + 1);
      to = to;
      text = text;
      created = now;
      expires = expires;
      key = key;
      merged = 0;
    } in
    let all : List Entry = o.entries ++ entry ∷ [] in
    let over = length (filter (is_to to) all) - cap_per_recipient in
    elim (Bool-cases (bytes_beq to to')) [
      | inl own ↦
          let me : to ≡ to' = (bytes_beq_iff to to').0 own in
          subst (λ t. length (filter (is_to t) (drop_first over to all)) ≤ cap_per_recipient) me
            (omega (arith, filter-drop_first_own over to all))
      | inr other ↦
          let none_new : filter (is_to to') (entry ∷ []) ≡ [] = unfold filter in rw other refl in
          let split : length (filter (is_to to') all)
              ≡ length (filter (is_to to') o.entries) + length (filter (is_to to') (entry ∷ [])) =
            ap length (filter-append (is_to to') o.entries (entry ∷ []))
            ∙ length-append (filter (is_to to') o.entries) (filter (is_to to') (entry ∷ [])) in
          let bare : length (filter (is_to to') (entry ∷ [])) ≡ 0 = ap length none_new in
          omega (arith, filter-drop_first over to to' all, split, bare, v to')
    ]

-- Whatever is added, for whomever, no more than a hundred entries wait for anybody if no more
-- waited before.
pub add-IsCapped :
    (o : Outbox) (to text : Bytes) (now : ℕ) (ttl : Option ℕ) (key : Option Bytes)
    → IsCapped o
    → IsCapped (add o to text now ttl key).0
add-IsCapped o to text now ttl key v =
    let expires : ℕ = now + (elim ttl [ none ↦ default_ttl_ms | some t ↦ t ]) in
    elim (Bool-cases (truthy key)) [
      | inr plain ↦ unfold add in rw (plain, add) (push-IsCapped o to text now expires key v)
      | inl keyed ↦ elim (Option-cases (merge_first to key text expires o.entries)) [
        | inl new ↦ unfold add in rw (keyed, new, add) (push-IsCapped o to text now expires key v)
        | inr ((e, es), found) ↦
            unfold add in
            rw (keyed, found, add)
              (unfold IsCapped in
                λ to'.
                  let same : length (filter (is_to to') es)
                      ≡ length (filter (is_to to') o.entries) =
                    rw found at (merge_first-counts to key text expires to' o.entries) in
                  omega (arith, same, v to'))
      ]
    ]
