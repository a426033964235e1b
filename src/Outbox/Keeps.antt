-- ===== src/Outbox/Keeps.antt =====
-- What an entry that is added does to those that wait.
use encedo_chat.Prelude.{
  Bool-cases, Option-cases, length, take, All, Bytes, ℕ, zero, suc, ◌+◌, ◌-◌, ◌≤◌, ◌≡◌, refl, sym,
  ap, ◌∙◌, ◌⊎◌, inl, inr, true, ◌&&◌, Option, none, some, List, [], ◌∷◌, ◌++◌, arith,
}
use mathlib.Core.Option.{some-injective}
use mathlib.Core.List.{Perm, perm_middle}
use mathlib.Core.List.Perm
use encedo_chat.Outbox.Sorting.{filter-All}
use encedo_chat.Outbox.{
  Outbox, Entry, is_to, filter, merge_first, drop_first, push, add, cap_per_recipient, truthy,
  Added, merge, queued, merged, same_key, default_ttl_ms,
}
use encedo_chat.JsMap.{bytes_beq_iff}

-- The first `n` entries to a recipient, and all but them.
drop_first-Perm :
    (n : ℕ) (to : Bytes) (es : List Entry)
    → Perm (take n (filter (is_to to) es) ++ drop_first n to es) es
unfolding filter drop_first take
drop_first-Perm zero to [] = Perm.refl []
drop_first-Perm (suc n) to [] = Perm.refl []
drop_first-Perm zero to (e ∷ es) = Perm.refl (e ∷ es)
drop_first-Perm (suc n) to (e ∷ es) = elim (Bool-cases (is_to to e)) [
  | inl mine ↦ rw mine (Perm.cons e (drop_first-Perm n to es))
  | inr other ↦ rw other (
      Perm.trans (perm_middle (take (suc n) (filter (is_to to) es)) (drop_first (suc n) to es))
        (Perm.cons e (drop_first-Perm (suc n) to es)))
]

take-All : (P : Entry → Type 0) (n : ℕ) (es : List Entry) → All P es → All P (take n es)
unfolding take
take-All P zero es v = tt
take-All P (suc n) [] v = tt
take-All P (suc n) (e ∷ es) v = (v.0, take-All P n es v.1)

-- A new entry went to the end: behind it, with what was dropped, is what waited and the new one.
pub record Queued (o o' : Outbox) (to text : Bytes) (key : Option Bytes) (a : Added) : Type 0 where
  pub for_to : a.entry.to ≡ to
  pub with_text : a.entry.text ≡ text
  pub under_key : a.entry.key ≡ key
  pub dropped : All (λ e. is_to to e ≡ true) a.dropped
  pub all : Perm (a.dropped ++ o'.entries) (o.entries ++ a.entry ∷ [])

-- One entry that waited for the recipient under the key took the text, and no other changed.
pub record Merged (o o' : Outbox) (to text : Bytes) (key : Option Bytes) (a : Added) : Type 0 where
  pub before : List Entry
  pub after : List Entry
  pub old : Entry
  pub for_to : old.to ≡ to
  pub under_key : same_key old.key key ≡ true
  pub entry :
      a.entry ≡ record old { merged = old.merged + 1; text = text; expires = a.entry.expires }
  pub longer : old.expires ≤ a.entry.expires
  pub dropped : a.dropped ≡ []
  pub was : o.entries ≡ before ++ old ∷ after
  pub is : o'.entries ≡ before ++ a.entry ∷ after

push-Queued :
    (o : Outbox) (to text : Bytes) (now expires : ℕ) (key : Option Bytes)
    → Queued o (push o to text now expires key).0 to text key (push o to text now expires key).1
unfolding push
push-Queued o to text now expires key =
    let entry : Entry = record {
      qid = (now, o.seq + 1);
      to = to;
      text = text;
      created = now;
      expires = expires;
      key = key;
      merged = 0;
    } in
    let all : List Entry = o.entries ++ entry ∷ [] in
    let mine = filter (is_to to) all in
    let over = length mine - cap_per_recipient in
    record {
      for_to = refl;
      with_text = refl;
      under_key = refl;
      dropped = take-All (λ e. is_to to e ≡ true) over mine (filter-All (is_to to) all);
      all = drop_first-Perm over to all;
    }

none-some : {p : Entry × List Entry} → none ≡ some p → ⊥
none-some h = cc

-- The entry that `merge_first` found, and its place.
record Found (to : Bytes) (key : Option Bytes) (text : Bytes) (expires : ℕ) (es es' : List Entry)
    (e : Entry) : Type 0 where
  before : List Entry
  after : List Entry
  old : Entry
  mine : is_to to old ≡ true
  same : same_key old.key key ≡ true
  new : e ≡ merge text expires old
  was : es ≡ before ++ old ∷ after
  is : es' ≡ before ++ e ∷ after

merge_first-Found :
    (to : Bytes) (key : Option Bytes) (text : Bytes) (expires : ℕ) (es es' : List Entry) (e : Entry)
    → merge_first to key text expires es ≡ some (e, es')
    → Found to key text expires es es' e
unfolding merge_first
merge_first-Found to key text expires [] es' e h = cc
merge_first-Found to key text expires (x ∷ es) es' e h =
    elim (Bool-cases (is_to to x && same_key x.key key)) [
      | inl me ↦
          let mine : is_to to x ≡ true = ground arith in
          let same : same_key x.key key ≡ true = ground arith in
          let r : (merge text expires x, merge text expires x ∷ es) ≡ (e, es') =
            some-injective _ _ (rw me at h) in
          record {
            before = [];
            after = es;
            old = x;
            mine = mine;
            same = same;
            new = sym (ap (λ p. p.0) r);
            was = refl;
            is = sym (ap (λ p. p.1) r) ∙ ap (λ t. t ∷ es) (ap (λ p. p.0) r);
          }
      | inr other ↦ elim (Option-cases (merge_first to key text expires es)) [
        | inl gone ↦ absurd (none-some (rw (other, gone) at h))
        | inr ((f, es2), found) ↦
            let r : (f, x ∷ es2) ≡ (e, es') = some-injective _ _ (rw (other, found) at h) in
            let v =
              merge_first-Found to key text expires es es2 e
                (found ∙ ap (λ t. some (t, es2)) (ap (λ p. p.0) r)) in
            record {
              before = x ∷ v.before;
              after = v.after;
              old = v.old;
              mine = v.mine;
              same = v.same;
              new = v.new;
              was = ap (λ t. x ∷ t) v.was;
              is = sym (ap (λ p. p.1) r) ∙ ap (λ t. x ∷ t) v.is;
            }
      ]
    ]

-- `add` loses no entry unseen: where the new one is queued, what is left with what is reported as
-- dropped, all of it to the same recipient, is a permutation of what waited and the new entry; where
-- it merges, one entry under the key takes the text and lives at least as long, and no other changes.
pub add-keeps :
    (o : Outbox) (to text : Bytes) (now : ℕ) (ttl : Option ℕ) (key : Option Bytes)
    → ((add o to text now ttl key).1.how ≡ queued
        × Queued o (add o to text now ttl key).0 to text key (add o to text now ttl key).1)
      ⊎ ((add o to text now ttl key).1.how ≡ merged
          × Merged o (add o to text now ttl key).0 to text key (add o to text now ttl key).1)
add-keeps o to text now ttl key =
    let expires : ℕ = now + (elim ttl [ none ↦ default_ttl_ms | some t ↦ t ]) in
    let how : (push o to text now expires key).1.how ≡ queued = unfold push in refl in
    let new = push-Queued o to text now expires key in
    elim (Bool-cases (truthy key)) [
      | inr plain ↦ unfold add in rw (plain, add) (inl (how, new))
      | inl keyed ↦ elim (Option-cases (merge_first to key text expires o.entries)) [
        | inl none_there ↦ unfold add in rw (keyed, none_there, add) (inl (how, new))
        | inr ((e, es), found) ↦
            let v = merge_first-Found to key text expires o.entries es e found in
            unfold add in
            rw (keyed, found, add)
              (inr (
                refl,
                record {
                  before = v.before;
                  after = v.after;
                  old = v.old;
                  for_to = (bytes_beq_iff v.old.to to).0 v.mine;
                  under_key = v.same;
                  entry = rw v.new refl;
                  longer = rw v.new (omega arith);
                  dropped = refl;
                  was = v.was;
                  is = v.is;
                },
              ))
      ]
    ]
