-- ===== src/Outbox/Windows.antt =====
-- What may go, in which order, and what has gone too old.
use encedo_chat.Prelude.{
  ltb, leb, ltb→lt, leb→le, Bool-cases, Option-cases, All, All-append, Bytes, ℕ, ◌+◌, ◌≤◌, ◌<◌, ◌≡◌,
  refl, ap, ◌∙◌, subst, ◌≢◌, ◌⊎◌, inl, inr, true, false, not, ◌||◌, Option, none, some, List, ◌++◌,
  arith,
}
use mathlib.Core.List.{Perm, append_assoc}
use mathlib.Core.List.Perm
use encedo_chat.JsMap.{lookup, set, lookup-set, bytes_eq, bytes_beq, bytes_beq_iff}
use encedo_chat.Outbox.{
  Outbox, Entry, Qid, is_to, filter, truthy, same_key, slot, window_passed, may_go, sort, due,
  throttled, delivered, expire,
}
use encedo_chat.Outbox.Sorting.{
  IsOrdered, filter-All, All-map, All-sort, sort-IsOrdered, sort-Perm, filter-Perm,
  filter-filter-All, All-both,
}

module _ (o : Outbox) (to : Bytes) (now every : ℕ) where
  -- An entry to the recipient without a key, or with one whose last delivery, if there was any, is
  -- `every` or more ago.
  abbrev pub IsDue : Entry → Type 0
  IsDue e =
      (e.to ≡ to)
      × ((truthy e.key ≡ false)
          ⊎ ((lookup (slot to e.key) o.last_sent ≡ none)
              ⊎ ((t : ℕ) × (lookup (slot to e.key) o.last_sent ≡ some t) × (t + every ≤ now))))

  -- An entry to somebody else, or with a key that was delivered less than `every` ago.
  abbrev pub IsHeldBack : Entry → Type 0
  IsHeldBack e =
      (e.to ≢ to)
      ⊎ ((truthy e.key ≡ true)
          × ((t : ℕ) × (lookup (slot to e.key) o.last_sent ≡ some t) × (now < t + every)))

  may_go-IsDue : (e : Entry) → is_to to e ≡ true → may_go o to now every e ≡ true → IsDue e
  unfolding window_passed
  may_go-IsDue e mine may = (
    (bytes_beq_iff e.to to).0 mine,
    elim (Bool-cases (truthy e.key)) [
      | inr plain ↦ inl plain
      | inl keyed ↦ elim (Option-cases (lookup (slot to e.key) o.last_sent)) [
        | inl never ↦ inr (inl never)
        | inr (t, sent) ↦
            inr (inr (t, sent, leb→le (t + every) now (rw (keyed, sent, window_passed) at may)))
      ]
    ],
  )

  may_not_go-IsHeldBack : (e : Entry) → may_go o to now every e ≡ false → IsHeldBack e
  unfolding window_passed
  may_not_go-IsHeldBack e may = elim (Bool-cases (truthy e.key)) [
    | inr plain ↦ let clash : true ≡ false = rw plain at may in cc
    | inl keyed ↦ elim (Option-cases (lookup (slot to e.key) o.last_sent)) [
      | inl never ↦ let clash : true ≡ false = rw (keyed, never, window_passed) at may in cc
      | inr (t, sent) ↦
          let late : leb (t + every) now ≡ false = rw (keyed, sent, window_passed) at may in
          inr (keyed, (t, sent, ground arith))
    ]
  ]

  -- The entries that `due` leaves out.
  abbrev rest : List Entry
  rest =
      filter (λ e. not (may_go o to now every e)) (filter (is_to to) o.entries)
      ++ filter (λ e. not (is_to to e)) o.entries

  due-Perm : Perm (due o to now every ++ rest) o.entries
  unfolding due
  due-Perm =
      let mine = filter (is_to to) o.entries in
      let going = filter (may_go o to now every) mine in
      let held = filter (λ e. not (may_go o to now every e)) mine in
      let others = filter (λ e. not (is_to to e)) o.entries in
      let sorted : Perm (sort going ++ held) mine =
        Perm.trans (Perm.append_right held (sort-Perm going)) (
          filter-Perm (may_go o to now every) (λ e. not (may_go o to now every e)) mine
            (λ e. refl)) in
      subst (λ l. Perm l o.entries) (append_assoc (sort going) held others)
        (Perm.trans (Perm.append_right others sorted)
          (filter-Perm (is_to to) (λ e. not (is_to to e)) o.entries (λ e. refl)))

  due-All : All IsDue (due o to now every)
  unfolding due
  due-All =
      let mine = filter (is_to to) o.entries in
      let going = filter (may_go o to now every) mine in
      All-sort IsDue going (
        All-map (λ e. (is_to to e ≡ true) × (may_go o to now every e ≡ true)) IsDue going
          (λ e (m, g). may_go-IsDue e m g)
          (All-both (λ e. is_to to e ≡ true) (λ e. may_go o to now every e ≡ true) going
            (filter-filter-All (is_to to) (may_go o to now every) o.entries)
            (filter-All (may_go o to now every) mine)))

  rest-All : All IsHeldBack rest
  rest-All =
      let mine = filter (is_to to) o.entries in
      All-append IsHeldBack (filter (λ e. not (may_go o to now every e)) mine)
        (filter (λ e. not (is_to to e)) o.entries)
        (All-map (λ e. not (may_go o to now every e) ≡ true) IsHeldBack _
          (λ e g. may_not_go-IsHeldBack e (ground arith))
          (filter-All (λ e. not (may_go o to now every e)) mine))
        (All-map (λ e. not (is_to to e) ≡ true) IsHeldBack _
          (λ e g. inl (λ same. let yes = (bytes_beq_iff e.to to).1 same in absurd (cc)))
          (filter-All (λ e. not (is_to to e)) o.entries))

-- What is due to a recipient comes oldest first, and is exactly the entries to it that have no key or
-- one whose last delivery, if any, is `every` or more ago: with the entries left out, which are to
-- others or have a key that was delivered less than `every` ago, it is a permutation of all entries.
pub due-IsOrdered :
    (o : Outbox) (to : Bytes) (now every : ℕ)
    → IsOrdered (due o to now every)
      × All (IsDue o to now every) (due o to now every)
      × ((held_back : List Entry) × All (IsHeldBack o to now every) held_back
          × Perm (due o to now every ++ held_back) o.entries)
unfolding due
due-IsOrdered o to now every = (
  sort-IsOrdered (filter (may_go o to now every) (filter (is_to to) o.entries)),
  due-All o to now every,
  (rest o to now every, rest-All o to now every, due-Perm o to now every),
)

same_key-≡ : (j k : Option Bytes) → same_key j k ≡ true → j ≡ k
same_key-≡ none none e = refl
same_key-≡ none (some y) e = cc
same_key-≡ (some x) none e = cc
same_key-≡ (some x) (some y) e = ap some ((bytes_beq_iff x y).0 e)

window_open :
    (o : Outbox) (q : Option Qid) (to : Bytes) (key : Option Bytes) (now now' every : ℕ)
    → truthy key ≡ true
    → now' < now + every
    → window_passed (delivered o q to key now) to key now' every ≡ false
unfolding window_passed delivered
window_open o q to key now now' every keyed soon =
    let k = slot to key in
    let self : bytes_beq k k ≡ true = (bytes_beq_iff k k).1 refl in
    let found : lookup k (set k now o.last_sent) ≡ some now =
      lookup-set k k now o.last_sent ∙ rw self refl in
    let late : leb (now + every) now' ≡ false = ground arith in
    rw (keyed, found, window_passed) late

-- Until `every` has passed since a message with a key was delivered, a new one with that key has to
-- wait, and no entry with it is due.
pub delivered-throttles :
    (o : Outbox) (q : Option Qid) (to : Bytes) (key : Option Bytes) (now now' every : ℕ)
    → truthy key ≡ true
    → now' < now + every
    → (throttled (delivered o q to key now) to key now' every ≡ true)
      × All (λ e. same_key e.key key ≡ false) (due (delivered o q to key now) to now' every)
unfolding throttled
delivered-throttles o q to key now now' every keyed soon =
    let shut = window_open o q to key now now' every keyed soon in
    let o' = delivered o q to key now in
    let going : All (λ e. may_go o' to now' every e ≡ true) (due o' to now' every) =
      unfold due in
      All-sort (λ e. may_go o' to now' every e ≡ true)
        (filter (may_go o' to now' every) (filter (is_to to) o'.entries))
        (filter-All (may_go o' to now' every) (filter (is_to to) o'.entries)) in
    (
      rw (keyed, shut) refl,
      All-map (λ e. may_go o' to now' every e ≡ true) (λ e. same_key e.key key ≡ false)
          (due o' to now' every)
          (λ e may. elim (Bool-cases (same_key e.key key)) [
            | inr other ↦ other
            | inl same ↦
                let refused : (not (truthy e.key) || window_passed o' to e.key now' every) ≡ false =
                  ap (λ k. not (truthy k) || window_passed o' to k now' every)
                    (same_key-≡ e.key key same)
                  ∙ rw (keyed, shut) refl in
                cc
          ])
          going,
    )

-- What `expire` leaves has not expired, what it takes has, and the two together are a permutation of
-- the entries that were there.
pub expire-splits :
    (o : Outbox) (now : ℕ)
    → All (λ e. now < e.expires) (expire o now).0.entries
      × All (λ e. e.expires ≤ now) (expire o now).1
      × Perm ((expire o now).0.entries ++ (expire o now).1) o.entries
unfolding expire
expire-splits o now = (
  All-map (λ e. ltb now e.expires ≡ true) (λ e. now < e.expires) _ (λ e l. ltb→lt now e.expires l)
      (filter-All (λ e. ltb now e.expires) o.entries),
  All-map (λ e. leb e.expires now ≡ true) (λ e. e.expires ≤ now) _ (λ e l. leb→le e.expires now l)
      (filter-All (λ e. leb e.expires now) o.entries),
  filter-Perm (λ e. ltb now e.expires) (λ e. leb e.expires now) o.entries (λ e. ground arith),
)
