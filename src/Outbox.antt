-- ===== src/Outbox.antt =====
-- impl/cli/outbox.ts: the daemon's queue of notifications. Texts, recipients and keys are lists of
-- code units; a `qid`, the time and a running number printed with a dash between, is the pair of the
-- two.
pub mod Sorting
pub mod Caps
pub mod Keeps
pub mod Windows
mod Tests
use encedo_chat.Prelude.{
  ltb, leb, ◌==◌, if◌then◌else◌, length, take, Bytes, ℕ, zero, suc, ◌+◌, ◌-◌, ◌*◌, max, Bool, true,
  false, not, ◌&&◌, ◌||◌, Option, none, some, List, [], ◌∷◌, ◌++◌,
}
use encedo_chat.JsMap.{lookup, set, bytes_eq, bytes_beq}

abbrev pub Qid : Type 0
Qid = ℕ × ℕ

pub record Entry : Type 0 where
  pub qid : Qid
  pub to : Bytes
  pub text : Bytes
  pub created : ℕ
  pub expires : ℕ
  pub key : Option Bytes
  pub merged : ℕ

abbrev pub default_ttl_ms : ℕ
default_ttl_ms = 24 * 3_600_000

abbrev pub default_every_ms : ℕ
default_every_ms = 60_000

abbrev pub cap_per_recipient : ℕ
cap_per_recipient = 100

pub record Outbox : Type 0 where
  pub entries : List Entry
  pub last_sent : List (Bytes × ℕ)
  pub seq : ℕ

pub data How : Type 0 where
  queued merged : How

pub record Added : Type 0 where
  pub entry : Entry
  pub how : How
  pub dropped : List Entry

-- A key that is not empty, as the source tests it.
abbrev pub truthy : Option Bytes → Bool
truthy none = false
truthy (some []) = false
truthy (some (x ∷ xs)) = true

abbrev pub same_key : Option Bytes → Option Bytes → Bool
same_key none none = true
same_key none (some y) = false
same_key (some x) none = false
same_key (some x) (some y) = bytes_beq x y

abbrev pub is_to : Bytes → Entry → Bool
is_to to e = bytes_beq e.to to

-- `Array.filter`
unfoldable pub filter {ℓ} : {A : Type ℓ} → (A → Bool) → List A → List A
filter p [] = []
filter p (x ∷ xs) = let rest = filter p xs in if p x then x ∷ rest else rest

-- What merging does to the entry that waits.
abbrev pub merge : Bytes → ℕ → Entry → Entry
merge text expires e = record e {
  merged = e.merged + 1;
  text = text;
  expires = max e.expires expires;
}

-- `find`, and the change of what it found.
unfoldable pub merge_first :
    Bytes → Option Bytes → Bytes → ℕ → List Entry → Option (Entry × List Entry)
merge_first to key text expires [] = none
merge_first to key text expires (e ∷ es) =
    let rest = merge_first to key text expires es in
    if is_to to e && same_key e.key key
    then some (merge text expires e, merge text expires e ∷ es)
    else (elim rest [ none ↦ none | some (found, es') ↦ some (found, e ∷ es') ])

-- The entries without the first `n` to a recipient.
unfoldable pub drop_first : ℕ → Bytes → List Entry → List Entry
drop_first n to [] = []
drop_first zero to (e ∷ es) = e ∷ es
drop_first (suc n) to (e ∷ es) =
    let less = drop_first n to es in
    let rest = drop_first (suc n) to es in if is_to to e then less else e ∷ rest

-- A notification that merges with none.
unfoldable pub push : Outbox → Bytes → Bytes → ℕ → ℕ → Option Bytes → Outbox × Added
push o to text now expires key =
    let entry : Entry = record {
      qid = (now, o.seq + 1);
      to = to;
      text = text;
      created = now;
      expires = expires;
      key = key;
      merged = 0;
    } in
    let entries = o.entries ++ entry ∷ [] in
    let mine = filter (is_to to) entries in
    let over = length mine - cap_per_recipient in
    (
      record o { entries = drop_first over to entries; seq = o.seq + 1 },
      record { entry = entry; how = queued; dropped = take over mine },
    )

unfoldable pub add : Outbox → Bytes → Bytes → ℕ → Option ℕ → Option Bytes → Outbox × Added
add o to text now ttl key =
    let expires = now + (elim ttl [ none ↦ default_ttl_ms | some t ↦ t ]) in
    if truthy key
    then (elim (merge_first to key text expires o.entries) [
      | none ↦ push o to text now expires key
      | some (e, es) ↦ (record o { entries = es }, record { entry = e; how = merged; dropped = [] })
    ])
    else push o to text now expires key

-- `expire`: what is left, and what went.
unfoldable pub expire : Outbox → ℕ → Outbox × List Entry
expire o now = (
  record o { entries = filter (λ e. ltb now e.expires) o.entries },
  filter (λ e. leb e.expires now) o.entries,
)

-- `${to}|${key}`
abbrev pub slot : Bytes → Option Bytes → Bytes
slot to none = []
slot to (some key) = to ++ 124 ∷ key

-- Whether the window of a key has passed: a key that never went is as old as can be.
unfoldable pub window_passed : Outbox → Bytes → Option Bytes → ℕ → ℕ → Bool
window_passed o to key now every = elim (lookup (slot to key) o.last_sent) [
  | none ↦ true
  | some t ↦ leb (t + every) now
]

-- `sort` by age, which keeps the order of equals.
unfoldable pub insert : Entry → List Entry → List Entry
insert e [] = e ∷ []
insert e (x ∷ xs) =
    let rest = insert e xs in if leb e.created x.created then e ∷ x ∷ xs else x ∷ rest

unfoldable pub sort : List Entry → List Entry
sort [] = []
sort (x ∷ xs) = insert x (sort xs)

abbrev pub may_go : Outbox → Bytes → ℕ → ℕ → Entry → Bool
may_go o to now every e = not (truthy e.key) || window_passed o to e.key now every

unfoldable pub due : Outbox → Bytes → ℕ → ℕ → List Entry
due o to now every = sort (filter (may_go o to now every) (filter (is_to to) o.entries))

unfoldable pub throttled : Outbox → Bytes → Option Bytes → ℕ → ℕ → Bool
throttled o to key now every = truthy key && not (window_passed o to key now every)

abbrev pub same_qid : Qid → Qid → Bool
same_qid (a, b) (c, d) = (a == c) && (b == d)

unfoldable pub delivered : Outbox → Option Qid → Bytes → Option Bytes → ℕ → Outbox
delivered o qid to key now =
    let entries : List Entry = elim qid [
      | none ↦ o.entries
      | some q ↦ filter (λ x. not (same_qid x.qid q)) o.entries
    ] in
    let last_sent = if truthy key then set (slot to key) now o.last_sent else o.last_sent in
    record o { entries = entries; last_sent = last_sent }

unfoldable pub for_recipient : Outbox → Bytes → List Entry
for_recipient o to = filter (is_to to) o.entries
