-- ===== src/Seen.antt =====
-- impl/lib/seen.ts: when a contact was added and last heard, and what that says of it.
mod Tests
use encedo_chat.Prelude.{
  leb, if◌then◌else◌, ℕ, zero, suc, ◌-◌, ◌*◌, ◌≤◌, ◌<◌, max, ◌≡◌, refl, ap, Bool, true, false, not,
  Option, none, some, List, [], ◌∷◌, arith,
}

pub record Seen : Type 0 where
  pub a : Option ℕ
  pub s : Option ℕ

abbrev pub cold_after_ms : ℕ
cold_after_ms = 3 * 86_400_000

pub data ContactState : Type 0 where
  online new cold quiet : ContactState

-- A time that the source takes as given: there, and not 0.
abbrev pub given : Option ℕ → Bool
given none = false
given (some zero) = false
given (some (suc n)) = true

abbrev pub or_else : Option ℕ → ℕ → ℕ
or_else none d = d
or_else (some n) d = n

-- `contactState`; a contact without a record has none of the two times.
unfoldable pub contact_state : Seen → ℕ → Bool → ContactState
contact_state e now is_online =
    if is_online
    then online
    else if given e.s
    then quiet
    else if not (given e.a)
    then new
    else if leb cold_after_ms (now - or_else e.a 0)
    then cold
    else new

unfoldable pub note_seen : Seen → ℕ → Seen
note_seen e at = record { a = some (or_else e.a at); s = some (max (or_else e.s 0) at) }

unfoldable pub note_added : Seen → ℕ → Seen
note_added e at = record { a = some (or_else e.a at); s = e.s }

-- What may happen to the record of a contact, each at its time.
pub data Event : Type 0 where
  heard added : ℕ → Event

unfoldable pub after : List Event → Seen → Seen
after [] e = e
after (heard at ∷ evs) e = after evs (note_seen e at)
after (added at ∷ evs) e = after evs (note_added e at)

after-added : (evs : List Event) (e : Seen) (x : ℕ) → e.a ≡ some x → (after evs e).a ≡ some x
unfolding after note_seen note_added
after-added [] e x h = h
after-added (heard at ∷ evs) e x h =
    after-added evs (note_seen e at) x (ap (λ t. some (or_else t at)) h)
after-added (added at ∷ evs) e x h =
    after-added evs (note_added e at) x (ap (λ t. some (or_else t at)) h)

after-heard :
    (evs : List Event) (e : Seen) (t : ℕ)
    → e.s ≡ some t
    → (u : ℕ) × ((after evs e).s ≡ some u) × (t ≤ u)
unfolding after note_seen note_added
after-heard [] e t h = (t, h, omega arith)
after-heard (heard at ∷ evs) e t h =
    let (u, got, le) =
      after-heard evs (note_seen e at) (max t at) (ap (λ o. some (max (or_else o 0) at)) h) in
    (u, got, omega (arith, le))
after-heard (added at ∷ evs) e t h = after-heard evs (note_added e at) t h

quiet_of : (e : Seen) (u now : ℕ) → e.s ≡ some u → 0 < u → contact_state e now false ≡ quiet
unfolding contact_state
quiet_of e zero now h pos = ground arith
quiet_of e (suc u) now h pos = rw h refl

-- A contact that was heard at a time after 0 is quiet when it is not online, whatever is noted of it
-- later and whenever one looks: never new and never cold. What was noted first as the time it was
-- added stays, and the time it was last heard never goes back.
pub heard_stays :
    (e : Seen) (at now : ℕ) (evs : List Event)
    → 0 < at
    → (contact_state (after evs (note_seen e at)) now false ≡ quiet)
      × ((after evs (note_seen e at)).a ≡ some (or_else e.a at))
      × ((u : ℕ) × ((after evs (note_seen e at)).s ≡ some u) × (max (or_else e.s 0) at ≤ u))
unfolding note_seen
heard_stays e at now evs pos =
    let (u, got, le) = after-heard evs (note_seen e at) (max (or_else e.s 0) at) refl in
    (
      quiet_of (after evs (note_seen e at)) u now got (omega (arith, le, pos)),
      after-added evs (note_seen e at) (or_else e.a at) refl,
      (u, got, le),
    )
