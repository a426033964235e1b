-- ===== src/Seen/Tests.antt =====
-- The theorem on a contact's record at concrete times.
use encedo_chat.Prelude.{ℕ, ◌≤◌, max, ◌≡◌, false, none, some, [], ◌∷◌, arith}
use encedo_chat.Seen.{Seen, heard, added, quiet, contact_state, note_seen, after, heard_stays}

abbrev fresh_record : Seen
fresh_record = record { a = none; s = none }

heard_stays_example :
    (contact_state (after (added 9 ∷ heard 3 ∷ []) (note_seen fresh_record 5)) 1_000_000_000 false
      ≡ quiet)
    × ((after (added 9 ∷ heard 3 ∷ []) (note_seen fresh_record 5)).a ≡ some 5)
    × ((u : ℕ) × ((after (added 9 ∷ heard 3 ∷ []) (note_seen fresh_record 5)).s ≡ some u)
        × (max 0 5 ≤ u))
heard_stays_example =
    heard_stays fresh_record 5 1_000_000_000 (added 9 ∷ heard 3 ∷ []) (omega arith)
