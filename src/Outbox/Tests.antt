-- ===== src/Outbox/Tests.antt =====
-- Runs of the outbox, and the theorems at concrete values.
use encedo_chat.Prelude.{
  All, ◌≤◌, ◌<◌, ◌≡◌, refl, ◌⊎◌, true, false, none, some, List, [], ◌∷◌, ◌++◌, arith,
}
use mathlib.Core.List.{Perm}
use encedo_chat.JsMap.{bytes_eq}
use encedo_chat.Outbox.{
  Outbox, Entry, queued, merged, add, filter, due, throttled, delivered, expire, same_key, push,
  drop_first, merge_first,
}
use encedo_chat.Outbox.Caps.{IsCapped, add-IsCapped}
use encedo_chat.Outbox.Keeps.{Queued, Merged, add-keeps}
use encedo_chat.Outbox.Sorting.{IsOrdered}
use encedo_chat.Outbox.Windows.{
  IsDue, IsHeldBack, due-IsOrdered, delivered-throttles, expire-splits,
}

abbrev empty : Outbox
empty = record { entries = []; last_sent = []; seq = 0 }

empty-IsCapped : IsCapped empty
unfolding IsCapped filter
empty-IsCapped to = omega arith

add-IsCapped_example : IsCapped (add empty (1 ∷ []) (65 ∷ []) 5 none (some (7 ∷ []))).0
add-IsCapped_example = add-IsCapped empty (1 ∷ []) (65 ∷ []) 5 none (some (7 ∷ [])) empty-IsCapped

abbrev one : Outbox
one = (add empty (1 ∷ []) (65 ∷ []) 5 none (some (7 ∷ []))).0

-- A second notification with the same key merges into the one that waits.
merges : (add one (1 ∷ []) (66 ∷ []) 6 none (some (7 ∷ []))).1.how ≡ merged
unfolding add push drop_first merge_first filter
merges = refl

add-keeps_example :
    ((add one (1 ∷ []) (66 ∷ []) 6 none (some (7 ∷ []))).1.how ≡ queued
      × Queued one
          (add one (1 ∷ []) (66 ∷ []) 6 none (some (7 ∷ []))).0
          (1 ∷ [])
          (66 ∷ [])
          (some (7 ∷ []))
          (add one (1 ∷ []) (66 ∷ []) 6 none (some (7 ∷ []))).1)
    ⊎ ((add one (1 ∷ []) (66 ∷ []) 6 none (some (7 ∷ []))).1.how ≡ merged
        × Merged one
            (add one (1 ∷ []) (66 ∷ []) 6 none (some (7 ∷ []))).0
            (1 ∷ [])
            (66 ∷ [])
            (some (7 ∷ []))
            (add one (1 ∷ []) (66 ∷ []) 6 none (some (7 ∷ []))).1)
add-keeps_example = add-keeps one (1 ∷ []) (66 ∷ []) 6 none (some (7 ∷ []))

due-IsOrdered_example :
    IsOrdered (due one (1 ∷ []) 10 60_000)
    × All (IsDue one (1 ∷ []) 10 60_000) (due one (1 ∷ []) 10 60_000)
    × ((held_back : List Entry) × All (IsHeldBack one (1 ∷ []) 10 60_000) held_back
        × Perm (due one (1 ∷ []) 10 60_000 ++ held_back) one.entries)
due-IsOrdered_example = due-IsOrdered one (1 ∷ []) 10 60_000

delivered-throttles_example :
    (throttled
        (delivered one (some (5, 1)) (1 ∷ []) (some (7 ∷ [])) 20)
        (1 ∷ [])
        (some (7 ∷ []))
        30
        60_000
      ≡ true)
    × All
        (λ e. same_key e.key (some (7 ∷ [])) ≡ false)
        (due (delivered one (some (5, 1)) (1 ∷ []) (some (7 ∷ [])) 20) (1 ∷ []) 30 60_000)
delivered-throttles_example =
    delivered-throttles one (some (5, 1)) (1 ∷ []) (some (7 ∷ [])) 20 30 60_000 refl (omega arith)

expire-splits_example :
    All (λ e. 90_000_000 < e.expires) (expire one 90_000_000).0.entries
    × All (λ e. e.expires ≤ 90_000_000) (expire one 90_000_000).1
    × Perm ((expire one 90_000_000).0.entries ++ (expire one 90_000_000).1) one.entries
expire-splits_example = expire-splits one 90_000_000
