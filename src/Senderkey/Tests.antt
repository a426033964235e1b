-- ===== src/Senderkey/Tests.antt =====
-- The sender keys at concrete inputs.
use encedo_chat.Prelude.{Bytes, ℕ, ◌≡◌, refl, List, [], ◌∷◌, arith}
use encedo_chat.Toy.{toy, toy-IsAead}
use encedo_chat.Senderkey.{receiver_from, max_skip, skipped_ttl_ms}
use encedo_chat.Senderkey.Arrivals.{IsFirst, IsArrivals, open_all, texts, opens_in_any_order}

-- The third message first, then the first two.
abbrev arrivals : List (ℕ × ℕ)
arrivals = (10, 2) ∷ (11, 0) ∷ (4000, 1) ∷ []

abbrev header : ℕ → Bytes
header n = n ∷ []

abbrev plain : ℕ → Bytes
plain n = 7 ∷ n ∷ []

arrivals-IsArrivals : IsArrivals 10 skipped_ttl_ms max_skip arrivals
unfolding IsArrivals IsFirst
arrivals-IsArrivals = (
  omega arith,
  omega arith,
  omega arith,
  (refl, (refl, tt)),
  (
    omega arith,
    omega arith,
    omega arith,
    (refl, tt),
    (omega arith, omega arith, omega arith, tt, tt),
  ),
)

opens_in_any_order_example :
    open_all toy (5 ∷ []) header plain (receiver_from (5 ∷ []) 0 max_skip skipped_ttl_ms) arrivals
    ≡ texts toy (5 ∷ []) header plain arrivals
opens_in_any_order_example =
    opens_in_any_order toy (5 ∷ []) header plain toy-IsAead 10 max_skip skipped_ttl_ms arrivals
      arrivals-IsArrivals
