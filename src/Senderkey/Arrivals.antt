-- ===== src/Senderkey/Arrivals.antt =====
-- The messages of a chain, opened in any order of arrival.
use encedo_chat.Prelude.{
  ◌==◌, Bytes, ℕ, ◌+◌, ◌≤◌, ◌≡◌, refl, sym, subst, inl, false, List, [], ◌∷◌, arith,
}
use encedo_chat.Crypto.{Crypto, IsAead}
use encedo_chat.JsMap.{lookup}
use encedo_chat.Ratchet.State.{Outcome, opened}
use encedo_chat.Senderkey.{SenderReceiver, receiver_from, open_text}
use encedo_chat.Senderkey.Order.{sent, chain_at, IsReady, IsStep, open_text-IsStep}

-- What arrives: when, and which message.
abbrev Arrival : Type 0
Arrival = ℕ × ℕ

-- No arrival brings the message of the number.
unfoldable pub IsFirst : ℕ → List Arrival → Type 0
IsFirst m [] = Unit {0}
IsFirst m ((t, k) ∷ xs) = ((m == k) ≡ false) × IsFirst m xs

-- Every message at most once, within the lifetime of a held key, none further than the skip bound.
unfoldable pub IsArrivals : ℕ → ℕ → ℕ → List Arrival → Type 0
IsArrivals t0 ttl most [] = Unit {0}
IsArrivals t0 ttl most ((t, m) ∷ xs) =
    (t0 ≤ t) × (t ≤ t0 + ttl) × (m ≤ most) × IsFirst m xs × IsArrivals t0 ttl most xs

module _ (c : Crypto) (ck0 : Bytes) (header plain : ℕ → Bytes) where
  unfoldable pub open_all : SenderReceiver → List Arrival → List Outcome
  open_all r [] = []
  open_all r ((t, m) ∷ xs) =
      let (behind, outcome) = open_text c r t m (header m) (sent c ck0 header plain m) in
      outcome ∷ open_all behind xs

  unfoldable pub texts : List Arrival → List Outcome
  texts [] = []
  texts ((t, m) ∷ xs) = opened (plain m) ∷ texts xs

  -- The receiver is ready for every message still to come.
  unfoldable AllReady : ℕ → SenderReceiver → List Arrival → Type 0
  AllReady t0 r [] = Unit {0}
  AllReady t0 r ((t, m) ∷ xs) = IsReady c ck0 header plain t0 r m × AllReady t0 r xs

  AllReady-step :
      (t0 m : ℕ) (r : SenderReceiver) (out : SenderReceiver × Outcome) (xs : List Arrival)
      → IsStep c ck0 header plain t0 m r out
      → IsFirst m xs
      → AllReady t0 r xs
      → AllReady t0 out.0 xs
  unfolding AllReady IsFirst
  AllReady-step t0 m r out [] step first v = tt
  AllReady-step t0 m r out ((t, k) ∷ xs) step (here, rest) (ready, v) =
      (step.others k here ready, AllReady-step t0 m r out xs step rest v)

  open_all-AllReady :
      IsAead c
      → (t0 : ℕ) (r : SenderReceiver) (xs : List Arrival) → r.key ≡ chain_at c ck0 header plain r.n
      → IsArrivals t0 r.ttl_ms r.max_skip xs
      → AllReady t0 r xs
      → open_all r xs ≡ texts xs
  unfolding open_all texts AllReady IsArrivals
  open_all-AllReady aead t0 r [] key arrivals v = refl
  open_all-AllReady aead t0 r ((t, m) ∷ xs) key (from, near, few, first, rest) (ready, v) =
      let step = open_text-IsStep c ck0 header plain aead t0 r t m from near few key ready in
      let out = open_text c r t m (header m) (sent c ck0 header plain m) in
      let ttl = step.ttl in
      let most = step.most in
      let still : IsArrivals t0 out.0.ttl_ms out.0.max_skip xs =
        subst (λ a. IsArrivals t0 a out.0.max_skip xs) (sym ttl)
          (subst (λ b. IsArrivals t0 r.ttl_ms b xs) (sym most) rest) in
      let others =
        open_all-AllReady aead t0 out.0 xs step.key still
          (AllReady-step t0 m r out xs step first v) in
      λ i. step.text i ∷ others i

  all_ready : (t0 most ttl : ℕ) (xs : List Arrival) → AllReady t0 (receiver_from ck0 0 most ttl) xs
  unfolding AllReady receiver_from lookup
  all_ready t0 most ttl [] = tt
  all_ready t0 most ttl ((t, m) ∷ xs) = (inl (omega arith, refl), all_ready t0 most ttl xs)

  -- The messages of a sending chain, each delivered at most once, in whatever order, within the
  -- lifetime of held keys and none ahead of the skip bound, all open to their plaintexts, where the
  -- AEAD opens what it sealed.
  pub opens_in_any_order :
      IsAead c
      → (t0 most ttl : ℕ) (xs : List Arrival) → IsArrivals t0 ttl most xs
      → open_all (receiver_from ck0 0 most ttl) xs ≡ texts xs
  unfolding receiver_from chain_at
  opens_in_any_order aead t0 most ttl xs arrivals =
      open_all-AllReady aead t0 (receiver_from ck0 0 most ttl) xs refl arrivals
        (all_ready t0 most ttl xs)
