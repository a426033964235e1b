-- ===== src/Senderkey/InStep.antt =====
-- A receiving chain that stands where the sending chain does opens its next message.
use encedo_chat.Prelude.{
  ltb, Bool-cases, Bytes, ℕ, ◌+◌, ◌-◌, ◌≤◌, ◌<◌, ◌≡◌, refl, sym, ap, ◌∙◌, inl, inr, false, none,
  some, [], ◌∷◌, arith,
}
use encedo_chat.Crypto.{Crypto, IsAead}
use encedo_chat.JsMap.{lookup, nat_eq}
use encedo_chat.Ratchet.State.{opened}
use encedo_chat.Ratchet.Skipped.{Chain, fresh}
use encedo_chat.Senderkey.{
  SendChain, SenderReceiver, msg_key, next_key, aead_seal, aead_open, seal, pass, keep, prune,
  open_ahead, open_pruned, open_text,
}

-- All keys held are for numbers below.
unfoldable pub AllBelow : ℕ → Chain → Type 0
AllBelow n [] = Unit {0}
AllBelow n ((m, s) ∷ held) = (m < n) × AllBelow n held

lookup-AllBelow : (n : ℕ) (held : Chain) → AllBelow n held → lookup n held ≡ none
unfolding AllBelow lookup
lookup-AllBelow n [] v = refl
lookup-AllBelow n ((m, s) ∷ held) (low, v) = ground (arith, low, lookup-AllBelow n held v)

fresh-AllBelow :
    (n k ttl now : ℕ) (held : Chain) → n ≤ k → AllBelow n held → AllBelow k (fresh ttl now held)
unfolding AllBelow fresh
fresh-AllBelow n k ttl now [] le v = tt
fresh-AllBelow n k ttl now ((m, s) ∷ held) le (low, v) = elim (Bool-cases (ltb ttl (now - s.ts))) [
  | inl old ↦ rw old (fresh-AllBelow n k ttl now held le v)
  | inr young ↦ rw young (omega (arith, low, le), fresh-AllBelow n k ttl now held le v)
]

module _ (c : Crypto) (aead : IsAead c) where
  -- A receiving chain and a sending chain in step.
  pub record AreInStep (chain : SendChain) (r : SenderReceiver) : Type 0 where
    pub key : r.key ≡ chain.key
    pub n : r.n ≡ chain.n
    pub below : AllBelow chain.n r.skipped

  -- The receiver behind the next message.
  abbrev pub next_receiver : SenderReceiver → ℕ → SenderReceiver
  next_receiver r now = record r {
    skipped = fresh r.ttl_ms now r.skipped;
    key = next_key c r.key;
    n = r.n + 1;
  }

  open_next :
      (chain : SendChain) (r : SenderReceiver) (now : ℕ) (header pt : Bytes)
      → r.key ≡ chain.key
      → r.n ≡ chain.n
      → open_ahead c r now chain.n header (seal c chain header pt).1.1
        ≡ (record r { key = next_key c r.key; n = r.n + 1 }, opened pt)
  unfolding seal keep pass open_ahead
  open_next chain r now header pt key n =
      let gap : chain.n - r.n ≡ 0 = omega (arith, n) in
      let walk : pass c (chain.n - r.n) r.n r.key ≡ ([], r.key) =
        ap (λ d. pass c d r.n r.key) gap in
      let opens : aead_open c (msg_key c (pass c (chain.n - r.n) r.n r.key).1) chain.n header
            (seal c chain header pt).1.1
          ≡ some pt =
        ap (λ k. aead_open c (msg_key c k) chain.n header (seal c chain header pt).1.1)
          (ap (λ w. w.1) walk ∙ key)
        ∙ (unfold aead_open aead_seal in aead.opens _ _ _ _) in
      rw (opens, open_ahead)
        (λ i. (
          record r {
            skipped = keep c r.skipped (walk i).0 now;
            key = next_key c (walk i).1;
            n = sym n i + 1;
          },
          opened pt,
        ))

  pub open_text-AreInStep :
      (chain : SendChain) (r : SenderReceiver) (now : ℕ) (header pt : Bytes)
      → AreInStep chain r
      → open_text c r now chain.n header (seal c chain header pt).1.1
        ≡ (next_receiver r now, opened pt)
  unfolding open_text open_pruned prune
  open_text-AreInStep chain r now header pt v =
      let key = v.key in
      let n = v.n in
      let missing : lookup chain.n (fresh r.ttl_ms now r.skipped) ≡ none =
        lookup-AllBelow chain.n (fresh r.ttl_ms now r.skipped)
          (fresh-AllBelow chain.n chain.n r.ttl_ms now r.skipped (omega arith) v.below) in
      let here : ltb chain.n r.n ≡ false = ground (arith, n) in
      let gap : chain.n - r.n ≡ 0 = omega (arith, n) in
      let close : ltb r.max_skip (chain.n - r.n) ≡ false = rw gap (ground arith) in
      rw (missing, here, close, open_pruned) (open_next chain (prune c r now) now header pt key n)

  pub next_receiver-AreInStep :
      (chain : SendChain) (r : SenderReceiver) (now : ℕ) (header pt : Bytes)
      → AreInStep chain r
      → AreInStep (seal c chain header pt).0 (next_receiver r now)
  unfolding seal
  next_receiver-AreInStep chain r now header pt v = record {
    key = ap (next_key c) v.key;
    n = ap (λ k. k + 1) v.n;
    below = fresh-AllBelow chain.n (chain.n + 1) r.ttl_ms now r.skipped (omega arith) v.below;
  }
