-- ===== src/Senderkey.antt =====
-- impl/lib/senderkey.ts: the sending chain of a group member, and the receiving chain that the others
-- keep of it. The map of passed-over keys is shaped as one chain of the ratchet's store.
pub mod Order
pub mod Arrivals
pub mod InStep
mod Tests
use encedo_chat.Prelude.{
  ltb, if◌then◌else◌, Bytes, ℕ, zero, suc, ◌+◌, ◌-◌, ◌*◌, Bool, Option, none, some, List, [], ◌∷◌,
}
use encedo_chat.Crypto.{Crypto}
use encedo_chat.JsMap.{lookup, set, delete, nat_eq}
use encedo_chat.Ratchet.State.{Outcome, null, opened, over_bound}
use encedo_chat.Ratchet.Skipped
use encedo_chat.Ratchet.Skipped.{Chain, fresh}
use encedo_chat.Wc.{codes, kdf, aead_nonce, concat}
use encedo_chat.JsMap.{bytes_beq}

abbrev pub max_skip : ℕ
max_skip = 2000

abbrev pub skipped_ttl_ms : ℕ
skipped_ttl_ms = 24 * 60 * 60 * 1000

pub record SendChain : Type 0 where
  pub key : Bytes
  pub n : ℕ

pub record SenderReceiver : Type 0 where
  pub key : Bytes
  pub n : ℕ
  pub skipped : Chain
  pub max_skip : ℕ
  pub ttl_ms : ℕ

unfoldable pub send_chain_from : Bytes → SendChain
send_chain_from key = record { key = key; n = 0 }

-- `SenderReceiver.from`
unfoldable pub receiver_from : Bytes → ℕ → ℕ → ℕ → SenderReceiver
receiver_from key n most ttl = record {
  key = key;
  n = n;
  skipped = [];
  max_skip = most;
  ttl_ms = ttl;
}

module _ (c : Crypto) where
  unfoldable pub msg_key : Bytes → Bytes
  msg_key ck = kdf c (codes "encedo-group-msg") ck [] 32

  unfoldable pub next_key : Bytes → Bytes
  next_key ck = kdf c (codes "encedo-group-chain") ck [] 32

  -- `tag` and `verify`
  unfoldable pub tag : Bytes → Bytes → Bytes → Bytes
  tag mac_key header ct = c.hmac mac_key (concat (header ∷ ct ∷ []))

  unfoldable pub verify : Bytes → Bytes → Bytes → Bytes → Bool
  verify mac_key header ct mac = bytes_beq (tag mac_key header ct) mac

  unfoldable pub aead_seal : Bytes → ℕ → Bytes → Bytes → Bytes
  aead_seal mk n header pt = c.seal mk (aead_nonce c mk n) header pt

  unfoldable pub aead_open : Bytes → ℕ → Bytes → Bytes → Option Bytes
  aead_open mk n header ct = c.unseal mk (aead_nonce c mk n) header ct

  -- The chain behind a sealed message, its number and the sealed text.
  unfoldable pub seal : SendChain → Bytes → Bytes → SendChain × (ℕ × Bytes)
  seal chain header plaintext =
      let mk = msg_key chain.key in
      (
        record { key = next_key chain.key; n = chain.n + 1 },
        (chain.n, aead_seal mk chain.n header plaintext),
      )

  -- The loop of `open`: the keys passed over with their numbers, and the chain key behind them.
  unfoldable pub pass : ℕ → ℕ → Bytes → List (ℕ × Bytes) × Bytes
  pass zero i cur = ([], cur)
  pass (suc d) i cur =
      let (passed, end) = pass d (i + 1) (next_key cur) in ((i, msg_key cur) ∷ passed, end)

  -- `for (const p of passed) this.skipped.set(p.n, …)`
  unfoldable pub keep : Chain → List (ℕ × Bytes) → ℕ → Chain
  keep skipped [] now = skipped
  keep skipped ((n, mk) ∷ passed) now =
      keep (set n (record { mk = mk; ts = now }) skipped) passed now

  unfoldable pub prune : SenderReceiver → ℕ → SenderReceiver
  prune r now = record r { skipped = fresh r.ttl_ms now r.skipped }

  -- A key that was passed over.
  unfoldable pub open_held : SenderReceiver → ℕ → Bytes → Bytes → Bytes → SenderReceiver × Outcome
  open_held r n header ct mk = elim (aead_open mk n header ct) [
    | none ↦ (r, null)
    | some pt ↦ (record r { skipped = delete n r.skipped }, opened pt)
  ]

  -- A number ahead: the chain moves only if the text opens.
  unfoldable pub open_ahead : SenderReceiver → ℕ → ℕ → Bytes → Bytes → SenderReceiver × Outcome
  open_ahead r now n header ct =
      let (passed, cur) = pass (n - r.n) r.n r.key in
      elim (aead_open (msg_key cur) n header ct) [
        | none ↦ (r, null)
        | some pt ↦ (
          record r { skipped = keep r.skipped passed now; key = next_key cur; n = n + 1 },
          opened pt,
        )
      ]

  -- A pruned receiver: a held key, a number behind, one too far ahead, or one to walk to.
  unfoldable pub open_pruned : SenderReceiver → ℕ → ℕ → Bytes → Bytes → SenderReceiver × Outcome
  open_pruned r now n header ct = elim (lookup n r.skipped) [
    | some s ↦ open_held r n header ct s.mk
    | none ↦
        if ltb n r.n
        then (r, null)
        else if ltb r.max_skip (n - r.n)
        then (r, over_bound)
        else open_ahead r now n header ct
  ]

  unfoldable pub open_text : SenderReceiver → ℕ → ℕ → Bytes → Bytes → SenderReceiver × Outcome
  open_text r now n header ct = open_pruned (prune r now) now n header ct
