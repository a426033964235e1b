-- ===== src/Ratchet/Waiting.antt =====
-- A key that is held for a message which has not come yet, while other messages of its chain come.
use encedo_chat.Prelude.{
  ltb, ◌==◌, Bool-cases, Option-cases, take, drop, Bytes, ℕ, ◌+◌, ◌-◌, ◌≤◌, ◌<◌, ◌≡◌, refl, sym, ap,
  ◌∙◌, subst, inl, inr, true, false, Option, some, List, [], ◌∷◌, arith,
}
use encedo_chat.Crypto.{Crypto}
use encedo_chat.JsMap.{lookup, bytes_eq, nat_eq}
use encedo_chat.Ratchet.State.{Opts, Ratchet, World, Outcome, opened, every_same, message_key}
use encedo_chat.Ratchet.Delivery.{every_same_self}
use encedo_chat.Ratchet.Transaction.{Case, stashed, same, unopened, turn, open_frame-Case}
use encedo_chat.Ratchet.Skipped.Presence.{drop_other-Held}
use encedo_chat.Ratchet.Receiving.{
  stash, open_frame, open_stashed, open_same, pruned, decrypt, try_open, advance, note_peer_pq_pub,
}
use encedo_chat.Ratchet.Headers.{Header, decode_header}
use encedo_chat.Ratchet.Delivery.{note_peer_pq_pub-chain}
use encedo_chat.Ratchet.Skipped
use encedo_chat.Ratchet.Skipped.{SkippedKeys}
use encedo_chat.Ratchet.Skipped.Presence.{Held, peek-Held, put_other-Held, prune-Held}

pub put-bounds :
    (keys : SkippedKeys) (j : Bytes) (m : ℕ) (mk : Bytes) (now : ℕ)
    → ((Skipped.put keys j m mk now).max_chains ≡ keys.max_chains)
      × ((Skipped.put keys j m mk now).ttl_ms ≡ keys.ttl_ms)
put-bounds keys j m mk now = elim (Option-cases (lookup j keys.chains)) [
  | inl e ↦ unfold Skipped.put in rw (e, Skipped.put) (refl, refl)
  | inr (chain, e) ↦ unfold Skipped.put in rw (e, Skipped.put) (refl, refl)
]

pub stash-ttl_ms :
    (c : Crypto) (keys : SkippedKeys) (k : Bytes) (from : ℕ) (mks : List Bytes) (now : ℕ)
    → (stash c keys k from mks now).ttl_ms ≡ keys.ttl_ms
unfolding stash
stash-ttl_ms c keys k from [] now = refl
stash-ttl_ms c keys k from (mk ∷ mks) now =
    stash-ttl_ms c (Skipped.put keys k from mk now) k (from + 1) mks now
    ∙ (put-bounds keys k from mk now).1

pub stash-keeps :
    (c : Crypto) (keys : SkippedKeys) (k : Bytes) (n : ℕ) (s : Skipped.Skipped) (from : ℕ)
    (mks : List Bytes) (now : ℕ)
    → n < from
    → Held k n s keys.chains
    → Held k n s (stash c keys k from mks now).chains
unfolding stash
stash-keeps c keys k n s from [] now below v = v
stash-keeps c keys k n s from (mk ∷ mks) now below v =
    stash-keeps c (Skipped.put keys k from mk now) k n s (from + 1) mks now (omega (arith, below))
      (put_other-Held k n s keys from mk now (ground arith) v)

drop_key-ttl_ms :
    (keys : SkippedKeys) (j : Bytes) (m : ℕ) → (Skipped.drop_key keys j m).ttl_ms ≡ keys.ttl_ms
unfolding Skipped.drop_key
drop_key-ttl_ms keys j m = ground arith

-- The store holds a key of the chain that is received, for a number that is behind.
pub record IsWaiting (k : Bytes) (n : ℕ) (s : Skipped.Skipped) (ttl : ℕ) (r : Ratchet)
    : Type 0 where
  pub peer : r.dh_peer_pub ≡ k
  pub past : n < r.n_recv
  pub held : Held k n s r.skipped.chains
  pub life : r.skipped.ttl_ms ≡ ttl

module _ (c : Crypto) (o : Opts) (k : Bytes) (n : ℕ) (s : Skipped.Skipped) (ttl : ℕ) where
  note_peer_pq_pub-IsWaiting :
      (r : Ratchet) (w : World) (p : Option Bytes)
      → IsWaiting k n s ttl r
      → IsWaiting k n s ttl (note_peer_pq_pub c r w p)
  note_peer_pq_pub-IsWaiting r w p v =
      let (_, number, keys, peer) = note_peer_pq_pub-chain c r w p in
      record {
        peer = peer ∙ v.peer;
        past = omega (arith, number, v.past);
        held = subst (λ t. Held k n s t.chains) (sym keys) v.held;
        life = ap (λ (t : SkippedKeys). t.ttl_ms) keys ∙ v.life;
      }

  pub pruned-IsWaiting :
      (r : Ratchet) (now : ℕ)
      → now - s.ts ≤ ttl
      → IsWaiting k n s ttl r
      → IsWaiting k n s ttl (pruned c r now)
  unfolding pruned Skipped.prune
  pruned-IsWaiting r now young v = record {
    peer = v.peer;
    past = v.past;
    held =
        prune-Held k n s r.skipped.ttl_ms now r.skipped.chains (omega (arith, young, v.life))
          v.held;
    life = v.life;
  }

  module _ (r : Ratchet) (w : World) (v : IsWaiting k n s ttl r) (i : Header) (of : i.dh_pub ≡ k)
      (other : (i.n == n) ≡ false) (header ct : Bytes) where
    open_stashed-IsWaiting :
        (mk : Bytes) → IsWaiting k n s ttl (open_stashed c r w i header ct mk).0
    unfolding open_stashed
    open_stashed-IsWaiting mk = elim (Option-cases (try_open c mk header ct i.n)) [
      | inl shut ↦ rw (shut, open_stashed) v
      | inr (pt, opens) ↦
          rw (opens, open_stashed)
            (note_peer_pq_pub-IsWaiting
              (record r { skipped = Skipped.drop_key r.skipped i.dh_pub i.n }) w i.pq_pub
              (record {
                peer = v.peer;
                past = v.past;
                held =
                    subst (λ j. Held k n s (Skipped.drop_key r.skipped j i.n).chains) (sym of)
                      (drop_other-Held k n s r.skipped i.n other v.held);
                life = drop_key-ttl_ms r.skipped i.dh_pub i.n ∙ v.life;
              }))
    ]

    open_same-IsWaiting : (ck : Bytes) → IsWaiting k n s ttl (open_same c o r w i header ct ck).0
    unfolding open_same
    open_same-IsWaiting ck = elim (Bool-cases (ltb i.n r.n_recv)) [
      | inl late ↦ rw (late, open_same) v
      | inr due ↦ elim (Option-cases (advance c o ck r.n_recv i.n)) [
        | inl far ↦ rw (due, far, open_same) v
        | inr ((keys, end), near) ↦
            elim (Option-cases (try_open c (message_key c end) header ct i.n)) [
              | inl shut ↦ rw (due, near, shut, open_same) v
              | inr (pt, opens) ↦
                  rw (due, near, opens, open_same)
                    (note_peer_pq_pub-IsWaiting _ w i.pq_pub (record {
                      peer = v.peer;
                      past = ground (arith, v.past);
                      held =
                          subst (λ j. Held k n s (stash c r.skipped j r.n_recv keys w.now).chains)
                            (sym of)
                            (stash-keeps c r.skipped k n s r.n_recv keys w.now v.past v.held);
                      life = stash-ttl_ms c r.skipped i.dh_pub r.n_recv keys w.now ∙ v.life;
                    }))
            ]
      ]
    ]

    Case-IsWaiting : {p : Ratchet × Outcome} → Case c o r w i header ct p → IsWaiting k n s ttl p.0
    Case-IsWaiting (stashed mk held) = open_stashed-IsWaiting mk
    Case-IsWaiting (same ck missing known key) = open_same-IsWaiting ck
    Case-IsWaiting unopened = v
    Case-IsWaiting (turn missing new) =
        let self : every_same i.dh_pub r.dh_peer_pub ≡ true =
          ap (every_same i.dh_pub) (v.peer ∙ sym of) ∙ every_same_self i.dh_pub in
        absurd (cc)

  decrypt-IsWaiting :
      (r : Ratchet) (w : World) (frame : Bytes) (i : Header) (len : ℕ)
      → decode_header frame ≡ some (i, len)
      → i.dh_pub ≡ k
      → (i.n == n) ≡ false
      → w.now - s.ts ≤ ttl
      → IsWaiting k n s ttl r
      → IsWaiting k n s ttl (decrypt c o r w frame).0
  unfolding decrypt
  decrypt-IsWaiting r w frame i len read of other young v =
      rw (read, decrypt)
        (Case-IsWaiting (pruned c r w.now) w (pruned-IsWaiting r w.now young v) i of other
          (take len frame) (drop len frame)
          (open_frame-Case c o (pruned c r w.now) w i (take len frame) (drop len frame)))

  -- Any frames of the chain with other numbers, within the lifetime of the key.
  pub data Meanwhile (r : Ratchet) : Ratchet → Type 0 where
    none_yet : Meanwhile r r
    came :
        {r' : Ratchet} (w : World) (frame : Bytes) (i : Header) (len : ℕ)
        → Meanwhile r r'
        → decode_header frame ≡ some (i, len)
        → i.dh_pub ≡ k
        → (i.n == n) ≡ false
        → w.now - s.ts ≤ ttl
        → Meanwhile r (decrypt c o r' w frame).0

  pub Meanwhile-IsWaiting :
      {r r' : Ratchet} → IsWaiting k n s ttl r → Meanwhile r r' → IsWaiting k n s ttl r'
  Meanwhile-IsWaiting v none_yet = v
  Meanwhile-IsWaiting v (came {r'} w frame i len before read of other young) =
      decrypt-IsWaiting r' w frame i len read of other young (Meanwhile-IsWaiting v before)

  pub IsWaiting-opens :
      (r : Ratchet) (w : World) (h : Header) (frame pt : Bytes) (len : ℕ)
      → IsWaiting k n s ttl r
      → decode_header frame ≡ some (h, len)
      → h.dh_pub ≡ k
      → h.n ≡ n
      → w.now - s.ts ≤ ttl
      → try_open c s.mk (take len frame) (drop len frame) h.n ≡ some pt
      → (decrypt c o r w frame).1 ≡ opened pt
  unfolding open_stashed
  IsWaiting-opens r w h frame pt len v read of number young opens =
      let p = pruned-IsWaiting r w.now young v in
      let there : Skipped.peek (pruned c r w.now).skipped h.dh_pub h.n ≡ some s.mk =
        ap (λ j. Skipped.peek (pruned c r w.now).skipped j h.n) of
        ∙ ap (Skipped.peek (pruned c r w.now).skipped k) number
        ∙ peek-Held k n s (pruned c r w.now).skipped p.held in
      unfold decrypt open_frame in rw (read, decrypt, there, open_frame, opens, open_stashed) refl
