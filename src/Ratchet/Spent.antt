-- ===== src/Ratchet/Spent.antt =====
-- A number of a chain that a receiver is past, and holds no key for.
use encedo_chat.Prelude.{
  ltb, Bool-cases, Option-cases, length, Bytes, ℕ, zero, suc, ◌+◌, ◌-◌, ◌≤◌, ◌<◌, ◌≡◌, refl, sym,
  ap, ◌∙◌, subst, inl, inr, true, false, Option, none, some, List, [], ◌∷◌, arith,
}
use mathlib.Core.Option.{some-injective}
use encedo_chat.Crypto.{Crypto}
use encedo_chat.JsMap.{bytes_eq, nat_eq, bytes_beq, bytes_beq_iff}
use encedo_chat.Ratchet.State.{
  Opts, Ratchet, World, null, opened, over_bound, every_same, message_key, chain_next,
}
use encedo_chat.Ratchet.Receiving.{
  walk_chain, advance, try_open, stash, note_peer_pq_pub, open_stashed, open_same, commit_turn,
}
use encedo_chat.Ratchet.Headers.{Header, is_some}
use encedo_chat.Ratchet.Delivery.{every_same_self, note_peer_pq_pub-chain}
use encedo_chat.Ratchet.Skipped
use encedo_chat.Ratchet.Skipped.{SkippedKeys}
use encedo_chat.Ratchet.Skipped.Absence.{Lacks, put-Lacks}
use encedo_chat.Ratchet.Skipped.Distinct.{IsMap, peek-none-Lacks, drop_key-Lacks, put_other-Lacks}

-- The chain of the header is the one that is received, past its number, and no key is held for it.
pub record IsSpent (h : Header) (r : Ratchet) : Type 0 where
  pub known : every_same h.dh_pub r.dh_peer_pub ≡ true
  pub past : h.n < r.n_recv
  pub gone : Lacks h.dh_pub h.n r.skipped.chains

none-some : {p : List Bytes × Bytes} → none ≡ some p → ⊥
none-some h = cc

module _ (c : Crypto) where
  length-walk_chain : (n : ℕ) (ck : Bytes) → length (walk_chain c n ck).0 ≡ n
  unfolding walk_chain
  length-walk_chain zero ck = refl
  length-walk_chain (suc n) ck = ap suc (length-walk_chain n (chain_next c ck))

  pub length-advance :
      (o : Opts) (ck : Bytes) (from to : ℕ) (keys : List Bytes) (end : Bytes)
      → advance c o ck from to ≡ some (keys, end)
      → length keys ≡ to - from
  unfolding advance
  length-advance o ck from to keys end e = elim (Bool-cases (ltb o.max_skip (to - from))) [
    | inl far ↦ absurd (none-some (rw far at e))
    | inr near ↦
        let walked : walk_chain c (to - from) ck ≡ (keys, end) =
          some-injective _ _ (rw near at e) in
        ap (λ (p : List Bytes × Bytes). length p.0) (sym walked) ∙ length-walk_chain (to - from) ck
  ]

  -- Keys of numbers below one, or from behind it, do not bring it back.
  stash_below-Lacks :
      (k : Bytes) (n : ℕ) (keys : SkippedKeys) (j : Bytes) (from : ℕ) (mks : List Bytes) (now : ℕ)
      → from + length mks ≤ n
      → Lacks k n keys.chains
      → Lacks k n (stash c keys j from mks now).chains
  unfolding stash
  stash_below-Lacks k n keys j from [] now below v = v
  stash_below-Lacks k n keys j from (mk ∷ mks) now below v =
      stash_below-Lacks k n (Skipped.put keys j from mk now) j (from + 1) mks now (omega arith)
        (put-Lacks k n keys j from mk now (ground arith) v)

  pub stash_behind-Lacks :
      (k : Bytes) (n : ℕ) (keys : SkippedKeys) (j : Bytes) (from : ℕ) (mks : List Bytes) (now : ℕ)
      → n < from
      → Lacks k n keys.chains
      → Lacks k n (stash c keys j from mks now).chains
  unfolding stash
  stash_behind-Lacks k n keys j from [] now behind v = v
  stash_behind-Lacks k n keys j from (mk ∷ mks) now behind v =
      stash_behind-Lacks k n (Skipped.put keys j from mk now) j (from + 1) mks now
        (omega (arith, behind)) (put-Lacks k n keys j from mk now (ground arith) v)

  stash_other-Lacks :
      (k : Bytes) (n : ℕ) (keys : SkippedKeys) (j : Bytes) (from : ℕ) (mks : List Bytes) (now : ℕ)
      → bytes_beq j k ≡ false
      → Lacks k n keys.chains
      → Lacks k n (stash c keys j from mks now).chains
  unfolding stash
  stash_other-Lacks k n keys j from [] now other v = v
  stash_other-Lacks k n keys j from (mk ∷ mks) now other v =
      stash_other-Lacks k n (Skipped.put keys j from mk now) j (from + 1) mks now other
        (put_other-Lacks k n keys j from mk now other v)

  pub note_peer_pq_pub-IsSpent :
      (h : Header) (r : Ratchet) (w : World) (p : Option Bytes)
      → IsSpent h r
      → IsSpent h (note_peer_pq_pub c r w p)
  note_peer_pq_pub-IsSpent h r w p v =
      let (_, n, keys, peer) = note_peer_pq_pub-chain c r w p in
      record {
        known = ap (every_same h.dh_pub) peer ∙ v.known;
        past = omega (arith, n, v.past);
        gone = subst (λ t. Lacks h.dh_pub h.n t.chains) (sym keys) v.gone;
      }

  -- What opens leaves its number spent.
  module _ (o : Opts) (r : Ratchet) (w : World) (h : Header) (header ct pt : Bytes)
      (v : IsMap r.skipped.chains) where
    pub open_stashed-IsSpent :
        (mk : Bytes)
        → every_same h.dh_pub r.dh_peer_pub ≡ true
        → h.n < r.n_recv
        → (open_stashed c r w h header ct mk).1 ≡ opened pt
        → IsSpent h (open_stashed c r w h header ct mk).0
    unfolding open_stashed
    open_stashed-IsSpent mk known past e = elim (Option-cases (try_open c mk header ct h.n)) [
      | inl shut ↦ let clash : null ≡ opened pt = rw (shut, open_stashed) at e in cc
      | inr (pt', opens) ↦
          rw (opens, open_stashed)
            (note_peer_pq_pub-IsSpent h
              (record r { skipped = Skipped.drop_key r.skipped h.dh_pub h.n }) w h.pq_pub
              (record {
                known = known;
                past = past;
                gone = drop_key-Lacks h.dh_pub h.n r.skipped v;
              }))
    ]

    pub open_same-IsSpent :
        (ck : Bytes)
        → Skipped.peek r.skipped h.dh_pub h.n ≡ none
        → every_same h.dh_pub r.dh_peer_pub ≡ true
        → (open_same c o r w h header ct ck).1 ≡ opened pt
        → IsSpent h (open_same c o r w h header ct ck).0
    unfolding open_same
    open_same-IsSpent ck missing known e = elim (Bool-cases (ltb h.n r.n_recv)) [
      | inl late ↦ let clash : null ≡ opened pt = rw (late, open_same) at e in cc
      | inr due ↦ elim (Option-cases (advance c o ck r.n_recv h.n)) [
        | inl far ↦ let clash : over_bound ≡ opened pt = rw (due, far, open_same) at e in cc
        | inr ((keys, end), near) ↦
            elim (Option-cases (try_open c (message_key c end) header ct h.n)) [
              | inl shut ↦ let clash : null ≡ opened pt = rw (due, near, shut, open_same) at e in cc
              | inr (pt', opens) ↦
                  let size = length-advance o ck r.n_recv h.n keys end near in
                  let up_to : r.n_recv + length keys ≤ h.n = ground (arith, size) in
                  rw (due, near, opens, open_same)
                    (note_peer_pq_pub-IsSpent h _ w h.pq_pub (record {
                      known = known;
                      past = omega arith;
                      gone =
                          stash_below-Lacks h.dh_pub h.n r.skipped h.dh_pub r.n_recv keys w.now
                            up_to (peek-none-Lacks h.dh_pub h.n r.skipped v missing);
                    }))
            ]
      ]
    ]

    pub commit_turn-IsSpent :
        (rk : Bytes) (closing keys : List Bytes) (end : Bytes)
        → Skipped.peek r.skipped h.dh_pub h.n ≡ none
        → every_same h.dh_pub r.dh_peer_pub ≡ false
        → length keys ≡ h.n
        → IsSpent h (commit_turn c r w h rk closing keys end)
    unfolding commit_turn
    commit_turn-IsSpent rk closing keys end missing new size =
        let other : bytes_beq r.dh_peer_pub h.dh_pub ≡ false =
          elim (Bool-cases (bytes_beq r.dh_peer_pub h.dh_pub)) [
            | inr differs ↦ differs
            | inl me ↦
                let is_me = (bytes_beq_iff r.dh_peer_pub h.dh_pub).0 me in
                let self = ap (every_same h.dh_pub) is_me ∙ every_same_self h.dh_pub in absurd (cc)
          ] in
        let gone =
          stash_below-Lacks h.dh_pub h.n (stash c r.skipped r.dh_peer_pub r.n_recv closing w.now)
            h.dh_pub 0 keys w.now (omega (arith, size))
            (stash_other-Lacks h.dh_pub h.n r.skipped r.dh_peer_pub r.n_recv closing w.now other
              (peek-none-Lacks h.dh_pub h.n r.skipped v missing)) in
        elim (Bool-cases (is_some h.pq_ct)) [
          | inl e ↦
              rw (e, commit_turn)
                (note_peer_pq_pub-IsSpent h _ w h.pq_pub
                  (record { known = every_same_self h.dh_pub; past = omega arith; gone = gone }))
          | inr e ↦
              rw (e, commit_turn)
                (note_peer_pq_pub-IsSpent h _ w h.pq_pub
                  (record { known = every_same_self h.dh_pub; past = omega arith; gone = gone }))
        ]
