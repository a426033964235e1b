-- ===== src/Ratchet/Overtaken.antt =====
-- A message that a later one overtook still opens.
use encedo_chat.Prelude.{
  take, drop, Bytes, ℕ, zero, suc, ◌+◌, ◌-◌, ◌≤◌, ◌<◌, ◌≡◌, refl, sym, ap, ◌∙◌, subst, Option, none,
  some, [], arith,
}
use encedo_chat.Crypto.{Crypto, IsAead}
use encedo_chat.JsMap.{bytes_eq, nat_eq}
use encedo_chat.Ratchet.State.{Opts, Ratchet, World, opened, message_key, chain_next}
use encedo_chat.Ratchet.Sending.{header_of, encrypt, ready}
use encedo_chat.Ratchet.Receiving.{walk_chain, stash, pruned, decrypt, try_open}
use encedo_chat.Ratchet.Headers.{Header, decode_header}
use encedo_chat.Ratchet.Delivery.{InStep, caught_up, note_peer_pq_pub-chain, heard, seal_next-seals}
use encedo_chat.Ratchet.Skipped
use encedo_chat.Ratchet.Skipped.{SkippedKeys}
use encedo_chat.Ratchet.Skipped.Presence.{Held, put-Held}
use encedo_chat.Ratchet.Waiting.{
  put-bounds, stash-ttl_ms, stash-keeps, IsWaiting, Meanwhile, Meanwhile-IsWaiting, IsWaiting-opens,
}

-- Every key of a walk that is put away is there.
stash-walk_chain :
    (c : Crypto) (keys : SkippedKeys) (k : Bytes) (d n from : ℕ) (ck : Bytes) (now : ℕ)
    → 1 ≤ keys.max_chains
    → d < n
    → Held k
        (from + d)
        (record { mk = message_key c (walk_chain c d ck).1; ts = now })
        (stash c keys k from (walk_chain c n ck).0 now).chains
unfolding stash walk_chain
stash-walk_chain c keys k d zero from ck now room below = ground arith
stash-walk_chain c keys k zero (suc n) from ck now room below =
    let s : Skipped.Skipped = record { mk = message_key c ck; ts = now } in
    let at : from ≡ from + 0 = omega arith in
    subst (λ m. Held k m s (stash c keys k from (walk_chain c (suc n) ck).0 now).chains) at
      (stash-keeps c (Skipped.put keys k from (message_key c ck) now) k from s (from + 1)
        (walk_chain c n (chain_next c ck)).0 now (omega arith) (put-Held k from s keys room))
stash-walk_chain c keys k (suc d) (suc n) from ck now room below =
    let s : Skipped.Skipped = record { mk = message_key c (walk_chain c (suc d) ck).1; ts = now } in
    let at : from + 1 + d ≡ from + suc d = omega arith in
    let put = Skipped.put keys k from (message_key c ck) now in
    let room' : 1 ≤ put.max_chains =
      omega (arith, (put-bounds keys k from (message_key c ck) now).0, room) in
    subst (λ m. Held k m s (stash c keys k from (walk_chain c (suc n) ck).0 now).chains) at
      (stash-walk_chain c put k d n (from + 1) (chain_next c ck) now room' (omega (arith, below)))

-- The key that a chain has for a number, put away at a time.
abbrev pub key_at : Crypto → Bytes → ℕ → ℕ → Skipped.Skipped
key_at c ck d now = record { mk = message_key c (walk_chain c d ck).1; ts = now }

-- Behind a message, the keys of the numbers that it passed over wait.
caught_up-IsWaiting :
    (c : Crypto) (b : Ratchet) (w : World) (h : Header) (ck : Bytes) (n : ℕ)
    → b.dh_peer_pub ≡ h.dh_pub
    → b.n_recv ≤ n
    → n < h.n
    → 1 ≤ b.skipped.max_chains
    → IsWaiting h.dh_pub n
        (key_at c ck (n - b.n_recv) w.now)
        b.skipped.ttl_ms
        (caught_up c b w h ck)
unfolding caught_up
caught_up-IsWaiting c b w h ck n known from below room =
    let keys = stash c b.skipped h.dh_pub b.n_recv (walk_chain c (h.n - b.n_recv) ck).0 w.now in
    let s = key_at c ck (n - b.n_recv) w.now in
    let (_, number, is_keys, peer) =
      note_peer_pq_pub-chain c
        (record b {
          skipped = keys;
          ck_recv = some (chain_next c (walk_chain c (h.n - b.n_recv) ck).1);
          n_recv = h.n + 1;
        })
        w h.pq_pub in
    let at : b.n_recv + (n - b.n_recv) ≡ n = omega (arith, from) in
    let held : Held h.dh_pub n s keys.chains =
      subst (λ m. Held h.dh_pub m s keys.chains) at
        (stash-walk_chain c b.skipped h.dh_pub (n - b.n_recv) (h.n - b.n_recv) b.n_recv ck w.now
          room (omega (arith, from, below))) in
    record {
      peer = peer ∙ known;
      past = omega (arith, number, below);
      held = subst (λ t. Held h.dh_pub n s t.chains) (sym is_keys) held;
      life =
          ap (λ (t : SkippedKeys). t.ttl_ms) is_keys
          ∙ stash-ttl_ms c b.skipped h.dh_pub b.n_recv (walk_chain c (h.n - b.n_recv) ck).0 w.now;
    }

abbrev frame_or : Option (Ratchet × Bytes) → Bytes
frame_or none = []
frame_or (some (r, f)) = f

-- Where a message reached a receiver in step with its sender, which may hold keys of at least one
-- chain, the frame of an earlier message of the chain that was passed over, under the key that the
-- chain has for its number, opens to its plaintext within the lifetime of held keys, whatever frames
-- of the chain with other numbers came in between.
pub overtaken_opens :
    (c : Crypto) (o : Opts) (a b a' r : Ratchet) (wa wb w : World) (plaintext frame late pt : Bytes)
    (h1 : Header) (len : ℕ)
    → IsAead c
    → (i : InStep c o (ready c o a wa) (pruned c b wb.now))
    → encrypt c o a wa plaintext ≡ some (a', frame)
    → decode_header late ≡ some (h1, len)
    → h1.dh_pub ≡ i.d.pub_
    → b.n_recv ≤ h1.n
    → h1.n < (ready c o a wa).n_send
    → 1 ≤ b.skipped.max_chains
    → w.now - wb.now ≤ b.skipped.ttl_ms
    → try_open c
        (message_key c (walk_chain c (h1.n - b.n_recv) i.behind_ck).1)
        (take len late)
        (drop len late)
        h1.n
      ≡ some pt
    → Meanwhile c o i.d.pub_ h1.n
        (key_at c i.behind_ck (h1.n - b.n_recv) wb.now)
        b.skipped.ttl_ms
        (decrypt c o b wb frame).0
        r
    → (decrypt c o r w late).1 ≡ opened pt
unfolding encrypt header_of pruned Skipped.prune
overtaken_opens c o a b a' r wa wb w plaintext frame late pt h1 len aead i sent read of from below
      room young opens meanwhile =
    let s = ready c o a wa in
    let h = header_of c s i.d in
    let key = key_at c i.behind_ck (h1.n - b.n_recv) wb.now in
    let is_frame =
      ap frame_or (sym (seal_next-seals c s i.d i.ck plaintext i.sending i.own) ∙ sent) in
    let first = ap (λ p. p.0) (heard c aead o s b plaintext wb i) in
    let waits : IsWaiting i.d.pub_ h1.n key b.skipped.ttl_ms (decrypt c o b wb frame).0 =
      subst (λ f. IsWaiting i.d.pub_ h1.n key b.skipped.ttl_ms (decrypt c o b wb f).0) is_frame
        (subst (λ r. IsWaiting i.d.pub_ h1.n key b.skipped.ttl_ms r) (sym first)
          (caught_up-IsWaiting c (pruned c b wb.now) wb h i.behind_ck h1.n i.known from below
            room)) in
    IsWaiting-opens c o i.d.pub_ h1.n key b.skipped.ttl_ms r w h1 late pt len
      (Meanwhile-IsWaiting c o i.d.pub_ h1.n key b.skipped.ttl_ms waits meanwhile) read of refl
      young opens
