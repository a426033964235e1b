-- ===== src/Ratchet/Delivery.antt =====
-- From the sender's `encrypt` to the receiver's `decrypt` on the chain they share.
use encedo_chat.Prelude.{
  ltb-eq-false_of_le, Bool-cases, Option-cases, length, take, drop, take-length, drop-length, Bytes,
  ◌+◌, ◌-◌, ◌≤◌, ◌≡◌, refl, ap, ◌∙◌, inl, inr, true, Option, none, some, [], ◌∷◌, ◌++◌, arith,
}
use encedo_chat.Crypto.{Crypto, IsAead, Dh}
use encedo_chat.Ratchet.Sending.{ready, header_of, seal_next, encrypt}
use encedo_chat.Ratchet.State.{
  Opts, Ratchet, World, Outcome, opened, every_same, same_bytes, message_key, chain_next,
}
use encedo_chat.Ratchet.Receiving.{
  walk_chain, advance, try_open, note_peer_pq_pub, stash, open_same, open_frame, open_current,
  pruned, decrypt,
}
use encedo_chat.Ratchet.Headers.{Header, encode_header, decode_header, ◌>>=?◌}
use encedo_chat.Ratchet.Headers.RoundTrip.{IsHeader, decode_header-encode_header}
use encedo_chat.Ratchet.Skipped
use encedo_chat.Wc.{aead_nonce}

-- The sender `s`, its chain begun, and the receiver `b` share a chain: the receiver is at most
-- `max_skip` messages behind, its chain key leads to the sender's, and it holds no key for the number
-- that comes next.
pub record InStep (c : Crypto) (o : Opts) (s b : Ratchet) : Type 0 where
  pub d : Dh
  pub ck : Bytes
  pub behind_ck : Bytes
  pub own : s.dh_self ≡ some d
  pub sending : s.ck_send ≡ some ck
  pub header : IsHeader (header_of c s d)
  pub receiving : b.ck_recv ≡ some behind_ck
  pub known : b.dh_peer_pub ≡ d.pub_
  pub behind : b.n_recv ≤ s.n_send
  pub near : s.n_send - b.n_recv ≤ o.max_skip
  pub reaches : (walk_chain c (s.n_send - b.n_recv) behind_ck).1 ≡ ck
  pub unseen : Skipped.peek b.skipped d.pub_ s.n_send ≡ none

-- A message that `a` encrypts and hands to `b`: what the two are then, and what `b` reads.
unfoldable pub deliver :
    Crypto
    → Opts
    → Ratchet
    → Ratchet
    → World
    → World
    → Bytes
    → Option (Ratchet × (Ratchet × Outcome))
deliver c o a b wa wb plaintext =
    encrypt c o a wa plaintext >>=? λ (a', frame). some (a', decrypt c o b wb frame)

pub every_same_self : (x : Bytes) → every_same x x ≡ true
unfolding every_same
every_same_self [] = refl
every_same_self (x ∷ xs) = ground (arith, every_same_self xs)

pub note_peer_pq_pub-chain :
    (c : Crypto) (r : Ratchet) (w : World) (p : Option Bytes)
    → ((note_peer_pq_pub c r w p).ck_recv ≡ r.ck_recv)
      × ((note_peer_pq_pub c r w p).n_recv ≡ r.n_recv)
      × ((note_peer_pq_pub c r w p).skipped ≡ r.skipped)
      × ((note_peer_pq_pub c r w p).dh_peer_pub ≡ r.dh_peer_pub)
unfolding note_peer_pq_pub
note_peer_pq_pub-chain c r w none = (refl, refl, refl, refl)
note_peer_pq_pub-chain c r w (some p) = elim (Option-cases r.seen_peer_pq_pub) [
  | inl unseen ↦ rw (unseen, note_peer_pq_pub) (refl, refl, refl, refl)
  | inr (x, seen) ↦ elim (Bool-cases (same_bytes x p)) [
    | inl e ↦ rw (seen, e, note_peer_pq_pub) (refl, refl, refl, refl)
    | inr e ↦ rw (seen, e, note_peer_pq_pub) (refl, refl, refl, refl)
  ]
]

-- The receiver behind a message of its chain that opened: the keys passed over are stored.
unfoldable pub caught_up : Crypto → Ratchet → World → Header → Bytes → Ratchet
caught_up c b w h ck =
    let (keys, end) = walk_chain c (h.n - b.n_recv) ck in
    note_peer_pq_pub c
      (record b {
        skipped = stash c b.skipped h.dh_pub b.n_recv keys w.now;
        ck_recv = some (chain_next c end);
        n_recv = h.n + 1;
      })
      w h.pq_pub

open_same-opens :
    (c : Crypto) (o : Opts) (b : Ratchet) (w : World) (h : Header) (header ct ck pt : Bytes)
    → b.n_recv ≤ h.n
    → h.n - b.n_recv ≤ o.max_skip
    → try_open c (message_key c (walk_chain c (h.n - b.n_recv) ck).1) header ct h.n ≡ some pt
    → open_same c o b w h header ct ck ≡ (caught_up c b w h ck, opened pt)
unfolding open_same caught_up advance
open_same-opens c o b w h header ct ck pt behind near opens =
    let t1 = ltb-eq-false_of_le h.n b.n_recv behind in
    let t2 = ltb-eq-false_of_le o.max_skip (h.n - b.n_recv) near in rw (t1, t2, opens) refl

pub seal_next-seals :
    (c : Crypto) (r : Ratchet) (d : Dh) (ck plaintext : Bytes)
    → r.ck_send ≡ some ck
    → r.dh_self ≡ some d
    → seal_next c r plaintext
      ≡ some (
        record r { ck_send = some (chain_next c ck); n_send = r.n_send + 1 },
        encode_header (header_of c r d)
            ++ c.seal
                (message_key c ck)
                (aead_nonce c (message_key c ck) r.n_send)
                (encode_header (header_of c r d))
                plaintext,
      )
unfolding seal_next
seal_next-seals c r d ck plaintext sending own = rw (sending, own, seal_next) refl

pub open_frame-same :
    (c : Crypto) (o : Opts) (r : Ratchet) (w : World) (h : Header) (header ct ck : Bytes)
    → Skipped.peek r.skipped h.dh_pub h.n ≡ none
    → r.dh_peer_pub ≡ h.dh_pub
    → r.ck_recv ≡ some ck
    → open_frame c o r w h header ct ≡ open_same c o r w h header ct ck
unfolding open_frame open_current
open_frame-same c o r w h header ct ck unseen known receiving =
    let same : every_same h.dh_pub r.dh_peer_pub ≡ true =
      ap (every_same h.dh_pub) known ∙ every_same_self h.dh_pub in
    rw (unseen, same, open_frame) (ap (λ k. open_current c o r w h header ct k) receiving)

module _ (c : Crypto) (aead : IsAead c) (o : Opts) (s b : Ratchet) (plaintext : Bytes) where
  -- The frame of a sender, at a receiver in step with it.
  pub heard :
      (w : World) (i : InStep c o s (pruned c b w.now))
      → decrypt c o b w (
          encode_header (header_of c s i.d)
          ++ c.seal
              (message_key c i.ck)
              (aead_nonce c (message_key c i.ck) s.n_send)
              (encode_header (header_of c s i.d))
              plaintext)
        ≡ (caught_up c (pruned c b w.now) w (header_of c s i.d) i.behind_ck, opened plaintext)
  unfolding header_of
  heard w i =
      let h = header_of c s i.d in
      let head = encode_header h in
      let mk = message_key c i.ck in
      let ct = c.seal mk (aead_nonce c mk s.n_send) head plaintext in
      let long : 16 ≤ length ct =
        omega (arith, aead.tag mk (aead_nonce c mk s.n_send) head plaintext) in
      let read : decode_header (head ++ ct) ≡ some (h, length head) =
        decode_header-encode_header h ct i.header long in
      let header : take (length head) (head ++ ct) ≡ head = take-length head ct in
      let text : drop (length head) (head ++ ct) ≡ ct = drop-length head ct in
      let opens : try_open c mk head ct s.n_send ≡ some plaintext =
        unfold try_open in aead.opens mk (aead_nonce c mk s.n_send) head plaintext in
      let at_end : try_open c
            (message_key c (walk_chain c (s.n_send - (pruned c b w.now).n_recv) i.behind_ck).1) head
            ct s.n_send
          ≡ some plaintext =
        ap (λ k. try_open c (message_key c k) head ct s.n_send) i.reaches ∙ opens in
      unfold decrypt in
      rw (read, header, text, decrypt)
        (open_frame-same c o (pruned c b w.now) w h head ct i.behind_ck i.unseen i.known i.receiving
          ∙ open_same-opens c o (pruned c b w.now) w h head ct i.behind_ck plaintext i.behind i.near
              at_end)

pub caught_up-chain :
    (c : Crypto) (b : Ratchet) (w : World) (h : Header) (ck : Bytes)
    → ((caught_up c b w h ck).ck_recv ≡ some (chain_next c (walk_chain c (h.n - b.n_recv) ck).1))
      × ((caught_up c b w h ck).n_recv ≡ h.n + 1)
unfolding caught_up
caught_up-chain c b w h ck =
    let (keys, end) = walk_chain c (h.n - b.n_recv) ck in
    let (recv, n, _, _) =
      note_peer_pq_pub-chain c
        (record b {
          skipped = stash c b.skipped h.dh_pub b.n_recv keys w.now;
          ck_recv = some (chain_next c end);
          n_recv = h.n + 1;
        })
        w h.pq_pub in
    (recv, n)

-- Where the sender, its chain begun, and the receiver, its old keys dropped, are in step, a message
-- is sealed, opens to its plaintext whatever `max_skip` of its predecessors were lost, and leaves
-- both with the same chain key and number.
pub deliver_opens :
    (c : Crypto) (o : Opts) (a b : Ratchet) (wa wb : World) (plaintext : Bytes)
    → IsAead c
    → InStep c o (ready c o a wa) (pruned c b wb.now)
    → (a' : Ratchet) × (b' : Ratchet) × (deliver c o a b wa wb plaintext
        ≡ some (a', (b', opened plaintext)))
      × (b'.ck_recv ≡ a'.ck_send)
      × (b'.n_recv ≡ a'.n_send)
unfolding encrypt header_of
deliver_opens c o a b wa wb plaintext aead i =
    let s = ready c o a wa in
    let h = header_of c s i.d in
    let b' = caught_up c (pruned c b wb.now) wb h i.behind_ck in
    let a' : Ratchet = record s { ck_send = some (chain_next c i.ck); n_send = s.n_send + 1 } in
    let sealed = seal_next-seals c s i.d i.ck plaintext i.sending i.own in
    let (recv, n) = caught_up-chain c (pruned c b wb.now) wb h i.behind_ck in
    (
      a',
      b',
      (unfold deliver in
          rw (sealed, encrypt) (ap (λ p. some (a', p)) (heard c aead o s b plaintext wb i))),
      recv ∙ ap (λ k. some (chain_next c k)) i.reaches,
      n,
    )
