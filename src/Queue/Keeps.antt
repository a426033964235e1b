-- ===== src/Queue/Keeps.antt =====
-- What a flush does to the entries that wait.
use encedo_chat.Prelude.{
  ltb, lt→ltb, Bool-cases, Option-cases, Bytes, ℕ, ◌-◌, ◌<◌, ◌≡◌, refl, sym, ap, ◌∙◌, ◌⊎◌, inl, inr,
  Bool, true, false, not, some, List, [], ◌∷◌, arith,
}
use encedo_chat.JsMap.{set, delete, bytes_eq}
use encedo_chat.Outbox.{Entry, Qid, filter, due, delivered, same_qid, default_every_ms}
use encedo_chat.Queue.{
  Queue, Flight, Answer, confirmed, unconfirmed, World, resend_after_ms, lost_after_ms, fly, flying,
  is_in, send_entry, flush_entry, flush_all, flush,
}

-- An entry is among those that wait.
unfoldable pub Waits : Entry → List Entry → Type 0
Waits x [] = ⊥
Waits x (e ∷ es) = (e ≡ x) ⊎ Waits x es

unfoldable pub is_confirmed : Answer → Bool
is_confirmed confirmed = true
is_confirmed (unconfirmed id) = false

same_qid_lem : (a b : Qid) → same_qid a b ≡ true → a ≡ b
same_qid_lem (a, b) (c, d) e =
    let parts : (a ≡ c) × (b ≡ d) = ground arith in λ i. (parts.0 i, parts.1 i)

filter-Waits :
    (x : Entry) (qid : Qid) (es : List Entry)
    → Waits x es
    → Waits x (filter (λ y. not (same_qid y.qid qid)) es) ⊎ (same_qid x.qid qid ≡ true)
unfolding Waits filter
filter-Waits x qid [] w = absurd w
filter-Waits x qid (e ∷ es) w = elim (Bool-cases (same_qid e.qid qid)) [
  | inl gone ↦ elim w [
    | inl is ↦ inr (ap (λ y. same_qid y.qid qid) (sym is) ∙ gone)
    | inr there ↦ rw gone (filter-Waits x qid es there)
  ]
  | inr kept ↦ elim w [
    | inl is ↦ rw kept (inl (inl is))
    | inr there ↦ elim (filter-Waits x qid es there) [
      | inl still ↦ rw kept (inl (inr still))
      | inr same ↦ inr same
    ]
  ]
]

module _ (x : Entry) (ws : Qid → World) where
  -- The entry still waits, or the room confirmed its message.
  abbrev IsSafe : Queue → Type 0
  IsSafe q = Waits x q.outbox.entries ⊎ (is_confirmed (ws x.qid).answer ≡ true)

  delivered-IsSafe :
      (q : Queue) (e : Entry) (now : ℕ)
      → (ws e.qid).answer ≡ confirmed
      → Waits x q.outbox.entries
      → IsSafe (record q { outbox = delivered q.outbox (some e.qid) e.to e.key now })
  unfolding delivered
  delivered-IsSafe q e now yes_ w = elim (filter-Waits x e.qid q.outbox.entries w) [
    | inl still ↦ inl still
    | inr same ↦
        let mine : x.qid ≡ e.qid = same_qid_lem x.qid e.qid same in
        inr (
          ap (λ k. is_confirmed (ws k).answer) mine
          ∙ ap is_confirmed yes_
          ∙ (unfold is_confirmed in refl))
  ]

  send_entry-IsSafe :
      (q : Queue) (p : Bytes) (e : Entry)
      → Waits x q.outbox.entries
      → IsSafe (send_entry q p e (ws e.qid)).0
  send_entry-IsSafe q p e w = by_answer (ws e.qid).answer refl
    where
      by_answer : (a : Answer) → (ws e.qid).answer ≡ a → IsSafe (send_entry q p e (ws e.qid)).0
      by_answer confirmed is =
          unfold send_entry in rw (is, send_entry) (delivered-IsSafe q e (ws e.qid).later is w)
      by_answer (unconfirmed id) is = unfold send_entry fly in rw (is, send_entry) (inl w)

  flush_entry-IsSafe :
      (q : Queue) (p : Bytes) (e : Entry)
      → Waits x q.outbox.entries
      → IsSafe (flush_entry q p e (ws e.qid)).0
  unfolding send_entry
  flush_entry-IsSafe q p e w = elim (Option-cases (flying q.inflight e.qid)) [
    | inl idle ↦ unfold flush_entry in rw (idle, flush_entry) (send_entry-IsSafe q p e w)
    | inr ((id, f), there) ↦ elim (Bool-cases (ltb ((ws e.qid).now - f.since) resend_after_ms)) [
      | inl young ↦ unfold flush_entry in rw (there, young, flush_entry) (inl w)
      | inr due_again ↦ elim (Bool-cases (ws e.qid).resent) [
        | inl again ↦ unfold flush_entry in rw (there, due_again, again, flush_entry) (inl w)
        | inr unknown ↦ elim (Bool-cases (ltb ((ws e.qid).now - f.first) lost_after_ms)) [
          | inl trying ↦
              unfold flush_entry in rw (there, due_again, unknown, trying, flush_entry) (inl w)
          | inr lost ↦
              unfold flush_entry in
              rw (there, due_again, unknown, lost, flush_entry)
                (send_entry-IsSafe (record q { inflight = delete id q.inflight }) p e w)
        ]
      ]
    ]
  ]

  flush_all-IsSafe :
      (es : List Entry) (q : Queue) (p : Bytes) → IsSafe q → IsSafe (flush_all q p es ws)
  unfolding flush_all
  flush_all-IsSafe [] q p v = v
  flush_all-IsSafe (e ∷ es) q p (inr done) = inr done
  flush_all-IsSafe (e ∷ es) q p (inl w) = elim (Bool-cases (flush_entry q p e (ws e.qid)).1) [
    | inl goes_on ↦
        rw goes_on
          (flush_all-IsSafe es (flush_entry q p e (ws e.qid)).0 p (flush_entry-IsSafe q p e w))
    | inr stops ↦ rw stops (flush_entry-IsSafe q p e w)
  ]

  -- An entry that waits is not lost by a flush, whatever the room answers: it still waits, or the room
  -- confirmed its message.
  pub flush_keeps :
      (q : Queue) (p : Bytes) (now : ℕ)
      → Waits x q.outbox.entries
      → Waits x (flush q p now ws).outbox.entries ⊎ (is_confirmed (ws x.qid).answer ≡ true)
  unfolding flush
  flush_keeps q p now w = elim (Bool-cases (is_in p q.flushing)) [
    | inl busy ↦ rw busy (inl w)
    | inr idle ↦ rw idle (
        flush_all-IsSafe (due q.outbox p now default_every_ms)
          (record q { flushing = p ∷ q.flushing }) p (inl w))
  ]

-- An entry whose message has been in flight for less than ten minutes is not sent again as a new
-- message, whatever the room answers: at most the time of its last re-send moves.
pub flush_entry-once :
    (q : Queue) (p id : Bytes) (e : Entry) (f : Flight) (w : World)
    → flying q.inflight e.qid ≡ some (id, f)
    → w.now - f.first < lost_after_ms
    → (flush_entry q p e w ≡ (q, true))
      ⊎ (flush_entry q p e w
          ≡ (record q { inflight = set id (record f { since = w.now }) q.inflight }, true))
flush_entry-once q p id e f w there recent =
    elim (Bool-cases (ltb (w.now - f.since) resend_after_ms)) [
      | inl young ↦ inl (unfold flush_entry in rw (there, young, flush_entry) refl)
      | inr due_again ↦ elim (Bool-cases w.resent) [
        | inl again ↦ inr (unfold flush_entry in rw (there, due_again, again, flush_entry) refl)
        | inr unknown ↦
            let trying : ltb (w.now - f.first) lost_after_ms ≡ true =
              lt→ltb (w.now - f.first) lost_after_ms recent in
            inl (unfold flush_entry in rw (there, due_again, unknown, trying, flush_entry) refl)
      ]
    ]
