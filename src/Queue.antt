-- ===== src/Queue.antt =====
-- impl/cli/queue.ts: the daemon's outbox, driven. What the room answers is an argument, as are the
-- times at which it does; the sealed file the queue is kept in, the log and the timer are left out.
-- A call runs to its end before the next: what may come between its awaits is not modelled.
pub mod Keeps
mod Tests
use encedo_chat.Prelude.{
  ltb, ◌==◌, if◌then◌else◌, Bytes, ℕ, ◌-◌, ◌*◌, Bool, true, false, not, ◌&&◌, ◌||◌, Option, none,
  some, List, [], ◌∷◌, ◌++◌,
}
use encedo_chat.JsMap.{lookup, set, delete, bytes_eq, bytes_beq}
use encedo_chat.Wc.{codes}
use encedo_chat.Outbox
use encedo_chat.Outbox.{
  Entry, Qid, Added, How, queued, merged, add, expire, due, throttled, delivered, same_qid,
  default_every_ms,
}

abbrev pub resend_after_ms : ℕ
resend_after_ms = 60_000

abbrev pub lost_after_ms : ℕ
lost_after_ms = 10 * 60_000

-- The entry that a message in flight carries, its recipient, since when or since its last re-send,
-- and since when at all.
pub record Flight : Type 0 where
  pub qid : Qid
  pub pub_ : Bytes
  pub since : ℕ
  pub first : ℕ

pub record Queue : Type 0 where
  pub outbox : Outbox.Outbox
  pub inflight : List (Bytes × Flight)
  pub flushing : List Bytes
  pub online : List Bytes

-- What the room says of a message it was given, and under which id it goes on trying.
pub data Answer : Type 0 where
  confirmed : Answer
  unconfirmed : Bytes → Answer

-- What one entry of a flush meets: the time it is looked at, whether the room still knows its
-- message and sends it again, what the room says of a new one, and when.
pub record World : Type 0 where
  pub now : ℕ
  pub resent : Bool
  pub answer : Answer
  pub later : ℕ

pub data Status : Type 0 where
  was_delivered was_queued was_merged : Status

pub record Submitted : Type 0 where
  pub status : Status
  pub qid : Option Qid

-- `outgoingText`, with the platform's printing of a number
unfoldable pub outgoing_text : (ℕ → Bytes) → Entry → Bytes
outgoing_text show e =
    if e.merged == 0
    then e.text
    else e.text ++ (codes " (+" ++ (show e.merged ++ codes " wcześniejszych)"))

unfoldable pub is_in : Bytes → List Bytes → Bool
is_in p [] = false
is_in p (q ∷ qs) = bytes_beq q p || is_in p qs

unfoldable pub fly : Queue → Bytes → Qid → Bytes → ℕ → Queue
fly q id qid p now = record q {
  inflight = set id (record { qid = qid; pub_ = p; since = now; first = now }) q.inflight;
}

-- The first message in flight that carries an entry.
unfoldable pub flying : List (Bytes × Flight) → Qid → Option (Bytes × Flight)
flying [] qid = none
flying ((id, f) ∷ fs) qid =
    let rest = flying fs qid in if same_qid f.qid qid then some (id, f) else rest

unfoldable pub find_entry : Qid → List Entry → Option Entry
find_entry qid [] = none
find_entry qid (e ∷ es) =
    let rest = find_entry qid es in if same_qid e.qid qid then some e else rest

-- The room's `delivered`: the entry that the message carried leaves the queue.
unfoldable pub ack : Queue → Bytes → ℕ → Queue
ack q id now = elim (lookup id q.inflight) [
  | none ↦ q
  | some f ↦
      let rest : Queue = record q { inflight = delete id q.inflight } in
      elim (find_entry f.qid q.outbox.entries) [
        | none ↦ rest
        | some e ↦ record rest { outbox = delivered q.outbox (some e.qid) e.to e.key now }
      ]
]

-- An entry is sent as a new message; whether the flush goes on.
unfoldable pub send_entry : Queue → Bytes → Entry → World → Queue × Bool
send_entry q p e w = elim w.answer [
  | confirmed ↦ (record q { outbox = delivered q.outbox (some e.qid) e.to e.key w.later }, true)
  | unconfirmed id ↦ (fly q id e.qid p w.later, false)
]

-- One entry of a flush: a message in flight is sent again under its own id once it is due for that,
-- and as a new one only when the room has lost it.
unfoldable pub flush_entry : Queue → Bytes → Entry → World → Queue × Bool
flush_entry q p e w = elim (flying q.inflight e.qid) [
  | none ↦ send_entry q p e w
  | some (id, f) ↦
      if ltb (w.now - f.since) resend_after_ms
      then (q, true)
      else if w.resent
      then (record q { inflight = set id (record f { since = w.now }) q.inflight }, true)
      else if ltb (w.now - f.first) lost_after_ms
      then (q, true)
      else send_entry (record q { inflight = delete id q.inflight }) p e w
]

unfoldable pub flush_all : Queue → Bytes → List Entry → (Qid → World) → Queue
flush_all q p [] ws = q
flush_all q p (e ∷ es) ws =
    let (next, goes_on) = flush_entry q p e (ws e.qid) in
    let rest = flush_all next p es ws in if goes_on then rest else next

unfoldable pub without : Bytes → List Bytes → List Bytes
without p [] = []
without p (x ∷ xs) = let rest = without p xs in if bytes_beq x p then rest else x ∷ rest

unfoldable pub flush : Queue → Bytes → ℕ → (Qid → World) → Queue
flush q p now ws =
    if is_in p q.flushing
    then q
    else (let done =
          flush_all (record q { flushing = p ∷ q.flushing }) p (due q.outbox p now default_every_ms)
            ws in
        record done { flushing = without p done.flushing })

-- `new Set(entries.map((e) => e.to))`
unfoldable pub recipients : List Entry → List Bytes → List Bytes
recipients [] seen = []
recipients (e ∷ es) seen =
    let new = recipients es (e.to ∷ seen) in
    let old = recipients es seen in if is_in e.to seen then old else e.to ∷ new

unfoldable pub flush_each : Queue → List Bytes → ℕ → (Qid → World) → Queue
flush_each q [] now ws = q
flush_each q (p ∷ ps) now ws =
    let flushed = flush_each (flush q p now ws) ps now ws in
    let rest = flush_each q ps now ws in if is_in p q.online then flushed else rest

unfoldable pub tick : Queue → ℕ → (Qid → World) → Queue
tick q now ws =
    let (outbox, gone) = expire q.outbox now in
    flush_each (record q { outbox = outbox }) (recipients outbox.entries []) now ws

-- Nothing that is due waits.
abbrev pub is_nothing : List Entry → Bool
is_nothing [] = true
is_nothing (e ∷ es) = false

abbrev pub status_of : How → Status
status_of queued = was_queued
status_of merged = was_merged

-- `submit` to a contact: straight away where it is online, its key's window is open and nothing due
-- waits for it; else by the queue.
unfoldable pub submit_now :
    Queue → Bytes → Bytes → Option ℕ → Option Bytes → ℕ → ℕ → Answer → Queue × Submitted
submit_now q p text ttl key now later answer = elim answer [
  | confirmed ↦ (
    record q { outbox = delivered q.outbox none p key later },
    record { status = was_delivered; qid = none },
  )
  | unconfirmed id ↦
      let (outbox, added) = add q.outbox p text now ttl key in
      (
        fly (record q { outbox = outbox }) id added.entry.qid p later,
        record { status = was_queued; qid = some added.entry.qid },
      )
]

unfoldable pub submit :
    Queue
    → Bytes
    → Bytes
    → Option ℕ
    → Option Bytes
    → ℕ
    → ℕ
    → Answer
    → (Qid → World)
    → Queue × Submitted
submit q p text ttl key now later answer ws =
    if is_in p q.online
      && (not (throttled q.outbox p key now default_every_ms)
          && is_nothing (due q.outbox p now default_every_ms))
    then submit_now q p text ttl key now later answer
    else (let (outbox, added) = add q.outbox p text now ttl key in
        let behind : Queue = record q { outbox = outbox } in
        let flushed = flush behind p later ws in
        (
          if is_in p q.online then flushed else behind,
          record { status = status_of added.how; qid = some added.entry.qid },
        ))
