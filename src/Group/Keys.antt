-- ===== src/Group/Keys.antt =====
-- A member's sender key as it comes, and the frames that were held for it.
use encedo_chat.Prelude.{
  ltb, leb, if◌then◌else◌, Bytes, ℕ, ◌-◌, Bool, true, false, Option, none, some, List, [], ◌∷◌,
  ◌++◌,
}
use encedo_chat.Crypto.{Crypto}
use encedo_chat.JsMap.{lookup, set, delete, bytes_eq, bytes_beq}
use encedo_chat.Senderkey.{SenderReceiver, receiver_from}
use encedo_chat.Group.{
  GroupSession, Received, Held, Event, held_opened, hold_max, hold_ms, take_last, or_empty, receive,
}

-- The loop of `release`: the session and the chain used behind it, the frames that did not open,
-- and the events.
pub record Released : Type 0 where
  pub session : GroupSession
  pub use_ : Option SenderReceiver
  pub keep : List Held
  pub events : List Event

unfoldable pub has {ℓ} : {A : Type ℓ} → Option A → Bool
has none = false
has (some a) = true

module _ (c : Crypto) (unb64 : Bytes → Bytes) where
  -- What became of one held frame.
  unfoldable pub sort_out : Received → Held → Released → Released
  sort_out out x rest = elim out.result [
    | some (from, pt) ↦ record rest { events = out.events ++ (held_opened from pt ∷ rest.events) }
    | none ↦ record rest { keep = x ∷ rest.keep; events = out.events ++ rest.events }
  ]

  unfoldable pub release_all : GroupSession → ℕ → Option SenderReceiver → List Held → Released
  release_all s now use_ [] = record { session = s; use_ = use_; keep = []; events = [] }
  release_all s now use_ (x ∷ q) =
      let out = receive c unb64 s now x.frame use_ in
      let late = release_all s now use_ q in
      let rest = release_all out.session now out.use_ q in
      if leb hold_ms (now - x.at_) then late else sort_out out x rest

  -- What did not open is held on, before what came meanwhile.
  unfoldable pub keep_held : Bytes → Released → GroupSession × List Event
  keep_held from out = elim out.keep [
    | [] ↦ (out.session, out.events)
    | x ∷ xs ↦ (
      record out.session {
        held =
            set from (take_last hold_max ((x ∷ xs) ++ or_empty (lookup from out.session.held)))
              out.session.held;
      },
      out.events,
    )
  ]

  unfoldable pub release :
      GroupSession → ℕ → Bytes → Option SenderReceiver → GroupSession × List Event
  release s now from use_ =
      let q = or_empty (lookup from s.held) in
      keep_held from (release_all (record s { held = delete from s.held }) now use_ q)

  unfoldable pub release_if_held :
      GroupSession → ℕ → Bytes → Option SenderReceiver → GroupSession × List Event
  release_if_held s now from use_ =
      if has (lookup from s.held) then release s now from use_ else (s, [])

  -- A key behind the chain we hold opens only what is held.
  unfoldable pub is_behind : Option SenderReceiver → ℕ → Bool
  is_behind none ctr = false
  is_behind (some r) ctr = ltb ctr r.n

  unfoldable pub set_sender_key : GroupSession → ℕ → Bytes → Bytes → ℕ → GroupSession × List Event
  set_sender_key s now from chain_key ctr =
      let r = receiver_from chain_key ctr s.max_skip s.ttl_ms in
      if bytes_beq from s.id.pub_
      then (s, [])
      else (if is_behind (lookup from s.receivers) ctr
          then release_if_held s now from (some r)
          else release_if_held (record s { receivers = set from r s.receivers }) now from none)
