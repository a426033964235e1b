-- ===== src/Xfer/Receiver.antt =====
-- `createReceiver` and `openOffer` of impl/lib/xfer.ts. `expect` is `min CHUNK (size - got)`; `got`
-- never passes `size` (see Invariant), so the subtraction of the source is not negative.
pub mod Invariant
pub mod Reach
pub mod Order
use encedo_chat.Prelude.{
  ltb, leb, ◌==◌, if◌then◌else◌, length, drop, get_or, Bytes, ℕ, ◌+◌, ◌-◌, ◌%◌, min, Bool, true,
  false, not, ◌&&◌, ◌||◌, Option, none, some, List, [], ◌∷◌, ◌++◌,
}
use encedo_chat.Xfer.{
  Offer, JsonCodec, Why, too_big, empty, out_of_order, bad_frame, cancelled_peer, channel, Ev,
  progress, done, failed, t_accept, t_reject, t_cancel, t_chunk, t_receipt, t_done, chunk_size,
  max_direct, receipt_every, decode_offer, frame, u32, is_xfer, read_u32, stall_ms,
}

pub data State : Type 0 where
  offered receiving finished broken : State

pub record Receiver : Type 0 where
  pub offer : Offer
  pub state : State
  pub want : ℕ
  pub got : ℕ
  pub last : ℕ
  pub parts : List Bytes

-- What `onFrame` returns: the events, and a reply if there is one.
pub record Out : Type 0 where
  pub evs : List Ev
  pub reply : Option Bytes

pub data Opening : Type 0 where
  fine : Offer → Opening
  refused : Why → Opening

unfoldable pub open_offer : JsonCodec → Bytes → Option Opening
open_offer json b = elim (decode_offer json b) [
  | none ↦ none
  | some o ↦
      if ltb max_direct o.size
      then some (refused too_big)
      else if o.size == 0
      then some (refused empty)
      else some (fine o)
]

unfoldable pub create_receiver : Offer → Receiver
create_receiver offer = record {
  offer = offer;
  state = offered;
  want = 0;
  got = 0;
  last = 0;
  parts = [];
}

abbrev pub is_receiving : State → Bool
is_receiving receiving = true
is_receiving _ = false

abbrev pub is_finished : State → Bool
is_finished finished = true
is_finished _ = false

abbrev pub quiet : List Ev → Out
quiet evs = record { evs = evs; reply = none }

unfoldable pub fail : Receiver → Why → Receiver × Out
fail r why = (record r { state = broken }, quiet (failed why ∷ []))

unfoldable pub accept : Receiver → ℕ → Receiver × Bytes
accept r now = (record r { state = receiving; last = now }, frame t_accept r.offer.id [])

unfoldable pub reject : Receiver → Receiver × Bytes
reject r = (record r { state = broken }, frame t_reject r.offer.id [])

unfoldable pub cancel : Receiver → Receiver × Bytes
cancel r = (record r { state = broken }, frame t_cancel r.offer.id [])

unfoldable pub tick : Receiver → ℕ → Receiver × List Ev
tick r now =
    if is_receiving r.state && ltb stall_ms (now - r.last)
    then (let (r', out) = fail r channel in (r', out.evs))
    else (r, [])

-- What follows a chunk that was kept: the end, a receipt, or nothing.
unfoldable pub confirm : Receiver → Receiver × Out
confirm r =
    let moved = progress r.got r.offer.size in
    if leb r.offer.chunks r.want
    then (
      record r { state = finished },
      record { evs = moved ∷ done ∷ []; reply = some (frame t_done r.offer.id []) },
    )
    else if r.want % receipt_every r.offer.chunks == 0
    then (
      r,
      record { evs = moved ∷ []; reply = some (frame t_receipt r.offer.id (u32 (r.want - 1))) },
    )
    else (r, quiet (moved ∷ []))

-- A chunk of a transfer that is running.
unfoldable pub take_chunk : Receiver → ℕ → Bytes → Receiver × Out
take_chunk r i body =
    if not (i == r.want)
    then fail r out_of_order
    else if not (length body == min chunk_size (r.offer.size - r.got))
    then fail r bad_frame
    else confirm
        (record r { parts = r.parts ++ body ∷ []; got = r.got + length body; want = r.want + 1 })

unfoldable pub dispatch : Receiver → ℕ → Bytes → Receiver × Out
dispatch r sub b =
    if sub == t_cancel
    then (if is_finished r.state then (r, quiet []) else fail r cancelled_peer)
    else if not (sub == t_chunk)
    then (r, quiet [])
    else if not (is_receiving r.state)
    then (r, quiet [])
    else if ltb (length b) 10
    then fail r bad_frame
    else take_chunk r (read_u32 b 6) (drop 10 b)

unfoldable pub on_frame : Receiver → Bytes → ℕ → Receiver × Out
on_frame r b now =
    if not (is_xfer b) || not (read_u32 b 2 == r.offer.id)
    then (r, quiet [])
    else dispatch (record r { last = now }) (get_or b 1 0) b
