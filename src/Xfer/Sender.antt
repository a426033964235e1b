-- ===== src/Xfer/Sender.antt =====
-- `createSender` of impl/lib/xfer.ts. Its closure variables are the fields; `ackedIdx`, which starts
-- at -1, is kept as the number of chunks confirmed, `ackedIdx + 1`.
pub mod Invariant
use encedo_chat.Prelude.{
  ltb, ◌==◌, if◌then◌else◌, length, get_or, Bytes, ℕ, ◌+◌, ◌-◌, ◌*◌, min, Bool, true, false, not,
  ◌&&◌, ◌||◌, Option, none, some, List, [], ◌∷◌,
}
use encedo_chat.Xfer.{
  Text, Offer, JsonCodec, Why, rejected, timeout, cancelled_peer, channel, Ev, accepted, tell,
  progress, done, failed, t_accept, t_reject, t_cancel, t_receipt, t_done, chunk_size, chunks_of,
  clamp_name, clamp_mime, non_empty, encode_offer, encode_chunk, frame, is_xfer, read_u32,
  accept_ms, stall_ms,
}

pub data State : Type 0 where
  offering sending finished broken : State

pub record Sender : Type 0 where
  pub offer : Offer
  pub state : State
  pub sent : ℕ
  pub acked_count : ℕ
  pub last : ℕ

pub record FileInfo : Type 0 where
  pub name : Text
  pub size : ℕ
  pub mime : Text
  pub body : Option Text

unfoldable pub create_sender : FileInfo → ℕ → Sender
create_sender file id = record {
  offer = record {
    id = id;
    name = clamp_name file.name;
    size = file.size;
    mime = clamp_mime file.mime;
    chunk = chunk_size;
    chunks = chunks_of file.size;
    body = non_empty file.body;
  };
  state = offering;
  sent = 0;
  acked_count = 0;
  last = 0;
}

abbrev pub is_offering : State → Bool
is_offering offering = true
is_offering _ = false

abbrev pub is_sending : State → Bool
is_sending sending = true
is_sending _ = false

abbrev pub is_finished : State → Bool
is_finished finished = true
is_finished _ = false

unfoldable pub fail : Sender → Why → Sender × List Ev
fail s why = (record s { state = broken }, failed why ∷ [])

unfoldable pub open_ : JsonCodec → Sender → ℕ → Sender × Bytes
open_ json s now = (record s { last = now }, encode_offer json s.offer)

unfoldable pub next : Sender → Option ℕ
next s = if is_sending s.state && ltb s.sent s.offer.chunks then some s.sent else none

unfoldable pub chunk : Sender → ℕ → Bytes → Sender × Bytes
chunk s index body = (record s { sent = index + 1 }, encode_chunk s.offer.id index body)

unfoldable pub acked : Sender → ℕ
acked s = min s.offer.size (s.acked_count * chunk_size)

unfoldable pub cancel : Sender → Sender × Bytes
cancel s = (record s { state = broken }, frame t_cancel s.offer.id [])

unfoldable pub tick : Sender → ℕ → Sender × List Ev
tick s now =
    if is_offering s.state && ltb accept_ms (now - s.last)
    then (let (s', evs) = fail s timeout in (s', tell (frame t_cancel s.offer.id []) ∷ evs))
    else if is_sending s.state && ltb stall_ms (now - s.last)
    then fail s channel
    else (s, [])

-- The `switch` of `onFrame`, once the frame is known to be this transfer's.
unfoldable pub on_accept : Sender → Sender × List Ev
on_accept s = if is_offering s.state then (record s { state = sending }, accepted ∷ []) else (s, [])

unfoldable pub on_reject : Sender → Sender × List Ev
on_reject s = if is_offering s.state then fail s rejected else (s, [])

unfoldable pub on_cancel : Sender → Sender × List Ev
on_cancel s = if is_finished s.state then (s, []) else fail s cancelled_peer

unfoldable pub on_receipt : Sender → Bytes → Sender × List Ev
on_receipt s b =
    if not (is_sending s.state) || ltb (length b) 10
    then (s, [])
    else (let i = read_u32 b 6 in
        let count = if ltb s.acked_count (i + 1) then i + 1 else s.acked_count in
        (
          record s { acked_count = count },
          progress (min s.offer.size (count * chunk_size)) s.offer.size ∷ [],
        ))

unfoldable pub on_done : Sender → Sender × List Ev
on_done s =
    if is_sending s.state
    then (record s { state = finished }, progress s.offer.size s.offer.size ∷ done ∷ [])
    else (s, [])

unfoldable pub dispatch : Sender → ℕ → Bytes → Sender × List Ev
dispatch s sub b =
    if sub == t_accept
    then on_accept s
    else if sub == t_reject
    then on_reject s
    else if sub == t_cancel
    then on_cancel s
    else if sub == t_receipt
    then on_receipt s b
    else if sub == t_done
    then on_done s
    else (s, [])

unfoldable pub on_frame : Sender → Bytes → ℕ → Sender × List Ev
on_frame s b now =
    if not (is_xfer b) || not (read_u32 b 2 == s.offer.id)
    then (s, [])
    else dispatch (record s { last = now }) (get_or b 1 0) b
