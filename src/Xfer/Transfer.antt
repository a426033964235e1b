-- ===== src/Xfer/Transfer.antt =====
-- A whole transfer over the ordered channel: the offer, its acceptance, and the chunks, each reply
-- reaching the sender before its next chunk. The loop is `pump` of impl/lib/xfer-session.ts.
pub mod Step
pub mod Complete
pub mod EndToEnd
use encedo_chat.Prelude.{
  length, take, drop, Bytes, ℕ, zero, suc, ◌+◌, ◌-◌, ◌*◌, min, Option, none, some,
}
use encedo_chat.Xfer.{Offer, JsonCodec, chunk_size}
use encedo_chat.Xfer.Sender
use encedo_chat.Xfer.Sender.{Sender, FileInfo}
use encedo_chat.Xfer.Receiver
use encedo_chat.Xfer.Receiver.{Receiver, Opening}

-- `file.slice(start, end)`
unfoldable pub file_slice : Bytes → ℕ → ℕ → Bytes
file_slice file start stop = take (stop - start) (drop start file)

-- The bytes of chunk `i`.
unfoldable pub chunk_body : Bytes → ℕ → Bytes
unfolding file_slice
chunk_body file i =
    let start = i * chunk_size in file_slice file start (min (start + chunk_size) (length file))

-- A reply, if there is one, arrives.
unfoldable pub hear : Sender → Option Bytes → ℕ → Sender
hear s none now = s
hear s (some b) now = (Sender.on_frame s b now).0

unfoldable pub exchange : ℕ → Sender → Receiver → Bytes → ℕ → Sender × Receiver
exchange zero s r file now = (s, r)
exchange (suc n) s r file now = elim (Sender.next s) [
  | none ↦ (s, r)
  | some i ↦
      let (s1, b) = Sender.chunk s i (chunk_body file i) in
      let (r1, out) = Receiver.on_frame r b now in exchange n (hear s1 out.reply now) r1 file now
]

-- What follows an offer that was opened: the person accepts, and the file goes.
unfoldable pub answer : Option Opening → Sender → Bytes → ℕ → Option (Sender × Receiver)
answer (some (Opening.fine o)) s file now =
    let (r, yes_frame) = Receiver.accept (Receiver.create_receiver o) now in
    some (exchange o.chunks (Sender.on_frame s yes_frame now).0 r file now)
answer _ s file now = none

unfoldable pub run_transfer : JsonCodec → FileInfo → ℕ → Bytes → ℕ → Option (Sender × Receiver)
unfolding answer
run_transfer json info id file now =
    let (s, offer_frame) = Sender.open_ json (Sender.create_sender info id) now in
    answer (Receiver.open_offer json offer_frame) s file now
