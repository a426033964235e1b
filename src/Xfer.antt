-- ===== src/Xfer.antt =====
-- impl/lib/xfer.ts: one file, straight down the DataChannel. Constants, the offer and the frames;
-- the two ends are the modules `Sender` and `Receiver`.
-- JSON and UTF-8 are not the program's code: `JsonCodec` stands for `JSON.stringify` behind a
-- `TextEncoder` and for `JSON.parse` behind a `TextDecoder`, as they act on the fields of an offer.
-- A text is the list of its UTF-16 units.
pub mod Sender
pub mod Receiver
pub mod Frames
pub mod Offers
pub mod Transfer
pub mod Receipts
mod Tests
use encedo_chat.Prelude.{
  ltb, leb, ◌==◌, if◌then◌else◌, length, take, drop, get_or, Bytes, be, read_be, ℕ, ◌+◌, ◌-◌, ◌*◌,
  ◌/◌, max, Bool, false, not, ◌&&◌, ◌||◌, Option, none, some, List, [], ◌∷◌, ◌++◌, map,
}
use mathlib.Core.Option

abbrev pub ctrl : ℕ
ctrl = 0x00

abbrev pub t_offer : ℕ
t_offer = 0x01

abbrev pub t_accept : ℕ
t_accept = 0x02

abbrev pub t_reject : ℕ
t_reject = 0x03

abbrev pub t_chunk : ℕ
t_chunk = 0x04

abbrev pub t_receipt : ℕ
t_receipt = 0x05

abbrev pub t_cancel : ℕ
t_cancel = 0x06

abbrev pub t_done : ℕ
t_done = 0x07

abbrev pub dc_max_message : ℕ
dc_max_message = 65536

abbrev pub chunk_header : ℕ
chunk_header = 10

abbrev pub chunk_size : ℕ
chunk_size = dc_max_message - chunk_header

abbrev pub max_offer_body : ℕ
max_offer_body = 4096

abbrev pub max_direct : ℕ
max_direct = 512 * 1024 * 1024

abbrev pub accept_ms : ℕ
accept_ms = 30_000

abbrev pub stall_ms : ℕ
stall_ms = 60_000

abbrev pub Text : Type 0
Text = List ℕ

-- `Math.max(1, Math.ceil(chunks / 100))`
unfoldable pub receipt_every : ℕ → ℕ
receipt_every chunks = max 1 ((chunks + 99) / 100)

-- `Math.max(1, Math.ceil(size / CHUNK))`
unfoldable pub chunks_of : ℕ → ℕ
chunks_of size = max 1 ((size + (chunk_size - 1)) / chunk_size)

pub record Offer : Type 0 where
  pub id : ℕ
  pub name : Text
  pub size : ℕ
  pub mime : Text
  pub chunk : ℕ
  pub chunks : ℕ
  pub body : Option Text

pub data Why : Type 0 where
  rejected timeout cancelled_local cancelled_peer too_big empty busy out_of_order bad_frame
        channel :
      Why

pub data Ev : Type 0 where
  accepted : Ev
  tell : Bytes → Ev
  offered : Offer → Ev
  progress : ℕ → ℕ → Ev
  done : Ev
  failed : Why → Ev

unfoldable pub u32 : ℕ → Bytes
u32 v = be 4 v

unfoldable pub read_u32 : Bytes → ℕ → ℕ
read_u32 b at_ = read_be (take 4 (drop at_ b))

unfoldable pub frame : ℕ → ℕ → Bytes → Bytes
unfolding u32
frame sub id rest = ctrl ∷ sub ∷ u32 id ++ rest

unfoldable pub is_xfer : Bytes → Bool
is_xfer b =
    leb 6 (length b)
    && (get_or b 0 0 == ctrl)
    && leb t_offer (get_or b 1 0)
    && leb (get_or b 1 0) t_done

-- The fields of the JSON object of an offer. In one that was parsed, `name` and `mime` are none for
-- null or a missing field, a number is none if it is no non-negative integer, and `body` is none if
-- it is no string.
pub record OfferJson : Type 0 where
  pub name : Option Text
  pub size : Option ℕ
  pub mime : Option Text
  pub chunk : Option ℕ
  pub chunks : Option ℕ
  pub body : Option Text

pub record JsonCodec : Type 0 where
  pub stringify : OfferJson → Bytes
  pub parse : Bytes → Option OfferJson

-- `...(o.body ? { body: o.body } : {})`: an empty note is left out.
unfoldable pub non_empty : Option Text → Option Text
non_empty none = none
non_empty (some []) = none
non_empty (some (c ∷ t)) = some (c ∷ t)

unfoldable pub text_or : Option Text → Text → Text
text_or none d = d
text_or (some t) d = t

unfoldable pub encode_reject : ℕ → Bytes
encode_reject id = frame t_reject id []

unfoldable pub clamp_name : Text → Text
clamp_name s = take 200 s

-- "application/octet-stream"
abbrev pub octet_stream : Text
octet_stream =
    97 ∷ 112 ∷ 112 ∷ 108 ∷ 105 ∷ 99 ∷ 97 ∷ 116 ∷ 105 ∷ 111 ∷ 110 ∷ 47 ∷ 111 ∷ 99 ∷ 116 ∷ 101 ∷ 116
    ∷ 45 ∷ 115 ∷ 116 ∷ 114 ∷ 101 ∷ 97 ∷ 109 ∷ []

unfoldable pub clamp_mime : Text → Text
clamp_mime [] = octet_stream
clamp_mime (c ∷ s) = take 100 (c ∷ s)

-- `o.chunk !== CHUNK || o.chunks !== Math.max(1, Math.ceil(o.size / CHUNK))`
same_geometry : ℕ → Option ℕ → Option ℕ → Bool
same_geometry size (some chunk) (some chunks) = (chunk == chunk_size) && (chunks == chunks_of size)
same_geometry size _ _ = false

-- The offer that a parsed object stands for, or nothing where its geometry is not ours.
offer_of_json : ℕ → OfferJson → Option Offer
unfolding same_geometry text_or non_empty
offer_of_json id j = elim j.size [
  | none ↦ none
  | some size ↦
      if same_geometry size j.chunk j.chunks
      then some (record {
        id = id;
        name = take 200 (text_or j.name []);
        size = size;
        mime = take 100 (text_or j.mime octet_stream);
        chunk = chunk_size;
        chunks = chunks_of size;
        body = Option.map (take max_offer_body) (non_empty j.body);
      })
      else none
]

unfoldable pub encode_chunk : ℕ → ℕ → Bytes → Bytes
unfolding u32
encode_chunk id index body = ctrl ∷ t_chunk ∷ u32 id ++ (u32 index ++ body)

module _ (json : JsonCodec) where
  unfoldable pub encode_offer : Offer → Bytes
  unfolding non_empty
  encode_offer o = frame t_offer o.id (
      json.stringify (record {
        name = some o.name;
        size = some o.size;
        mime = some o.mime;
        chunk = some o.chunk;
        chunks = some o.chunks;
        body = non_empty o.body;
      }))

  unfoldable pub decode_offer : Bytes → Option Offer
  unfolding offer_of_json
  decode_offer b =
      if not (is_xfer b) || not (get_or b 1 0 == t_offer)
      then none
      else if ltb max_offer_body (length b - 6)
      then none
      else Option.bind (json.parse (drop 6 b)) (offer_of_json (read_u32 b 2))
