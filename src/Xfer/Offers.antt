-- ===== src/Xfer/Offers.antt =====
-- The offer frame, and what the receiver makes of it.
use encedo_chat.Prelude.{
  ltb, ◌==◌, ltb-eq-false_of_le, ==_iff, length, take, take_all, Bytes, ◌+◌, ◌-◌, ◌^◌, ◌≤◌, ◌<◌,
  ◌≡◌, refl, sym, ap, true, false, Option, none, some, [], ◌∷◌, arith,
}
use mathlib.Core.Option
use encedo_chat.Xfer.Frames.{is_xfer-frame, read_id-frame, subtype-frame, payload-frame}
use encedo_chat.Xfer.{
  encode_offer, decode_offer, frame, t_offer, is_xfer, Text, Offer, OfferJson, JsonCodec,
  chunk_size, chunks_of, max_offer_body, t_offer, non_empty, offer_of_json, encode_offer,
  decode_offer, frame, is_xfer,
}
use encedo_chat.Xfer.Frames.{is_xfer-frame, read_id-frame, subtype-frame, payload-frame}

-- What `JSON.parse` and `JSON.stringify` promise: an object comes back as it was.
abbrev pub IsFaithful : JsonCodec → Type 0
IsFaithful json = (j : OfferJson) → json.parse (json.stringify j) ≡ some j

-- The note of an offer, if there is one, is not empty and within the bound.
abbrev pub IsNote : Option Text → Type 0
IsNote none = Unit {0}
IsNote (some t) = (0 < length t) × (length t ≤ max_offer_body)

-- An offer as `createSender` makes it.
pub record IsOffer (o : Offer) : Type 0 where
  pub id : o.id < 2 ^ 32
  pub name : length o.name ≤ 200
  pub mime : length o.mime ≤ 100
  pub chunk : o.chunk ≡ chunk_size
  pub chunks : o.chunks ≡ chunks_of o.size
  pub body : IsNote o.body

note_kept :
    (body : Option Text)
    → IsNote body
    → Option.map (take max_offer_body) (non_empty (non_empty body)) ≡ body
unfolding non_empty
note_kept none h = refl
note_kept (some []) h = absurd (omega arith)
note_kept (some (c ∷ t)) h = ap some (take_all max_offer_body (c ∷ t) h.1)

offer_of_json_lem :
    (o : Offer)
    → IsOffer o
    → offer_of_json o.id (record {
      name = some o.name;
      size = some o.size;
      mime = some o.mime;
      chunk = some o.chunk;
      chunks = some o.chunks;
      body = non_empty o.body;
    })
      ≡ some o
unfolding offer_of_json
offer_of_json_lem o v =
    let c : (o.chunk == chunk_size) ≡ true = (==_iff o.chunk chunk_size).1 v.chunk in
    let n : (o.chunks == chunks_of o.size) ≡ true =
      (==_iff o.chunks (chunks_of o.size)).1 v.chunks in
    rw
      (
        c,
        n,
        take_all 200 o.name v.name,
        take_all 100 o.mime v.mime,
        note_kept o.body v.body,
        ← v.chunks,
      )
      (λ i. some (record o { chunk = sym v.chunk i }))

-- An offer that `createSender` can make, its JSON within the ceiling of 4096 bytes, is read by the
-- receiver as it was made, under any JSON codec that gives an object back as it was.
pub decode_offer-encode_offer :
    (json : JsonCodec) (o : Offer)
    → IsFaithful json
    → IsOffer o
    → length (encode_offer json o) ≤ 6 + max_offer_body
    → decode_offer json (encode_offer json o) ≡ some o
unfolding Option.bind
decode_offer-encode_offer json o faithful v fits =
    unfold encode_offer decode_offer in
    (let j : OfferJson = record {
      name = some o.name;
      size = some o.size;
      mime = some o.mime;
      chunk = some o.chunk;
      chunks = some o.chunks;
      body = non_empty o.body;
    } in
      let b : Bytes = frame t_offer o.id (json.stringify j) in
      let ours : is_xfer b ≡ true =
        is_xfer-frame t_offer o.id (json.stringify j) (omega arith) (omega arith) in
      let small : ltb max_offer_body (length b - 6) ≡ false =
        ltb-eq-false_of_le max_offer_body (length b - 6) (omega arith) in
      rw
        (
          ours,
          subtype-frame t_offer o.id (json.stringify j),
          small,
          payload-frame t_offer o.id (json.stringify j),
          faithful j,
          read_id-frame t_offer o.id (json.stringify j) v.id,
        )
        (offer_of_json_lem o v))
