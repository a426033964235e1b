-- ===== src/Group/Delivery.antt =====
-- A group frame on its way from one member to another.
use encedo_chat.Prelude.{
  ltb, ltb-eq-false_of_le, length, take, drop, get_or, length-append, take_ahead, drop_ahead, Bytes,
  ℕ, ◌+◌, ◌*◌, ◌%◌, ◌^◌, ◌≤◌, ◌<◌, ◌≡◌, refl, sym, ap, ◌∙◌, true, false, Option, none, some, List,
  [], ◌∷◌, ◌++◌, arith,
}
use mathlib.Core.List.{append-nil}
use encedo_chat.Group.Records.{
  IsListed, IsAlone, own_tag, indexed, read_macs-mac_records, length-mac_records, mac_entries,
  length-sender_id_of,
}
use encedo_chat.Group.Wire.{set_all, IsHeader, decode_header-encode_header, length-encode_header}
use encedo_chat.Wc.{concat}
use encedo_chat.Senderkey.InStep.{AreInStep, next_receiver, open_text-AreInStep}
use encedo_chat.Ratchet.State.{opened}
use encedo_chat.Crypto.{Crypto, IsHash, IsAead}
use encedo_chat.JsMap.{bytes_eq, lookup, set, bytes_beq, bytes_beq_iff}
use encedo_chat.Senderkey.{SenderReceiver, tag, verify, seal, open_text}
use encedo_chat.Group.{
  GroupSession, read_macs, receive, check_mac, Member, Received, Header, encode_header,
  decode_header, sender_id_of, index_members, mac_key_for, mac_records, send, open_verified,
  chain_for, answer, keep_chain,
}

get_or_behind : (xs ys : Bytes) (y : ℕ) → get_or (xs ++ (y ∷ ys)) (length xs) 0 ≡ y
unfolding get_or
get_or_behind [] ys y = refl
get_or_behind (x ∷ xs) ys y = get_or_behind xs ys y

verify-tag : (c : Crypto) (k header ct : Bytes) → verify c k header ct (tag c k header ct) ≡ true
unfolding verify
verify-tag c k header ct = (bytes_beq_iff (tag c k header ct) (tag c k header ct)).1 refl

length-cons : (x : ℕ) (xs : Bytes) → length (x ∷ xs) ≡ length xs + 1
length-cons x xs = omega arith

module _ (c : Crypto) (unb64 : Bytes → Bytes) where
  -- A frame of the kind, with a header, a count and the bytes behind it, is read at these.
  receive_frame :
      (r : GroupSession) (now : ℕ) (use_ : Option SenderReceiver) (header body : Bytes) (n : ℕ)
      → length header ≡ 32
      → n * 40 ≤ length body
      → (frame : Bytes) → frame ≡ 0x20 ∷ 3 ∷ (header ++ (n ∷ body))
      → receive c unb64 r now frame use_
        ≡ check_mac c unb64 r now frame use_ header (read_macs n body []).0 (read_macs n body []).1
  unfolding receive get_or drop
  receive_frame r now use_ header body n size room frame e =
      let long : length frame ≡ 35 + length body =
        ap length e ∙ omega (arith, length-append header (n ∷ body), size, length-cons n body) in
      let at_header : drop 2 frame ≡ header ++ (n ∷ body) = ap (drop 2) e in
      let at_count : drop 34 frame ≡ n ∷ body =
        drop_ahead frame header (n ∷ body) 2 32 at_header size in
      let at_body : drop 35 frame ≡ body = drop_ahead frame (n ∷ []) body 34 1 at_count refl in
      let first : take 32 (drop 2 frame) ≡ header =
        take_ahead frame header (n ∷ body) 2 32 at_header size in
      let kind : get_or frame 0 0 ≡ 0x20 = ap (λ b. get_or b 0 0) e in
      let ver : get_or frame 1 0 ≡ 3 = ap (λ b. get_or b 1 0) e in
      let count : get_or frame 34 0 ≡ n =
        ap (λ b. get_or b 34 0) e
        ∙ ap (λ k. get_or (header ++ (n ∷ body)) k 0) (sym size)
        ∙ get_or_behind header body n in
      let whole : ltb (length frame) 35 ≡ false = ground (arith, long) in
      let fits : ltb (length frame) (35 + get_or frame 34 0 * 40) ≡ false =
        ltb-eq-false_of_le (length frame) (35 + get_or frame 34 0 * 40)
          (omega (arith, long, count, room)) in
      rw (whole, kind, ver, fits)
        (λ i.
          check_mac c unb64 r now frame use_ (first i) (read_macs (count i) (at_body i) []).0
            (read_macs (count i) (at_body i) []).1)

  check_mac_passes :
      (r : GroupSession) (now : ℕ) (frame header ct mine : Bytes) (macs : List (Bytes × Bytes))
      (m : Member)
      → lookup (decode_header header).sender_id r.by_id ≡ some m
      → bytes_beq m.pub_ r.id.pub_ ≡ false
      → lookup r.my_sender_id macs ≡ some mine
      → verify c (mac_key_for c unb64 r m.pub_) header ct mine ≡ true
      → check_mac c unb64 r now frame none header macs ct
        ≡ open_verified c unb64 r now frame none m.pub_ header ct
  unfolding check_mac
  check_mac_passes r now frame header ct mine macs m known other own good =
      rw (known, other, own, good, check_mac) refl

  -- The session behind an opened frame: its sender's chain has moved.
  abbrev pub moved : GroupSession → Bytes → SenderReceiver → GroupSession
  moved r from chain = record r { receivers = set from chain r.receivers }

  abbrev pub read_as : GroupSession → Bytes → Bytes → Received
  read_as r from pt = record { session = r; use_ = none; result = some (from, pt); events = [] }

  open_verified_opens :
      (r : GroupSession) (now : ℕ) (frame from header ct pt : Bytes) (chain chain' : SenderReceiver)
      → lookup from r.receivers ≡ some chain
      → open_text c chain now (decode_header header).ctr header ct ≡ (chain', opened pt)
      → open_verified c unb64 r now frame none from header ct
        ≡ read_as (moved r from chain') from pt
  unfolding open_verified chain_for answer keep_chain
  open_verified_opens r now frame from header ct pt chain chain' found opens =
      rw (found, open_verified) (ap (answer c unb64 r none from) opens)

  -- A sender and a recipient of one group: they list each other, no other member has their sender
  -- ids, and the pair's MAC keys agree.
  pub record AreMembers (s r : GroupSession) : Type 0 where
    pub gid : length s.gid ≡ 16
    pub epoch : s.epoch < 2 ^ 32
    pub s_id : s.my_sender_id ≡ sender_id_of c unb64 s.id.pub_
    pub r_id : r.my_sender_id ≡ sender_id_of c unb64 r.id.pub_
    pub apart : bytes_beq s.id.pub_ r.id.pub_ ≡ false
    pub index : r.by_id ≡ index_members c unb64 r.members []
    pub to_listed : IsListed r.id.pub_ s.members
    pub to_alone : IsAlone c unb64 r.id.pub_ s.members
    pub from_listed : IsListed s.id.pub_ r.members
    pub from_alone : IsAlone c unb64 s.id.pub_ r.members
    pub few : length s.members ≤ 255
    pub agree : mac_key_for c unb64 s r.id.pub_ ≡ mac_key_for c unb64 r s.id.pub_

  -- The recipient's copy of the sender's chain is in step with it.
  pub record HasChain (aead : IsAead c) (s r : GroupSession) : Type 0 where
    pub chain : SenderReceiver
    pub found : lookup s.id.pub_ r.receivers ≡ some chain
    pub in_step : AreInStep c aead s.send_ chain

  module _ (hash : IsHash c) (aead : IsAead c) (s r : GroupSession) (pt : Bytes) where
    abbrev header_of : Header
    header_of = record { gid = s.gid; sender_id = s.my_sender_id; epoch = s.epoch; ctr = s.send_.n }

    abbrev text_of : Bytes
    text_of = (seal c s.send_ (encode_header header_of) pt).1.1

    abbrev records_of : List Bytes
    records_of = mac_records c unb64 s (encode_header header_of) text_of s.members

    frame_lem :
        length s.members ≤ 255
        → (send c unb64 s pt).1
          ≡ 0x20
            ∷ 3
            ∷ (encode_header header_of ++ (length records_of ∷ (concat records_of ++ text_of)))
    unfolding send concat
    frame_lem few =
        let header = encode_header header_of in
        let (fewer, _) = length-mac_records c unb64 hash s header text_of s.members in
        let count : length records_of % 256 ≡ length records_of = omega (arith, few, fewer) in
        let end : text_of ++ [] ≡ text_of = append-nil text_of in
        λ i. 0x20 ∷ 3 ∷ (header ++ (count i ∷ (concat records_of ++ end i)))

    module _ (v : AreMembers s r) (w : HasChain aead s r) (small : s.send_.n < 2 ^ 32) where
      header_ok : IsHeader header_of
      header_ok = record {
        gid = v.gid;
        sender_id = ap length v.s_id ∙ length-sender_id_of c unb64 hash s.id.pub_;
        epoch = v.epoch;
        ctr = small;
      }

      receive_sent :
          (now : ℕ)
          → receive c unb64 r now (send c unb64 s pt).1 none
            ≡ check_mac c unb64 r now
                (send c unb64 s pt).1
                none
                (encode_header header_of)
                (set_all
                  (mac_entries c unb64 hash s (encode_header header_of) text_of s.members)
                  [])
                text_of
      receive_sent now =
          let header = encode_header header_of in
          let (_, size) = length-mac_records c unb64 hash s header text_of s.members in
          let room : length records_of * 40 ≤ length (concat records_of ++ text_of) =
            omega (arith, size, length-append (concat records_of) text_of) in
          let macs = read_macs-mac_records c unb64 hash s header text_of s.members text_of [] in
          receive_frame r now none header (concat records_of ++ text_of) (length records_of)
            (length-encode_header header_of header_ok) room _ (frame_lem v.few)
          ∙ ap (λ m. check_mac c unb64 r now (send c unb64 s pt).1 none header m.0 m.1) macs

      -- What the recipient makes of the frame.
      pub receive-send :
          (now : ℕ)
          → receive c unb64 r now (send c unb64 s pt).1 none
            ≡ read_as (moved r s.id.pub_ (next_receiver c aead w.chain now)) s.id.pub_ pt
      receive-send now =
          let header = encode_header header_of in
          let back = decode_header-encode_header header_of header_ok in
          let sender = indexed c unb64 hash s.id.pub_ r.members v.from_listed v.from_alone in
          let is : sender.value.pub_ ≡ s.id.pub_ = sender.good in
          let known : lookup (decode_header header).sender_id r.by_id ≡ some sender.value =
            ap (λ h. lookup h.sender_id r.by_id) back
            ∙ ap (λ id. lookup id r.by_id) v.s_id
            ∙ ap (lookup (sender_id_of c unb64 s.id.pub_)) v.index
            ∙ sender.found in
          let other : bytes_beq sender.value.pub_ r.id.pub_ ≡ false =
            ap (λ p. bytes_beq p r.id.pub_) is ∙ v.apart in
          let own : lookup r.my_sender_id
                (set_all (mac_entries c unb64 hash s header text_of s.members) [])
              ≡ some (tag c (mac_key_for c unb64 s r.id.pub_) header text_of) =
            ap (λ id. lookup id (set_all (mac_entries c unb64 hash s header text_of s.members) []))
              v.r_id
            ∙ own_tag c unb64 hash s header text_of r.id.pub_ v.apart s.members v.to_listed
                v.to_alone in
          let good : verify c (mac_key_for c unb64 r sender.value.pub_) header text_of
                (tag c (mac_key_for c unb64 s r.id.pub_) header text_of)
              ≡ true =
            ap
              (λ k.
                verify c k header text_of (tag c (mac_key_for c unb64 s r.id.pub_) header text_of))
              (ap (mac_key_for c unb64 r) is ∙ sym v.agree)
            ∙ verify-tag c (mac_key_for c unb64 s r.id.pub_) header text_of in
          let opens : open_text c w.chain now (decode_header header).ctr header text_of
              ≡ (next_receiver c aead w.chain now, opened pt) =
            ap (λ h. open_text c w.chain now h.ctr header text_of) back
            ∙ open_text-AreInStep c aead s.send_ w.chain now header pt w.in_step in
          receive_sent now
          ∙ check_mac_passes r now _ header text_of _ _ sender.value known other own good
          ∙ ap (λ p. open_verified c unb64 r now (send c unb64 s pt).1 none p header text_of) is
          ∙ open_verified_opens r now _ s.id.pub_ header text_of pt w.chain _ w.found opens
