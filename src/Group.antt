-- ===== src/Group.antt =====
-- impl/lib/group.ts and impl/lib/derive.ts: one member's session of a group at one epoch, and the
-- frames that it broadcasts. Public keys and ids of keys are base64 texts, a map keyed by the hex
-- of an id is keyed by the id. The memos of sender ids and MAC keys are not kept: what they hold
-- is computed.
pub mod Wire
pub mod Records
pub mod Delivery
pub mod Talk
pub mod Keys
pub mod Verified
pub mod Holding
mod Tests
use encedo_chat.Prelude.{
  ltb, ◌==◌, if◌then◌else◌, length, take, drop, get_or, Bytes, be, read_be, ℕ, zero, suc, ◌+◌, ◌-◌,
  ◌*◌, ◌%◌, ◌^◌, not, ◌||◌, Option, none, some, List, [], ◌∷◌, ◌++◌,
}
use encedo_chat.Crypto.{Crypto}
use encedo_chat.JsMap.{lookup, set, delete, bytes_eq, bytes_beq}
use encedo_chat.Ratchet.State.{Outcome, null, opened, over_bound}
use encedo_chat.Senderkey.{
  SendChain, SenderReceiver, send_chain_from, receiver_from, tag, verify, seal, open_text,
}
use encedo_chat.Wc.{codes, kdf, concat}

-- `Derive`: label, peer, context, length and the peer's key id
abbrev pub Derive : Type 0
Derive = Bytes → Bytes → Bytes → ℕ → Option Bytes → Bytes

-- What an identity backend offers: raw ECDH with a peer's key, and its own derivation where it has one.
pub record GroupId : Type 0 where
  pub pub_ : Bytes
  pub ecdh : Bytes → Option Bytes → Bytes
  pub derive : Option Derive

pub record Member : Type 0 where
  pub pub_ : Bytes
  pub kid : Option Bytes

abbrev pub msg_mac_label : Bytes
msg_mac_label = codes "encedo-group-msg-mac"

abbrev pub t_gmsg : ℕ
t_gmsg = 0x20

abbrev pub version : ℕ
version = 3

abbrev pub hdr_len : ℕ
hdr_len = 16 + 8 + 4 + 4

abbrev pub rec_len : ℕ
rec_len = 8 + 32

abbrev pub hold_max : ℕ
hold_max = 32

abbrev pub hold_ms : ℕ
hold_ms = 120_000

-- `setUint32` keeps the low 32 bits.
abbrev pub epoch_bytes : ℕ → Bytes
epoch_bytes epoch = be 4 (epoch % 2 ^ 32)

abbrev pub mac_ctx : Bytes → ℕ → Bytes
mac_ctx gid epoch = concat (gid ∷ epoch_bytes epoch ∷ [])

pub record Header : Type 0 where
  pub gid : Bytes
  pub sender_id : Bytes
  pub epoch : ℕ
  pub ctr : ℕ

-- Of the fields' sizes: a group id of 16 bytes, a sender id of 8.
unfoldable pub encode_header : Header → Bytes
encode_header h = concat (h.gid ∷ h.sender_id ∷ epoch_bytes h.epoch ∷ be 4 (h.ctr % 2 ^ 32) ∷ [])

unfoldable pub decode_header : Bytes → Header
decode_header b = record {
  gid = take 16 b;
  sender_id = take 8 (drop 16 b);
  epoch = read_be (take 4 (drop 24 b));
  ctr = read_be (take 4 (drop 28 b));
}

-- The records of recipients: `macs.set(hex(id), mac)` for each, and the bytes behind them.
unfoldable pub read_macs : ℕ → Bytes → List (Bytes × Bytes) → List (Bytes × Bytes) × Bytes
read_macs zero b macs = (macs, b)
read_macs (suc n) b macs = read_macs n (drop rec_len b) (set (take 8 b) (take 32 (drop 8 b)) macs)

pub record Held : Type 0 where
  pub frame : Bytes
  pub at_ : ℕ

pub record GroupSession : Type 0 where
  pub id : GroupId
  pub gid : Bytes
  pub epoch : ℕ
  pub group_secret : Bytes
  pub send_ : SendChain
  pub receivers : List (Bytes × SenderReceiver)
  pub held : List (Bytes × List Held)
  pub members : List Member
  pub by_id : List (Bytes × Member)
  pub my_sender_id : Bytes
  pub max_skip : ℕ
  pub ttl_ms : ℕ

-- What a session tells the room: it needs a member's key, or a held frame opened.
pub data Event : Type 0 where
  need_sender_key : Bytes → Event
  held_opened : Bytes → Bytes → Event

-- `receive`: the session and the chain used behind the frame, the sender and the text, and the events.
pub record Received : Type 0 where
  pub session : GroupSession
  pub use_ : Option SenderReceiver
  pub result : Option (Bytes × Bytes)
  pub events : List Event

abbrev pub nothing : GroupSession → Option SenderReceiver → Received
nothing s use_ = record { session = s; use_ = use_; result = none; events = [] }

-- The last entries of a list.
abbrev pub take_last {ℓ} : {A : Type ℓ} → ℕ → List A → List A
take_last n xs = drop (length xs - n) xs

abbrev pub or_empty {ℓ} : {A : Type ℓ} → Option (List A) → List A
or_empty none = []
or_empty (some xs) = xs

abbrev pub find_member : Bytes → List Member → Option Member
find_member pub_ [] = none
find_member pub_ (m ∷ ms) = if bytes_beq m.pub_ pub_ then some m else find_member pub_ ms

abbrev pub kid_of : Option Member → Option Bytes
kid_of none = none
kid_of (some m) = m.kid

-- The held frames that are not too old.
unfoldable pub recent : ℕ → List Held → List Held
recent now [] = []
recent now (h ∷ hs) =
    let rest = recent now hs in if ltb (now - h.at_) hold_ms then h ∷ rest else rest

module _ (c : Crypto) (unb64 : Bytes → Bytes) where
  unfoldable pub derive_with : GroupId → Bytes → Bytes → Bytes → ℕ → Option Bytes → Bytes
  derive_with id label peer ctx len kid = elim id.derive [
    | some derive ↦ derive label peer ctx len kid
    | none ↦ kdf c label (id.ecdh peer kid) ctx len
  ]

  unfoldable pub group_id_from_gk : Bytes → Bytes
  group_id_from_gk gk_pub = take 16 (c.sha256 gk_pub)

  unfoldable pub sender_id_of : Bytes → Bytes
  sender_id_of pub_ = take 8 (c.sha256 (unb64 pub_))

  unfoldable pub msg_mac_key_for : GroupId → Bytes → Bytes → ℕ → Option Bytes → Bytes
  msg_mac_key_for id member_pub gid epoch kid =
      derive_with id msg_mac_label member_pub (mac_ctx gid epoch) 32 kid

  unfoldable pub mac_key_for : GroupSession → Bytes → Bytes
  mac_key_for s member_pub =
      msg_mac_key_for s.id member_pub s.gid s.epoch (kid_of (find_member member_pub s.members))

  unfoldable pub index_members : List Member → List (Bytes × Member) → List (Bytes × Member)
  index_members [] by_id = by_id
  index_members (m ∷ ms) by_id = index_members ms (set (sender_id_of m.pub_) m by_id)

  unfoldable pub set_members : GroupSession → List Member → GroupSession
  set_members s members = record s { members = members; by_id = index_members members [] }

  -- `GroupSession.create`, of a given sending key
  unfoldable pub create : GroupId → Bytes → ℕ → Bytes → List Member → Bytes → ℕ → ℕ → GroupSession
  create id gid epoch group_secret members send_key most ttl =
      set_members
        (record {
          id = id;
          gid = gid;
          epoch = epoch;
          group_secret = group_secret;
          send_ = send_chain_from send_key;
          receivers = [];
          held = [];
          members = [];
          by_id = [];
          my_sender_id = sender_id_of id.pub_;
          max_skip = most;
          ttl_ms = ttl;
        })
        members

  -- The recipients' records, one for each member but ourselves.
  unfoldable pub mac_records : GroupSession → Bytes → Bytes → List Member → List Bytes
  mac_records s header ct [] = []
  mac_records s header ct (m ∷ ms) =
      let rest = mac_records s header ct ms in
      if bytes_beq m.pub_ s.id.pub_
      then rest
      else concat (sender_id_of m.pub_ ∷ tag c (mac_key_for s m.pub_) header ct ∷ []) ∷ rest

  -- The count of records is one byte, of their number's low 8 bits.
  unfoldable pub send : GroupSession → Bytes → GroupSession × Bytes
  send s plaintext =
      let header : Bytes =
        encode_header
          (record { gid = s.gid; sender_id = s.my_sender_id; epoch = s.epoch; ctr = s.send_.n }) in
      let (chain, (n, ct)) = seal c s.send_ header plaintext in
      let recips = mac_records s header ct s.members in
      (
        record s { send_ = chain },
        concat (
            (t_gmsg ∷ version ∷ [])
            ∷ header
            ∷ (length recips % 256 ∷ [])
            ∷ concat recips
            ∷ ct
            ∷ []),
      )

  -- A verified frame whose sender's key has not come: it is held, and the key asked for.
  unfoldable pub hold : GroupSession → ℕ → Bytes → Bytes → GroupSession
  hold s now frame from =
      let q = take_last (hold_max - 1) (recent now (or_empty (lookup from s.held))) in
      record s { held = set from (q ++ (record { frame = frame; at_ = now } ∷ [])) s.held }

  -- The chain behind an opened frame, in its place: the one given, or the session's.
  unfoldable pub keep_chain :
      GroupSession
      → Option SenderReceiver
      → Bytes
      → SenderReceiver
      → GroupSession × Option SenderReceiver
  keep_chain s none from r = (record s { receivers = set from r s.receivers }, none)
  keep_chain s (some u) from r = (s, some r)

  unfoldable pub chain_for : GroupSession → Option SenderReceiver → Bytes → Option SenderReceiver
  chain_for s none from = lookup from s.receivers
  chain_for s (some u) from = some u

  unfoldable pub answer :
      GroupSession → Option SenderReceiver → Bytes → SenderReceiver × Outcome → Received
  answer s use_ from (r, outcome) =
      let (behind, used) = keep_chain s use_ from r in
      elim outcome [
        | null ↦ nothing behind used
        | opened pt ↦ record {
          session = behind;
          use_ = used;
          result = some (from, pt);
          events = [];
        }
        | over_bound ↦ record {
          session = behind;
          use_ = used;
          result = none;
          events = need_sender_key from ∷ [];
        }
      ]

  -- A frame whose MAC verified.
  unfoldable pub open_verified :
      GroupSession → ℕ → Bytes → Option SenderReceiver → Bytes → Bytes → Bytes → Received
  open_verified s now frame use_ from header ct = elim (chain_for s use_ from) [
    | none ↦ record {
      session = hold s now frame from;
      use_ = use_;
      result = none;
      events = need_sender_key from ∷ [];
    }
    | some r ↦ answer s use_ from (open_text c r now (decode_header header).ctr header ct)
  ]

  -- From the sender to our own record's MAC, which is verified before anything is opened.
  unfoldable pub check_mac :
      GroupSession
      → ℕ
      → Bytes
      → Option SenderReceiver
      → Bytes
      → List (Bytes × Bytes)
      → Bytes
      → Received
  check_mac s now frame use_ header macs ct =
      elim (lookup (decode_header header).sender_id s.by_id) [
        | none ↦ nothing s use_
        | some sender ↦
            if bytes_beq sender.pub_ s.id.pub_
            then nothing s use_
            else elim (lookup s.my_sender_id macs) [
              | none ↦ nothing s use_
              | some mine ↦
                  if verify c (mac_key_for s sender.pub_) header ct mine
                  then open_verified s now frame use_ sender.pub_ header ct
                  else nothing s use_
            ]
      ]

  unfoldable pub receive : GroupSession → ℕ → Bytes → Option SenderReceiver → Received
  receive s now frame use_ =
      if ltb (length frame) (2 + hdr_len + 1)
        || not (get_or frame 0 0 == t_gmsg)
        || not (get_or frame 1 0 == version)
      then nothing s use_
      else (let mac_count = get_or frame (2 + hdr_len) 0 in
          if ltb (length frame) (2 + hdr_len + 1 + mac_count * rec_len)
          then nothing s use_
          else (let (macs, ct) = read_macs mac_count (drop (2 + hdr_len + 1) frame) [] in
              check_mac s now frame use_ (take hdr_len (drop 2 frame)) macs ct))
