-- ===== src/GroupManager.antt =====
-- impl/lib/group.ts, the class GroupManager: all groups of an identity, and what it makes of a sender
-- key distribution. A MAC key of the roster is computed where the source keeps it in a memo; markers
-- on a device and the labels of keys there are left out.
pub mod Advance
pub mod Joining
pub mod Snapshot
mod Tests
use encedo_chat.Prelude.{
  ltb, leb, if◌then◌else◌, Bytes, ◌>>=◌, ◌>>◌, guard, Result, ℕ, ◌+◌, ◌≡◌, Bool, true, false, not,
  ◌||◌, Option, none, some, List, [], ◌∷◌, ◌++◌, ok, err,
}
use encedo_chat.Crypto.{Crypto}
use encedo_chat.JsMap.{lookup, set, delete, bytes_eq, bytes_beq}
use encedo_chat.Senderkey.{SendChain, SenderReceiver, receiver_from, max_skip, skipped_ttl_ms}
use encedo_chat.Wc.{codes, kdf, concat}
use encedo_chat.Group.{
  GroupId, Member, GroupSession, Event, mac_ctx, derive_with, group_id_from_gk, create,
}
use encedo_chat.Group.Keys.{set_sender_key}

-- `b64` and `unb64`, over the platform's `btoa` and `atob`
pub record Base64 : Type 0 where
  pub b64 : Bytes → Bytes
  pub unb64 : Bytes → Bytes

-- What was encoded is decoded, and the empty text is of no bytes.
pub record IsBase64 (t : Base64) : Type 0 where
  pub back : (x : Bytes) → t.unb64 (t.b64 x) ≡ x
  pub empty : t.unb64 [] ≡ []

-- A text that the source tests for being there: an empty one counts as missing.
abbrev pub present : Option Bytes → Option Bytes
present none = none
present (some []) = none
present (some (x ∷ xs)) = some (x ∷ xs)

abbrev pub roster_mac_label : Bytes
roster_mac_label = codes "encedo-chat-group-roster-mac"

-- The member public keys in order, joined by newlines.
unfoldable pub roster_bytes : List Bytes → Bytes
roster_bytes [] = []
roster_bytes (p ∷ []) = p
roster_bytes (p ∷ q ∷ roster) = p ++ (10 ∷ roster_bytes (q ∷ roster))

-- The admin's half of a group key: raw ECDH, and the backend's derivation (label, peer, context,
-- length) where it has one; a key id on a device, or the private key itself.
pub record AdminGk : Type 0 where
  pub dh : Bytes → Bytes
  pub derive : Option (Bytes → Bytes → Bytes → ℕ → Bytes)
  pub kid : Option Bytes
  pub priv : Option Bytes

pub record GroupRec : Type 0 where
  pub session : GroupSession
  pub gk_pub : Bytes
  pub secret : Bytes
  pub roster : List Member
  pub epoch : ℕ
  pub gk : Option AdminGk
  pub member_gk_kid : Option Bytes

pub record GroupManager : Type 0 where
  pub id : GroupId
  pub recs : List (Bytes × GroupRec)

-- A sender key distribution; byte strings travel as base64.
pub record SkdFields : Type 0 where
  pub gid : Bytes
  pub gk_pub : Bytes
  pub epoch : ℕ
  pub secret : Bytes
  pub chain : Bytes
  pub ctr : Option ℕ
  pub roster : List Bytes
  pub rmac : Option Bytes

pub data SkdOutcome : Type 0 where
  joined rekeyed senderkey refused stale : SkdOutcome

pub data SkdError : Type 0 where
  gid_mismatch no_roster_mac bad_roster_mac sender_not_admin admin_changed : SkdError

-- The material that `admit` takes.
pub record Material : Type 0 where
  pub gid : Bytes
  pub gk_pub : Bytes
  pub epoch : ℕ
  pub secret : Bytes
  pub roster : List Member
  pub gk : Option AdminGk

pub record Applied : Type 0 where
  pub manager : GroupManager
  pub outcome : Result SkdError SkdOutcome
  pub events : List Event

abbrev pub pubs_of : List Member → List Bytes
pubs_of [] = []
pubs_of (m ∷ ms) = m.pub_ ∷ pubs_of ms

-- `roster.map((pub) => ({ pub }))`
abbrev pub as_members : List Bytes → List Member
as_members [] = []
as_members (p ∷ ps) = record { pub_ = p; kid = none } ∷ as_members ps

unfoldable pub is_listed : Bytes → List Member → Bool
is_listed p [] = false
is_listed p (m ∷ ms) = bytes_beq m.pub_ p || is_listed p ms

-- `roster[0]?.pub`
abbrev pub first : List Bytes → Option Bytes
first [] = none
first (p ∷ ps) = some p

abbrev pub same_first : Option Bytes → Option Bytes → Bool
same_first none none = true
same_first none (some q) = false
same_first (some p) none = false
same_first (some p) (some q) = bytes_beq p q

abbrev pub or_first : Option AdminGk → Option AdminGk → Option AdminGk
or_first none b = b
or_first (some a) b = some a

unfoldable pub roster : GroupManager → Bytes → List Bytes
roster m gid = elim (lookup gid m.recs) [ none ↦ [] | some r ↦ pubs_of r.roster ]

unfoldable pub is_member : GroupManager → Bytes → Bytes → Bool
is_member m gid p = elim (lookup gid m.recs) [ none ↦ false | some r ↦ is_listed p r.roster ]

unfoldable pub drop_group : GroupManager → Bytes → GroupManager
drop_group m gid = record m { recs = delete gid m.recs }

module _ (c : Crypto) (t : Base64) where
  unfoldable pub roster_mac : Bytes → List Bytes → Bytes
  roster_mac rk roster = c.hmac rk (roster_bytes roster)

  unfoldable pub verify_roster_mac : Bytes → List Bytes → Bytes → Bool
  verify_roster_mac rk roster mac = bytes_beq (roster_mac rk roster) mac

  unfoldable pub roster_mac_key_for : GroupId → Bytes → Bytes → ℕ → Bytes
  roster_mac_key_for id gk_pub gid epoch =
      derive_with c t.unb64 id roster_mac_label gk_pub (mac_ctx gid epoch) 32 none

  -- The admin's side of it.
  unfoldable pub roster_key_for : AdminGk → Bytes → Bytes → ℕ → Bytes
  roster_key_for gk member_pub gid epoch = elim gk.derive [
    | some derive ↦ derive roster_mac_label (t.unb64 member_pub) (mac_ctx gid epoch) 32
    | none ↦ kdf c roster_mac_label (gk.dh (t.unb64 member_pub)) (mac_ctx gid epoch) 32
  ]

  -- The record of a group that `admit` puts in place of the one held, with a fresh sending key.
  unfoldable pub new_rec : GroupManager → Material → Bytes → Option GroupRec → GroupRec
  new_rec m x send_key cur = record {
    session =
        create c t.unb64 m.id x.gid x.epoch x.secret x.roster send_key max_skip skipped_ttl_ms;
    gk_pub = x.gk_pub;
    secret = x.secret;
    roster = x.roster;
    epoch = x.epoch;
    gk = or_first x.gk (elim cur [ none ↦ none | some r ↦ r.gk ]);
    member_gk_kid = elim cur [ none ↦ none | some r ↦ r.member_gk_kid ];
  }

  unfoldable pub put_rec : GroupManager → Material → Bytes → Option GroupRec → GroupManager
  put_rec m x send_key cur = record m { recs = set x.gid (new_rec m x send_key cur) m.recs }

  unfoldable pub admit : GroupManager → Material → Bytes → GroupManager
  admit m x send_key = elim (lookup x.gid m.recs) [
    | none ↦ put_rec m x send_key none
    | some cur ↦ if leb x.epoch cur.epoch then m else put_rec m x send_key (some cur)
  ]

  -- `session.setSenderKey`: the session is the one its record holds.
  unfoldable pub give_key : GroupManager → ℕ → Bytes → Bytes → Bytes → ℕ → GroupManager × List Event
  give_key m now gid from chain ctr = elim (lookup gid m.recs) [
    | none ↦ (m, [])
    | some r ↦
        let (session, events) = set_sender_key c t.unb64 r.session now from chain ctr in
        (record m { recs = set gid (record r { session = session }) m.recs }, events)
  ]

  unfoldable pub given : Option Bytes → Result SkdError Bytes
  given none = err no_roster_mac
  given (some mac) = ok mac

  abbrev pub proves_roster : GroupManager → SkdFields → Bytes → Bool
  proves_roster m skd mac =
      verify_roster_mac (roster_mac_key_for m.id skd.gk_pub (t.unb64 skd.gid) skd.epoch) skd.roster
        (t.unb64 mac)

  abbrev pub keeps_admin : Option GroupRec → SkdFields → Bool
  keeps_admin none skd = true
  keeps_admin (some r) skd = same_first (first (pubs_of r.roster)) (first skd.roster)

  -- What a distribution must prove before it may advance a group.
  unfoldable pub check_advance :
      GroupManager → Option GroupRec → Bytes → SkdFields → Result SkdError (Unit {0})
  check_advance m cur from skd = do
    guard (bytes_beq (t.unb64 skd.gid) (group_id_from_gk c t.unb64 (t.unb64 skd.gk_pub)))
        gid_mismatch
    mac ← given (present skd.rmac)
    guard (proves_roster m skd mac) bad_roster_mac
    guard (same_first (first skd.roster) (some from)) sender_not_admin
    guard (keeps_admin cur skd) admin_changed
    ok tt

  -- `skd.ctr ?? 0`
  abbrev pub ctr_of : SkdFields → ℕ
  ctr_of skd = elim skd.ctr [ none ↦ 0 | some n ↦ n ]

  abbrev pub material_of : SkdFields → Material
  material_of skd = record {
    gid = t.unb64 skd.gid;
    gk_pub = t.unb64 skd.gk_pub;
    epoch = skd.epoch;
    secret = t.unb64 skd.secret;
    roster = as_members skd.roster;
    gk = none;
  }

  unfoldable pub advance :
      GroupManager → ℕ → Bytes → Option GroupRec → SkdOutcome → Bytes → SkdFields → Applied
  advance m now send_key cur outcome from skd = elim (check_advance m cur from skd) [
    | err e ↦ record { manager = m; outcome = err e; events = [] }
    | ok _ ↦
        let admitted = admit m (material_of skd) send_key in
        let (behind, events) =
          give_key admitted now (t.unb64 skd.gid) from (t.unb64 skd.chain) (ctr_of skd) in
        record { manager = behind; outcome = ok outcome; events = events }
  ]

  -- A distribution of the epoch we are in: a member hands over its chain.
  unfoldable pub same_epoch : GroupManager → ℕ → GroupRec → Bytes → SkdFields → Applied
  same_epoch m now cur from skd =
      if is_listed from cur.roster
      then (let (behind, events) =
            give_key m now (t.unb64 skd.gid) from (t.unb64 skd.chain) (ctr_of skd) in
          record { manager = behind; outcome = ok senderkey; events = events })
      else record { manager = m; outcome = ok refused; events = [] }

  unfoldable pub apply_skd : GroupManager → ℕ → Bytes → Bytes → SkdFields → Applied
  apply_skd m now send_key from skd = elim (lookup (t.unb64 skd.gid) m.recs) [
    | none ↦ advance m now send_key none joined from skd
    | some cur ↦
        if ltb cur.epoch skd.epoch
        then advance m now send_key (some cur) rekeyed from skd
        else if ltb skd.epoch cur.epoch
        then record { manager = m; outcome = ok stale; events = [] }
        else same_epoch m now cur from skd
  ]

  unfoldable pub create_group :
      GroupManager → Bytes → List Member → Option AdminGk → Bytes → Bytes → GroupManager × Bytes
  create_group m gk_pub members gk secret send_key =
      let gid = group_id_from_gk c t.unb64 gk_pub in
      (
        admit m
            (record {
              gid = gid;
              gk_pub = gk_pub;
              epoch = 0;
              secret = secret;
              roster = members;
              gk = gk;
            })
            send_key,
        gid,
      )

  unfoldable pub rekey : GroupManager → Bytes → List Member → Bytes → Bytes → GroupManager
  rekey m gid members secret send_key = elim (lookup gid m.recs) [
    | none ↦ m
    | some r ↦
        admit m
          (record {
            gid = r.session.gid;
            gk_pub = r.gk_pub;
            epoch = r.epoch + 1;
            secret = secret;
            roster = members;
            gk = none;
          })
          send_key
  ]

  -- The distribution for a member, with its MAC of the roster where we are the admin.
  unfoldable pub skd_of : GroupRec → Option Bytes → SkdFields
  skd_of r mac = record {
    gid = t.b64 r.session.gid;
    gk_pub = t.b64 r.gk_pub;
    epoch = r.epoch;
    secret = t.b64 r.secret;
    chain = t.b64 r.session.send_.key;
    ctr = some r.session.send_.n;
    roster = pubs_of r.roster;
    rmac = mac;
  }

  unfoldable pub rmac_for : GroupRec → Bytes → Option Bytes
  rmac_for r p = elim r.gk [
    | none ↦ none
    | some gk ↦
        some (t.b64 (roster_mac (roster_key_for gk p r.session.gid r.epoch) (pubs_of r.roster)))
  ]

  unfoldable pub skd_for : GroupManager → Bytes → Option Bytes → Option SkdFields
  skd_for m gid for_pub = elim (lookup gid m.recs) [
    | none ↦ none
    | some r ↦ elim (present for_pub) [
      | none ↦ some (skd_of r none)
      | some p ↦ if not (is_listed p r.roster) then none else some (skd_of r (rmac_for r p))
    ]
  ]

  -- `deleteGroup`: the admin first locks every member out, then the group is forgotten.
  unfoldable pub delete_group : GroupManager → Bytes → Bytes → Bytes → GroupManager
  delete_group m gid secret send_key = elim (lookup gid m.recs) [
    | none ↦ m
    | some r ↦ elim r.gk [
      | none ↦ drop_group m gid
      | some gk ↦
          drop_group (rekey m gid (record { pub_ = m.id.pub_; kid = none } ∷ []) secret send_key)
            gid
    ]
  ]
