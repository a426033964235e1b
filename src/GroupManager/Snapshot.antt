-- ===== src/GroupManager/Snapshot.antt =====
-- impl/lib/group.ts: the groups of a manager as the cache holds them, and as they come back from it.
pub mod RoundTrip
use encedo_chat.Prelude.{Bytes, ℕ, Option, none, some, List, [], ◌∷◌}
use encedo_chat.Wc.{kdf}
use encedo_chat.Crypto.{Crypto}
use encedo_chat.JsMap.{lookup, set, bytes_eq}
use encedo_chat.Senderkey.{SendChain, SenderReceiver, receiver_from}
use encedo_chat.Group.{GroupSession, Member}
use encedo_chat.GroupManager.{Base64, AdminGk, GroupRec, GroupManager, Material, admit, present}

-- A receiving chain's position: its sender, key and number.
pub record Position : Type 0 where
  pub pub_ : Bytes
  pub key : Bytes
  pub n : ℕ

pub record Chains : Type 0 where
  pub send_ : SendChain
  pub receivers : List Position

pub record GroupSnapshot : Type 0 where
  pub gid : Bytes
  pub gk_pub : Bytes
  pub epoch : ℕ
  pub secret : Bytes
  pub roster : List Member
  pub gk_kid : Option Bytes
  pub member_gk_kid : Option Bytes
  pub gk_priv : Option Bytes
  pub chains : Chains

unfoldable pub positions : List (Bytes × SenderReceiver) → List Position
positions [] = []
positions ((p, r) ∷ rs) = record { pub_ = p; key = r.key; n = r.n } ∷ positions rs

unfoldable pub export_chains : GroupSession → Chains
export_chains s = record { send_ = s.send_; receivers = positions s.receivers }

-- `receivers.clear()`, and `receivers.set` for each.
unfoldable pub receivers_of :
    ℕ → ℕ → List Position → List (Bytes × SenderReceiver) → List (Bytes × SenderReceiver)
receivers_of most ttl [] rs = rs
receivers_of most ttl (p ∷ ps) rs =
    receivers_of most ttl ps (set p.pub_ (receiver_from p.key p.n most ttl) rs)

unfoldable pub import_chains : GroupSession → Chains → GroupSession
import_chains s st = record s {
  send_ = st.send_;
  receivers = receivers_of s.max_skip s.ttl_ms st.receivers [];
}

abbrev pub kid_in : Option AdminGk → Option Bytes
kid_in none = none
kid_in (some gk) = gk.kid

module _ (t : Base64) where
  abbrev pub priv_in : Option AdminGk → Option Bytes
  priv_in none = none
  priv_in (some gk) = elim gk.priv [ none ↦ none | some x ↦ some (t.b64 x) ]

  unfoldable pub encode_positions : List Position → List Position
  encode_positions [] = []
  encode_positions (p ∷ ps) = record p { key = t.b64 p.key } ∷ encode_positions ps

  unfoldable pub decode_positions : List Position → List Position
  decode_positions [] = []
  decode_positions (p ∷ ps) = record p { key = t.unb64 p.key } ∷ decode_positions ps

  unfoldable pub encode_chains : Chains → Chains
  encode_chains st = record {
    send_ = record { key = t.b64 st.send_.key; n = st.send_.n };
    receivers = encode_positions st.receivers;
  }

  unfoldable pub decode_chains : Chains → Chains
  decode_chains st = record {
    send_ = record { key = t.unb64 st.send_.key; n = st.send_.n };
    receivers = decode_positions st.receivers;
  }

  unfoldable pub snap : GroupRec → GroupSnapshot
  snap r = record {
    gid = t.b64 r.session.gid;
    gk_pub = t.b64 r.gk_pub;
    epoch = r.epoch;
    secret = t.b64 r.secret;
    roster = r.roster;
    gk_kid = kid_in r.gk;
    member_gk_kid = r.member_gk_kid;
    gk_priv = priv_in r.gk;
    chains = encode_chains (export_chains r.session);
  }

  unfoldable pub snap_all : List (Bytes × GroupRec) → List GroupSnapshot
  snap_all [] = []
  snap_all ((g, r) ∷ rs) = snap r ∷ snap_all rs

  unfoldable pub snapshot : GroupManager → List GroupSnapshot
  snapshot m = snap_all m.recs

  -- `softwareGkFromPriv`: a private key as the admin's capability.
  unfoldable pub software_gk : Crypto → Bytes → AdminGk
  software_gk c priv = record {
    dh = λ peer. c.x25519 priv peer;
    derive =
        some (λ label peer ctx len. kdf c label (c.x25519 priv (t.unb64 (t.b64 peer))) ctx len);
    kid = none;
    priv = some priv;
  }

  -- The backend rebuilds a capability from the id of a key on a device, where there is a backend.
  module _ (c : Crypto) (from_kid : Option (Bytes → AdminGk)) where
    unfoldable pub gk_from : GroupSnapshot → Option AdminGk
    gk_from s = elim (present s.gk_kid) [
      | some kid ↦ elim from_kid [ none ↦ none | some of_kid ↦ some (of_kid kid) ]
      | none ↦ elim (present s.gk_priv) [
        | none ↦ none
        | some priv ↦ some (software_gk c (t.unb64 priv))
      ]
    ]

    unfoldable pub material_from : GroupSnapshot → Material
    material_from s = record {
      gid = t.unb64 s.gid;
      gk_pub = t.unb64 s.gk_pub;
      epoch = s.epoch;
      secret = t.unb64 s.secret;
      roster = s.roster;
      gk = gk_from s;
    }

    abbrev pub or_kid : Option Bytes → Option Bytes → Option Bytes
    or_kid none old = old
    or_kid (some kid) old = some kid

    -- A record with the chains of a snapshot.
    unfoldable pub filled : GroupRec → GroupSnapshot → GroupRec
    filled r s = record r {
      session = import_chains r.session (decode_chains s.chains);
      member_gk_kid = or_kid (present s.member_gk_kid) r.member_gk_kid;
    }

    unfoldable pub fill : GroupManager → Bytes → GroupSnapshot → GroupManager
    fill m gid s = elim (lookup gid m.recs) [
      | none ↦ m
      | some r ↦ record m { recs = set gid (filled r s) m.recs }
    ]

    -- The sending key drawn for a session is replaced by that of the snapshot.
    unfoldable pub restore_one : GroupManager → GroupSnapshot → Bytes → GroupManager
    restore_one m s send_key = fill (admit c t m (material_from s) send_key) (t.unb64 s.gid) s

    unfoldable pub restore : GroupManager → List GroupSnapshot → (Bytes → Bytes) → GroupManager
    restore m [] draw = m
    restore m (s ∷ ss) draw = restore (restore_one m s (draw s.gid)) ss draw
