-- ===== src/GroupManager/Tests.antt =====
-- Distributions of a group at concrete inputs.
use encedo_chat.Prelude.{
  take, get_or, replicate, Bytes, ◌+◌, ◌≡◌, refl, ◌⊎◌, true, none, some, [], ◌∷◌,
}
use encedo_chat.GroupManager.Snapshot.RoundTrip.{
  AllRestored, restore-snapshot, IsKeyed, IsMap, IsFresh,
}
use encedo_chat.GroupManager.Snapshot.{restore, snapshot}
use encedo_chat.Toy.{toy, toy-IsAead, toy-IsHash}
use encedo_chat.JsMap.{lookup, set, bytes_eq}
use encedo_chat.Group.{GroupId, Member, group_id_from_gk, create, set_members, derive_with}
use encedo_chat.GroupManager.{
  Base64, AdminGk, GroupRec, GroupManager, SkdFields, is_listed, create_group, new_rec, put_rec,
  admit, roster_key_for, roster_mac_key_for, apply_skd, IsBase64,
}
use encedo_chat.GroupManager.Advance.{
  IsLater, IsProved, apply_all, apply_all-IsLater, apply_skd-cases,
}
use encedo_chat.GroupManager.Joining.{AreAdminAndMember, IsHanded, skd_for-joins}

abbrev as_is : Base64
as_is = record { b64 = λ x. x; unb64 = λ x. x }

as_is-IsBase64 : IsBase64 as_is
as_is-IsBase64 = record { back = λ x. refl; empty = refl }

abbrev identity : Bytes → GroupId
identity p = record {
  pub_ = p;
  ecdh = λ peer kid. (get_or p 0 0 + get_or peer 0 0) ∷ [];
  derive = none;
}

abbrev member : Bytes → Member
member p = record { pub_ = p; kid = none }

abbrev alice : Bytes
alice = 1 ∷ []

abbrev bob : Bytes
bob = 2 ∷ 2 ∷ []

abbrev gk_pub : Bytes
gk_pub = 9 ∷ []

abbrev gk : AdminGk
gk = record { dh = λ peer. (9 + get_or peer 0 0) ∷ []; derive = none; kid = none; priv = none }

abbrev gid : Bytes
gid = group_id_from_gk toy as_is.unb64 gk_pub

abbrev empty : Bytes → GroupManager
empty p = record { id = identity p; recs = [] }

abbrev alices : GroupManager
alices =
    (create_group toy as_is (empty alice) gk_pub (member alice ∷ member bob ∷ []) (some gk) (8 ∷ [])
      (5 ∷ [])).0

abbrev made : GroupRec
made =
    new_rec toy as_is (empty alice)
      (record {
        gid = gid;
        gk_pub = gk_pub;
        epoch = 0;
        secret = 8 ∷ [];
        roster = member alice ∷ member bob ∷ [];
        gk = some gk;
      })
      (5 ∷ []) none

parties : AreAdminAndMember toy as_is made gk alice (empty bob)
unfolding new_rec create set_members is_listed roster_key_for roster_mac_key_for derive_with get_or
parties = record {
  holds = refl;
  named = refl;
  heads = refl;
  lists = refl;
  apart = refl;
  bound = refl;
  agree = refl;
}

skd_for-joins_example :
    IsHanded toy as_is toy-IsHash as_is-IsBase64 made gk alice
      (empty bob)
      parties
      toy-IsAead
      alices
      gid
      100
      (6 ∷ [])
unfolding create_group admit put_rec lookup set new_rec create set_members group_id_from_gk take
    replicate
skd_for-joins_example =
    skd_for-joins toy as_is toy-IsHash as_is-IsBase64 made gk alice (empty bob) parties toy-IsAead
      alices gid 100 (6 ∷ []) refl refl

-- A distribution that bears no proof, to the manager that holds the group.
abbrev forged : SkdFields
forged = record {
  gid = gid;
  gk_pub = gk_pub;
  epoch = 7;
  secret = 3 ∷ [];
  chain = 3 ∷ [];
  ctr = none;
  roster = bob ∷ [];
  rmac = none;
}

apply_all-IsLater_example :
    IsLater
      (lookup gid alices.recs)
      (lookup gid (apply_all toy as_is alices ((100, 6 ∷ [], bob, forged) ∷ [])).recs)
apply_all-IsLater_example = apply_all-IsLater toy as_is alices ((100, 6 ∷ [], bob, forged) ∷ []) gid

apply_skd-cases_example :
    ((apply_skd toy as_is alices 100 (6 ∷ []) bob forged).manager ≡ alices)
    ⊎ (IsProved toy as_is alices (lookup gid alices.recs) bob forged
        ⊎ ((cur : GroupRec) × (lookup gid alices.recs ≡ some cur)
            × (7 ≡ cur.epoch)
            × (is_listed bob cur.roster ≡ true)))
apply_skd-cases_example = apply_skd-cases toy as_is alices 100 (6 ∷ []) bob forged

restore-snapshot_example :
    AllRestored alices.recs
      (restore as_is toy none (empty alice) (snapshot as_is alices) (λ gid. 77 ∷ []))
unfolding create_group admit put_rec lookup set new_rec create set_members group_id_from_gk take
    replicate IsKeyed IsMap IsFresh
restore-snapshot_example =
    restore-snapshot as_is as_is-IsBase64 toy none alices (identity alice) (λ gid. 77 ∷ [])
      (refl, tt, tt) (tt, tt)
