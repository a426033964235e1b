-- ===== src/GroupManager/Joining.antt =====
-- The admin's distribution as a member takes it.
use encedo_chat.Prelude.{
  length, Bytes, ℕ, ◌≡◌, refl, sym, ap, ◌∙◌, ◌⊎◌, inl, inr, true, false, none, some, [], ◌∷◌, arith,
  ok,
}
use encedo_chat.GroupManager.Advance.{pubs_of-as_members}
use encedo_chat.Crypto.{Crypto, IsAead, IsHash}
use encedo_chat.JsMap.{lookup, set, lookup-set, bytes_eq, bytes_beq, bytes_beq_iff}
use encedo_chat.Senderkey.{SenderReceiver, receiver_from, max_skip, skipped_ttl_ms}
use encedo_chat.Senderkey.InStep.{AreInStep, AllBelow}
use encedo_chat.Group.{GroupSession, group_id_from_gk, create, set_members}
use encedo_chat.Group.Keys.{set_sender_key, release_if_held, is_behind, has}
use encedo_chat.GroupManager.{
  Base64, IsBase64, AdminGk, GroupRec, GroupManager, SkdFields, Applied, joined, pubs_of,
  as_members, is_listed, first, same_first, given, check_advance, material_of, ctr_of, new_rec,
  put_rec, admit, give_key, advance, apply_skd, skd_for, skd_of, rmac_for, roster_mac,
  verify_roster_mac, roster_mac_key_for, roster_key_for, present, roster_bytes,
}

present_cases : (x : Bytes) → (present (some x) ≡ some x) ⊎ (x ≡ [])
present_cases [] = inr refl
present_cases (y ∷ ys) = inl refl

module _ (c : Crypto) (t : Base64) where
  -- The session of a group that was just admitted, once the sender's key is in.
  abbrev fresh_session : GroupManager → SkdFields → Bytes → Bytes → GroupSession
  fresh_session m skd send_key from =
      let s =
        create c t.unb64 m.id (t.unb64 skd.gid) skd.epoch (t.unb64 skd.secret)
          (as_members skd.roster) send_key max_skip skipped_ttl_ms in
      record s {
        receivers =
            (from, receiver_from (t.unb64 skd.chain) (ctr_of c t skd) max_skip skipped_ttl_ms) ∷ [];
      }

  set_sender_key-create :
      (m : GroupManager) (now : ℕ) (skd : SkdFields) (send_key from : Bytes)
      → bytes_beq from m.id.pub_ ≡ false
      → set_sender_key c t.unb64
          (create c t.unb64 m.id
            (t.unb64 skd.gid)
            skd.epoch
            (t.unb64 skd.secret)
            (as_members skd.roster)
            send_key
            max_skip
            skipped_ttl_ms)
          now
          from
          (t.unb64 skd.chain)
          (ctr_of c t skd)
        ≡ (fresh_session m skd send_key from, [])
  unfolding set_sender_key create set_members release_if_held is_behind has lookup set
  set_sender_key-create m now skd send_key from other = rw other refl

  abbrev fresh_rec : GroupManager → SkdFields → Bytes → Bytes → GroupRec
  fresh_rec m skd send_key from = record {
    session = fresh_session m skd send_key from;
    gk_pub = t.unb64 skd.gk_pub;
    secret = t.unb64 skd.secret;
    roster = as_members skd.roster;
    epoch = skd.epoch;
    gk = none;
    member_gk_kid = none;
  }

  -- A group that was not held is joined by a distribution that proves what it must.
  apply_skd_new :
      (m : GroupManager) (now : ℕ) (send_key from : Bytes) (skd : SkdFields)
      → lookup (t.unb64 skd.gid) m.recs ≡ none
      → check_advance c t m none from skd ≡ ok tt
      → bytes_beq from m.id.pub_ ≡ false
      → ((apply_skd c t m now send_key from skd).outcome ≡ ok joined)
        × (lookup (t.unb64 skd.gid) (apply_skd c t m now send_key from skd).manager.recs
            ≡ some (fresh_rec m skd send_key from))
  apply_skd_new m now send_key from skd e fine other =
      let gid = t.unb64 skd.gid in
      let r = new_rec c t m (material_of c t skd) send_key none in
      let session : set_sender_key c t.unb64 r.session now from (t.unb64 skd.chain) (ctr_of c t skd)
          ≡ (fresh_session m skd send_key from, []) =
        unfold new_rec in set_sender_key-create m now skd send_key from other in
      let recs = set gid r m.recs in
      let self : bytes_beq gid gid ≡ true = (bytes_beq_iff gid gid).1 refl in
      let at_gid : lookup gid recs ≡ some r = lookup-set gid gid r m.recs ∙ rw self refl in
      let admitted : admit c t m (material_of c t skd) send_key ≡ record m { recs = recs } =
        unfold admit put_rec in rw (e, admit) refl in
      let seeded : (record r { session = fresh_session m skd send_key from })
          ≡ fresh_rec m skd send_key from =
        unfold new_rec in refl in
      let given_key : give_key c t (record m { recs = recs }) now gid from (t.unb64 skd.chain)
            (ctr_of c t skd)
          ≡ (record m { recs = set gid (fresh_rec m skd send_key from) recs }, []) =
        unfold give_key in
        rw (at_gid, give_key)
          ((λ i. (
            record m { recs = set gid (record r { session = (session i).0 }) recs },
            (session i).1,
          ))
            ∙ (λ i. (record m { recs = set gid (seeded i) recs }, []))) in
      let whole : apply_skd c t m now send_key from skd ≡ record {
        manager = record m { recs = set gid (fresh_rec m skd send_key from) recs };
        outcome = ok joined;
        events = [];
      } =
        unfold apply_skd advance in
        rw (e, apply_skd)
          (rw (fine, advance)
            ((λ i. record {
              manager =
                  (give_key c t (admitted i) now gid from (t.unb64 skd.chain) (ctr_of c t skd)).0;
              outcome = ok joined;
              events =
                  (give_key c t (admitted i) now gid from (t.unb64 skd.chain) (ctr_of c t skd)).1;
            })
              ∙ (λ i. record {
                manager = (given_key i).0;
                outcome = ok joined;
                events = (given_key i).1;
              }))) in
      (
        ap (λ a. a.outcome) whole,
        ap (λ a. lookup gid a.manager.recs) whole
            ∙ lookup-set gid gid (fresh_rec m skd send_key from) recs
            ∙ rw self refl,
      )

  -- The admin of a group and a member it distributes to: the admin heads the roster and lists the
  -- member, the group id is of its key, and the two sides' MAC keys of the roster agree.
  pub record AreAdminAndMember (r : GroupRec) (gk : AdminGk) (admin : Bytes) (m : GroupManager)
      : Type 0 where
    pub holds : r.gk ≡ some gk
    pub named : present (some m.id.pub_) ≡ some m.id.pub_
    pub heads : first (pubs_of r.roster) ≡ some admin
    pub lists : is_listed m.id.pub_ r.roster ≡ true
    pub apart : bytes_beq admin m.id.pub_ ≡ false
    pub bound : r.session.gid ≡ group_id_from_gk c t.unb64 r.gk_pub
    pub agree :
        roster_key_for c t gk m.id.pub_ r.session.gid r.epoch
        ≡ roster_mac_key_for c t m.id (t.b64 r.gk_pub) r.session.gid r.epoch

  module _ (hash : IsHash c) (code : IsBase64 t) (r : GroupRec) (gk : AdminGk) (admin : Bytes)
      (m : GroupManager) (v : AreAdminAndMember r gk admin m) where
    abbrev mac_bytes : Bytes
    mac_bytes =
        roster_mac c t (roster_key_for c t gk m.id.pub_ r.session.gid r.epoch) (pubs_of r.roster)

    mac_size : length mac_bytes ≡ 32
    unfolding roster_mac
    mac_size =
        hash.hmac_size (roster_key_for c t gk m.id.pub_ r.session.gid r.epoch)
          (roster_bytes (pubs_of r.roster))

    -- The base64 of a MAC is not empty.
    mac_present : present (some (t.b64 mac_bytes)) ≡ some (t.b64 mac_bytes)
    mac_present = elim (present_cases (t.b64 mac_bytes)) [
      | inl e ↦ e
      | inr e ↦
          let none_left : mac_bytes ≡ [] = sym (code.back mac_bytes) ∙ ap t.unb64 e ∙ code.empty in
          let size : length mac_bytes ≡ 32 = mac_size in
          let zero_size : length mac_bytes ≡ 0 = ap length none_left in
          absurd (omega (arith, size, zero_size))
    ]

    -- What the admin hands out.
    abbrev pub handed : SkdFields
    handed = skd_of c t r (some (t.b64 mac_bytes))

    skd_for_lem :
        (a : GroupManager) (gid : Bytes)
        → lookup gid a.recs ≡ some r
        → skd_for c t a gid (some m.id.pub_) ≡ some handed
    skd_for_lem a gid e =
        let lists = v.lists in
        let holds = v.holds in
        let mac : rmac_for c t r m.id.pub_ ≡ some (t.b64 mac_bytes) =
          unfold rmac_for in rw (holds, rmac_for) refl in
        unfold skd_for in rw (e, v.named, lists, skd_for) (ap (λ x. some (skd_of c t r x)) mac)

    check_advance-handed : check_advance c t m none admin handed ≡ ok tt
    check_advance-handed =
        let bound : bytes_beq (t.unb64 (t.b64 r.session.gid))
              (group_id_from_gk c t.unb64 (t.unb64 (t.b64 r.gk_pub)))
            ≡ true =
          (bytes_beq_iff _ _).1 (
            code.back r.session.gid
            ∙ v.bound
            ∙ ap (group_id_from_gk c t.unb64) (sym (code.back r.gk_pub))) in
        let key : roster_mac_key_for c t m.id (t.b64 r.gk_pub) (t.unb64 (t.b64 r.session.gid))
              r.epoch
            ≡ roster_key_for c t gk m.id.pub_ r.session.gid r.epoch =
          ap (λ g. roster_mac_key_for c t m.id (t.b64 r.gk_pub) g r.epoch) (code.back r.session.gid)
          ∙ sym v.agree in
        let proves : verify_roster_mac c t
              (roster_mac_key_for c t m.id (t.b64 r.gk_pub) (t.unb64 (t.b64 r.session.gid)) r.epoch)
              (pubs_of r.roster) (t.unb64 (t.b64 mac_bytes))
            ≡ true =
          unfold verify_roster_mac in
          (bytes_beq_iff _ _).1
            (ap (λ k. roster_mac c t k (pubs_of r.roster)) key ∙ sym (code.back mac_bytes)) in
        let heads : same_first (first (pubs_of r.roster)) (some admin) ≡ true =
          ap (λ x. same_first x (some admin)) v.heads ∙ (bytes_beq_iff admin admin).1 refl in
        unfold check_advance given skd_of in rw (bound, mac_present, proves, heads) refl

    -- What the member holds of the group then: the admin's epoch, secret, key and roster, and the
    -- admin's sending chain in step with it.
    pub record IsJoined (aead : IsAead c) (out : Applied) : Type 0 where
      pub outcome : out.outcome ≡ ok joined
      pub held : GroupRec
      pub found : lookup r.session.gid out.manager.recs ≡ some held
      pub epoch : held.epoch ≡ r.epoch
      pub secret : held.secret ≡ r.secret
      pub gk_pub : held.gk_pub ≡ r.gk_pub
      pub roster : pubs_of held.roster ≡ pubs_of r.roster
      pub chain : SenderReceiver
      pub has_chain : lookup admin held.session.receivers ≡ some chain
      pub in_step : AreInStep c aead r.session.send_ chain

    pub record IsHanded (aead : IsAead c) (a : GroupManager) (gid : Bytes) (now : ℕ)
        (send_key : Bytes) : Type 0 where
      pub skd : SkdFields
      pub made : skd_for c t a gid (some m.id.pub_) ≡ some skd
      pub taken : IsJoined aead (apply_skd c t m now send_key admin skd)

    -- The distribution that an admin makes for a member of its roster is accepted by it: the member,
    -- who did not hold the group, joins with the admin's epoch, secret, group key and roster, and its
    -- copy of the admin's chain is in step, where base64 decodes what it encoded, hashes have their
    -- sizes, and the member's key is a text that is not empty.
    pub skd_for-joins :
        (aead : IsAead c) (a : GroupManager) (gid : Bytes) (now : ℕ) (send_key : Bytes)
        → lookup gid a.recs ≡ some r
        → lookup r.session.gid m.recs ≡ none
        → IsHanded aead a gid now send_key
    skd_for-joins aead a gid now send_key e absent =
        let at_gid : t.unb64 handed.gid ≡ r.session.gid =
          unfold skd_of in code.back r.session.gid in
        let missing : lookup (t.unb64 handed.gid) m.recs ≡ none =
          ap (λ g. lookup g m.recs) at_gid ∙ absent in
        let (outcome, found) =
          apply_skd_new m now send_key admin handed missing check_advance-handed v.apart in
        let out = apply_skd c t m now send_key admin handed in
        let self : bytes_beq admin admin ≡ true = (bytes_beq_iff admin admin).1 refl in
        record {
          skd = handed;
          made = skd_for_lem a gid e;
          taken = record {
            outcome = outcome;
            held = fresh_rec m handed send_key admin;
            found = ap (λ g. lookup g out.manager.recs) (sym at_gid) ∙ found;
            epoch = unfold skd_of in refl;
            secret = unfold skd_of in code.back r.secret;
            gk_pub = unfold skd_of in code.back r.gk_pub;
            roster = unfold skd_of in pubs_of-as_members (pubs_of r.roster);
            chain =
                receiver_from (t.unb64 handed.chain) (ctr_of c t handed) max_skip skipped_ttl_ms;
            has_chain = unfold lookup in rw self refl;
            in_step = record {
              key = unfold skd_of receiver_from in code.back r.session.send_.key;
              n = unfold skd_of receiver_from in refl;
              below = unfold receiver_from AllBelow in tt;
            };
          };
        }
