-- ===== src/GroupManager/Advance.antt =====
-- What distributions can do to the groups of a manager.
use encedo_chat.Prelude.{
  Bool-cases, Option-cases, Bytes, >>=-elim, guard-elim, ok-injective, ℕ, ◌<◌, ◌≡◌, refl, sym, ap,
  ◌∙◌, subst, ◌⊎◌, inl, inr, true, Option, none, some, List, [], ◌∷◌, arith, ok, ltb→lt,
  Result-cases,
}
use encedo_chat.Crypto.{Crypto}
use encedo_chat.JsMap.{lookup, set, lookup-set, bytes_eq, bytes_beq, bytes_beq_iff}
use encedo_chat.Group.{group_id_from_gk}
use encedo_chat.Group.Keys.{set_sender_key}
use encedo_chat.GroupManager.{
  Base64, GroupRec, GroupManager, SkdFields, pubs_of, as_members, first, same_first, given,
  proves_roster, keeps_admin, check_advance, give_key, SkdOutcome, apply_skd, put_rec, same_epoch,
  is_listed, admit, joined, Material, material_of, ctr_of, new_rec, leb, ltb, advance, false,
  rekeyed, present,
}

-- The epoch with what is the admin's to change in it.
pub record IsKept (a b : GroupRec) : Type 0 where
  pub epoch : b.epoch ≡ a.epoch
  pub roster : b.roster ≡ a.roster
  pub secret : b.secret ≡ a.secret
  pub gk_pub : b.gk_pub ≡ a.gk_pub

-- A group is as it was but for its sender keys, or in a later epoch under the same admin.
unfoldable pub IsLater : Option GroupRec → Option GroupRec → Type 0
IsLater none b = Unit {0}
IsLater (some a) none = ⊥
IsLater (some a) (some b) =
    IsKept a b ⊎ ((a.epoch < b.epoch) × (first (pubs_of b.roster) ≡ first (pubs_of a.roster)))

IsKept-refl : (a : GroupRec) → IsKept a a
IsKept-refl a = record { epoch = refl; roster = refl; secret = refl; gk_pub = refl }

IsLater-refl : (a : Option GroupRec) → IsLater a a
unfolding IsLater
IsLater-refl none = tt
IsLater-refl (some a) = inl (IsKept-refl a)

IsLater-trans : (a b c : Option GroupRec) → IsLater a b → IsLater b c → IsLater a c
unfolding IsLater
IsLater-trans none b c v w = tt
IsLater-trans (some a) none c v w = absurd v
IsLater-trans (some a) (some b) none v w = absurd w
IsLater-trans (some a) (some b) (some c) (inl v) (inl w) = inl (record {
  epoch = w.epoch ∙ v.epoch;
  roster = w.roster ∙ v.roster;
  secret = w.secret ∙ v.secret;
  gk_pub = w.gk_pub ∙ v.gk_pub;
})
IsLater-trans (some a) (some b) (some c) (inl v) (inr (up, admin)) =
    let e = v.epoch in inr (omega (arith, e, up), admin ∙ ap (λ r. first (pubs_of r)) v.roster)
IsLater-trans (some a) (some b) (some c) (inr (up, admin)) (inl w) =
    let e = w.epoch in inr (omega (arith, e, up), ap (λ r. first (pubs_of r)) w.roster ∙ admin)
IsLater-trans (some a) (some b) (some c) (inr (up, admin)) (inr (up', admin')) =
    inr (omega (arith, up, up'), admin' ∙ admin)

-- Putting a record in place of another moves that group alone.
set-IsLater :
    (recs : List (Bytes × GroupRec)) (gid g : Bytes) (r : GroupRec)
    → IsLater (lookup gid recs) (some r)
    → IsLater (lookup g recs) (lookup g (set gid r recs))
set-IsLater recs gid g r later = elim (Bool-cases (bytes_beq gid g)) [
  | inl same ↦
      let e : lookup g (set gid r recs) ≡ some r = lookup-set gid g r recs ∙ rw same refl in
      let is : gid ≡ g = (bytes_beq_iff gid g).0 same in
      subst (IsLater (lookup g recs)) (sym e)
        (subst (λ k. IsLater (lookup k recs) (some r)) is later)
  | inr other ↦
      let e : lookup g (set gid r recs) ≡ lookup g recs = lookup-set gid g r recs ∙ rw other refl in
      subst (IsLater (lookup g recs)) (sym e) (IsLater-refl (lookup g recs))
]

pub pubs_of-as_members : (ps : List Bytes) → pubs_of (as_members ps) ≡ ps
pubs_of-as_members [] = refl
pubs_of-as_members (p ∷ ps) = ap (λ qs. p ∷ qs) (pubs_of-as_members ps)

same_first_lem : (a b : Option Bytes) → same_first a b ≡ true → a ≡ b
same_first_lem none none e = refl
same_first_lem none (some q) e = absurd cc
same_first_lem (some p) none e = absurd cc
same_first_lem (some p) (some q) e = ap some ((bytes_beq_iff p q).0 e)

module _ (c : Crypto) (t : Base64) where
  give_key-IsLater :
      (m : GroupManager) (now : ℕ) (gid from chain : Bytes) (ctr : ℕ) (g : Bytes)
      → IsLater (lookup g m.recs) (lookup g (give_key c t m now gid from chain ctr).0.recs)
  give_key-IsLater m now gid from chain ctr g = elim (Option-cases (lookup gid m.recs)) [
    | inl e ↦ unfold give_key in rw (e, give_key) (IsLater-refl (lookup g m.recs))
    | inr (r, e) ↦
        let r' : GroupRec = record r {
          session = (set_sender_key c t.unb64 r.session now from chain ctr).0;
        } in
        let kept : IsLater (lookup gid m.recs) (some r') = rw e (
          unfold IsLater in
          inl (record { epoch = refl; roster = refl; secret = refl; gk_pub = refl })) in
        unfold give_key in rw (e, give_key) (set-IsLater m.recs gid g r' kept)
  ]

  -- What a distribution that may advance a group has proved.
  pub record IsProved (m : GroupManager) (cur : Option GroupRec) (from : Bytes) (skd : SkdFields)
      : Type 0 where
    pub mac : Bytes
    pub bound : bytes_beq (t.unb64 skd.gid) (group_id_from_gk c t.unb64 (t.unb64 skd.gk_pub)) ≡ true
    pub carried : present skd.rmac ≡ some mac
    pub attested : proves_roster c t m skd mac ≡ true
    pub by_admin : first skd.roster ≡ some from
    pub same_admin : keeps_admin c t cur skd ≡ true

  given_lem : (x : Option Bytes) (mac : Bytes) → given c t x ≡ ok mac → x ≡ some mac
  unfolding given
  given_lem none mac e = absurd cc
  given_lem (some y) mac e = ap some (ok-injective e)

  pub check_advance-IsProved :
      (m : GroupManager) (cur : Option GroupRec) (from : Bytes) (skd : SkdFields)
      → check_advance c t m cur from skd ≡ ok tt
      → IsProved m cur from skd
  unfolding check_advance
  check_advance-IsProved m cur from skd e = guard-elim _ _ _ e λ bound e1.
      >>=-elim (given c t (present skd.rmac)) _ e1 λ mac carried e2.
        guard-elim _ _ _ e2 λ attested e3. guard-elim _ _ _ e3 λ by_admin e4.
          guard-elim _ _ _ e4 λ same_admin e5. record {
            mac = mac;
            bound = bound;
            carried = given_lem (present skd.rmac) mac carried;
            attested = attested;
            by_admin = same_first_lem _ _ by_admin;
            same_admin = same_admin;
          }

  -- A later record of the group is put in its place.
  admit-IsLater :
      (m : GroupManager) (cur : GroupRec) (x : Material) (send_key g : Bytes)
      → lookup x.gid m.recs ≡ some cur
      → cur.epoch < x.epoch
      → first (pubs_of x.roster) ≡ first (pubs_of cur.roster)
      → IsLater (lookup g m.recs) (lookup g (admit c t m x send_key).recs)
  unfolding put_rec
  admit-IsLater m cur x send_key g e up admin =
      let over : leb x.epoch cur.epoch ≡ false = ground (arith, up) in
      let r = new_rec c t m x send_key (some cur) in
      let later : IsLater (lookup x.gid m.recs) (some r) =
        rw e (unfold IsLater new_rec in inr (up, admin)) in
      unfold admit in rw (e, over, admit) (set-IsLater m.recs x.gid g r later)

  admit_new-IsLater :
      (m : GroupManager) (x : Material) (send_key g : Bytes)
      → lookup x.gid m.recs ≡ none
      → IsLater (lookup g m.recs) (lookup g (admit c t m x send_key).recs)
  unfolding put_rec
  admit_new-IsLater m x send_key g e =
      let r = new_rec c t m x send_key none in
      let later : IsLater (lookup x.gid m.recs) (some r) = rw e (unfold IsLater in tt) in
      unfold admit in rw (e, admit) (set-IsLater m.recs x.gid g r later)

  -- An advance that was proved admits the group and hands it the sender's key.
  advance-IsLater :
      (m : GroupManager) (now : ℕ) (send_key : Bytes) (cur : Option GroupRec) (outcome : SkdOutcome)
      (from : Bytes) (skd : SkdFields) (g : Bytes)
      → (IsProved m cur from skd
          → IsLater (lookup g m.recs) (lookup g (admit c t m (material_of c t skd) send_key).recs))
      → IsLater
          (lookup g m.recs)
          (lookup g (advance c t m now send_key cur outcome from skd).manager.recs)
  advance-IsLater m now send_key cur outcome from skd g admits =
      elim (Result-cases (check_advance c t m cur from skd)) [
        | inl (u, e) ↦
            unfold advance in
            rw (e, advance)
              (IsLater-trans _ _ _ (admits (check_advance-IsProved m cur from skd e)) (
                give_key-IsLater (admit c t m (material_of c t skd) send_key) now (t.unb64 skd.gid)
                  from (t.unb64 skd.chain) (ctr_of c t skd) g))
        | inr (x, e) ↦ unfold advance in rw (e, advance) (IsLater-refl (lookup g m.recs))
      ]

  same_epoch-IsLater :
      (m : GroupManager) (now : ℕ) (cur : GroupRec) (from : Bytes) (skd : SkdFields) (g : Bytes)
      → IsLater (lookup g m.recs) (lookup g (same_epoch c t m now cur from skd).manager.recs)
  unfolding same_epoch
  same_epoch-IsLater m now cur from skd g = elim (Bool-cases (is_listed from cur.roster)) [
    | inl listed ↦
        rw listed
          (give_key-IsLater m now (t.unb64 skd.gid) from (t.unb64 skd.chain) (ctr_of c t skd) g)
    | inr outside ↦ rw outside (IsLater-refl (lookup g m.recs))
  ]

  apply_skd-IsLater :
      (m : GroupManager) (now : ℕ) (send_key from : Bytes) (skd : SkdFields) (g : Bytes)
      → IsLater (lookup g m.recs) (lookup g (apply_skd c t m now send_key from skd).manager.recs)
  apply_skd-IsLater m now send_key from skd g =
      elim (Option-cases (lookup (t.unb64 skd.gid) m.recs)) [
        | inl e ↦
            unfold apply_skd in
            rw (e, apply_skd)
              (advance-IsLater m now send_key none joined from skd g
                λ p. admit_new-IsLater m (material_of c t skd) send_key g e)
        | inr (cur, e) ↦ elim (Bool-cases (ltb cur.epoch skd.epoch)) [
          | inl up ↦
              let admin = λ (p : IsProved m (some cur) from skd).
                ap first (pubs_of-as_members skd.roster) ∙ sym (same_first_lem _ _ p.same_admin) in
              unfold apply_skd in
              rw (e, up, apply_skd)
                (advance-IsLater m now send_key (some cur) rekeyed from skd g λ p.
                  admit-IsLater m cur (material_of c t skd) send_key g e (ltb→lt _ _ up) (admin p))
          | inr not_up ↦ elim (Bool-cases (ltb skd.epoch cur.epoch)) [
            | inl old ↦
                unfold apply_skd in rw (e, not_up, old, apply_skd) (IsLater-refl (lookup g m.recs))
            | inr same ↦
                unfold apply_skd in
                rw (e, not_up, same, apply_skd) (same_epoch-IsLater m now cur from skd g)
          ]
        ]
      ]

  -- Distributions as they arrive: when, the sending key drawn for a new session, from whom, and what.
  unfoldable pub apply_all : GroupManager → List (ℕ × Bytes × Bytes × SkdFields) → GroupManager
  apply_all m [] = m
  apply_all m ((now, send_key, from, skd) ∷ ds) =
      apply_all (apply_skd c t m now send_key from skd).manager ds

  -- Whatever distributions arrive from whomever, every group that was held is still held, and either
  -- its epoch, roster, secret and group key are what they were, or its epoch has grown under the same
  -- admin.
  pub apply_all-IsLater :
      (m : GroupManager) (ds : List (ℕ × Bytes × Bytes × SkdFields)) (g : Bytes)
      → IsLater (lookup g m.recs) (lookup g (apply_all m ds).recs)
  unfolding apply_all
  apply_all-IsLater m [] g = IsLater-refl (lookup g m.recs)
  apply_all-IsLater m ((now, send_key, from, skd) ∷ ds) g =
      let next = (apply_skd c t m now send_key from skd).manager in
      IsLater-trans (lookup g m.recs) (lookup g next.recs) _
        (apply_skd-IsLater m now send_key from skd g) (apply_all-IsLater next ds g)

  advance-cases :
      (m : GroupManager) (now : ℕ) (send_key : Bytes) (cur : Option GroupRec) (outcome : SkdOutcome)
      (from : Bytes) (skd : SkdFields)
      → ((advance c t m now send_key cur outcome from skd).manager ≡ m) ⊎ IsProved m cur from skd
  advance-cases m now send_key cur outcome from skd =
      elim (Result-cases (check_advance c t m cur from skd)) [
        | inl (u, e) ↦ inr (check_advance-IsProved m cur from skd e)
        | inr (x, e) ↦ inl (unfold advance in rw (e, advance) refl)
      ]

  -- A manager moves for a distribution only if the sender proved to be the group's admin, or is in the
  -- attested roster and hands over its key for the epoch the group is in.
  pub apply_skd-cases :
      (m : GroupManager) (now : ℕ) (send_key from : Bytes) (skd : SkdFields)
      → ((apply_skd c t m now send_key from skd).manager ≡ m)
        ⊎ (IsProved m (lookup (t.unb64 skd.gid) m.recs) from skd
            ⊎ ((cur : GroupRec) × (lookup (t.unb64 skd.gid) m.recs ≡ some cur)
                × (skd.epoch ≡ cur.epoch)
                × (is_listed from cur.roster ≡ true)))
  apply_skd-cases m now send_key from skd = elim (Option-cases (lookup (t.unb64 skd.gid) m.recs)) [
    | inl e ↦
        unfold apply_skd in
        rw (e, apply_skd)
          (elim (advance-cases m now send_key none joined from skd) [
            | inl same ↦ inl same
            | inr p ↦ inr (inl p)
          ])
    | inr (cur, e) ↦ elim (Bool-cases (ltb cur.epoch skd.epoch)) [
      | inl up ↦
          unfold apply_skd in
          rw (e, up, apply_skd)
            (elim (advance-cases m now send_key (some cur) rekeyed from skd) [
              | inl same ↦ inl same
              | inr p ↦ inr (inl p)
            ])
      | inr not_up ↦ elim (Bool-cases (ltb skd.epoch cur.epoch)) [
        | inl old ↦ unfold apply_skd in rw (e, not_up, old, apply_skd) (inl refl)
        | inr not_old ↦
            let equal : skd.epoch ≡ cur.epoch = ground (arith, not_up, not_old) in
            elim (Bool-cases (is_listed from cur.roster)) [
              | inl listed ↦ inr (inr (cur, e, equal, listed))
              | inr outside ↦
                  unfold apply_skd same_epoch in
                  rw (e, not_up, not_old, apply_skd) (rw (outside, same_epoch) (inl refl))
            ]
      ]
    ]
  ]
