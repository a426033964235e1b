-- ===== src/GroupManager/Snapshot/RoundTrip.antt =====
-- What is saved of groups comes back.
use encedo_chat.Prelude.{
  if◌then◌else◌, Bool-cases, Bytes, ◌≡◌, refl, sym, ap, ◌∙◌, subst, inl, inr, true, false, Option,
  none, some, List, [], ◌∷◌, ◌++◌, arith,
}
use encedo_chat.Crypto.{Crypto}
use encedo_chat.JsMap.{lookup, set, lookup-set, bytes_eq, bytes_beq, bytes_beq_iff}
use mathlib.Core.List.{append-nil, append_assoc}
use encedo_chat.Senderkey.{SenderReceiver, receiver_from, max_skip, skipped_ttl_ms}
use encedo_chat.Group.{GroupId, create, set_members}
use encedo_chat.GroupManager.{
  Base64, IsBase64, GroupRec, GroupManager, new_rec, put_rec, admit, AdminGk, present,
}
use encedo_chat.GroupManager.Snapshot.{
  Position, Chains, positions, export_chains, receivers_of, import_chains, encode_positions,
  decode_positions, encode_chains, decode_chains, snap, snap_all, snapshot, material_from, filled,
  fill, restore_one, restore, or_kid,
}

-- No entry has the key.
unfoldable pub IsFresh {ℓ} : {V : Type ℓ} → Bytes → List (Bytes × V) → Type 0
IsFresh k [] = Unit {0}
IsFresh k ((j, v) ∷ m) = (bytes_beq j k ≡ false) × IsFresh k m

-- The keys differ, as those of a map do.
unfoldable pub IsMap {ℓ} : {V : Type ℓ} → List (Bytes × V) → Type 0
IsMap [] = Unit {0}
IsMap ((j, v) ∷ m) = IsFresh j m × IsMap m

-- The chains of members as a restart finds them: at their positions, with no key held.
unfoldable pub restarted : List (Bytes × SenderReceiver) → List (Bytes × SenderReceiver)
restarted [] = []
restarted ((p, r) ∷ rs) = (p, receiver_from r.key r.n max_skip skipped_ttl_ms) ∷ restarted rs

set-IsFresh :
    (k : Bytes) (v : SenderReceiver) (m : List (Bytes × SenderReceiver))
    → IsFresh k m
    → set k v m ≡ m ++ ((k, v) ∷ [])
unfolding IsFresh set
set-IsFresh k v [] f = refl
set-IsFresh k v ((j, w) ∷ m) (other, f) = rw other (ap (λ x. (j, w) ∷ x) (set-IsFresh k v m f))

-- No key of the second map is in the first.
unfoldable AreApart : List (Bytes × SenderReceiver) → List (Bytes × SenderReceiver) → Type 0
AreApart acc [] = Unit {0}
AreApart acc ((j, r) ∷ rs) = IsFresh j acc × AreApart acc rs

beq_sym : (a b : Bytes) → bytes_beq a b ≡ false → bytes_beq b a ≡ false
beq_sym a b e = ground (arith, bytes_beq_iff a b, bytes_beq_iff b a)

IsFresh-snoc :
    (k j : Bytes) (v : SenderReceiver) (m : List (Bytes × SenderReceiver))
    → IsFresh k m
    → bytes_beq j k ≡ false
    → IsFresh k (m ++ ((j, v) ∷ []))
unfolding IsFresh
IsFresh-snoc k j v [] f other = (other, tt)
IsFresh-snoc k j v ((i, w) ∷ m) (here, f) other = (here, IsFresh-snoc k j v m f other)

AreApart-snoc :
    (acc rs : List (Bytes × SenderReceiver)) (j : Bytes) (v : SenderReceiver)
    → AreApart acc rs
    → IsFresh j rs
    → AreApart (acc ++ ((j, v) ∷ [])) rs
unfolding AreApart IsFresh
AreApart-snoc acc [] j v a f = tt
AreApart-snoc acc ((i, r) ∷ rs) j v (here, a) (other, f) =
    (IsFresh-snoc i j v acc here (beq_sym i j other), AreApart-snoc acc rs j v a f)

receivers_of-positions :
    (rs acc : List (Bytes × SenderReceiver))
    → IsMap rs
    → AreApart acc rs
    → receivers_of max_skip skipped_ttl_ms (positions rs) acc ≡ acc ++ restarted rs
unfolding IsMap AreApart receivers_of positions restarted
receivers_of-positions [] acc v a = sym (append-nil acc)
receivers_of-positions ((p, r) ∷ rs) acc (f, v) (here, a) =
    let chain = receiver_from r.key r.n max_skip skipped_ttl_ms in
    ap (receivers_of max_skip skipped_ttl_ms (positions rs)) (set-IsFresh p chain acc here)
    ∙ receivers_of-positions rs (acc ++ ((p, chain) ∷ [])) v (AreApart-snoc acc rs p chain a f)
    ∙ append_assoc acc ((p, chain) ∷ []) (restarted rs)

all_apart : (rs : List (Bytes × SenderReceiver)) → AreApart [] rs
unfolding AreApart IsFresh
all_apart [] = tt
all_apart ((j, r) ∷ rs) = (tt, all_apart rs)

-- Each record is held under its group id, and its receiving chains are a map.
unfoldable pub IsKeyed : List (Bytes × GroupRec) → Type 0
IsKeyed [] = Unit {0}
IsKeyed ((g, r) ∷ rs) = (r.session.gid ≡ g) × IsMap r.session.receivers × IsKeyed rs

-- A record as it comes back.
pub record IsRestored (r held : GroupRec) : Type 0 where
  pub gid : held.session.gid ≡ r.session.gid
  pub epoch : held.epoch ≡ r.epoch
  pub secret : held.secret ≡ r.secret
  pub gk_pub : held.gk_pub ≡ r.gk_pub
  pub roster : held.roster ≡ r.roster
  pub member_gk_kid : held.member_gk_kid ≡ present r.member_gk_kid
  pub send_ : held.session.send_ ≡ r.session.send_
  pub receivers : held.session.receivers ≡ restarted r.session.receivers

pub record Holds (r : GroupRec) (g : Bytes) (m : GroupManager) : Type 0 where
  pub held : GroupRec
  pub found : lookup g m.recs ≡ some held
  pub restored : IsRestored r held

-- Every record is restored in the manager.
unfoldable pub AllRestored : List (Bytes × GroupRec) → GroupManager → Type 0
AllRestored [] m = Unit {0}
AllRestored ((g, r) ∷ rs) m = Holds r g m × AllRestored rs m

unfoldable AllAbsent : List (Bytes × GroupRec) → GroupManager → Type 0
AllAbsent [] m = Unit {0}
AllAbsent ((g, r) ∷ rs) m = (lookup g m.recs ≡ none) × AllAbsent rs m

module _ (t : Base64) (code : IsBase64 t) (c : Crypto) (source : Option (Bytes → AdminGk)) where
  positions_back : (ps : List Position) → decode_positions t (encode_positions t ps) ≡ ps
  unfolding encode_positions decode_positions
  positions_back [] = refl
  positions_back (p ∷ ps) = λ i. record p { key = code.back p.key i } ∷ positions_back ps i

  chains_back : (st : Chains) → decode_chains t (encode_chains t st) ≡ st
  unfolding encode_chains decode_chains
  chains_back st = λ i. record {
    send_ = record { key = code.back st.send_.key i; n = st.send_.n };
    receivers = positions_back st.receivers i;
  }

  or_kid-none : (x : Option Bytes) → or_kid t c source x none ≡ x
  or_kid-none none = refl
  or_kid-none (some kid) = refl

  -- The record that `restore` makes of a saved one.
  abbrev fresh_rec : GroupManager → GroupRec → Bytes → GroupRec
  fresh_rec m r key = new_rec c t m (material_from t c source (snap t r)) key none

  abbrev back : GroupManager → GroupRec → Bytes → GroupRec
  back m r key = filled t c source (fresh_rec m r key) (snap t r)

  back-IsRestored :
      (m : GroupManager) (r : GroupRec) (key : Bytes)
      → IsMap r.session.receivers
      → IsRestored r (back m r key)
  unfolding filled new_rec material_from snap import_chains create set_members
  back-IsRestored m r key v =
      let chains = chains_back (export_chains r.session) in
      record {
        gid = code.back r.session.gid;
        epoch = refl;
        secret = code.back r.secret;
        gk_pub = code.back r.gk_pub;
        roster = refl;
        member_gk_kid = or_kid-none (present r.member_gk_kid);
        send_ = ap (λ x. x.send_) chains ∙ (unfold export_chains in refl);
        receivers =
            ap (λ x. receivers_of max_skip skipped_ttl_ms x.receivers []) chains
            ∙ (unfold export_chains in
                receivers_of-positions r.session.receivers [] v (all_apart r.session.receivers));
      }

  -- A group that is absent is put where its id is.
  restore_one_lem :
      (m : GroupManager) (r : GroupRec) (key : Bytes)
      → lookup r.session.gid m.recs ≡ none
      → restore_one t c source m (snap t r) key ≡ record m {
        recs = set r.session.gid (back m r key) (set r.session.gid (fresh_rec m r key) m.recs);
      }
  unfolding restore_one fill
  restore_one_lem m r key absent =
      let gid' = t.unb64 (t.b64 r.session.gid) in
      let same : gid' ≡ r.session.gid = code.back r.session.gid in
      let new = fresh_rec m r key in
      let absent' : lookup gid' m.recs ≡ none = ap (λ g. lookup g m.recs) same ∙ absent in
      let admitted : admit c t m (material_from t c source (snap t r)) key
          ≡ record m { recs = set gid' new m.recs } =
        unfold admit put_rec material_from snap in rw (absent', admit) refl in
      let self : bytes_beq gid' gid' ≡ true = (bytes_beq_iff gid' gid').1 refl in
      let there : lookup gid' (set gid' new m.recs) ≡ some new =
        lookup-set gid' gid' new m.recs ∙ rw self refl in
      let filled_in : fill t c source (record m { recs = set gid' new m.recs }) gid' (snap t r)
          ≡ record m { recs = set gid' (back m r key) (set gid' new m.recs) } =
        rw (there, fill) refl in
      let first : restore_one t c source m (snap t r) key
          ≡ fill t c source (record m { recs = set gid' new m.recs }) gid' (snap t r) =
        unfold snap in ap (λ a. fill t c source a gid' (snap t r)) admitted in
      first
      ∙ filled_in
      ∙ (λ i. record m { recs = set (same i) (back m r key) (set (same i) new m.recs) })

  -- What a look-up finds behind it.
  lookup-restore_one :
      (m : GroupManager) (r : GroupRec) (key g : Bytes)
      → lookup r.session.gid m.recs ≡ none
      → lookup g (restore_one t c source m (snap t r) key).recs
        ≡ (if bytes_beq r.session.gid g then some (back m r key) else lookup g m.recs)
  lookup-restore_one m r key g absent =
      ap (λ a. lookup g a.recs) (restore_one_lem m r key absent)
      ∙ lookup-set r.session.gid g (back m r key) (set r.session.gid (fresh_rec m r key) m.recs)
      ∙ (elim (Bool-cases (bytes_beq r.session.gid g)) [
        | inl same ↦ rw same refl
        | inr other ↦
            rw other (lookup-set r.session.gid g (fresh_rec m r key) m.recs ∙ rw other refl)
      ])

  lookup-other :
      (m : GroupManager) (r : GroupRec) (key g : Bytes)
      → lookup r.session.gid m.recs ≡ none
      → bytes_beq r.session.gid g ≡ false
      → lookup g (restore_one t c source m (snap t r) key).recs ≡ lookup g m.recs
  lookup-other m r key g absent other = lookup-restore_one m r key g absent ∙ rw other refl

  still_absent :
      (rs : List (Bytes × GroupRec)) (m : GroupManager) (r : GroupRec) (key : Bytes)
      → lookup r.session.gid m.recs ≡ none
      → IsFresh r.session.gid rs
      → AllAbsent rs m
      → AllAbsent rs (restore_one t c source m (snap t r) key)
  unfolding AllAbsent IsFresh
  still_absent [] m r key absent f a = tt
  still_absent ((g, x) ∷ rs) m r key absent (other, f) (here, a) = (
    lookup-other m r key g absent (beq_sym g r.session.gid other) ∙ here,
    still_absent rs m r key absent f a,
  )

  -- The groups that come later leave one that is back as it is.
  lookup-restore :
      (rs : List (Bytes × GroupRec)) (m : GroupManager) (draw : Bytes → Bytes) (g : Bytes)
      → IsKeyed rs
      → IsMap rs
      → AllAbsent rs m
      → IsFresh g rs
      → lookup g (restore t c source m (snap_all t rs) draw).recs ≡ lookup g m.recs
  unfolding restore snap_all IsKeyed IsMap AllAbsent IsFresh
  lookup-restore [] m draw g k v a f = refl
  lookup-restore ((j, r) ∷ rs) m draw g (is, w, k) (fj, v) (here, a) (other, f) =
      let absent : lookup r.session.gid m.recs ≡ none = ap (λ x. lookup x m.recs) is ∙ here in
      let key = draw (snap t r).gid in
      let fresh : IsFresh r.session.gid rs = subst (λ x. IsFresh x rs) (sym is) fj in
      lookup-restore rs (restore_one t c source m (snap t r) key) draw g k v
        (still_absent rs m r key absent fresh a) f
      ∙ lookup-other m r key g absent (ap (λ x. bytes_beq x g) is ∙ other)

  restore-AllRestored :
      (rs : List (Bytes × GroupRec)) (m : GroupManager) (draw : Bytes → Bytes)
      → IsKeyed rs
      → IsMap rs
      → AllAbsent rs m
      → AllRestored rs (restore t c source m (snap_all t rs) draw)
  unfolding restore snap_all IsKeyed IsMap AllAbsent AllRestored
  restore-AllRestored [] m draw k v a = tt
  restore-AllRestored ((j, r) ∷ rs) m draw (is, w, k) (fj, v) (here, a) =
      let absent : lookup r.session.gid m.recs ≡ none = ap (λ x. lookup x m.recs) is ∙ here in
      let key = draw (snap t r).gid in
      let next = restore_one t c source m (snap t r) key in
      let fresh : IsFresh r.session.gid rs = subst (λ x. IsFresh x rs) (sym is) fj in
      let same : bytes_beq r.session.gid j ≡ true = (bytes_beq_iff r.session.gid j).1 is in
      let gone = still_absent rs m r key absent fresh a in
      (
        record {
          held = back m r key;
          found =
              lookup-restore rs next draw j k v gone fj
              ∙ lookup-restore_one m r key j absent
              ∙ rw same refl;
          restored = back-IsRestored m r key w;
        },
        restore-AllRestored rs next draw k v gone,
      )

  all_absent :
      (rs : List (Bytes × GroupRec)) (id : GroupId) → AllAbsent rs (record { id = id; recs = [] })
  unfolding AllAbsent lookup
  all_absent [] id = tt
  all_absent ((g, r) ∷ rs) id = (refl, all_absent rs id)

  -- The groups of a manager that are saved and restored, in a manager that held none, are all back:
  -- epoch, secret, group key and roster as they were, the id of a device's key if it is not empty,
  -- the sending chain where it stood, and every receiving chain at its position with the keys it had
  -- passed over forgotten; where records are held under their group ids, maps have no key twice, and
  -- base64 decodes what it encoded.
  pub restore-snapshot :
      (m : GroupManager) (id : GroupId) (draw : Bytes → Bytes)
      → IsKeyed m.recs
      → IsMap m.recs
      → AllRestored m.recs (restore t c source (record { id = id; recs = [] }) (snapshot t m) draw)
  unfolding snapshot
  restore-snapshot m id draw k v =
      restore-AllRestored m.recs (record { id = id; recs = [] }) draw k v (all_absent m.recs id)
