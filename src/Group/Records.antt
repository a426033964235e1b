-- ===== src/Group/Records.antt =====
-- The records of a group frame as its recipients read them.
use encedo_chat.Prelude.{
  if◌then◌else◌, Bool-cases, length, take, drop, length-append, length-take, take_ahead, drop_ahead,
  Bytes, ◌*◌, ◌≤◌, ◌≡◌, refl, sym, ap, ◌∙◌, ◌⊎◌, inl, inr, false, some, List, [], ◌∷◌, ◌++◌, arith,
}
use mathlib.Core.List.{append_assoc}
use encedo_chat.Crypto.{Crypto, IsHash}
use encedo_chat.JsMap.{set, bytes_eq, bytes_beq, lookup, bytes_beq_iff}
use encedo_chat.Senderkey.{tag}
use encedo_chat.Wc.{concat}
use encedo_chat.Group.{
  Member, GroupSession, read_macs, sender_id_of, mac_key_for, mac_records, index_members,
}
use encedo_chat.Group.Wire.{set_all, length-nil, Good, HasKey, set_all-Finds, Finds}

-- The first record of several, in front of the text.
one_record :
    (sid mac tail : Bytes) (recs : List Bytes)
    → length sid ≡ 8
    → length mac ≡ 32
    → (b : Bytes) → b ≡ concat (concat (sid ∷ mac ∷ []) ∷ recs) ++ tail
    → (take 8 b ≡ sid) × (take 32 (drop 8 b) ≡ mac) × (drop 40 b ≡ concat recs ++ tail)
unfolding concat drop
one_record sid mac tail recs l_sid l_mac b e =
    let split : concat (concat (sid ∷ mac ∷ []) ∷ recs) ++ tail
        ≡ sid ++ (mac ++ (concat recs ++ tail)) =
      append_assoc (sid ++ (mac ++ [])) (concat recs) tail
      ∙ append_assoc sid (mac ++ []) (concat recs ++ tail)
      ∙ ap (λ x. sid ++ x) (append_assoc mac [] (concat recs ++ tail)) in
    let at_sid : drop 0 b ≡ sid ++ (mac ++ (concat recs ++ tail)) = e ∙ split in
    let at_mac = drop_ahead b sid (mac ++ (concat recs ++ tail)) 0 8 at_sid l_sid in
    (
      take_ahead b sid (mac ++ (concat recs ++ tail)) 0 8 at_sid l_sid,
      take_ahead b mac (concat recs ++ tail) 8 32 at_mac l_mac,
      drop_ahead b mac (concat recs ++ tail) 8 32 at_mac l_mac,
    )

-- The recipient with a public key is among the members …
unfoldable pub IsListed : Bytes → List Member → Type 0
IsListed p [] = ⊥
IsListed p (m ∷ ms) = (m.pub_ ≡ p) ⊎ IsListed p ms

-- … and no other member has its sender id.
unfoldable pub IsAlone : Crypto → (Bytes → Bytes) → Bytes → List Member → Type 0
IsAlone c unb64 p [] = Unit {0}
IsAlone c unb64 p (m ∷ ms) =
    ((m.pub_ ≡ p) ⊎ (bytes_beq (sender_id_of c unb64 m.pub_) (sender_id_of c unb64 p) ≡ false))
    × IsAlone c unb64 p ms

module _ (c : Crypto) (unb64 : Bytes → Bytes) (hash : IsHash c) where
  pub length-sender_id_of : (p : Bytes) → length (sender_id_of c unb64 p) ≡ 8
  unfolding sender_id_of
  length-sender_id_of p =
      length-take 8 (c.sha256 (unb64 p)) (omega (arith, hash.sha256_size (unb64 p)))

  module _ (s : GroupSession) (header ct : Bytes) where
    abbrev pub tag_for : Bytes → Bytes
    tag_for p = tag c (mac_key_for c unb64 s p) header ct

    length-tag_for : (p : Bytes) → length (tag_for p) ≡ 32
    unfolding tag
    length-tag_for p = hash.hmac_size (mac_key_for c unb64 s p) _

    -- The recipients' records as entries of a map.
    unfoldable pub mac_entries : List Member → List (Bytes × Bytes)
    mac_entries [] = []
    mac_entries (m ∷ ms) =
        let rest = mac_entries ms in
        if bytes_beq m.pub_ s.id.pub_
        then rest
        else (sender_id_of c unb64 m.pub_, tag_for m.pub_) ∷ rest

    pub read_macs-mac_records :
        (ms : List Member) (b : Bytes) (macs : List (Bytes × Bytes))
        → read_macs
            (length (mac_records c unb64 s header ct ms))
            (concat (mac_records c unb64 s header ct ms) ++ b)
            macs
          ≡ (set_all (mac_entries ms) macs, b)
    unfolding mac_records mac_entries read_macs set_all concat drop
    read_macs-mac_records [] b macs = refl
    read_macs-mac_records (m ∷ ms) b macs = elim (Bool-cases (bytes_beq m.pub_ s.id.pub_)) [
      | inl me ↦ rw me (read_macs-mac_records ms b macs)
      | inr other ↦
          let sid = sender_id_of c unb64 m.pub_ in
          let recs = mac_records c unb64 s header ct ms in
          let (first, mac, rest) =
            one_record sid (tag_for m.pub_) b recs (length-sender_id_of m.pub_)
              (length-tag_for m.pub_) _ refl in
          let whole = concat (concat (sid ∷ tag_for m.pub_ ∷ []) ∷ recs) ++ b in
          let step : read_macs (length recs) (drop 40 whole)
                (set (take 8 whole) (take 32 (drop 8 whole)) macs)
              ≡ read_macs (length recs) (concat recs ++ b) (set sid (tag_for m.pub_) macs) =
            λ i. read_macs (length recs) (rest i) (set (first i) (mac i) macs) in
          rw other (step ∙ read_macs-mac_records ms b (set sid (tag_for m.pub_) macs))
    ]

    pub length-mac_records :
        (ms : List Member)
        → (length (mac_records c unb64 s header ct ms) ≤ length ms)
          × (length (concat (mac_records c unb64 s header ct ms))
              ≡ length (mac_records c unb64 s header ct ms) * 40)
    unfolding mac_records concat
    length-mac_records [] = (omega arith, omega arith)
    length-mac_records (m ∷ ms) = elim (Bool-cases (bytes_beq m.pub_ s.id.pub_)) [
      | inl me ↦ let (few, size) = length-mac_records ms in rw me (omega (arith, few), size)
      | inr other ↦
          let (few, size) = length-mac_records ms in
          let recs = mac_records c unb64 s header ct ms in
          let sid = sender_id_of c unb64 m.pub_ in
          let one : length (sid ++ (tag_for m.pub_ ++ [])) ≡ 40 =
            length-append sid (tag_for m.pub_ ++ [])
            ∙ omega (
              arith,
              length-append (tag_for m.pub_) [],
              length-sender_id_of m.pub_,
              length-tag_for m.pub_,
              length-nil,
            ) in
          rw other (
            omega (arith, few),
            length-append (sid ++ (tag_for m.pub_ ++ [])) (concat recs) ∙ omega (arith, one, size),
          )
    ]

  module _ (s : GroupSession) (header ct p : Bytes) (other : bytes_beq s.id.pub_ p ≡ false) where
    abbrev IsTag : Bytes → Type 0
    IsTag mac = mac ≡ tag c (mac_key_for c unb64 s p) header ct

    entries-Good :
        (ms : List Member)
        → IsAlone c unb64 p ms
        → Good (sender_id_of c unb64 p) IsTag (mac_entries s header ct ms)
    unfolding mac_entries IsAlone
    entries-Good [] v = tt
    entries-Good (m ∷ ms) (alone, v) = elim (Bool-cases (bytes_beq m.pub_ s.id.pub_)) [
      | inl me ↦ rw me (entries-Good ms v)
      | inr peer ↦ rw peer (
        elim alone [
          | inl is ↦ inr (ap (λ q. tag c (mac_key_for c unb64 s q) header ct) is)
          | inr differs ↦ inl differs
        ],
        entries-Good ms v,
      )
    ]

    entries-HasKey :
        (ms : List Member)
        → IsListed p ms
        → HasKey (sender_id_of c unb64 p) IsTag (mac_entries s header ct ms)
    unfolding mac_entries IsListed
    entries-HasKey [] v = absurd v
    entries-HasKey (m ∷ ms) v = elim (Bool-cases (bytes_beq m.pub_ s.id.pub_)) [
      | inl me ↦ rw me (elim v [
        | inl is ↦
            let self : s.id.pub_ ≡ p = sym ((bytes_beq_iff m.pub_ s.id.pub_).0 me) ∙ is in
            absurd (cc ((bytes_beq_iff s.id.pub_ p).1 self, other))
        | inr there ↦ entries-HasKey ms there
      ])
      | inr peer ↦ rw peer (elim v [
        | inl is ↦ inl (ap (sender_id_of c unb64) is)
        | inr there ↦ inr (entries-HasKey ms there)
      ])
    ]

    -- The recipient finds its own tag.
    pub own_tag :
        (ms : List Member)
        → IsListed p ms
        → IsAlone c unb64 p ms
        → lookup (sender_id_of c unb64 p) (set_all (mac_entries s header ct ms) [])
          ≡ some (tag c (mac_key_for c unb64 s p) header ct)
    own_tag ms listed alone =
        let f =
          set_all-Finds (sender_id_of c unb64 p) IsTag (mac_entries s header ct ms) []
            (entries-Good ms alone) (entries-HasKey ms listed) in
        f.found ∙ ap some f.good

  -- The index of members as entries of a map.
  unfoldable member_entries : List Member → List (Bytes × Member)
  member_entries [] = []
  member_entries (m ∷ ms) = (sender_id_of c unb64 m.pub_, m) ∷ member_entries ms

  index_members_lem :
      (ms : List Member) (by_id : List (Bytes × Member))
      → index_members c unb64 ms by_id ≡ set_all (member_entries ms) by_id
  unfolding index_members member_entries set_all
  index_members_lem [] by_id = refl
  index_members_lem (m ∷ ms) by_id =
      index_members_lem ms (set (sender_id_of c unb64 m.pub_) m by_id)

  module _ (p : Bytes) where
    abbrev IsMember : Member → Type 0
    IsMember m = m.pub_ ≡ p

    members-Good :
        (ms : List Member)
        → IsAlone c unb64 p ms
        → Good (sender_id_of c unb64 p) IsMember (member_entries ms)
    unfolding member_entries IsAlone
    members-Good [] v = tt
    members-Good (m ∷ ms) (alone, v) =
        (elim alone [ inl is ↦ inr is | inr differs ↦ inl differs ], members-Good ms v)

    members-HasKey :
        (ms : List Member)
        → IsListed p ms
        → HasKey (sender_id_of c unb64 p) IsMember (member_entries ms)
    unfolding member_entries IsListed
    members-HasKey [] v = absurd v
    members-HasKey (m ∷ ms) (inl is) = inl (ap (sender_id_of c unb64) is)
    members-HasKey (m ∷ ms) (inr v) = inr (members-HasKey ms v)

    -- The member that the index names for a sender id.
    pub indexed :
        (ms : List Member)
        → IsListed p ms
        → IsAlone c unb64 p ms
        → Finds (sender_id_of c unb64 p) IsMember (index_members c unb64 ms [])
    indexed ms listed alone = rw index_members_lem (
        set_all-Finds (sender_id_of c unb64 p) IsMember (member_entries ms) []
          (members-Good ms alone) (members-HasKey ms listed))
