-- ===== src/Group/Wire.antt =====
-- The header and the recipients' records of a group frame, written and read.
use encedo_chat.Prelude.{
  Bool-cases, length, take, drop, length-append, take_ahead, drop_ahead, Bytes, be, read_be,
  length-be, read_be-be, ℕ, ◌%◌, ◌^◌, ◌<◌, ◌≡◌, refl, ap, ◌∙◌, ◌⊎◌, inl, inr, true, false, some,
  List, [], ◌∷◌, ◌++◌, arith,
}
use encedo_chat.JsMap.{lookup, set, lookup-set, bytes_eq, bytes_beq, bytes_beq_iff}
use encedo_chat.Wc.{concat}
use encedo_chat.Group.{Header, epoch_bytes, encode_header, decode_header}

-- A header of the fields' sizes, its numbers of 32 bits.
pub record IsHeader (h : Header) : Type 0 where
  pub gid : length h.gid ≡ 16
  pub sender_id : length h.sender_id ≡ 8
  pub epoch : h.epoch < 2 ^ 32
  pub ctr : h.ctr < 2 ^ 32

abbrev word : ℕ → Bytes
word n = be 4 (n % 2 ^ 32)

read_word : (n : ℕ) → n < 2 ^ 32 → read_be (be 4 (n % 2 ^ 32)) ≡ n
read_word n small =
    let e : n % 2 ^ 32 ≡ n = omega (arith, small) in rw e (read_be-be 4 n (omega (arith, small)))

pub decode_header-encode_header : (h : Header) → IsHeader h → decode_header (encode_header h) ≡ h
unfolding encode_header decode_header concat drop
decode_header-encode_header h v =
    let b = encode_header h in
    let rest = h.sender_id ++ (epoch_bytes h.epoch ++ (word h.ctr ++ [])) in
    let at_gid : drop 0 b ≡ h.gid ++ rest = refl in
    let at_id = drop_ahead b h.gid rest 0 16 at_gid v.gid in
    let at_epoch = drop_ahead b h.sender_id _ 16 8 at_id v.sender_id in
    let at_ctr =
      drop_ahead b (epoch_bytes h.epoch) _ 24 4 at_epoch (length-be 4 (h.epoch % 2 ^ 32)) in
    let gid : take 16 b ≡ h.gid = take_ahead b h.gid rest 0 16 at_gid v.gid in
    let sender_id : take 8 (drop 16 b) ≡ h.sender_id =
      take_ahead b h.sender_id _ 16 8 at_id v.sender_id in
    let epoch : read_be (take 4 (drop 24 b)) ≡ h.epoch =
      ap read_be
        (take_ahead b (epoch_bytes h.epoch) _ 24 4 at_epoch (length-be 4 (h.epoch % 2 ^ 32)))
      ∙ read_word h.epoch v.epoch in
    let ctr : read_be (take 4 (drop 28 b)) ≡ h.ctr =
      ap read_be
        (take_ahead b (be 4 (h.ctr % 2 ^ 32)) [] 28 4 at_ctr (length-be 4 (h.ctr % 2 ^ 32)))
      ∙ read_word h.ctr v.ctr in
    λ i. record { gid = gid i; sender_id = sender_id i; epoch = epoch i; ctr = ctr i }

pub length-nil : length {A = ℕ} [] ≡ 0
length-nil = refl

pub length-encode_header : (h : Header) → IsHeader h → length (encode_header h) ≡ 32
unfolding encode_header concat
length-encode_header h v =
    let gid = v.gid in
    let sender_id = v.sender_id in
    omega (
      arith,
      gid,
      sender_id,
      length-append h.gid (h.sender_id ++ (epoch_bytes h.epoch ++ (be 4 (h.ctr % 2 ^ 32) ++ []))),
      length-append h.sender_id (epoch_bytes h.epoch ++ (be 4 (h.ctr % 2 ^ 32) ++ [])),
      length-append (epoch_bytes h.epoch) (be 4 (h.ctr % 2 ^ 32) ++ []),
      length-append (be 4 (h.ctr % 2 ^ 32)) [],
      length-be 4 (h.epoch % 2 ^ 32),
      length-be 4 (h.ctr % 2 ^ 32),
      length-nil,
    )

-- Entries put into a map one after the other.
module _ {ℓ} {V : Type ℓ} where
  unfoldable pub set_all : List (Bytes × V) → List (Bytes × V) → List (Bytes × V)
  set_all [] m = m
  set_all ((k, v) ∷ es) m = set_all es (set k v m)

  module _ {κ} (k : Bytes) (P : V → Type κ) where
    -- A map has an entry with the property under the key.
    pub record Finds (m : List (Bytes × V)) : Type (ℓ ⊔ κ) where
      pub value : V
      pub found : lookup k m ≡ some value
      pub good : P value

    -- All entries under the key have the property …
    abbrev pub Good : List (Bytes × V) → Type κ
    Good [] = Unit
    Good ((j, v) ∷ es) = ((bytes_beq j k ≡ false) ⊎ P v) × Good es

    -- … and there is one.
    abbrev pub HasKey : List (Bytes × V) → Type 0
    HasKey [] = ⊥
    HasKey ((j, v) ∷ es) = (j ≡ k) ⊎ HasKey es

    set_all-keeps : (es m : List (Bytes × V)) → Good es → Finds m → Finds (set_all es m)
    unfolding set_all
    set_all-keeps [] m g f = f
    set_all-keeps ((j, v) ∷ es) m (g, gs) f =
        set_all-keeps es (set j v m) gs (elim (Bool-cases (bytes_beq j k)) [
          | inl same ↦ record {
            value = v;
            found = lookup-set j k v m ∙ rw same refl;
            good = elim g [ inl other ↦ absurd cc | inr good ↦ good ];
          }
          | inr other ↦ record {
            value = f.value;
            found = lookup-set j k v m ∙ rw other f.found;
            good = f.good;
          }
        ])

    pub set_all-Finds : (es m : List (Bytes × V)) → Good es → HasKey es → Finds (set_all es m)
    unfolding set_all
    set_all-Finds [] m g h = absurd h
    set_all-Finds ((j, v) ∷ es) m (g, gs) (inr h) = set_all-Finds es (set j v m) gs h
    set_all-Finds ((j, v) ∷ es) m (g, gs) (inl is) =
        let same : bytes_beq j k ≡ true = (bytes_beq_iff j k).1 is in
        set_all-keeps es (set j v m) gs (record {
          value = v;
          found = lookup-set j k v m ∙ rw same refl;
          good = elim g [ inl other ↦ absurd cc | inr good ↦ good ];
        })
