-- ===== src/Group/Verified.antt =====
-- Nothing in a session moves, and nothing is asked of anybody, for a frame whose MAC does not verify.
use encedo_chat.Prelude.{
  ltb, ◌==◌, Bool-cases, Option-cases, length, take, drop, get_or, Bytes, ℕ, ◌+◌, ◌*◌, ◌≡◌, refl,
  ◌⊎◌, inl, inr, true, false, not, ◌||◌, Option, some, List, [],
}
use encedo_chat.Crypto.{Crypto}
use encedo_chat.JsMap.{lookup, bytes_eq, bytes_beq}
use encedo_chat.Senderkey.{SenderReceiver, verify}
use encedo_chat.Group.{
  Member, GroupSession, decode_header, read_macs, mac_key_for, receive, nothing, check_mac,
}

module _ (c : Crypto) (unb64 : Bytes → Bytes) where
  -- A frame is another member's, and has a record for us whose MAC verifies under the pair's key.
  pub record IsVerified (s : GroupSession) (header : Bytes) (macs : List (Bytes × Bytes))
      (ct : Bytes) : Type 0 where
    pub sender : Member
    pub mac : Bytes
    pub known : lookup (decode_header header).sender_id s.by_id ≡ some sender
    pub other : bytes_beq sender.pub_ s.id.pub_ ≡ false
    pub own : lookup s.my_sender_id macs ≡ some mac
    pub good : verify c (mac_key_for c unb64 s sender.pub_) header ct mac ≡ true

  check_mac_cases :
      (s : GroupSession) (now : ℕ) (frame header ct : Bytes) (use_ : Option SenderReceiver)
      (macs : List (Bytes × Bytes))
      → (check_mac c unb64 s now frame use_ header macs ct ≡ nothing s use_)
        ⊎ IsVerified s header macs ct
  unfolding check_mac
  check_mac_cases s now frame header ct use_ macs =
      elim (Option-cases (lookup (decode_header header).sender_id s.by_id)) [
        | inl unknown ↦ inl (rw (unknown, check_mac) refl)
        | inr (sender, known) ↦ elim (Bool-cases (bytes_beq sender.pub_ s.id.pub_)) [
          | inl echo ↦ inl (rw (known, echo, check_mac) refl)
          | inr other ↦ elim (Option-cases (lookup s.my_sender_id macs)) [
            | inl absent ↦ inl (rw (known, other, absent, check_mac) refl)
            | inr (mac, own) ↦
                elim (Bool-cases (verify c (mac_key_for c unb64 s sender.pub_) header ct mac)) [
                  | inl good ↦ inr (record {
                    sender = sender;
                    mac = mac;
                    known = known;
                    other = other;
                    own = own;
                    good = good;
                  })
                  | inr forged ↦ inl (rw (known, other, own, forged, check_mac) refl)
                ]
          ]
        ]
      ]

  -- The records of a frame with the bytes behind them.
  abbrev pub macs_of : Bytes → List (Bytes × Bytes) × Bytes
  macs_of frame = read_macs (get_or frame 34 0) (drop 35 frame) []

  -- Whatever bytes arrive, either the session, its chains included, stays as it was, nothing is
  -- returned and no key is asked for, or the frame is from another member of the group and carries
  -- for us the MAC of its header and text under the pair's key.
  pub receive-cases :
      (s : GroupSession) (now : ℕ) (frame : Bytes) (use_ : Option SenderReceiver)
      → (receive c unb64 s now frame use_ ≡ nothing s use_)
        ⊎ IsVerified s (take 32 (drop 2 frame)) (macs_of frame).0 (macs_of frame).1
  unfolding receive
  receive-cases s now frame use_ =
      elim (Bool-cases
        (ltb (length frame) 35 || not (get_or frame 0 0 == 0x20) || not (get_or frame 1 0 == 3))) [
          | inl bad ↦ inl (rw bad refl)
          | inr fine ↦ elim (Bool-cases (ltb (length frame) (35 + get_or frame 34 0 * 40))) [
            | inl short ↦ inl (rw (fine, short) refl)
            | inr whole ↦
                rw (fine, whole)
                  (check_mac_cases s now frame (take 32 (drop 2 frame)) (macs_of frame).1 use_
                    (macs_of frame).0)
          ]
        ]
