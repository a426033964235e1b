-- ===== src/Group/Talk.antt =====
-- Everything that a member says in one epoch reaches another in order.
use encedo_chat.Prelude.{
  length, Bytes, ℕ, ◌+◌, ◌^◌, ◌≤◌, ◌≡◌, refl, ◌∙◌, true, Option, none, some, List, [], ◌∷◌, arith,
}
use encedo_chat.Crypto.{Crypto, IsHash, IsAead}
use encedo_chat.JsMap.{lookup-set, bytes_eq, bytes_beq, bytes_beq_iff}
use encedo_chat.Senderkey.{seal}
use encedo_chat.Senderkey.InStep.{next_receiver, next_receiver-AreInStep}
use encedo_chat.Group.{GroupSession, mac_key_for, send, receive}
use encedo_chat.Group.Delivery.{AreMembers, HasChain, moved, receive-send}

module _ (c : Crypto) (unb64 : Bytes → Bytes) where
  -- What the recipient reads of the messages, each with the time it arrives.
  unfoldable pub talk :
      GroupSession → GroupSession → List (ℕ × Bytes) → List (Option (Bytes × Bytes))
  talk s r [] = []
  talk s r ((now, pt) ∷ xs) =
      let (behind, frame) = send c unb64 s pt in
      let out = receive c unb64 r now frame none in out.result ∷ talk behind out.session xs

  unfoldable pub said : Bytes → List (ℕ × Bytes) → List (Option (Bytes × Bytes))
  said from [] = []
  said from ((now, pt) ∷ xs) = some (from, pt) ∷ said from xs

  module _ (hash : IsHash c) (aead : IsAead c) where
    still_members :
        (s r : GroupSession) (pt : Bytes) (now : ℕ)
        → AreMembers c unb64 s r
        → (w : HasChain c unb64 aead s r)
        → AreMembers c unb64
            (send c unb64 s pt).0
            (moved c unb64 r s.id.pub_ (next_receiver c aead w.chain now))
    unfolding send mac_key_for
    still_members s r pt now v w = record {
      gid = v.gid;
      epoch = v.epoch;
      s_id = v.s_id;
      r_id = v.r_id;
      apart = v.apart;
      index = v.index;
      to_listed = v.to_listed;
      to_alone = v.to_alone;
      from_listed = v.from_listed;
      from_alone = v.from_alone;
      few = v.few;
      agree = v.agree;
    }

    still_in_step :
        (s r : GroupSession) (pt : Bytes) (now : ℕ)
        → (w : HasChain c unb64 aead s r)
        → HasChain c unb64 aead
            (send c unb64 s pt).0
            (moved c unb64 r s.id.pub_ (next_receiver c aead w.chain now))
    unfolding send
    still_in_step s r pt now w =
        let self : bytes_beq s.id.pub_ s.id.pub_ ≡ true =
          (bytes_beq_iff s.id.pub_ s.id.pub_).1 refl in
        let chain = next_receiver c aead w.chain now in
        record {
          chain = chain;
          found = lookup-set s.id.pub_ s.id.pub_ chain r.receivers ∙ rw self refl;
          in_step = next_receiver-AreInStep c aead s.send_ w.chain now _ pt w.in_step;
        }

    -- Whatever a member says, one message after the other, another member of the group whose copy of
    -- its chain is in step reads it as said by that member: they list each other, no sender ids
    -- collide with theirs, their pairwise MAC keys agree, at most 255 are in the group, and the
    -- counter stays within 32 bits; the AEAD opens what it sealed and hashes have their sizes.
    pub talk-said :
        (s r : GroupSession) (xs : List (ℕ × Bytes))
        → AreMembers c unb64 s r
        → HasChain c unb64 aead s r
        → s.send_.n + length xs ≤ 2 ^ 32
        → talk s r xs ≡ said s.id.pub_ xs
    unfolding talk said send
    talk-said s r [] v w room = refl
    talk-said s r ((now, pt) ∷ xs) v w room =
        let read = receive-send c unb64 hash aead s r pt v w (omega (arith, room)) now in
        let behind = (send c unb64 s pt).0 in
        let rest =
          talk-said behind (moved c unb64 r s.id.pub_ (next_receiver c aead w.chain now)) xs
            (still_members s r pt now v w) (still_in_step s r pt now w)
            (unfold send seal in omega (arith, room)) in
        (λ i. (read i).result ∷ talk behind (read i).session xs)
        ∙ (λ i. some (s.id.pub_, pt) ∷ rest i)
