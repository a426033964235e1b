-- ===== src/Group/Tests.antt =====
-- Group sessions at concrete inputs.
use encedo_chat.Prelude.{
  take, drop, get_or, replicate, Bytes, ℕ, ◌+◌, ◌≡◌, refl, ◌⊎◌, inl, inr, none, List, [], ◌∷◌,
  arith,
}
use encedo_chat.JsMap.{lookup, set}
use encedo_chat.Senderkey.InStep.{AllBelow}
use encedo_chat.Toy.{toy, toy-IsHash, toy-IsAead}
use encedo_chat.Senderkey.{receiver_from, max_skip, skipped_ttl_ms, send_chain_from}
use encedo_chat.Group.{
  GroupId, Member, GroupSession, create, receive, nothing, send, set_members, index_members,
  sender_id_of, mac_key_for, msg_mac_key_for, derive_with,
}
use encedo_chat.Group.Records.{IsListed, IsAlone}
use encedo_chat.Group.Delivery.{AreMembers, HasChain}
use encedo_chat.Group.Talk.{talk, said, talk-said}
use encedo_chat.Group.Verified.{IsVerified, macs_of, receive-cases}
use encedo_chat.Group.Holding.{Input, frame, sender_key, run, IsBounded, run-IsBounded}

-- A text is its own base64 here, and a pair's secret the sum of the first bytes of its keys.
abbrev as_is : Bytes → Bytes
as_is x = x

abbrev identity : Bytes → GroupId
identity p = record {
  pub_ = p;
  ecdh = λ peer kid. (get_or p 0 0 + get_or peer 0 0) ∷ [];
  derive = none;
}

abbrev member : Bytes → Member
member p = record { pub_ = p; kid = none }

abbrev alice : Bytes
alice = 1 ∷ []

abbrev bob : Bytes
bob = 2 ∷ 2 ∷ []

abbrev members : List Member
members = member alice ∷ member bob ∷ []

abbrev gid : Bytes
gid = 4 ∷ 4 ∷ 4 ∷ 4 ∷ 4 ∷ 4 ∷ 4 ∷ 4 ∷ 4 ∷ 4 ∷ 4 ∷ 4 ∷ 4 ∷ 4 ∷ 4 ∷ 4 ∷ []

abbrev session : Bytes → Bytes → GroupSession
session p key = create toy as_is (identity p) gid 3 (8 ∷ []) members key max_skip skipped_ttl_ms

abbrev sender : GroupSession
sender = session alice (5 ∷ [])

-- Bob, whom alice's key has reached.
abbrev recipient : GroupSession
recipient = record (session bob (6 ∷ [])) {
  receivers = (alice, receiver_from (5 ∷ []) 0 max_skip skipped_ttl_ms) ∷ [];
}

are_members : AreMembers toy as_is sender recipient
unfolding create set_members index_members sender_id_of mac_key_for msg_mac_key_for derive_with
    IsListed IsAlone set take replicate get_or
are_members = record {
  gid = refl;
  epoch = omega arith;
  s_id = refl;
  r_id = refl;
  apart = refl;
  index = refl;
  to_listed = inr (inl refl);
  to_alone = (inr refl, (inl refl, tt));
  from_listed = inl refl;
  from_alone = (inl refl, (inr refl, tt));
  few = omega arith;
  agree = refl;
}

has_chain : HasChain toy as_is toy-IsAead sender recipient
unfolding create set_members send_chain_from receiver_from lookup AllBelow
has_chain = record {
  chain = receiver_from (5 ∷ []) 0 max_skip skipped_ttl_ms;
  found = refl;
  in_step = record { key = refl; n = refl; below = tt };
}

abbrev texts : List (ℕ × Bytes)
texts = (100, 10 ∷ []) ∷ (200, 20 ∷ 21 ∷ []) ∷ []

talk-said_example : talk toy as_is sender recipient texts ≡ said toy as_is alice texts
unfolding create set_members send_chain_from
talk-said_example =
    talk-said toy as_is toy-IsHash toy-IsAead sender recipient texts are_members has_chain
      (omega arith)

receive-cases_example :
    (receive toy as_is recipient 100 (send toy as_is sender (10 ∷ [])).1 none
      ≡ nothing recipient none)
    ⊎ IsVerified toy as_is recipient
        (take 32 (drop 2 (send toy as_is sender (10 ∷ [])).1))
        (macs_of toy as_is (send toy as_is sender (10 ∷ [])).1).0
        (macs_of toy as_is (send toy as_is sender (10 ∷ [])).1).1
receive-cases_example =
    receive-cases toy as_is recipient 100 (send toy as_is sender (10 ∷ [])).1 none

-- A frame comes before its sender's key, and the key after it.
abbrev inputs : List (Input toy as_is)
inputs = frame 100 (send toy as_is sender (10 ∷ [])).1 ∷ sender_key 150 alice (5 ∷ []) 0 ∷ []

run-IsBounded_example : IsBounded (run toy as_is (session bob (6 ∷ [])) inputs).held
unfolding IsBounded create set_members
run-IsBounded_example = run-IsBounded toy as_is (session bob (6 ∷ [])) inputs tt
