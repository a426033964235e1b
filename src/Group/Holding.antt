-- ===== src/Group/Holding.antt =====
-- How many frames a session holds for a member whose key has not come.
use encedo_chat.Prelude.{
  ltb, leb, ◌==◌, Bool-cases, Option-cases, length, take, drop, get_or, length-append, length-drop,
  Bytes, ℕ, ◌+◌, ◌-◌, ◌*◌, ◌≤◌, ◌≡◌, refl, sym, subst, inl, inr, not, ◌||◌, Option, none, some,
  List, [], ◌∷◌, ◌++◌, arith,
}
use encedo_chat.Crypto.{Crypto}
use encedo_chat.JsMap.{lookup, set, delete, bytes_eq, bytes_beq}
use encedo_chat.Ratchet.State.{Outcome, null, opened, over_bound}
use encedo_chat.Senderkey.{SenderReceiver, receiver_from, verify, open_text}
use encedo_chat.Group.{
  GroupSession, Received, Held, take_last, or_empty, recent, decode_header, mac_key_for, receive,
  check_mac, open_verified, chain_for, answer, keep_chain, hold, hold_ms,
}
use encedo_chat.Group.Verified.{macs_of}
use encedo_chat.Group.Keys.{
  Released, has, sort_out, release_all, keep_held, release, release_if_held, is_behind,
  set_sender_key,
}

-- At most 32 frames are held for each member.
unfoldable pub IsBounded : List (Bytes × List Held) → Type 0
IsBounded [] = Unit {0}
IsBounded ((from, q) ∷ held) = (length q ≤ 32) × IsBounded held

set-IsBounded :
    (from : Bytes) (q : List Held) (held : List (Bytes × List Held))
    → length q ≤ 32
    → IsBounded held
    → IsBounded (set from q held)
unfolding IsBounded set
set-IsBounded from q [] few v = (few, tt)
set-IsBounded from q ((j, w) ∷ held) few (here, v) = elim (Bool-cases (bytes_beq j from)) [
  | inl same ↦ rw same (few, v)
  | inr other ↦ rw other (here, set-IsBounded from q held few v)
]

delete-IsBounded :
    (from : Bytes) (held : List (Bytes × List Held)) → IsBounded held → IsBounded (delete from held)
unfolding IsBounded delete
delete-IsBounded from [] v = tt
delete-IsBounded from ((j, w) ∷ held) (here, v) = elim (Bool-cases (bytes_beq j from)) [
  | inl same ↦ rw same (delete-IsBounded from held v)
  | inr other ↦ rw other (here, delete-IsBounded from held v)
]

length-take_last : (n : ℕ) (q : List Held) → length (take_last n q) ≤ n
length-take_last n q = omega (arith, length-drop (length q - n) q)

length-one : (x : Held) → length (x ∷ []) ≡ 1
length-one x = refl

module _ (c : Crypto) (unb64 : Bytes → Bytes) where
  hold-IsBounded :
      (s : GroupSession) (now : ℕ) (frame from : Bytes)
      → IsBounded s.held
      → IsBounded (hold c unb64 s now frame from).held
  unfolding hold
  hold-IsBounded s now frame from v =
      let q = recent now (or_empty (lookup from s.held)) in
      let x : Held = record { frame = frame; at_ = now } in
      set-IsBounded from (take_last 31 q ++ (x ∷ [])) s.held
        (omega
          (arith, length-append (take_last 31 q) (x ∷ []), length-take_last 31 q, length-one x))
        v

  held_answer :
      (s : GroupSession) (use_ : Option SenderReceiver) (from : Bytes) (r : SenderReceiver)
      (o : Outcome)
      → (answer c unb64 s use_ from (r, o)).session.held ≡ s.held
  unfolding answer keep_chain
  held_answer s none from r null = refl
  held_answer s none from r (opened pt) = refl
  held_answer s none from r over_bound = refl
  held_answer s (some u) from r null = refl
  held_answer s (some u) from r (opened pt) = refl
  held_answer s (some u) from r over_bound = refl

  open_verified-IsBounded :
      (s : GroupSession) (now : ℕ) (frame : Bytes) (use_ : Option SenderReceiver)
      (from header ct : Bytes)
      → IsBounded s.held
      → IsBounded (open_verified c unb64 s now frame use_ from header ct).session.held
  open_verified-IsBounded s now frame use_ from header ct v =
      elim (Option-cases (chain_for c unb64 s use_ from)) [
        | inl missing ↦
            unfold open_verified in rw (missing, open_verified) (hold-IsBounded s now frame from v)
        | inr (r, found) ↦
            let out = open_text c r now (decode_header header).ctr header ct in
            unfold open_verified in
            rw (found, open_verified)
              (subst IsBounded (sym (held_answer s use_ from out.0 out.1)) v)
      ]

  check_mac-IsBounded :
      (s : GroupSession) (now : ℕ) (frame header ct : Bytes) (use_ : Option SenderReceiver)
      (macs : List (Bytes × Bytes))
      → IsBounded s.held
      → IsBounded (check_mac c unb64 s now frame use_ header macs ct).session.held
  unfolding check_mac
  check_mac-IsBounded s now frame header ct use_ macs v =
      elim (Option-cases (lookup (decode_header header).sender_id s.by_id)) [
        | inl unknown ↦ rw (unknown, check_mac) v
        | inr (sender, known) ↦ elim (Bool-cases (bytes_beq sender.pub_ s.id.pub_)) [
          | inl echo ↦ rw (known, echo, check_mac) v
          | inr other ↦ elim (Option-cases (lookup s.my_sender_id macs)) [
            | inl absent ↦ rw (known, other, absent, check_mac) v
            | inr (mac, own) ↦
                elim (Bool-cases (verify c (mac_key_for c unb64 s sender.pub_) header ct mac)) [
                  | inl good ↦
                      rw (known, other, own, good, check_mac)
                        (open_verified-IsBounded s now frame use_ sender.pub_ header ct v)
                  | inr forged ↦ rw (known, other, own, forged, check_mac) v
                ]
          ]
        ]
      ]

  receive-IsBounded :
      (s : GroupSession) (now : ℕ) (frame : Bytes) (use_ : Option SenderReceiver)
      → IsBounded s.held
      → IsBounded (receive c unb64 s now frame use_).session.held
  unfolding receive
  receive-IsBounded s now frame use_ v =
      elim (Bool-cases
        (ltb (length frame) 35 || not (get_or frame 0 0 == 0x20) || not (get_or frame 1 0 == 3))) [
          | inl bad ↦ rw bad v
          | inr fine ↦ elim (Bool-cases (ltb (length frame) (35 + get_or frame 34 0 * 40))) [
            | inl short ↦ rw (fine, short) v
            | inr whole ↦
                rw (fine, whole)
                  (check_mac-IsBounded s now frame (take 32 (drop 2 frame))
                    (macs_of c unb64 frame).1 use_ (macs_of c unb64 frame).0 v)
          ]
        ]

  session_sort_out :
      (out : Received) (x : Held) (rest : Released)
      → (sort_out c unb64 out x rest).session ≡ rest.session
  session_sort_out out x rest = elim (Option-cases out.result) [
    | inl e ↦ unfold sort_out in rw (e, sort_out) refl
    | inr (pt, e) ↦ unfold sort_out in rw (e, sort_out) refl
  ]

  release_all-IsBounded :
      (s : GroupSession) (now : ℕ) (use_ : Option SenderReceiver) (q : List Held)
      → IsBounded s.held
      → IsBounded (release_all c unb64 s now use_ q).session.held
  unfolding release_all
  release_all-IsBounded s now use_ [] v = v
  release_all-IsBounded s now use_ (x ∷ q) v =
      let out = receive c unb64 s now x.frame use_ in
      let rest = release_all c unb64 out.session now out.use_ q in
      elim (Bool-cases (leb hold_ms (now - x.at_))) [
        | inl old ↦ rw old (release_all-IsBounded s now use_ q v)
        | inr young ↦ rw young (
            subst (λ t. IsBounded t.held) (sym (session_sort_out out x rest))
              (release_all-IsBounded out.session now out.use_ q
                (receive-IsBounded s now x.frame use_ v)))
      ]

  keep_held-IsBounded :
      (from : Bytes) (out : Released)
      → IsBounded out.session.held
      → IsBounded (keep_held c unb64 from out).0.held
  keep_held-IsBounded from out v = by_kept from out out.keep refl v
    where
      by_kept :
          (from : Bytes) (out : Released) (kept : List Held)
          → out.keep ≡ kept
          → IsBounded out.session.held
          → IsBounded (keep_held c unb64 from out).0.held
      by_kept from out [] e v = unfold keep_held in rw (e, keep_held) v
      by_kept from out (x ∷ xs) e v =
          unfold keep_held in rw (e, keep_held) (set-IsBounded from _ _ (length-take_last 32 _) v)

  release_if_held-IsBounded :
      (s : GroupSession) (now : ℕ) (from : Bytes) (use_ : Option SenderReceiver)
      → IsBounded s.held
      → IsBounded (release_if_held c unb64 s now from use_).0.held
  unfolding release_if_held release
  release_if_held-IsBounded s now from use_ v = elim (Bool-cases (has (lookup from s.held))) [
    | inl some_held ↦ rw some_held (
        keep_held-IsBounded from
          (release_all c unb64 (record s { held = delete from s.held }) now use_
            (or_empty (lookup from s.held)))
          (release_all-IsBounded (record s { held = delete from s.held }) now use_ _
            (delete-IsBounded from s.held v)))
    | inr none_held ↦ rw none_held v
  ]

  set_sender_key-IsBounded :
      (s : GroupSession) (now : ℕ) (from chain_key : Bytes) (ctr : ℕ)
      → IsBounded s.held
      → IsBounded (set_sender_key c unb64 s now from chain_key ctr).0.held
  unfolding set_sender_key
  set_sender_key-IsBounded s now from chain_key ctr v =
      let r = receiver_from chain_key ctr s.max_skip s.ttl_ms in
      elim (Bool-cases (bytes_beq from s.id.pub_)) [
        | inl self ↦ rw self v
        | inr other ↦ elim (Bool-cases (is_behind c unb64 (lookup from s.receivers) ctr)) [
          | inl behind ↦ rw (other, behind) (release_if_held-IsBounded s now from (some r) v)
          | inr ahead ↦
              rw (other, ahead)
                (release_if_held-IsBounded (record s { receivers = set from r s.receivers }) now
                  from none v)
        ]
      ]

  -- What a session is told, each with the time it happens: a frame arrives, or a member's key.
  pub data Input : Type 0 where
    frame : ℕ → Bytes → Input
    sender_key : ℕ → Bytes → Bytes → ℕ → Input

  unfoldable pub run : GroupSession → List Input → GroupSession
  run s [] = s
  run s (frame now bytes ∷ is) = run (receive c unb64 s now bytes none).session is
  run s (sender_key now from chain_key ctr ∷ is) =
      run (set_sender_key c unb64 s now from chain_key ctr).0 is

  -- However frames and sender keys arrive, at most 32 frames are held for each member, where no more
  -- were before.
  pub run-IsBounded :
      (s : GroupSession) (is : List Input) → IsBounded s.held → IsBounded (run s is).held
  unfolding run
  run-IsBounded s [] v = v
  run-IsBounded s (frame now bytes ∷ is) v =
      run-IsBounded (receive c unb64 s now bytes none).session is
        (receive-IsBounded s now bytes none v)
  run-IsBounded s (sender_key now from chain_key ctr ∷ is) v =
      run-IsBounded (set_sender_key c unb64 s now from chain_key ctr).0 is
        (set_sender_key-IsBounded s now from chain_key ctr v)
