-- ===== src/Xfer/Sender/Invariant.antt =====
-- What holds of a sender whatever frames and clock ticks arrive.
use encedo_chat.Prelude.{
  ltb, if◌then◌else◌, Bool-cases, length, get_or, Bytes, ℕ, ◌≤◌, ◌≡◌, refl, inl, inr, Bool, true,
  false, not, ◌||◌, List, [], ◌∷◌, arith,
}
use encedo_chat.Xfer.{Why, rejected, cancelled_peer, progress}
use encedo_chat.Xfer.Sender.{
  on_accept, on_reject, on_cancel, on_receipt, on_done, dispatch, on_frame, fail,
}
use encedo_chat.Xfer.{Ev, progress}
use encedo_chat.Xfer.Sender.{
  Sender, State, offering, sending, finished, broken, is_offering, is_sending, is_finished, fail,
  on_accept, on_reject, on_cancel, on_receipt, on_done, dispatch, on_frame,
}

-- The states a sender may go to: an offer is accepted or broken off, a transfer ends or breaks, and
-- what has finished or broken stays so.
pub data Moves : State → State → Type 0 where
  stays : (x : State) → Moves x x
  starts : Moves offering sending
  gives_up : Moves offering broken
  ends : Moves sending finished
  breaks : Moves sending broken

-- No event shows more than the size of the file.
abbrev pub WithinSize : ℕ → List Ev → Type 0
WithinSize size [] = Unit {0}
WithinSize size (progress d total ∷ evs) = (d ≤ size) × (total ≡ size) × WithinSize size evs
WithinSize size (e ∷ evs) = WithinSize size evs

pub record IsStep (s : Sender) (out : Sender × List Ev) : Type 0 where
  pub moves : Moves s.state out.0.state
  pub offer : out.0.offer ≡ s.offer
  pub sent : out.0.sent ≡ s.sent
  pub acked : s.acked_count ≤ out.0.acked_count
  pub shown : WithinSize s.offer.size out.1

-- Moves of a state that is known.
move_fail : (x : State) → is_finished x ≡ false → Moves x broken
move_fail offering h = gives_up
move_fail sending h = breaks
move_fail finished h = absurd (cc)
move_fail broken h = stays broken

move_accept : (x : State) → is_offering x ≡ true → Moves x sending
move_accept offering h = starts
move_accept sending h = absurd (cc)
move_accept finished h = absurd (cc)
move_accept broken h = absurd (cc)

move_done : (x : State) → is_sending x ≡ true → Moves x finished
move_done offering h = absurd (cc)
move_done sending h = ends
move_done finished h = absurd (cc)
move_done broken h = absurd (cc)

offering_live : (x : State) → is_offering x ≡ true → is_finished x ≡ false
offering_live offering h = refl
offering_live _ h = absurd (cc)

sending_live : (x : State) → is_sending x ≡ true → is_finished x ≡ false
sending_live sending h = refl
sending_live _ h = absurd (cc)

still : (s : Sender) → IsStep s (s, [])
still s = record {
  moves = stays s.state;
  offer = refl;
  sent = refl;
  acked = omega arith;
  shown = tt;
}

fail-IsStep : (s : Sender) (why : Why) → is_finished s.state ≡ false → IsStep s (fail s why)
unfolding fail
fail-IsStep s why h = record {
  moves = move_fail s.state h;
  offer = refl;
  sent = refl;
  acked = omega arith;
  shown = tt;
}

on_accept-IsStep : (s : Sender) → IsStep s (on_accept s)
unfolding on_accept
on_accept-IsStep s = elim (Bool-cases (is_offering s.state)) [
  | inl h ↦ rw h (record {
    moves = move_accept s.state h;
    offer = refl;
    sent = refl;
    acked = omega arith;
    shown = tt;
  })
  | inr h ↦ rw h (still s)
]

on_reject-IsStep : (s : Sender) → IsStep s (on_reject s)
unfolding on_reject
on_reject-IsStep s = elim (Bool-cases (is_offering s.state)) [
  | inl h ↦ rw h (fail-IsStep s rejected (offering_live s.state h))
  | inr h ↦ rw h (still s)
]

on_cancel-IsStep : (s : Sender) → IsStep s (on_cancel s)
unfolding on_cancel
on_cancel-IsStep s = elim (Bool-cases (is_finished s.state)) [
  | inl h ↦ rw h (still s)
  | inr h ↦ rw h (fail-IsStep s cancelled_peer h)
]

on_receipt-IsStep : (s : Sender) (b : Bytes) → IsStep s (on_receipt s b)
unfolding on_receipt
on_receipt-IsStep s b = elim (Bool-cases (not (is_sending s.state) || ltb (length b) 10)) [
  | inl h ↦ rw h (still s)
  | inr h ↦ rw h (record {
    moves = stays s.state;
    offer = refl;
    sent = refl;
    acked = ground arith;
    shown = (omega arith, refl, tt);
  })
]

on_done-IsStep : (s : Sender) → IsStep s (on_done s)
unfolding on_done
on_done-IsStep s = elim (Bool-cases (is_sending s.state)) [
  | inl h ↦ rw h (record {
    moves = move_done s.state h;
    offer = refl;
    sent = refl;
    acked = omega arith;
    shown = (omega arith, refl, tt);
  })
  | inr h ↦ rw h (still s)
]

IsStep-if :
    {s : Sender} (t : Bool) (a b : Sender × List Ev)
    → IsStep s a
    → IsStep s b
    → IsStep s (if t then a else b)
IsStep-if true a b ha hb = ha
IsStep-if false a b ha hb = hb

dispatch-IsStep : (s : Sender) (sub : ℕ) (b : Bytes) → IsStep s (dispatch s sub b)
unfolding dispatch
dispatch-IsStep s sub b = IsStep-if _ _ _ (on_accept-IsStep s) (
    IsStep-if _ _ _ (on_reject-IsStep s) (
      IsStep-if _ _ _ (on_cancel-IsStep s)
        (IsStep-if _ _ _ (on_receipt-IsStep s b) (IsStep-if _ _ _ (on_done-IsStep s) (still s)))))

-- Whatever bytes arrive, a sender moves only along its state machine, its offer and its place in the
-- file stay, what is confirmed never falls, and no progress it shows passes the size of the file.
pub on_frame-IsStep : (s : Sender) (b : Bytes) (now : ℕ) → IsStep s (on_frame s b now)
unfolding on_frame
on_frame-IsStep s b now =
    let v = dispatch-IsStep (record s { last = now }) (get_or b 1 0) b in
    IsStep-if _ _ _ (still s)
      (record { moves = v.moves; offer = v.offer; sent = v.sent; acked = v.acked; shown = v.shown })
