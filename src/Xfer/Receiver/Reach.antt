-- ===== src/Xfer/Receiver/Reach.antt =====
-- Every receiver that a session can bring about, by any sequence of calls and of arriving bytes.
use encedo_chat.Prelude.{ltb, Bool-cases, Bytes, ℕ, ◌-◌, ◌≡◌, refl, ap, ◌∙◌, inl, inr, ◌&&◌, arith}
use encedo_chat.Xfer.{Offer, chunks_of}
use encedo_chat.Xfer.Receiver.{
  Receiver, offered, finished, broken, is_receiving, is_finished, create_receiver, accept, reject,
  cancel, tick, on_frame, dispatch, take_chunk, confirm, fail,
}
use encedo_chat.Xfer.Receiver.Invariant.{IsReceiver, total, on_frame-IsReceiver}

-- One thing that can happen to a receiver. A session accepts only an offer that still waits.
pub data Step (r : Receiver) : Receiver → Type 0 where
  accepts : (now : ℕ) → r.state ≡ offered → Step r (accept r now).0
  rejects : Step r (reject r).0
  cancels : Step r (cancel r).0
  ticks : (now : ℕ) → Step r (tick r now).0
  hears : (b : Bytes) (now : ℕ) → Step r (on_frame r b now).0

pub data Reach (o : Offer) : Receiver → Type 0 where
  start : Reach o (create_receiver o)
  next : {r r' : Receiver} → Reach o r → Step r r' → Reach o r'

-- A receiver that waits has taken nothing.
pub record Holds (o : Offer) (r : Receiver) : Type 0 where
  pub books : IsReceiver r
  pub waits : r.state ≡ offered → r.want ≡ 0
  pub same : r.offer ≡ o

on_frame_waits :
    (r : Receiver) (b : Bytes) (now : ℕ)
    → (r.state ≡ offered → r.want ≡ 0)
    → ((on_frame r b now).0.state ≡ offered → (on_frame r b now).0.want ≡ 0)
unfolding on_frame dispatch take_chunk confirm fail
on_frame_waits r b now h = ground arith

on_frame_offer : (r : Receiver) (b : Bytes) (now : ℕ) → (on_frame r b now).0.offer ≡ r.offer
unfolding on_frame dispatch take_chunk confirm fail
on_frame_offer r b now = ground arith

create-Holds : (o : Offer) → o.chunks ≡ chunks_of o.size → Holds o (create_receiver o)
unfolding create_receiver
create-Holds o h = record {
  books = record {
    geometry = h;
    held = refl;
    kept = refl;
    progress = omega arith;
    more = λ h. cc;
    whole = λ h. cc;
  };
  waits = λ _. refl;
  same = refl;
}

broken-Holds : {o : Offer} (r : Receiver) → Holds o r → Holds o (record r { state = broken })
broken-Holds r v = record {
  books = record {
    geometry = v.books.geometry;
    held = v.books.held;
    kept = v.books.kept;
    progress = v.books.progress;
    more = λ h. cc;
    whole = λ h. cc;
  };
  waits = λ h. cc;
  same = v.same;
}

Step-Holds : {o : Offer} {r r' : Receiver} → Step r r' → Holds o r → Holds o r'
unfolding accept reject cancel tick fail chunks_of
Step-Holds {r} (accepts now w) v = record {
  books = record {
    geometry = v.books.geometry;
    held = v.books.held;
    kept = v.books.kept;
    progress = v.books.progress;
    more = λ h. omega (arith, v.waits w, v.books.geometry);
    whole = λ h. cc;
  };
  waits = λ h. cc;
  same = v.same;
}
Step-Holds {r} rejects v = broken-Holds r v
Step-Holds {r} cancels v = broken-Holds r v
Step-Holds {r} (ticks now) v =
    elim (Bool-cases (is_receiving r.state && ltb 60_000 (now - r.last))) [
      | inl late ↦ rw late (broken-Holds r v)
      | inr fine ↦ rw fine v
    ]
Step-Holds {r} (hears b now) v = record {
  books = on_frame-IsReceiver r b now v.books;
  waits = on_frame_waits r b now v.waits;
  same = on_frame_offer r b now ∙ v.same;
}

pub Reach-Holds : {o : Offer} {r : Receiver} → o.chunks ≡ chunks_of o.size → Reach o r → Holds o r
Reach-Holds {o} h start = create-Holds o h
Reach-Holds h (next w st) = Step-Holds st (Reach-Holds h w)

-- A receiver that has finished, whatever calls, clock ticks and bytes brought it there from the
-- offer, holds as many bytes as the offer said.
pub finished_whole :
    {o : Offer} {r : Receiver}
    → o.chunks ≡ chunks_of o.size
    → Reach o r
    → r.state ≡ finished
    → total r.parts ≡ o.size
finished_whole h w e =
    let v = Reach-Holds h w in
    let size = ap (λ (o : Offer). o.size) v.same in
    v.books.held ∙ v.books.whole (ap is_finished e) ∙ size
