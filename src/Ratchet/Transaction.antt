-- ===== src/Ratchet/Transaction.antt =====
-- `decrypt` is transactional: the state moves only where the frame opened.
use encedo_chat.Prelude.{
  Bool-cases, Option-cases, Bytes, ◌≡◌, refl, inl, inr, Bool, true, false, Option, none, some,
}
use encedo_chat.Ratchet.Receiving.{open_current, open_frame}
use encedo_chat.Ratchet.State.{every_same}
use encedo_chat.Crypto.{Crypto}
use encedo_chat.Ratchet.State.{Opts, Ratchet, World, Outcome, null, opened, every_same}
use encedo_chat.Ratchet.Receiving.{open_stashed, open_same, open_turn, open_frame}
use encedo_chat.Ratchet.Headers.{Header}
use encedo_chat.Ratchet.Skipped

abbrev pub is_opened : Outcome → Bool
is_opened (opened pt) = true
is_opened _ = false

module _ (c : Crypto) (o : Opts) (r : Ratchet) (w : World) where
  -- The case that a frame is.
  pub data Case (h : Header) (header ct : Bytes) : Ratchet × Outcome → Type 0 where
    stashed :
        (mk : Bytes)
        → Skipped.peek r.skipped h.dh_pub h.n ≡ some mk
        → Case h header ct (open_stashed c r w h header ct mk)
    same :
        (ck : Bytes)
        → Skipped.peek r.skipped h.dh_pub h.n ≡ none
        → every_same h.dh_pub r.dh_peer_pub ≡ true
        → r.ck_recv ≡ some ck
        → Case h header ct (open_same c o r w h header ct ck)
    unopened : Case h header ct (r, null)
    turn :
        Skipped.peek r.skipped h.dh_pub h.n ≡ none
        → every_same h.dh_pub r.dh_peer_pub ≡ false
        → Case h header ct (open_turn c o r w h header ct)

  current-Case :
      (h : Header) (header ct : Bytes) (k : Option Bytes)
      → r.ck_recv ≡ k
      → Skipped.peek r.skipped h.dh_pub h.n ≡ none
      → every_same h.dh_pub r.dh_peer_pub ≡ true
      → Case h header ct (open_current c o r w h header ct k)
  unfolding open_current
  current-Case h header ct none e missing known = unopened
  current-Case h header ct (some ck) e missing known = same ck missing known e

  pub open_frame-Case :
      (h : Header) (header ct : Bytes) → Case h header ct (open_frame c o r w h header ct)
  unfolding open_frame
  open_frame-Case h header ct = elim (Option-cases (Skipped.peek r.skipped h.dh_pub h.n)) [
    | inr (mk, held) ↦ rw (held, open_frame) (stashed mk held)
    | inl missing ↦ elim (Bool-cases (every_same h.dh_pub r.dh_peer_pub)) [
      | inr new ↦ rw (missing, new, open_frame) (turn missing new)
      | inl known ↦
          rw (missing, known, open_frame) (current-Case h header ct r.ck_recv refl missing known)
    ]
  ]
