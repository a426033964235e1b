-- ===== src/Queue/Tests.antt =====
-- The daemon's queue at concrete inputs.
use encedo_chat.Prelude.{Bytes, ◌≡◌, refl, ◌⊎◌, inl, true, false, Option, none, some, [], ◌∷◌}
use encedo_chat.JsMap.{lookup, set, delete, bytes_eq}
use encedo_chat.Outbox.{
  Entry, Qid, filter, due, add, push, merge_first, drop_first, window_passed, insert, sort,
  throttled, delivered,
}
use encedo_chat.Queue.{
  Queue, confirmed, unconfirmed, World, submit, submit_now, is_in, fly, flying, find_entry, ack,
  flush, flush_all, flush_entry, without,
}
use encedo_chat.Queue.Keeps.{Waits, is_confirmed, flush_keeps}

abbrev pub_ : Bytes
pub_ = 1 ∷ []

abbrev report : Option Bytes
report = some (7 ∷ [])

abbrev unanswered : Qid → World
unanswered qid = record { now = 2000; resent = false; answer = unconfirmed (9 ∷ []); later = 2100 }

abbrev start : Queue
start = record {
  outbox = record { entries = []; last_sent = []; seq = 0 };
  inflight = [];
  flushing = [];
  online = pub_ ∷ [];
}

-- A report goes out and is not confirmed in time.
abbrev first : Queue
first = (submit start pub_ (10 ∷ []) none report 1000 1100 (unconfirmed (5 ∷ [])) unanswered).0

abbrev waiting : Entry
waiting = record {
  qid = (1000, 1);
  to = pub_;
  text = 10 ∷ [];
  created = 1000;
  expires = 86401000;
  key = report;
  merged = 0;
}

flush_keeps_example :
    Waits waiting (flush first pub_ 2000 unanswered).outbox.entries
    ⊎ (is_confirmed (unanswered waiting.qid).answer ≡ true)
unfolding submit submit_now is_in fly throttled due filter sort insert window_passed lookup set add
    push merge_first drop_first Waits
flush_keeps_example = flush_keeps waiting unanswered first pub_ 2000 (inl refl)

-- The next report merges into the one in flight, and the confirmation of the first removes both: the
-- newer text never goes out.
abbrev second : Queue
second = (submit first pub_ (20 ∷ []) none report 1500 1600 confirmed unanswered).0

merged_lost : (ack second (5 ∷ []) 1700).outbox.entries ≡ []
unfolding submit submit_now is_in fly flying find_entry ack flush flush_all flush_entry without
    throttled delivered due filter sort insert window_passed lookup set delete add push merge_first
    drop_first
merged_lost = refl
