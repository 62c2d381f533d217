-- ===== src/Ports/Records.antt =====
-- Handoff rows and nudges: packages/infra/src/effect-ports.ts.

use text.Mathlib.TextPositions.{eq_refl}
use mathlib.Core.List.{append-nil}
use chatbot_integration.Prelude.{
  ◌≡◌, refl, sym, String, true, List, [], ◌∷◌, any, any-append, arith, inl, inr, Bool-cases,
}
use chatbot_integration.Conversation.{NotifyReason}
use chatbot_integration.Ports.Store.{Database, HandoffEvent, insert_handoff, same_handoff}
use chatbot_integration.Ports.Grows.{Grows, NoNews, NoNews-refl, NoNews-Grows}

pub insert_handoff-done :
    (event : HandoffEvent) (db : Database)
    → any (same_handoff event) (insert_handoff event db).handoffs ≡ true
unfolding insert_handoff
insert_handoff-done event db = elim (Bool-cases (any (same_handoff event) db.handoffs)) [
  | inl e ↦ rw e e
  | inr e ↦
      rw (e, any-append (same_handoff event) db.handoffs (event ∷ []))
        (ground (arith, eq_refl event.conversation_id))
]

pub insert_handoff-Grows :
    (event : HandoffEvent) (db : Database) → Grows db (insert_handoff event db)
unfolding insert_handoff
insert_handoff-Grows event db = elim (Bool-cases (any (same_handoff event) db.handoffs)) [
  | inl e ↦ rw e (NoNews-Grows db db (NoNews-refl db))
  | inr e ↦ rw e (record {
    messages = ([], sym (append-nil db.messages));
    handoffs = (event ∷ [], refl);
    jobs = λ queue job_id h. h;
    kept = λ r other m. m;
  })
]

pub insert_handoff-NoNews :
    (event : HandoffEvent) (db : Database)
    → any (same_handoff event) db.handoffs ≡ true
    → NoNews db (insert_handoff event db)
unfolding insert_handoff
insert_handoff-NoNews event db e = rw e (NoNews-refl db)

-- A nudge that waits for the commit changes nothing else.
abbrev pub noticed : Database → List (String × NotifyReason) → Database
noticed db notices = record db { notices = notices }

pub noticed-NoNews : (db : Database) (n : List (String × NotifyReason)) → NoNews db (noticed db n)
noticed-NoNews db n = record {
  messages = refl;
  handoffs = refl;
  jobs = λ queue job_id. refl;
  kept = λ r other m. m;
}

pub from_noticed-NoNews :
    (db db' : Database) (n : List (String × NotifyReason))
    → NoNews (noticed db n) db'
    → NoNews db db'
from_noticed-NoNews db db' n h = record {
  messages = h.messages;
  handoffs = h.handoffs;
  jobs = h.jobs;
  kept = h.kept;
}

pub from_noticed-Grows :
    (db db' : Database) (n : List (String × NotifyReason)) → Grows (noticed db n) db' → Grows db db'
from_noticed-Grows db db' n h = record {
  messages = h.messages;
  handoffs = h.handoffs;
  jobs = h.jobs;
  kept = h.kept;
}
