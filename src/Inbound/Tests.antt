-- ===== src/Inbound/Tests.antt =====
-- One customer's event, tried with ports that fail at first, and the theorems there
-- (apps/worker/src/processors/inbound.ts).
use chatbot_integration.Prelude.{
  String, Bool, true, false, ◌≡◌, refl, Option, none, some, List, [], ◌∷◌, ◌⊎◌, if◌then◌else◌,
}
use chatbot_integration.Conversation.{
  ConversationMode, ai, ConversationStatus, transition, apply_patch,
}
use chatbot_integration.Effects.{EffectPorts, Logger, apply_effects, apply_effect}
use chatbot_integration.Inbound.{
  PlatformEvent, InboundKind, Database, Settings, ConversationRow, handle_event, event_body, moved,
  find_row, set_row,
}
use chatbot_integration.Inbound.Once.{event_once, attempt_all, AllFail, FirstSuccess}
use chatbot_integration.Inbound.Job.{Calls, JobWorld, returned, process_inbound, process_events}
use chatbot_integration.Inbound.Job.Done.{process_inbound_through}

-- What the customer is owed, and what agents are told.
abbrev Log : Type 0
Log = List String × List String

abbrev told : String → Log → Log × Option String
told what (owed, done) = ((owed, what ∷ done), none)

-- Ports over a queue that may be down.
abbrev ports : (is_down : Bool) → EffectPorts Log String
ports is_down = record {
  enqueue_ai_turn =
      λ ctx deliver w. if is_down then (w, some "down") else (("turn" ∷ w.0, w.1), none);
  enqueue_suggestion = λ ctx. told "suggestion";
  send_acknowledgement = λ ctx input w. (("acknowledgement" ∷ w.0, w.1), none);
  add_internal_note = λ ctx body. told body;
  notify_agents = λ ctx reason at. told "notify";
  schedule_waiting_human_timeout = λ ctx minutes. told "schedule";
  cancel_waiting_human_timeout = λ ctx. told "cancel";
  enqueue_summary = λ ctx. told "summary";
  record_handoff = λ ctx reason at. told "handoff";
}

abbrev logger : Logger Log String
logger = record { notify_failed = λ ctx reason error w. w; timeout_ignored = λ ctx w. w }

abbrev settings : Settings
settings = record { waiting_human_fallback_minutes = some 10; vision_configured = false }

abbrev question : PlatformEvent
question = record {
  external_id = "u";
  platform_event_id = "e1";
  timestamp = 1000;
  kind = InboundKind.text;
  reply_token = some "t";
}

abbrev row : ConversationMode → ConversationRow
row mode = record {
  state = record {
    mode = mode;
    status = ConversationStatus.«open»;
    assignee_user_id = none;
    waiting_human_since = none;
    handoff_reason = none;
  };
  reply_token = none;
  reply_token_expires_at = none;
}

abbrev before : ConversationMode → Database Log
before mode = record { messages = []; conversations = ("c", row mode) ∷ []; promised = ([], []) }

abbrev after : Database Log
after = record {
  messages = ("c", "e1") ∷ [];
  conversations =
      ("c", record (row ai) { reply_token = some "t"; reply_token_expires_at = some 56000 }) ∷ [];
  promised = ("turn" ∷ [], []);
}

-- The attempt that fails leaves nothing, and of two that succeed the second finds its work done.
attempts_test :
    attempt_all logger "w" settings "c" "m1" question
      (ports true ∷ ports false ∷ ports false ∷ [])
      (before ai)
    ≡ after
unfolding attempt_all handle_event event_body moved find_row set_row apply_effects apply_effect
    transition apply_patch
attempts_test = refl

abbrev attempts : List (EffectPorts Log String)
attempts = ports true ∷ ports false ∷ []

event_once_example :
    (AllFail logger "w" settings "c" "m1" question (before ai) attempts
      × (attempt_all logger "w" settings "c" "m1" question attempts (before ai) ≡ before ai))
    ⊎ ((first : FirstSuccess logger "w" settings "c" "m1" question attempts (before ai))
        × (attempt_all logger "w" settings "c" "m1" question attempts (before ai)
            ≡ (handle_event first.ports logger "w" settings "c" "m1" question (before ai)).0))
event_once_example = event_once logger "w" settings "c" "m1" question attempts (before ai)

abbrev calls : Calls Log String (List PlatformEvent)
calls = record {
  parse = λ payload. (none, elim payload [ none ↦ [] | some events ↦ events ]);
  resolve = λ event db. (db, "c");
  apply_receipt = λ event watermark db. db;
  message_id = λ event. "m1";
  message_of = λ error. error;
}

abbrev waiting : JobWorld Log (List PlatformEvent)
waiting = record {
  row = some (record { processed_at = none; error = none; payload = some (question ∷ []) });
  database = before ai;
}

abbrev through : JobWorld Log (List PlatformEvent)
through = record {
  row = some (record { processed_at = some 7; error = none; payload = none });
  database = after;
}

first_run :
    process_inbound (ports false) logger "w" settings calls true 7 waiting ≡ returned through
unfolding process_inbound process_events handle_event event_body moved find_row set_row
    apply_effects apply_effect transition apply_patch
first_run = refl

process_inbound_through_example :
    process_inbound (ports true) logger "w" settings calls true 9 through ≡ returned through
process_inbound_through_example =
    process_inbound_through (ports false) (ports true) logger "w" settings settings calls 7 9 true
      waiting through first_run
