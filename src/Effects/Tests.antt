-- ===== src/Effects/Tests.antt =====
-- Effects carried out over a world that logs the calls, and the theorems there.
use chatbot_integration.Prelude.{String, ◌≡◌, refl, Option, none, some, List, [], ◌∷◌}
use chatbot_integration.Conversation.{
  human, ConversationState, ConversationStatus, Effect, notify_agents, run_suggestion, NotifyReason,
  enqueue_summary, PartialOptions,
}
use chatbot_integration.Effects.{
  EffectPorts, Logger, EffectContext, apply_effects, apply_effect, TimeoutReads,
}
use chatbot_integration.Effects.Order.{apply_effects_failure, FailsAt}
use chatbot_integration.Effects.Reach.{LeavesAlone}

-- What the customer was sent, and what was done for agents. Notifying fails, and so does a summary.
abbrev Log : Type 0
Log = List String × List String

abbrev for_agents : String → Log → Log × Option String
for_agents what (sent, done) = ((sent, what ∷ done), none)

abbrev for_customer : String → Log → Log × Option String
for_customer what (sent, done) = ((what ∷ sent, done), none)

abbrev ports : EffectPorts Log String
ports = record {
  enqueue_ai_turn = λ ctx deliver. for_customer "turn";
  enqueue_suggestion = λ ctx. for_agents "suggestion";
  send_acknowledgement = λ ctx input. for_customer "acknowledgement";
  add_internal_note = λ ctx body. for_agents body;
  notify_agents = λ ctx reason at w. (w, some "no redis");
  schedule_waiting_human_timeout = λ ctx minutes. for_agents "schedule";
  cancel_waiting_human_timeout = λ ctx. for_agents "cancel";
  enqueue_summary = λ ctx w. (w, some "no row");
  record_handoff = λ ctx reason at. for_agents "handoff";
}

abbrev logger : Logger Log String
logger = record {
  notify_failed = λ ctx reason error w. (w.0, error ∷ w.1);
  timeout_ignored = λ ctx w. (w.0, "ignored" ∷ w.1);
}

abbrev ctx : EffectContext
ctx = record {
  workspace_id = "w";
  conversation_id = "c";
  trigger_message_id = none;
  turn_key = none;
}

abbrev nothing_yet : Log
nothing_yet = ([], [])

abbrev effects : List Effect
effects =
    run_suggestion ∷ notify_agents NotifyReason.timeout 3 ∷ enqueue_summary ∷ run_suggestion ∷ []

-- The failed notification is logged, and the failed summary stops the list.
best_effort_test :
    apply_effects ports logger ctx effects nothing_yet
    ≡ (([], "no redis" ∷ "suggestion" ∷ []), some "no row")
unfolding apply_effects apply_effect
best_effort_test = refl

apply_effects_failure_example :
    FailsAt ports logger ctx effects nothing_yet ([], "no redis" ∷ "suggestion" ∷ []) "no row"
apply_effects_failure_example =
    apply_effects_failure ports logger ctx effects nothing_yet _ _ best_effort_test

alone : LeavesAlone (λ (w : Log). w.0) ports logger
alone = record {
  suggestion = λ c w. refl;
  note = λ c body w. refl;
  notify = λ c reason at w. refl;
  start = λ c minutes w. refl;
  stop = λ c w. refl;
  summary = λ c w. refl;
  handed_off = λ c reason at w. refl;
  warned = λ c reason error w. refl;
  ignored = λ c w. refl;
}

abbrev no_options : PartialOptions
no_options = record { waiting_human_fallback_minutes = none; handoff_on_unsupported_media = none }

abbrev held : ConversationState
held = record {
  mode = human;
  status = ConversationStatus.«open»;
  assignee_user_id = some "mai";
  waiting_human_since = none;
  handoff_reason = none;
}

abbrev taken_over : TimeoutReads
taken_over = record { conversation = some held; fallback_minutes = some (some 10) }
