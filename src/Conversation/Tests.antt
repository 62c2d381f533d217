-- ===== src/Conversation/Tests.antt =====
-- Runs of the conversation state machine, and its theorems at concrete conversations.
use chatbot_integration.Prelude.{◌≡◌, ◌≤◌, refl, true, false, none, some, List, [], ◌∷◌, any, arith}
use chatbot_integration.Conversation.{
  ai, human, waiting_human, ConversationState, ConversationEvent, ConversationStatus,
  customer_message, ai_handoff, human_take_over, human_return_to_ai, human_message,
  waiting_human_timeout, record_handoff, send_acknowledgement, add_internal_note, notify_agents,
  schedule_waiting_human_timeout, AcknowledgementKind, NotifyReason, tool_error, th, PartialOptions,
  step, emitted, is_waiting,
}
use chatbot_integration.Conversation.Trace.{run, effects_of}
use chatbot_integration.Conversation.Silence.{acts_on_customer, human_silence, human_owns}
use chatbot_integration.Conversation.Invariant.{IsWellFormed, run-IsWellFormed}
use chatbot_integration.Conversation.Handoff.{
  is_record, is_handoff_acknowledgement, count_of, one_handoff_per_wait,
}
use chatbot_integration.Conversation.Timer.{TimerIsSafe, armed_after, timer_only_while_waiting}

abbrev ten_minutes : PartialOptions
ten_minutes = record {
  waiting_human_fallback_minutes = some (some 10);
  handoff_on_unsupported_media = none;
}

abbrev fresh : ConversationState
fresh = record {
  mode = ai;
  status = ConversationStatus.«open»;
  assignee_user_id = none;
  waiting_human_since = none;
  handoff_reason = none;
}

abbrev held : ConversationState
held = record fresh { mode = human; assignee_user_id = some "mai" }

abbrev waiting : ConversationState
waiting = record fresh {
  mode = waiting_human;
  waiting_human_since = some 5;
  handoff_reason = some tool_error;
}

abbrev gives_up : ConversationEvent
gives_up = ai_handoff 7 tool_error none (some th)

handoff_test :
    emitted ten_minutes fresh gives_up
    ≡ record_handoff tool_error 7
      ∷ send_acknowledgement AcknowledgementKind.handoff (some th) 7
      ∷ add_internal_note "AI handed off. Reason: tool_error."
      ∷ notify_agents NotifyReason.handoff 7
      ∷ schedule_waiting_human_timeout 10
      ∷ []
unfolding emitted
handoff_test = refl

returned_test :
    (run ten_minutes fresh
      (gives_up ∷ human_take_over 8 "mai" ∷ human_return_to_ai 9 none ∷ [])).mode
    ≡ ai
unfolding run step
returned_test = refl

fresh-IsWellFormed : IsWellFormed fresh
fresh-IsWellFormed = ground arith

waiting-IsWellFormed : IsWellFormed waiting
waiting-IsWellFormed = ground arith

human_silence_example :
    any acts_on_customer (emitted ten_minutes held (customer_message 9 true)) ≡ false
human_silence_example = human_silence ten_minutes held (customer_message 9 true) refl

abbrev busy_day : List ConversationEvent
busy_day =
    customer_message 9 false ∷ human_message 10 "mai" ∷ gives_up ∷ waiting_human_timeout 11 ∷ []

human_owns_example :
    ((run ten_minutes held busy_day).mode ≡ human)
    × (any acts_on_customer (effects_of ten_minutes held busy_day) ≡ false)
human_owns_example = human_owns ten_minutes held busy_day refl refl

run-IsWellFormed_example : IsWellFormed (run ten_minutes fresh (gives_up ∷ busy_day))
run-IsWellFormed_example =
    run-IsWellFormed ten_minutes fresh (gives_up ∷ busy_day) fresh-IsWellFormed

abbrev by_itself : List ConversationEvent
by_itself =
    customer_message 3 false
    ∷ gives_up
    ∷ customer_message 8 true
    ∷ gives_up
    ∷ waiting_human_timeout 17
    ∷ []

one_handoff_per_wait_example :
    (count_of is_record (effects_of ten_minutes fresh by_itself) ≤ 1)
    × (is_waiting fresh.mode ≡ true
        → count_of is_record (effects_of ten_minutes fresh by_itself) ≡ 0)
    × (count_of is_handoff_acknowledgement (effects_of ten_minutes fresh by_itself)
        ≡ count_of is_record (effects_of ten_minutes fresh by_itself))
one_handoff_per_wait_example = one_handoff_per_wait ten_minutes fresh by_itself refl

timer_only_while_waiting_example :
    let (running, final) = armed_after ten_minutes fresh false (gives_up ∷ busy_day) in
    TimerIsSafe running final
timer_only_while_waiting_example =
    timer_only_while_waiting ten_minutes fresh false (gives_up ∷ busy_day) (λ e. cc)
