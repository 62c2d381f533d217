-- ===== src/Conversation.antt =====
-- The conversation state machine: packages/core/src/conversation/state-machine.ts.
pub mod State
pub mod Trace
pub mod Silence
pub mod Invariant
pub mod Handoff
pub mod Timer
mod Tests
use chatbot_integration.Prelude.{
  ℕ, String, Bool, true, false, ◌&&◌, ◌||◌, Option, none, some, get_or, List, [], ◌∷◌,
  if◌then◌else◌,
}
unfoldable pub use chatbot_integration.Conversation.State.{ai_may_send}
pub use chatbot_integration.Conversation.State.{
  ConversationMode, ConversationStatus, HandoffReason, Language, NotifyReason, Deliver,
  AcknowledgementKind, ConversationState, ConversationEvent, Effect, TransitionOptions,
  PartialOptions, Patch, TransitionResult, default_options, with_defaults, no_patch, nothing,
  reason_text, handoff_note, is_truthy, is_waiting, is_human, is_ai, is_resolved, note_or, schedule,
  since_or, first_user, ai, ai_supervised, human, waiting_human, «open», snoozed, resolved,
  ai_requested, customer_requested, low_confidence, negative_sentiment, keyword_rule,
  unsupported_media, tool_error, model_error, th, en, handoff, draft_ready, timeout,
  customer_message, send, draft, still_waiting, ai_handoff, human_take_over, human_return_to_ai,
  human_message, assign, set_mode, set_status, waiting_human_timeout, run_ai_turn, run_suggestion,
  send_acknowledgement, add_internal_note, notify_agents, schedule_waiting_human_timeout,
  cancel_waiting_human_timeout, enqueue_summary, record_handoff,
}

-- `onCustomerMessage`, by the mode.
unfoldable pub on_customer_message :
    ConversationMode → (at : ℕ) (is_media : Bool) → TransitionOptions → TransitionResult
on_customer_message ai at is_media opts =
    if is_media && opts.handoff_on_unsupported_media
    then record {
      patch = record no_patch {
        mode = some waiting_human;
        handoff_reason = some (some unsupported_media);
        waiting_human_since = some (some at);
      };
      effects =
          record_handoff unsupported_media at
          ∷ send_acknowledgement AcknowledgementKind.handoff none at
          ∷ add_internal_note "Customer sent media the AI cannot interpret. Handed off."
          ∷ notify_agents NotifyReason.handoff at
          ∷ [];
    }
    else record { patch = no_patch; effects = run_ai_turn send ∷ [] }
on_customer_message ai_supervised at is_media opts = record {
  patch = no_patch;
  effects = run_ai_turn draft ∷ [];
}
on_customer_message human at is_media opts = record {
  patch = no_patch;
  effects = run_suggestion ∷ notify_agents NotifyReason.customer_message at ∷ [];
}
on_customer_message waiting_human at is_media opts = record {
  patch = no_patch;
  effects = run_suggestion ∷ notify_agents NotifyReason.customer_message at ∷ [];
}

-- The `switch` of `transition`, over the options with their defaults.
dispatch : ConversationState → ConversationEvent → TransitionOptions → TransitionResult
unfolding on_customer_message
dispatch state (customer_message at is_media) opts = on_customer_message state.mode at is_media opts
dispatch state (ai_handoff at reason note language) opts =
    if is_human state.mode || is_waiting state.mode then nothing else record {
      patch = record no_patch {
        mode = some waiting_human;
        handoff_reason = some (some reason);
        waiting_human_since = some (some at);
      };
      effects =
          record_handoff reason at
          ∷ send_acknowledgement AcknowledgementKind.handoff language at
          ∷ add_internal_note (note_or note (handoff_note reason))
          ∷ notify_agents NotifyReason.handoff at
          ∷ schedule opts.waiting_human_fallback_minutes;
    }
dispatch state (human_take_over at user_id) opts = record {
  patch = record no_patch {
    mode = some human;
    assignee_user_id = some (some user_id);
    waiting_human_since = some none;
  };
  effects = cancel_waiting_human_timeout ∷ [];
}
dispatch state (human_return_to_ai at note) opts = record {
  patch = record no_patch {
    mode = some ai;
    waiting_human_since = some none;
    handoff_reason = some none;
  };
  effects =
      cancel_waiting_human_timeout
      ∷ (if is_truthy note then add_internal_note (note_or note "") ∷ [] else []);
}
dispatch state (human_message at user_id) opts = record {
  patch = record no_patch {
    mode = some human;
    assignee_user_id = some (some (first_user state.assignee_user_id user_id));
    waiting_human_since = some none;
    status = some (if is_resolved state.status then «open» else state.status);
  };
  effects = cancel_waiting_human_timeout ∷ [];
}
dispatch state (assign at user_id) opts = record {
  patch = record no_patch { assignee_user_id = some user_id };
  effects = [];
}
dispatch state (set_mode at mode) opts = record {
  patch = record no_patch {
    mode = some mode;
    waiting_human_since = some (if is_waiting mode then some at else none);
    handoff_reason = some (if is_ai mode then none else state.handoff_reason);
  };
  effects = elim opts.waiting_human_fallback_minutes [
    | none ↦ cancel_waiting_human_timeout ∷ []
    | some minutes ↦
        if is_waiting mode
        then schedule_waiting_human_timeout minutes ∷ []
        else cancel_waiting_human_timeout ∷ []
  ];
}
dispatch state (set_status at status) opts = record {
  patch = record no_patch { status = some status };
  effects = if is_resolved status then cancel_waiting_human_timeout ∷ enqueue_summary ∷ [] else [];
}
dispatch state (waiting_human_timeout at) opts =
    if is_waiting state.mode
    then record {
      patch = no_patch;
      effects =
          send_acknowledgement still_waiting none (since_or state.waiting_human_since at)
          ∷ notify_agents timeout (since_or state.waiting_human_since at)
          ∷ [];
    }
    else nothing

unfoldable pub transition :
    ConversationState → ConversationEvent → PartialOptions → TransitionResult
unfolding dispatch
transition state event options = dispatch state event (with_defaults options)

-- The callers write the fields that the patch names and leave the others.
unfoldable pub apply_patch : ConversationState → Patch → ConversationState
apply_patch state patch = record {
  mode = get_or patch.mode state.mode;
  status = get_or patch.status state.status;
  assignee_user_id = get_or patch.assignee_user_id state.assignee_user_id;
  waiting_human_since = get_or patch.waiting_human_since state.waiting_human_since;
  handoff_reason = get_or patch.handoff_reason state.handoff_reason;
}

unfoldable pub step : PartialOptions → ConversationState → ConversationEvent → ConversationState
unfolding apply_patch transition
step options state event = apply_patch state (transition state event options).patch

unfoldable pub emitted : PartialOptions → ConversationState → ConversationEvent → List Effect
unfolding transition
emitted options state event = (transition state event options).effects
