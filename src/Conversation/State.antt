-- ===== src/Conversation/State.antt =====
-- The data of the conversation state machine: packages/core/src/conversation/state-machine.ts, with
-- the enums of packages/shared/src/conversation.ts. A `Date` is its number of milliseconds.
use Prim.Native.String
use chatbot_integration.Prelude.{
  ℕ, String, Bool, true, false, Option, none, some, get_or, List, [], ◌∷◌,
}

pub data ConversationMode : Type 0 where
  ai ai_supervised human waiting_human : ConversationMode

pub data ConversationStatus : Type 0 where
  «open» snoozed resolved : ConversationStatus

pub data HandoffReason : Type 0 where
  ai_requested customer_requested low_confidence negative_sentiment : HandoffReason
  keyword_rule unsupported_media tool_error model_error : HandoffReason

pub data Language : Type 0 where
  th en : Language

pub data NotifyReason : Type 0 where
  handoff draft_ready timeout customer_message : NotifyReason

pub data Deliver : Type 0 where
  send draft : Deliver

pub data AcknowledgementKind : Type 0 where
  handoff still_waiting : AcknowledgementKind

pub record ConversationState : Type 0 where
  pub mode : ConversationMode
  pub status : ConversationStatus
  pub assignee_user_id : Option String
  pub waiting_human_since : Option ℕ
  pub handoff_reason : Option HandoffReason

-- Every event carries the instant `at`; an optional field that is left out is null or false.
pub data ConversationEvent : Type 0 where
  customer_message : (at : ℕ) (is_media : Bool) → ConversationEvent
  ai_handoff :
      (at : ℕ) (reason : HandoffReason) (note : Option String) (language : Option Language)
      → ConversationEvent
  human_take_over : (at : ℕ) (user_id : String) → ConversationEvent
  human_return_to_ai : (at : ℕ) (note : Option String) → ConversationEvent
  human_message : (at : ℕ) (user_id : String) → ConversationEvent
  assign : (at : ℕ) (user_id : Option String) → ConversationEvent
  set_mode : (at : ℕ) (mode : ConversationMode) → ConversationEvent
  set_status : (at : ℕ) (status : ConversationStatus) → ConversationEvent
  waiting_human_timeout : (at : ℕ) → ConversationEvent

pub data Effect : Type 0 where
  run_ai_turn : (deliver : Deliver) → Effect
  run_suggestion : Effect
  send_acknowledgement : (kind : AcknowledgementKind) (language : Option Language) (at : ℕ) → Effect
  add_internal_note : (body : String) → Effect
  notify_agents : (reason : NotifyReason) (at : ℕ) → Effect
  schedule_waiting_human_timeout : (minutes : ℕ) → Effect
  cancel_waiting_human_timeout : Effect
  enqueue_summary : Effect
  record_handoff : (reason : HandoffReason) (at : ℕ) → Effect

pub record TransitionOptions : Type 0 where
  pub waiting_human_fallback_minutes : Option ℕ
  pub handoff_on_unsupported_media : Bool

-- `Partial<TransitionOptions>`: `none` is an option that the caller leaves out.
pub record PartialOptions : Type 0 where
  pub waiting_human_fallback_minutes : Option (Option ℕ)
  pub handoff_on_unsupported_media : Option Bool

-- `Partial<ConversationState>`: `none` is a field that the patch leaves alone.
pub record Patch : Type 0 where
  pub mode : Option ConversationMode
  pub status : Option ConversationStatus
  pub assignee_user_id : Option (Option String)
  pub waiting_human_since : Option (Option ℕ)
  pub handoff_reason : Option (Option HandoffReason)

pub record TransitionResult : Type 0 where
  pub patch : Patch
  pub effects : List Effect

abbrev pub default_options : TransitionOptions
default_options = record {
  waiting_human_fallback_minutes = none;
  handoff_on_unsupported_media = true;
}

abbrev pub with_defaults : PartialOptions → TransitionOptions
with_defaults o = record {
  waiting_human_fallback_minutes =
      get_or o.waiting_human_fallback_minutes default_options.waiting_human_fallback_minutes;
  handoff_on_unsupported_media =
      get_or o.handoff_on_unsupported_media default_options.handoff_on_unsupported_media;
}

abbrev pub no_patch : Patch
no_patch = record {
  mode = none;
  status = none;
  assignee_user_id = none;
  waiting_human_since = none;
  handoff_reason = none;
}

abbrev pub nothing : TransitionResult
nothing = record { patch = no_patch; effects = [] }

abbrev pub reason_text : HandoffReason → String
reason_text ai_requested = "ai_requested"
reason_text customer_requested = "customer_requested"
reason_text low_confidence = "low_confidence"
reason_text negative_sentiment = "negative_sentiment"
reason_text keyword_rule = "keyword_rule"
reason_text unsupported_media = "unsupported_media"
reason_text tool_error = "tool_error"
reason_text model_error = "model_error"

abbrev pub handoff_note : HandoffReason → String
handoff_note reason = String.◌++◌ "AI handed off. Reason: " (String.◌++◌ (reason_text reason) ".")

-- A string that is neither null nor empty.
abbrev pub is_truthy : Option String → Bool
is_truthy none = false
is_truthy (some String.[]) = false
is_truthy (some (String.◌∷◌ c s)) = true

-- `waiting_human` as a test, and the other modes likewise.
abbrev pub is_waiting : ConversationMode → Bool
is_waiting waiting_human = true
is_waiting _ = false

abbrev pub is_human : ConversationMode → Bool
is_human human = true
is_human _ = false

abbrev pub is_ai : ConversationMode → Bool
is_ai ai = true
is_ai _ = false

abbrev pub is_resolved : ConversationStatus → Bool
is_resolved resolved = true
is_resolved _ = false

unfoldable pub ai_may_send : ConversationMode → Bool
ai_may_send mode = is_ai mode

abbrev pub note_or : Option String → String → String
note_or none d = d
note_or (some n) d = n

-- The timer that a handoff starts where the workspace has a fallback window.
abbrev pub schedule : Option ℕ → List Effect
schedule none = []
schedule (some minutes) = schedule_waiting_human_timeout minutes ∷ []

abbrev pub since_or : Option ℕ → ℕ → ℕ
since_or none at = at
since_or (some t) at = t

abbrev pub first_user : Option String → String → String
first_user none user = user
first_user (some u) user = u
