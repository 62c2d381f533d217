-- ===== src/Conversation/Invariant.antt =====
-- What holds of every conversation state that
-- packages/core/src/conversation/state-machine.ts produces.
use chatbot_integration.Prelude.{Bool, true, false, ◌≡◌, List, [], ◌∷◌, Option, none, some, arith}
use chatbot_integration.Conversation.{
  ai, ConversationState, ConversationEvent, customer_message, is_waiting, PartialOptions, step,
}
use chatbot_integration.Conversation.Trace.{run}

abbrev pub is_some {ℓ} : {A : Type ℓ} → Option A → Bool
is_some none = false
is_some (some a) = true

pub record IsWellFormed (s : ConversationState) : Type 0 where
  pub since_iff_waiting : is_some s.waiting_human_since ≡ is_waiting s.mode
  pub ai_has_no_reason : s.mode ≡ ai → s.handoff_reason ≡ none

-- Every event keeps it: the wait is timed exactly while the mode is `waiting_human`, and a
-- conversation in mode `ai` holds no handoff reason.
pub step-IsWellFormed :
    (options : PartialOptions) (state : ConversationState) (event : ConversationEvent)
    → IsWellFormed state
    → IsWellFormed (step options state event)
unfolding step
step-IsWellFormed options state (customer_message at is_media) v = ground arith
step-IsWellFormed options state event v = ground arith

-- From a state where the wait is timed exactly in mode `waiting_human` and mode `ai` holds no
-- handoff reason, every history leads to such a state.
pub run-IsWellFormed :
    (options : PartialOptions) (state : ConversationState) (events : List ConversationEvent)
    → IsWellFormed state
    → IsWellFormed (run options state events)
unfolding run
run-IsWellFormed options state [] v = v
run-IsWellFormed options state (e ∷ es) v =
    run-IsWellFormed options (step options state e) es (step-IsWellFormed options state e v)
