-- ===== src/Conversation/Trace.antt =====
-- A history of events: the state machine of packages/core/src/conversation/state-machine.ts, fed
-- one event after another by the processors.
use chatbot_integration.Prelude.{List, [], ◌∷◌, ◌++◌}
use chatbot_integration.Conversation.{
  ConversationState, ConversationEvent, Effect, PartialOptions, step, emitted,
}

unfoldable pub run : PartialOptions → ConversationState → List ConversationEvent → ConversationState
run options state [] = state
run options state (e ∷ es) = run options (step options state e) es

-- The effects of a whole history, in order.
unfoldable pub effects_of :
    PartialOptions → ConversationState → List ConversationEvent → List Effect
effects_of options state [] = []
effects_of options state (e ∷ es) =
    emitted options state e ++ effects_of options (step options state e) es
