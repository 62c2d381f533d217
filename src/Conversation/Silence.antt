-- ===== src/Conversation/Silence.antt =====
-- Who may speak to the customer: the central rule of
-- packages/core/src/conversation/state-machine.ts.
use chatbot_integration.Prelude.{
  ℕ, Bool, true, false, ◌&&◌, ◌≡◌, refl, ◌↔◌, List, [], ◌∷◌, all, any, any-append, arith,
}
use chatbot_integration.Conversation.{
  ai, human, ConversationState, ConversationEvent, customer_message, human_return_to_ai, set_mode,
  Effect, run_ai_turn, send_acknowledgement, send, is_human, with_defaults, PartialOptions, step,
  emitted,
}
use chatbot_integration.Conversation.Trace.{run, effects_of}

-- An effect by which the AI or the system writes to the customer, or drafts in their thread.
abbrev pub acts_on_customer : Effect → Bool
acts_on_customer (run_ai_turn deliver) = true
acts_on_customer (send_acknowledgement kind language at) = true
acts_on_customer _ = false

abbrev pub sends_ai_reply : Effect → Bool
sends_ai_reply (run_ai_turn send) = true
sends_ai_reply _ = false

-- While a human owns the conversation, no event whatsoever makes an AI turn or a holding message.
pub human_silence :
    (options : PartialOptions) (state : ConversationState) (event : ConversationEvent)
    → state.mode ≡ human
    → any acts_on_customer (emitted options state event) ≡ false
unfolding emitted
human_silence options state (customer_message at is_media) h = ground arith
human_silence options state event h = ground arith

-- An event by which a person gives the conversation away.
abbrev pub keeps_owner : ConversationEvent → Bool
keeps_owner (human_return_to_ai at _) = false
keeps_owner (set_mode at mode) = is_human mode
keeps_owner _ = true

step-human :
    (options : PartialOptions) (state : ConversationState) (event : ConversationEvent)
    → state.mode ≡ human
    → keeps_owner event ≡ true
    → (step options state event).mode ≡ human
unfolding step
step-human options state (customer_message at is_media) h k = ground arith
step-human options state event h k = ground arith

-- Once a human owns the conversation, every history in which no person hands it back or sets
-- another mode leaves it theirs, and none of its effects writes to the customer.
pub human_owns :
    (options : PartialOptions) (state : ConversationState) (events : List ConversationEvent)
    → state.mode ≡ human
    → all keeps_owner events ≡ true
    → ((run options state events).mode ≡ human)
      × (any acts_on_customer (effects_of options state events) ≡ false)
unfolding run effects_of
human_owns options state [] h k = (h, refl)
human_owns options state (e ∷ es) h k = ground (
  arith,
  human_silence options state e h,
  step-human options state e h,
  human_owns options (step options state e) es,
  any-append acts_on_customer (emitted options state e)
      (effects_of options (step options state e) es),
)

-- A customer message that the AI is to answer itself.
abbrev pub AnsweredByAi : PartialOptions → ConversationState → ConversationEvent → Type 0
AnsweredByAi options state event =
    (state.mode ≡ ai)
    × ((at : ℕ) × (is_media : Bool) × (event ≡ customer_message at is_media)
        × ((is_media && (with_defaults options).handoff_on_unsupported_media) ≡ false))

-- An AI reply is sent exactly when the mode is `ai` and a customer message arrives that is not
-- media to be handed off.
ai_send_iff :
    (options : PartialOptions) (state : ConversationState) (event : ConversationEvent)
    → (any sends_ai_reply (emitted options state event) ≡ true) ↔ AnsweredByAi options state event
unfolding emitted
ai_send_iff options state (customer_message at is_media) =
    (λ h. (ground arith, (at, is_media, refl, ground arith)), λ h. ground arith)
ai_send_iff options state event = (λ h. ground arith, λ h. ground arith)
