-- ===== src/Conversation/Handoff.antt =====
-- Handing a conversation to a person: one handoff for one wait, and one apology for one wait, in
-- packages/core/src/conversation/state-machine.ts.
use chatbot_integration.Prelude.{
  ℕ, String, Bool, true, false, ◌+◌, ◌≤◌, ◌≡◌, ◌⊎◌, refl, List, [], ◌∷◌, ◌++◌, all, arith, Option,
  some, length, keep,
}
use chatbot_integration.Conversation.{
  HandoffReason, Language, ConversationState, ConversationEvent, customer_message, ai_handoff,
  waiting_human_timeout, Effect, record_handoff, send_acknowledgement, add_internal_note,
  notify_agents, schedule, handoff_note, note_or, AcknowledgementKind, NotifyReason, is_waiting,
  is_human, with_defaults, PartialOptions, step, emitted,
}
use chatbot_integration.Conversation.Trace.{effects_of}
use chatbot_integration.Conversation.Invariant.{IsWellFormed}

abbrev pub is_record : Effect → Bool
is_record (record_handoff reason at) = true
is_record _ = false

abbrev pub is_handoff_acknowledgement : Effect → Bool
is_handoff_acknowledgement (send_acknowledgement AcknowledgementKind.handoff language at) = true
is_handoff_acknowledgement _ = false

abbrev pub count_of : (Effect → Bool) → List Effect → ℕ
count_of p es = length (keep p es)

-- What the machine feeds by itself: customers writing, the AI giving up, and timers.
abbrev pub is_automatic : ConversationEvent → Bool
is_automatic (customer_message at is_media) = true
is_automatic (ai_handoff at reason _ language) = true
is_automatic (waiting_human_timeout at) = true
is_automatic _ = false

count-append :
    (p : Effect → Bool) (xs ys : List Effect)
    → count_of p (xs ++ ys) ≡ count_of p xs + count_of p ys
count-append p [] ys = omega arith
count-append p (x ∷ xs) ys = ground (arith, count-append p xs ys)

-- What one automatic event does to the number of handoffs recorded and told.
abbrev Counts : ConversationState → ConversationState → List Effect → Type 0
Counts s t effects =
    ((is_waiting s.mode ≡ true)
      × (is_waiting t.mode ≡ true)
      × (count_of is_record effects ≡ 0)
      × (count_of is_handoff_acknowledgement effects ≡ 0))
    ⊎ ((is_waiting s.mode ≡ false)
        × (is_waiting t.mode ≡ true)
        × (count_of is_record effects ≡ 1)
        × (count_of is_handoff_acknowledgement effects ≡ 1))
    ⊎ ((is_waiting s.mode ≡ false)
        × (is_waiting t.mode ≡ false)
        × (count_of is_record effects ≡ 0)
        × (count_of is_handoff_acknowledgement effects ≡ 0))

step-Counts :
    (options : PartialOptions) (state : ConversationState) (event : ConversationEvent)
    → is_automatic event ≡ true
    → Counts state (step options state event) (emitted options state event)
unfolding step emitted
step-Counts options state (customer_message at is_media) h = ground arith
step-Counts options state event h = ground arith

-- In every history of automatic events at most one handoff is recorded, none if the conversation
-- was already waiting, and the customer is told of a handoff exactly as often as one is recorded.
pub one_handoff_per_wait :
    (options : PartialOptions) (state : ConversationState) (events : List ConversationEvent)
    → all is_automatic events ≡ true
    → (count_of is_record (effects_of options state events) ≤ 1)
      × (is_waiting state.mode ≡ true → count_of is_record (effects_of options state events) ≡ 0)
      × (count_of is_handoff_acknowledgement (effects_of options state events)
          ≡ count_of is_record (effects_of options state events))
unfolding effects_of
one_handoff_per_wait options state [] h = (omega arith, λ w. refl, refl)
one_handoff_per_wait options state (e ∷ es) h = ground (
  arith,
  step-Counts options state e,
  one_handoff_per_wait options (step options state e) es,
  count-append is_record (emitted options state e) (effects_of options (step options state e) es),
  count-append is_handoff_acknowledgement (emitted options state e)
      (effects_of options (step options state e) es),
)

-- A handoff that the AI asks for while it owns the conversation is recorded, told to the customer
-- in the language given, explained in a note and only then announced to agents, and starts the
-- wait at its own instant.
ai_handoff_lem :
    (options : PartialOptions) (state : ConversationState) (at : ℕ) (reason : HandoffReason)
    (explanation : Option String) (language : Option Language)
    → is_human state.mode ≡ false
    → is_waiting state.mode ≡ false
    → (emitted options state (ai_handoff at reason explanation language)
        ≡ record_handoff reason at
          ∷ send_acknowledgement AcknowledgementKind.handoff language at
          ∷ add_internal_note (note_or explanation (handoff_note reason))
          ∷ notify_agents NotifyReason.handoff at
          ∷ schedule (with_defaults options).waiting_human_fallback_minutes)
      × ((step options state (ai_handoff at reason explanation language)).waiting_human_since
          ≡ some at)
unfolding step emitted
ai_handoff_lem options state at reason explanation language h w = ground arith

-- In a state that is well formed, two timers that fire in one wait ask for the very same effects, so
-- a replay apologises once.
timeout_same_occasion :
    (options : PartialOptions) (state : ConversationState) (early late : ℕ)
    → IsWellFormed state
    → emitted options state (waiting_human_timeout early)
      ≡ emitted options state (waiting_human_timeout late)
unfolding emitted
timeout_same_occasion options state early late v = ground arith
