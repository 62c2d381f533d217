-- ===== src/Conversation/Timer.antt =====
-- The fallback timer of a waiting conversation, as the effects of
-- packages/core/src/conversation/state-machine.ts start and cancel it.
use chatbot_integration.Prelude.{ℕ, Bool, true, false, ◌≡◌, List, [], ◌∷◌, any, arith, some}
use chatbot_integration.Conversation.{
  ai, waiting_human, ConversationState, ConversationEvent, customer_message, waiting_human_timeout,
  Effect, schedule_waiting_human_timeout, cancel_waiting_human_timeout, is_waiting, with_defaults,
  PartialOptions, step, emitted,
}

-- Whether the timer runs after an effect, and after a list of them.
abbrev pub arm : Bool → Effect → Bool
arm armed (schedule_waiting_human_timeout minutes) = true
arm armed cancel_waiting_human_timeout = false
arm armed _ = armed

abbrev pub arm_all : Bool → List Effect → Bool
arm_all armed [] = armed
arm_all armed (e ∷ es) = arm_all (arm armed e) es

-- A timer that fires is spent.
abbrev pub before : ConversationEvent → Bool → Bool
before (waiting_human_timeout at) armed = false
before _ armed = armed

-- The conversation with its timer, over a history.
pub armed_after :
    PartialOptions → ConversationState → Bool → List ConversationEvent → Bool × ConversationState
armed_after options state armed [] = (armed, state)
armed_after options state armed (e ∷ es) =
    armed_after options (step options state e) (arm_all (before e armed) (emitted options state e))
      es

abbrev pub TimerIsSafe : Bool → ConversationState → Type 0
TimerIsSafe armed state = armed ≡ true → state.mode ≡ waiting_human

step-TimerIsSafe :
    (options : PartialOptions) (state : ConversationState) (armed : Bool)
    (event : ConversationEvent)
    → TimerIsSafe armed state
    → TimerIsSafe
        (arm_all (before event armed) (emitted options state event))
        (step options state event)
unfolding step emitted
step-TimerIsSafe options state armed (customer_message at is_media) h k = ground arith
step-TimerIsSafe options state armed event h k = ground arith

-- From a state whose timer runs at most while it waits, after any history the timer runs only while
-- the conversation is waiting: taking over, replying and handing back all stop it.
pub timer_only_while_waiting :
    (options : PartialOptions) (state : ConversationState) (armed : Bool)
    (events : List ConversationEvent)
    → TimerIsSafe armed state
    → let (running, final) = armed_after options state armed events in TimerIsSafe running final
unfolding armed_after
timer_only_while_waiting options state armed [] h = h
timer_only_while_waiting options state armed (e ∷ es) h =
    timer_only_while_waiting options (step options state e) _ es
      (step-TimerIsSafe options state armed e h)

abbrev pub is_schedule : Effect → Bool
is_schedule (schedule_waiting_human_timeout minutes) = true
is_schedule _ = false

abbrev pub is_customer_message : ConversationEvent → Bool
is_customer_message (customer_message at is_media) = true
is_customer_message _ = false

-- With a fallback window, every event that moves a conversation into `waiting_human` starts the
-- timer, except a customer message.
waiting_starts_timer :
    (options : PartialOptions) (state : ConversationState) (event : ConversationEvent) (minutes : ℕ)
    → (with_defaults options).waiting_human_fallback_minutes ≡ some minutes
    → is_customer_message event ≡ false
    → is_waiting state.mode ≡ false
    → is_waiting (step options state event).mode ≡ true
    → any is_schedule (emitted options state event) ≡ true
unfolding step emitted
waiting_starts_timer options state (customer_message at is_media) minutes m c w e = cc
waiting_starts_timer options state event minutes m c w e = ground arith

-- A photograph or a file that hands an `ai` conversation off leaves it waiting, and starts no
-- timer whatever fallback window the workspace has.
media_handoff_untimed :
    (options : PartialOptions) (state : ConversationState) (at : ℕ)
    → state.mode ≡ ai
    → (with_defaults options).handoff_on_unsupported_media ≡ true
    → ((step options state (customer_message at true)).mode ≡ waiting_human)
      × (any is_schedule (emitted options state (customer_message at true)) ≡ false)
unfolding step emitted
media_handoff_untimed options state at h o = ground arith
