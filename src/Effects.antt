-- ===== src/Effects.antt =====
-- Carrying out the effects: packages/core/src/conversation/effects.ts, with the ports of
-- packages/core/src/ports/index.ts and the waiting-human processor of
-- apps/worker/src/processors/waiting-human.ts. The ports are parameters over a world `W`; a call
-- that throws returns its error beside the world it leaves.
pub mod Order
pub mod Reach
mod Tests
use chatbot_integration.Prelude.{ℕ, String, Bool, Option, none, some, List, [], ◌∷◌}
use chatbot_integration.Conversation.{
  HandoffReason, Language, NotifyReason, Deliver, AcknowledgementKind, ConversationState,
  waiting_human_timeout, Effect, run_ai_turn, run_suggestion, send_acknowledgement,
  add_internal_note, notify_agents, schedule_waiting_human_timeout, cancel_waiting_human_timeout,
  enqueue_summary, record_handoff, PartialOptions, transition,
}

pub record EffectContext : Type 0 where
  pub workspace_id : String
  pub conversation_id : String
  pub trigger_message_id : Option String
  pub turn_key : Option String

pub record AcknowledgementInput : Type 0 where
  pub kind : AcknowledgementKind
  pub language : Option Language
  pub at : ℕ

abbrev pub Call : Type 0 → Type 0 → Type 0
Call W E = W → W × Option E

pub record EffectPorts (W E : Type 0) : Type 0 where
  pub enqueue_ai_turn : EffectContext → Deliver → Call W E
  pub enqueue_suggestion : EffectContext → Call W E
  pub send_acknowledgement : EffectContext → AcknowledgementInput → Call W E
  pub add_internal_note : EffectContext → String → Call W E
  pub notify_agents : EffectContext → NotifyReason → ℕ → Call W E
  pub schedule_waiting_human_timeout : EffectContext → ℕ → Call W E
  pub cancel_waiting_human_timeout : EffectContext → Call W E
  pub enqueue_summary : EffectContext → Call W E
  pub record_handoff : EffectContext → HandoffReason → ℕ → Call W E

-- `logger.warn` and `logger.info`, as far as the world shows them.
pub record Logger (W E : Type 0) : Type 0 where
  pub notify_failed : EffectContext → NotifyReason → E → W → W
  pub timeout_ignored : EffectContext → W → W

module _ {W E : Type 0} (ports : EffectPorts W E) (logger : Logger W E) (ctx : EffectContext) where
  -- The handler of the `try` around `notifyAgents`.
  unfoldable pub caught : NotifyReason → W × Option E → W × Option E
  caught reason (w, none) = (w, none)
  caught reason (w, some error) = (logger.notify_failed ctx reason error w, none)

  -- The `switch` in the loop's body.
  unfoldable pub apply_effect : Effect → Call W E
  unfolding caught
  apply_effect (run_ai_turn deliver) w = ports.enqueue_ai_turn ctx deliver w
  apply_effect run_suggestion w = ports.enqueue_suggestion ctx w
  apply_effect (send_acknowledgement kind language at) w =
      ports.send_acknowledgement ctx (record { kind = kind; language = language; at = at }) w
  apply_effect (record_handoff reason at) w = ports.record_handoff ctx reason at w
  apply_effect (add_internal_note body) w = ports.add_internal_note ctx body w
  apply_effect (notify_agents reason at) w = caught reason (ports.notify_agents ctx reason at w)
  apply_effect (schedule_waiting_human_timeout minutes) w =
      ports.schedule_waiting_human_timeout ctx minutes w
  apply_effect cancel_waiting_human_timeout w = ports.cancel_waiting_human_timeout ctx w
  apply_effect enqueue_summary w = ports.enqueue_summary ctx w

  -- What follows a call: the rest of the loop, or the error.
  abbrev pub and_then : W × Option E → Call W E → W × Option E
  and_then (w, none) rest = rest w
  and_then (w, some error) rest = (w, some error)

  unfoldable pub apply_effects : List Effect → Call W E
  apply_effects [] w = (w, none)
  apply_effects (effect ∷ effects) w =
      and_then (apply_effect effect w) (λ w'. apply_effects effects w')

-- What the processor reads: the conversation, and the settings of a workspace that is workable.
pub record TimeoutReads : Type 0 where
  pub conversation : Option ConversationState
  pub fallback_minutes : Option (Option ℕ)

module _ {W E : Type 0} (ports : EffectPorts W E) (logger : Logger W E) (ctx : EffectContext) where
  -- No effects means that somebody has taken the conversation over already.
  carry_out : List Effect → Call W E
  carry_out [] w = (logger.timeout_ignored ctx w, none)
  carry_out (effect ∷ effects) w = apply_effects ports logger ctx (effect ∷ effects) w

  timeout_options : Option ℕ → PartialOptions
  timeout_options minutes = record {
    waiting_human_fallback_minutes = some minutes;
    handoff_on_unsupported_media = none;
  }

  pub on_timeout : Option ConversationState → Option (Option ℕ) → ℕ → Call W E
  unfolding carry_out timeout_options
  on_timeout none settings now w = (w, none)
  on_timeout (some state) none now w = (w, none)
  on_timeout (some state) (some minutes) now w =
      carry_out (transition state (waiting_human_timeout now) (timeout_options minutes)).effects w

  pub process_waiting_human_timeout : TimeoutReads → (now : ℕ) → Call W E
  unfolding on_timeout
  process_waiting_human_timeout reads now w =
      on_timeout reads.conversation reads.fallback_minutes now w
