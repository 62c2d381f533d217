-- ===== src/Effects/Reach.antt =====
-- What reaches the customer through the ports of packages/core/src/ports/index.ts.
use chatbot_integration.Prelude.{
  ℕ, String, false, ◌≡◌, refl, ◌∙◌, ◌⊎◌, inl, inr, Option, none, some, List, [], ◌∷◌, any, arith,
}
use chatbot_integration.Conversation.{
  HandoffReason, NotifyReason, human, is_waiting, ConversationState, ConversationEvent, Effect,
  run_ai_turn, run_suggestion, send_acknowledgement, add_internal_note, notify_agents,
  schedule_waiting_human_timeout, cancel_waiting_human_timeout, enqueue_summary, record_handoff,
  PartialOptions, transition, emitted,
}
use chatbot_integration.Conversation.Silence.{acts_on_customer, human_silence}
use chatbot_integration.Effects.{
  EffectPorts, Logger, EffectContext, apply_effect, apply_effects, caught, on_timeout, TimeoutReads,
  process_waiting_human_timeout,
}

-- A view of the world (what the customer has been sent) that the ports for agents, timers and
-- records leave alone.
pub record LeavesAlone {W E V : Type 0} (view : W → V) (ports : EffectPorts W E)
    (logger : Logger W E) : Type 0 where
  pub suggestion : (ctx : EffectContext) (w : W) → view (ports.enqueue_suggestion ctx w).0 ≡ view w
  pub note :
      (ctx : EffectContext) (body : String) (w : W)
      → view (ports.add_internal_note ctx body w).0 ≡ view w
  pub notify :
      (ctx : EffectContext) (reason : NotifyReason) (at : ℕ) (w : W)
      → view (ports.notify_agents ctx reason at w).0 ≡ view w
  pub start :
      (ctx : EffectContext) (minutes : ℕ) (w : W)
      → view (ports.schedule_waiting_human_timeout ctx minutes w).0 ≡ view w
  pub stop :
      (ctx : EffectContext) (w : W) → view (ports.cancel_waiting_human_timeout ctx w).0 ≡ view w
  pub summary : (ctx : EffectContext) (w : W) → view (ports.enqueue_summary ctx w).0 ≡ view w
  pub handed_off :
      (ctx : EffectContext) (reason : HandoffReason) (at : ℕ) (w : W)
      → view (ports.record_handoff ctx reason at w).0 ≡ view w
  pub warned :
      (ctx : EffectContext) (reason : NotifyReason) (error : E) (w : W)
      → view (logger.notify_failed ctx reason error w) ≡ view w
  pub ignored : (ctx : EffectContext) (w : W) → view (logger.timeout_ignored ctx w) ≡ view w

module _ {W E V : Type 0} (view : W → V) (ports : EffectPorts W E) (logger : Logger W E)
    (ctx : EffectContext) (alone : LeavesAlone view ports logger) where
  caught-view :
      (reason : NotifyReason) (o : W × Option E)
      → view (caught ports logger ctx reason o).0 ≡ view o.0
  unfolding caught
  caught-view reason (w, none) = refl
  caught-view reason (w, some error) = alone.warned ctx reason error w

  apply_effect-view :
      (x : Effect) (w : W)
      → acts_on_customer x ≡ false
      → view (apply_effect ports logger ctx x w).0 ≡ view w
  unfolding apply_effect
  apply_effect-view (run_ai_turn deliver) w h = cc
  apply_effect-view (send_acknowledgement kind language at) w h = cc
  apply_effect-view run_suggestion w h = alone.suggestion ctx w
  apply_effect-view (record_handoff reason at) w h = alone.handed_off ctx reason at w
  apply_effect-view (add_internal_note body) w h = alone.note ctx body w
  apply_effect-view (notify_agents reason at) w h =
      caught-view reason (ports.notify_agents ctx reason at w) ∙ alone.notify ctx reason at w
  apply_effect-view (schedule_waiting_human_timeout minutes) w h = alone.start ctx minutes w
  apply_effect-view cancel_waiting_human_timeout w h = alone.stop ctx w
  apply_effect-view enqueue_summary w h = alone.summary ctx w

  apply_effects-view :
      (xs : List Effect) (w : W)
      → any acts_on_customer xs ≡ false
      → view (apply_effects ports logger ctx xs w).0 ≡ view w
  unfolding apply_effects
  apply_effects-view [] w h = refl
  apply_effects-view (x ∷ xs) w h =
      ground
        (arith, apply_effect-view x w, apply_effects-view xs (apply_effect ports logger ctx x w).0)

  on_timeout-quiet :
      (conversation : Option ConversationState) (settings : Option (Option ℕ)) (now : ℕ) (w : W)
      → ((state : ConversationState) → conversation ≡ some state → is_waiting state.mode ≡ false)
        ⊎ (settings ≡ none)
      → (view (on_timeout ports logger ctx conversation settings now w).0 ≡ view w)
        × ((on_timeout ports logger ctx conversation settings now w).1 ≡ none)
  unfolding on_timeout transition
  on_timeout-quiet none settings now w h = (refl, refl)
  on_timeout-quiet (some state) none now w h = (refl, refl)
  on_timeout-quiet (some state) (some minutes) now w (inl h) =
      let idle = h state refl in ground (arith, alone.ignored ctx w)
  on_timeout-quiet (some state) (some minutes) now w (inr h) = cc

  -- In a conversation that a human owns, carrying out the effects of any event leaves what the
  -- customer sees as it was, even where a port fails half way.
  pub human_silence_at_ports :
      (options : PartialOptions) (state : ConversationState) (event : ConversationEvent) (w : W)
      → state.mode ≡ human
      → view (apply_effects ports logger ctx (emitted options state event) w).0 ≡ view w
  human_silence_at_ports options state event w h =
      apply_effects-view (emitted options state event) w (human_silence options state event h)

  -- A timer that fires for a conversation nobody is waiting in, or that is gone, or whose
  -- workspace is not workable, sends the customer nothing and fails no job.
  timeout_quiet :
      (reads : TimeoutReads) (now : ℕ) (w : W)
      → ((state : ConversationState)
          → reads.conversation ≡ some state
          → is_waiting state.mode ≡ false)
        ⊎ (reads.fallback_minutes ≡ none)
      → (view (process_waiting_human_timeout ports logger ctx reads now w).0 ≡ view w)
        × ((process_waiting_human_timeout ports logger ctx reads now w).1 ≡ none)
  unfolding process_waiting_human_timeout
  timeout_quiet reads now w h = on_timeout-quiet reads.conversation reads.fallback_minutes now w h
