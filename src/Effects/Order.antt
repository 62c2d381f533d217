-- ===== src/Effects/Order.antt =====
-- In which order effects run, and what stops them: packages/core/src/conversation/effects.ts.
use chatbot_integration.Prelude.{
  Bool, true, false, ◌≡◌, refl, Option, none, some, List, [], ◌∷◌, ◌++◌, arith, ap, ◌⊎◌, inl, inr,
}
use chatbot_integration.Conversation.{Effect, notify_agents}
use chatbot_integration.Effects.{EffectPorts, Logger, EffectContext, apply_effect, apply_effects}

abbrev pub is_notify : Effect → Bool
is_notify (notify_agents reason at) = true
is_notify _ = false

outcome :
    {W E : Type 0} (o : W × Option E)
    → ((w : W) × (o ≡ (w, none))) ⊎ ((w : W) × (error : E) × (o ≡ (w, some error)))
outcome (w, none) = inl (w, refl)
outcome (w, some error) = inr (w, error, refl)

module _ {W E : Type 0} (ports : EffectPorts W E) (logger : Logger W E) (ctx : EffectContext) where
  apply_notify :
      (x : Effect) (w : W) (w' : W) (error : E)
      → apply_effect ports logger ctx x w ≡ (w', some error)
      → is_notify x ≡ false
  unfolding apply_effect
  apply_notify (notify_agents reason at) w w' error h = ground arith
  apply_notify x w w' error h = refl

  abbrev pub FailsAt : List Effect → W → W → E → Type 0
  FailsAt effects w w' error =
      (xs : List Effect) × (x : Effect) × (ys : List Effect) × (mid : W) × (effects ≡ xs ++ x ∷ ys)
      × (apply_effects ports logger ctx xs w ≡ (mid, none))
      × (is_notify x ≡ false)
      × (apply_effect ports logger ctx x mid ≡ (w', some error))

  -- A list of effects fails only at an effect that is no notification: those before it have all
  -- run, it failed with that very error in the world that is returned, and none after it was tried.
  pub apply_effects_failure :
      (effects : List Effect) (w w' : W) (error : E)
      → apply_effects ports logger ctx effects w ≡ (w', some error)
      → FailsAt effects w w' error
  unfolding apply_effects
  apply_effects_failure [] w w' error h = cc
  apply_effects_failure (x ∷ xs) w w' error h = elim (outcome (apply_effect ports logger ctx x w)) [
    | inl (mid, e) ↦
        let (before, y, after, stop, split, run, kind, fails) =
          apply_effects_failure xs mid w' error (ground arith) in
        (x ∷ before, y, after, stop, ap (◌∷◌ x) split, ground arith, kind, fails)
    | inr (mid, err, e) ↦ ([], x, xs, w, refl, refl, apply_notify x w mid err e, ground arith)
  ]
