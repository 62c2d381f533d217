-- ===== src/Models/Fallback.antt =====
-- Which provider answers: packages/core/src/ai/registry.ts.
use chatbot_integration.Prelude.{
  ◌≡◌, ◌≢◌, refl, ap, Bool, List, [], ◌∷◌, ◌++◌, none, some, ◌⊎◌, inl, inr,
}
use chatbot_integration.Models.{
  SlotTarget, SlotConfig, FallbackEnd, answered, all_failed, no_slot, Execution, succeeded, broke,
  targets_of, try_targets, run_with_fallback, after_execution,
}

module _ {W R E : Type 0} (execute : SlotTarget → W → W × Execution R E) where
  -- Every target fails, one after the other, on the way from one world to another.
  abbrev pub Fails : List (SlotTarget × Bool) → W → W → Type 0
  Fails [] w w' = w ≡ w'
  Fails (t ∷ ts) w w' =
      (mid : W) × (error : E) × (execute t.0 w ≡ (mid, broke error)) × Fails ts mid w'

  -- What an answer tells of the targets.
  abbrev pub Accounts : List (SlotTarget × Bool) → W → W × FallbackEnd R E → Type 0
  Accounts targets w (w', answered result target used) =
      (before after : List (SlotTarget × Bool)) × (mid : W) × (targets
        ≡ before ++ (target, used) ∷ after)
      × Fails before w mid
      × (execute target mid ≡ (w', succeeded result))
  Accounts targets w (w', all_failed error) = (targets ≢ []) × Fails targets w w'
  Accounts targets w (w', no_slot) = (targets ≡ []) × (w ≡ w')

  execution :
      (o : W × Execution R E)
      → ((w : W) × (r : R) × (o ≡ (w, succeeded r))) ⊎ ((w : W) × (e : E) × (o ≡ (w, broke e)))
  execution (w, succeeded r) = inl (w, r, refl)
  execution (w, broke e) = inr (w, e, refl)

  -- With an error at hand the loop never says that no slot is configured.
  abbrev Ends : List (SlotTarget × Bool) → W → W × FallbackEnd R E → Type 0
  Ends targets w (w', answered result target used) =
      Accounts targets w (w', answered result target used)
  Ends targets w (w', all_failed error) = Fails targets w w'
  Ends targets w (w', no_slot) = ⊥

  step-Ends :
      (t : SlotTarget × Bool) (ts : List (SlotTarget × Bool)) (w mid : W) (error : E)
      (o : W × FallbackEnd R E)
      → execute t.0 w ≡ (mid, broke error)
      → Ends ts mid o
      → Ends (t ∷ ts) w o
  step-Ends t ts w mid error (w', answered result target used) e
        (before, after, last, split, fails, done) =
      (t ∷ before, after, last, ap (◌∷◌ t) split, (mid, error, e, fails), done)
  step-Ends t ts w mid error (w', all_failed last) e h = (mid, error, e, h)
  step-Ends t ts w mid error (w', no_slot) e h = h

  try_targets-Ends :
      (ts : List (SlotTarget × Bool)) (last : E) (w : W)
      → Ends ts w (try_targets execute ts (some last) w)
  unfolding try_targets after_execution
  try_targets-Ends [] last w = refl
  try_targets-Ends (t ∷ ts) last w = elim (execution (execute t.0 w)) [
    | inl (mid, r, e) ↦ rw e ([], ts, w, refl, refl, e)
    | inr (mid, error, e) ↦ rw e (step-Ends t ts w mid error _ e (try_targets-Ends ts error mid))
  ]

  Ends-Accounts :
      (t : SlotTarget × Bool) (ts : List (SlotTarget × Bool)) (w : W) (o : W × FallbackEnd R E)
      → Ends (t ∷ ts) w o
      → Accounts (t ∷ ts) w o
  Ends-Accounts t ts w (w', answered result target used) h = h
  Ends-Accounts t ts w (w', all_failed error) h = ((λ e. cc), h)
  Ends-Accounts t ts w (w', no_slot) h = absurd h

  try_targets-Accounts :
      (ts : List (SlotTarget × Bool)) (w : W) → Accounts ts w (try_targets execute ts none w)
  unfolding try_targets after_execution
  try_targets-Accounts [] w = (refl, refl)
  try_targets-Accounts (t ∷ ts) w = elim (execution (execute t.0 w)) [
    | inl (mid, r, e) ↦ rw e ([], ts, w, refl, refl, e)
    | inr (mid, error, e) ↦
        rw e
          (Ends-Accounts t ts w _ (step-Ends t ts w mid error _ e (try_targets-Ends ts error mid)))
  ]

  -- An answer comes from the first target of the slot, primary before fallback, whose execution
  -- succeeds, and names it; it is an error only where a target is configured and every one has
  -- failed; and nothing runs where none is.
  run_with_fallback_lem :
      (slot : SlotConfig) (w : W) → Accounts (targets_of slot) w (run_with_fallback execute slot w)
  unfolding run_with_fallback
  run_with_fallback_lem slot w = try_targets-Accounts (targets_of slot) w
