-- ===== src/Outbox/Pump/Prune.antt =====
-- Pruning forgets only what is done (packages/infra/src/outbox.ts).
use chatbot_integration.Prelude.{
  ℕ, ◌≡◌, refl, false, List, [], ◌∷◌, arith, keep, Bool-cases, inl, inr,
}
use chatbot_integration.Outbox.{OutboxRow, is_pending}
use chatbot_integration.Outbox.Pump.{prune, survives}

gone-relayed :
    {P : Type 0} (now older_than : ℕ) (r : OutboxRow P)
    → survives now older_than r ≡ false
    → is_pending r ≡ false
unfolding survives
gone-relayed now older_than r h = ground arith

-- Pruning leaves every pending row where it was, and pruning again at the same time finds nothing
-- more to delete.
prune_pending :
    {P : Type 0} (now older_than : ℕ) (rows : List (OutboxRow P))
    → (keep is_pending (prune now older_than rows) ≡ keep is_pending rows)
      × (prune now older_than (prune now older_than rows) ≡ prune now older_than rows)
unfolding prune
prune_pending now older_than [] = (refl, refl)
prune_pending now older_than (r ∷ rows) =
    let (same, again) = prune_pending now older_than rows in
    elim (Bool-cases (survives now older_than r)) [
      | inl e ↦ rw e (rw same refl, rw (e, again) refl)
      | inr e ↦ rw (e, gone-relayed now older_than r e) (same, again)
    ]
