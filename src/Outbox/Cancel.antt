-- ===== src/Outbox/Cancel.antt =====
-- Taking a job back: packages/infra/src/outbox.ts.
use chatbot_integration.Prelude.{
  ℕ, ◌+◌, ◌≡◌, refl, String, false, List, [], ◌∷◌, All, All-append, arith, map, Bool-cases, inl,
  inr, length, length-append, length-map,
}
use chatbot_integration.Outbox.{OutboxRow, is_withdrawn, withdraw, cancel}

module _ {P : Type 0} where
  withdraw_lem :
      (now : ℕ) (queue job_id : String) (r : OutboxRow P)
      → is_withdrawn queue job_id (withdraw now queue job_id r) ≡ false
  unfolding withdraw
  withdraw_lem now queue job_id r = elim (Bool-cases (is_withdrawn queue job_id r)) [
    | inl e ↦ rw e (ground arith)
    | inr e ↦ rw e e
  ]

  map-withdraw :
      (now : ℕ) (queue job_id : String) (rows : List (OutboxRow P))
      → All (λ r. is_withdrawn queue job_id r ≡ false) (map (withdraw now queue job_id) rows)
  map-withdraw now queue job_id [] = tt
  map-withdraw now queue job_id (r ∷ rs) =
      (withdraw_lem now queue job_id r, map-withdraw now queue job_id rs)

  -- After a cancellation the table holds no pending `add` for that job, so no later relay pass can
  -- start it, and one row more than before.
  cancel_withdraws :
      (id now : ℕ) (empty : P) (queue job_id : String) (rows : List (OutboxRow P))
      → All (λ r. is_withdrawn queue job_id r ≡ false) (cancel id now empty queue job_id rows)
        × (length (cancel id now empty queue job_id rows) ≡ length rows + 1)
  unfolding cancel
  cancel_withdraws id now empty queue job_id rows = (
    All-append _ (map (withdraw now queue job_id) rows) _ (map-withdraw now queue job_id rows)
        (ground arith, tt),
    rw
        (
          length-append (map (withdraw now queue job_id) rows) _,
          length-map rows (withdraw now queue job_id),
        )
        refl,
  )
