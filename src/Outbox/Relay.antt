-- ===== src/Outbox/Relay.antt =====
-- What a relay pass does to the table: packages/infra/src/outbox.ts, `relayOnce`.
use chatbot_integration.Prelude.{
  ℕ, zero, suc, ◌≤◌, ◌<◌, ◌≡◌, refl, ◌∙◌, String, Bool, none, some, List, [], ◌∷◌, keep, length,
  arith, min, Bool-cases, inl, inr, length-take,
}
use chatbot_integration.Outbox.{
  OutboxRow, Broker, Pass, is_add, queue_exists, batch_size, sort_by_id, hand_over, settle,
  relay_row, relay_rows, claimable, claim, relay_once,
}
use chatbot_integration.Outbox.Table.{count_rows, length-sort_by_id, count-set_where_id}

module _ {P : Type 0} (b : Broker P) (now : ℕ) (is_locked : ℕ → Bool) where
  open b use {State, add_job, remove_job}

  -- Redis answers nothing: every call throws.
  pub record IsDown : Type 0 where
    pub add_fails :
        (row : OutboxRow P) (s : State)
        → (s' : State) × (message : String) × (add_job row s ≡ (s', some message))
    pub remove_fails :
        (queue job_id : String) (s : State)
        → (s' : State) × (message : String) × (remove_job queue job_id s ≡ (s', some message))

  -- Every call works.
  pub record IsUp : Type 0 where
    pub add_works : (row : OutboxRow P) (s : State) → (s' : State) × (add_job row s ≡ (s', none))
    pub remove_works :
        (queue job_id : String) (s : State)
        → (s' : State) × (remove_job queue job_id s ≡ (s', none))

  -- How many rows a pass could claim.
  abbrev pub waiting : List (OutboxRow P) → ℕ
  waiting rows = count_rows (claimable b now is_locked) rows

  pub length-claim :
      (rows : List (OutboxRow P)) → length (claim b now is_locked rows) ≡ min 100 (waiting rows)
  unfolding claim
  length-claim rows = omega (
    arith,
    length-take 100 (sort_by_id (keep (claimable b now is_locked) rows)),
    length-sort_by_id (keep (claimable b now is_locked) rows),
  )

  hand_over_down :
      (row : OutboxRow P) (s : State)
      → IsDown
      → (s' : State) × (message : String) × (hand_over b now is_locked row s ≡ (s', some message))
  unfolding hand_over
  hand_over_down row s down = elim (Bool-cases (queue_exists row.queue)) [
    | inr e ↦ rw e (s, _, refl)
    | inl e ↦ elim (Bool-cases (is_add row.op)) [
      | inl a ↦ rw (e, a) (down.add_fails row s)
      | inr a ↦ rw (e, a) (down.remove_fails row.queue row.job_id s)
    ]
  ]

  settle_failed :
      (row : OutboxRow P) (p : Pass P State) (s : State) (message : String)
      → waiting (settle b now is_locked row p (s, some message)).rows ≡ waiting p.rows
  unfolding settle
  settle_failed row p s message =
      count-set_where_id (claimable b now is_locked) _ row.id (λ r. refl) p.rows

  relay_rows_down :
      (rows : List (OutboxRow P)) (p : Pass P State)
      → IsDown
      → waiting (relay_rows b now is_locked rows p).rows ≡ waiting p.rows
  unfolding relay_rows relay_row
  relay_rows_down [] p down = refl
  relay_rows_down (row ∷ rows) p down =
      let (s, message, e) = hand_over_down row p.broker down in
      relay_rows_down rows _ down ∙ rw e (settle_failed row p s message)

  -- With Redis away and a full batch of rows pending, a relay pass goes round for ever: it claims
  -- the same rows again and again, and returns for no amount of fuel.
  pub relay_once_livelock :
      (fuel : ℕ) (p : Pass P State)
      → IsDown
      → batch_size ≤ waiting p.rows
      → relay_once b now is_locked fuel p ≡ none
  unfolding relay_once
  relay_once_livelock zero p down full = refl
  relay_once_livelock (suc fuel) p down full = ground (
    arith,
    length-claim p.rows,
    relay_rows_down (claim b now is_locked p.rows) p down,
    relay_once_livelock fuel (relay_rows b now is_locked (claim b now is_locked p.rows) p) down,
  )

  -- With fewer rows than a batch, one round ends the pass whatever the queues answer.
  pub relay_once_short :
      (fuel : ℕ) (p : Pass P State)
      → waiting p.rows < batch_size
      → relay_once b now is_locked (suc fuel) p
        ≡ some (relay_rows b now is_locked (claim b now is_locked p.rows) p)
  unfolding relay_once
  relay_once_short fuel p short = ground (arith, length-claim p.rows)

  -- A full batch is followed by another round.
  pub relay_once_full :
      (fuel : ℕ) (p : Pass P State)
      → batch_size ≤ waiting p.rows
      → relay_once b now is_locked (suc fuel) p
        ≡ relay_once b now is_locked fuel
            (relay_rows b now is_locked (claim b now is_locked p.rows) p)
  unfolding relay_once
  relay_once_full fuel p full = ground (arith, length-claim p.rows)
