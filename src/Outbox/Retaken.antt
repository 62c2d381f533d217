-- ===== src/Outbox/Retaken.antt =====
-- A batch that is relayed twice, as after a crash: packages/infra/src/outbox.ts.
use mathlib.Core.Path.{ap₂}
use chatbot_integration.Prelude.{
  ℕ, ◌+◌, ◌≡◌, refl, String, Bool, true, none, some, List, [], ◌∷◌, All, All-map, arith, map,
  length, ap, sym, ◌∙◌, any, ◌==◌, if◌then◌else◌, ◌≤◌, Option,
}
use chatbot_integration.Outbox.{
  OutboxRow, add, Broker, Pass, hand_over, settle, relay_row, relay_rows, queue_exists,
  set_where_id,
}

module _ {P : Type 0} (b : Broker P) (now : ℕ) (is_locked : ℕ → Bool) where
  open b use {State, add_job}

  -- BullMQ ignores an `add` for a job id that it holds, holds what it was given, and gives up no
  -- job because another one is added.
  pub record HoldsJobs (holds : (queue job_id : String) → State → Bool) : Type 0 where
    pub add_again :
        (row : OutboxRow P) (s : State)
        → holds row.queue row.job_id s ≡ true
        → add_job row s ≡ (s, none)
    pub add_held :
        (row : OutboxRow P) (s s' : State)
        → add_job row s ≡ (s', none)
        → holds row.queue row.job_id s' ≡ true
    pub held_on :
        (queue job_id : String) (row : OutboxRow P) (s : State)
        → holds queue job_id s ≡ true
        → holds queue job_id (add_job row s).0 ≡ true

  -- What other processes give to the queues.
  unfoldable pub add_all : List (OutboxRow P) → State → State
  add_all [] s = s
  add_all (row ∷ rows) s = add_all rows (add_job row s).0

  abbrev pub IsKnownAdd : OutboxRow P → Type 0
  IsKnownAdd row = (queue_exists row.queue ≡ true) × (row.op ≡ add)

  -- One row is marked and counted.
  abbrev counted_one : OutboxRow P → Pass P State → Pass P State
  counted_one row p = record p {
    rows = set_where_id row.id (λ r. record r { relayed_at = some now; last_error = none }) p.rows;
    relayed = p.relayed + 1;
  }

  counted : List (OutboxRow P) → Pass P State → Pass P State
  counted [] p = p
  counted (row ∷ rows) p = counted rows (counted_one row p)

  counted-broker :
      (rows : List (OutboxRow P)) (p : Pass P State) (s : State)
      → counted rows (record p { broker = s }) ≡ record (counted rows p) { broker = s }
  unfolding counted
  counted-broker [] p s = refl
  counted-broker (row ∷ rows) p s = counted-broker rows (counted_one row p) s

  -- A row of the batch, marked, or another row.
  abbrev pub relayed_if_of : List (OutboxRow P) → OutboxRow P → OutboxRow P
  relayed_if_of batch row =
      if any (λ (r : OutboxRow P). row.id == r.id) batch
      then record row { relayed_at = some now; last_error = none }
      else row

  set_where_id-relayed :
      (row : OutboxRow P) (batch table : List (OutboxRow P))
      → map
          (relayed_if_of batch)
          (set_where_id row.id (λ r. record r { relayed_at = some now; last_error = none }) table)
        ≡ map (relayed_if_of (row ∷ batch)) table
  unfolding set_where_id
  set_where_id-relayed row batch [] = refl
  set_where_id-relayed row batch (r ∷ table) = ap₂ ◌∷◌ here (set_where_id-relayed row batch table)
    where
      here :
          relayed_if_of batch
            (if r.id == row.id then record r { relayed_at = some now; last_error = none } else r)
          ≡ relayed_if_of (row ∷ batch) r
      here = ground arith

  none_marked : (table : List (OutboxRow P)) → map (relayed_if_of []) table ≡ table
  none_marked [] = refl
  none_marked (r ∷ table) = ap (◌∷◌ r) (none_marked table)

  counted_lem :
      (rows : List (OutboxRow P)) (p : Pass P State)
      → let q = counted rows p in
        (q.broker ≡ p.broker)
        × (q.rows ≡ map (relayed_if_of rows) p.rows)
        × (q.relayed ≡ p.relayed + length rows)
        × (q.failed ≡ p.failed)
  unfolding counted
  counted_lem [] p = (refl, sym (none_marked p.rows), omega arith, refl)
  counted_lem (row ∷ rows) p =
      let (broker, marked, number, failed) = counted_lem rows (counted_one row p) in
      (broker, marked ∙ set_where_id-relayed row rows p.rows, omega arith, failed)

  hand_over_add :
      (row : OutboxRow P) (s : State)
      → IsKnownAdd row
      → hand_over b now is_locked row s ≡ add_job row s
  unfolding hand_over
  hand_over_add row s (known, a) = ground arith

  settle_grows :
      (row : OutboxRow P) (p : Pass P State) (r : State × Option String)
      → p.failed ≤ (settle b now is_locked row p r).failed
  unfolding settle
  settle_grows row p (s, none) = omega arith
  settle_grows row p (s, some e) = omega arith

  failures_grow :
      (rows : List (OutboxRow P)) (p : Pass P State)
      → p.failed ≤ (relay_rows b now is_locked rows p).failed
  unfolding relay_rows relay_row
  failures_grow [] p = omega arith
  failures_grow (row ∷ rows) p = omega (
    arith,
    settle_grows row p (hand_over b now is_locked row p.broker),
    failures_grow rows (relay_row b now is_locked row p),
  )

  settled :
      (row : OutboxRow P) (p : Pass P State) (r : State × Option String)
      → (settle b now is_locked row p r).failed ≤ p.failed
      → (r.1 ≡ none)
        × (settle b now is_locked row p r ≡ record (counted_one row p) { broker = r.0 })
  unfolding settle
  settled row p (s, none) h = (refl, refl)
  settled row p (s, some e) h = absurd (omega arith)

  settle-broker :
      (row : OutboxRow P) (p : Pass P State) (r : State × Option String)
      → (settle b now is_locked row p r).broker ≡ r.0
  unfolding settle
  settle-broker row p (s, none) = refl
  settle-broker row p (s, some e) = refl

  module _ (holds : (queue job_id : String) → State → Bool) (law : HoldsJobs holds) where
    held_over_pass :
        (queue job_id : String) (rows : List (OutboxRow P)) (p : Pass P State)
        → All IsKnownAdd rows
        → holds queue job_id p.broker ≡ true
        → holds queue job_id (relay_rows b now is_locked rows p).broker ≡ true
    unfolding relay_rows relay_row
    held_over_pass queue job_id [] p known h = h
    held_over_pass queue job_id (row ∷ rows) p (known, rest) h =
        held_over_pass queue job_id rows (relay_row b now is_locked row p) rest (
          rw
            (
              settle-broker row p (hand_over b now is_locked row p.broker),
              hand_over_add row p.broker known,
            )
            (law.held_on queue job_id row p.broker h))

    held_over_others :
        (queue job_id : String) (others : List (OutboxRow P)) (s : State)
        → holds queue job_id s ≡ true
        → holds queue job_id (add_all others s) ≡ true
    unfolding add_all
    held_over_others queue job_id [] s h = h
    held_over_others queue job_id (row ∷ rows) s h =
        held_over_others queue job_id rows (add_job row s).0 (law.held_on queue job_id row s h)

    abbrev pub HoldsAll : List (OutboxRow P) → State → Type 0
    HoldsAll rows s = All (λ (r : OutboxRow P). holds r.queue r.job_id s ≡ true) rows

    handed_over :
        (rows : List (OutboxRow P)) (p : Pass P State)
        → All IsKnownAdd rows
        → (relay_rows b now is_locked rows p).failed ≡ p.failed
        → let q = relay_rows b now is_locked rows p in
          HoldsAll rows q.broker × (q ≡ record (counted rows p) { broker = q.broker })
    unfolding relay_rows relay_row counted
    handed_over [] p known fine = (tt, refl)
    handed_over (row ∷ rows) p (known, rest) fine =
        let handed = hand_over b now is_locked row p.broker in
        let p' = relay_row b now is_locked row p in
        let grows = failures_grow rows p' in
        let (works, here) = settled row p handed (omega arith) in
        let same : p'.failed ≡ p.failed = ap (λ (q : Pass P State). q.failed) here in
        let (held, there) = handed_over rows p' rest (fine ∙ sym same) in
        let gave : add_job row p.broker ≡ (handed.0, none) =
          sym (hand_over_add row p.broker known) ∙ ap (λ e. (handed.0, e)) works in
        let mine : holds row.queue row.job_id p'.broker ≡ true =
          rw (settle-broker row p handed) (law.add_held row p.broker handed.0 gave) in
        let s = (relay_rows b now is_locked rows p').broker in
        (
          (held_over_pass row.queue row.job_id rows p' rest mine, held),
          there
              ∙ ap (λ q. record (counted rows q) { broker = s }) here
              ∙ ap (λ (q : Pass P State). record q { broker = s })
                  (counted-broker rows (counted_one row p) handed.0),
        )

    relayed_again :
        (rows : List (OutboxRow P)) (p : Pass P State)
        → All IsKnownAdd rows
        → HoldsAll rows p.broker
        → relay_rows b now is_locked rows p ≡ counted rows p
    unfolding relay_rows relay_row settle counted
    relayed_again [] p known held = refl
    relayed_again (row ∷ rows) p (known, rest) (held, more) =
        let same : relay_row b now is_locked row p ≡ counted_one row p =
          ap (settle b now is_locked row p)
            (hand_over_add row p.broker known ∙ law.add_again row p.broker held) in
        ap (relay_rows b now is_locked rows) same ∙ relayed_again rows (counted_one row p) rest more

    -- A relay that dies in a batch of jobs to add, after the queues took all of them and before
    -- its transaction committed, does no harm: the pass that takes up the same rows again, which
    -- nobody marked, marks every one of them as relayed, and no other row, counts them without a
    -- failure, and adds nothing to the queues, which hold every job of the batch, whatever others
    -- added to these meanwhile, where a queue ignores a job that it holds and gives none up.
    pub relay_rows_again :
        (batch others : List (OutboxRow P)) (p : Pass P State)
        → All IsKnownAdd batch
        → (relay_rows b now is_locked batch p).failed ≡ p.failed
        → let s = add_all others (relay_rows b now is_locked batch p).broker in
          let again = relay_rows b now is_locked batch (record p { broker = s }) in
          (again.broker ≡ s)
          × (again.rows ≡ map (relayed_if_of batch) p.rows)
          × (again.relayed ≡ p.relayed + length batch)
          × (again.failed ≡ p.failed)
          × HoldsAll batch again.broker
    relay_rows_again batch others p known fine =
        let q = relay_rows b now is_locked batch p in
        let s = add_all others q.broker in
        let (held, same) = handed_over batch p known fine in
        let held' : HoldsAll batch s =
          All-map _ _ batch (λ r. held_over_others r.queue r.job_id others q.broker) held in
        let (broker, rows, relayed, failed) = counted_lem batch (record p { broker = s }) in
        rw (relayed_again batch (record p { broker = s }) known held')
          (broker, rows, relayed, failed, rw broker held')
