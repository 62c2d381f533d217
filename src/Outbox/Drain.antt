-- ===== src/Outbox/Drain.antt =====
-- A relay pass over working queues (packages/infra/src/outbox.ts) ends, and leaves nothing behind.
use mathlib.Core.List.{Memᴰ}
use chatbot_integration.Prelude.{
  ℕ, zero, suc, ◌≤◌, ◌<◌, ◌≡◌, refl, ap, ◌∙◌, Bool, true, none, some, List, [], ◌∷◌, keep, length,
  All, any, arith, ◌==◌, Bool-cases, inl, inr, All-take, take_all, All-Memᴰ, All-map, All-keep,
  dec_lt,
}
use chatbot_integration.Outbox.{
  OutboxRow, Broker, Pass, is_add, queue_exists, sort_by_id, set_where_id, hand_over, settle,
  relay_row, relay_rows, claimable, claim, relay_once,
}
use chatbot_integration.Outbox.Table.{
  length-sort_by_id, All-sort_by_id, count-set_where_id_le, any-sort_by_id, any-keep,
}
use chatbot_integration.Outbox.Relay.{
  IsUp, waiting, length-claim, relay_once_short, relay_once_full,
}

abbrev pub IsKnown : {P : Type 0} → OutboxRow P → Type 0
IsKnown r = queue_exists r.queue ≡ true

module _ {P : Type 0} where
  set_where_id-IsKnown :
      (id : ℕ) (f : OutboxRow P → OutboxRow P) (rows : List (OutboxRow P))
      → ((r : OutboxRow P) → (f r).queue ≡ r.queue)
      → All IsKnown rows
      → All IsKnown (set_where_id id f rows)
  unfolding set_where_id
  set_where_id-IsKnown id f [] same h = tt
  set_where_id-IsKnown id f (r ∷ rs) same h =
      (ground (arith, same r, ap queue_exists (same r)), set_where_id-IsKnown id f rs same h.1)

module _ {P : Type 0} (b : Broker P) (now : ℕ) (is_locked : ℕ → Bool)
    (up : IsUp b now is_locked) where
  open b use {State}

  mark : OutboxRow P → OutboxRow P
  mark r = record r { relayed_at = some now; last_error = none }

  abbrev can : OutboxRow P → Bool
  can = claimable b now is_locked

  hand_over_up :
      (row : OutboxRow P) (s : State)
      → IsKnown row
      → (s' : State) × (hand_over b now is_locked row s ≡ (s', none))
  unfolding hand_over
  hand_over_up row s known = elim (Bool-cases (is_add row.op)) [
    | inl a ↦ rw (known, a) (up.add_works row s)
    | inr a ↦ rw (known, a) (up.remove_works row.queue row.job_id s)
  ]

  -- A row of a known queue is marked, by its id.
  relay_row_up :
      (row : OutboxRow P) (p : Pass P State)
      → IsKnown row
      → (relay_row b now is_locked row p).rows ≡ set_where_id row.id mark p.rows
  unfolding relay_row settle mark
  relay_row_up row p known = let (s, e) = hand_over_up row p.broker known in rw e refl

  -- Every row that can be claimed has its id in the batch.
  abbrev Covers : List (OutboxRow P) → List (OutboxRow P) → Type 0
  Covers batch rows = All (λ r. can r ≡ true → any (λ q. q.id == r.id) batch ≡ true) rows

  Covers-mark :
      (row : OutboxRow P) (batch rows : List (OutboxRow P))
      → Covers (row ∷ batch) rows
      → Covers batch (set_where_id row.id mark rows)
  unfolding set_where_id mark
  Covers-mark row batch [] h = tt
  Covers-mark row batch (r ∷ rs) h = (λ c. ground (arith, h.0), Covers-mark row batch rs h.1)

  waiting_none : (rows : List (OutboxRow P)) → Covers [] rows → waiting b now is_locked rows ≡ 0
  waiting_none [] h = refl
  waiting_none (r ∷ rs) h = ground (arith, h.0, waiting_none rs h.1)

  relay_rows_covered :
      (batch : List (OutboxRow P)) (p : Pass P State)
      → All IsKnown batch
      → Covers batch p.rows
      → waiting b now is_locked (relay_rows b now is_locked batch p).rows ≡ 0
  unfolding relay_rows
  relay_rows_covered [] p known h = waiting_none p.rows h
  relay_rows_covered (row ∷ batch) p known h =
      relay_rows_covered batch (relay_row b now is_locked row p) known.1
        (rw (relay_row_up row p known.0) (Covers-mark row batch p.rows h))

  Covers-keep :
      (whole rows : List (OutboxRow P))
      → All (λ r. Memᴰ r whole) rows
      → Covers (sort_by_id (keep can whole)) rows
  Covers-keep whole [] h = tt
  Covers-keep whole (r ∷ rs) h = (
    λ c.
        any-sort_by_id (λ q. q.id == r.id) (keep can whole)
        ∙ any-keep can (λ q. q.id == r.id) whole r h.0 c (ground arith),
    Covers-keep whole rs h.1,
  )

  claim-IsKnown :
      (rows : List (OutboxRow P)) → All IsKnown rows → All IsKnown (claim b now is_locked rows)
  unfolding claim
  claim-IsKnown rows known = All-take IsKnown 100 _ (
      All-sort_by_id IsKnown (keep can rows) (
        All-map (λ r. IsKnown r × (can r ≡ true)) IsKnown (keep can rows) (λ r h. h.0)
          (All-keep IsKnown can rows known)))

  -- A batch that is not full is all that can be claimed.
  claim_short-Covers :
      (rows : List (OutboxRow P))
      → waiting b now is_locked rows < 100
      → Covers (claim b now is_locked rows) rows
  unfolding claim
  claim_short-Covers rows short =
      rw
        (take_all 100 (sort_by_id (keep can rows))
          (omega (arith, length-sort_by_id (keep can rows))))
        (Covers-keep rows rows (All-Memᴰ rows))

  IsClaimable : List (OutboxRow P) → OutboxRow P → Type 0
  IsClaimable rows r = Memᴰ r rows × (can r ≡ true)

  claim-IsClaimable :
      (rows : List (OutboxRow P)) → All (IsClaimable rows) (claim b now is_locked rows)
  unfolding claim IsClaimable
  claim-IsClaimable rows = All-take (IsClaimable rows) 100 _ (
      All-sort_by_id (IsClaimable rows) (keep can rows)
        (All-keep (λ r. Memᴰ r rows) can rows (All-Memᴰ rows)))

  waiting-mark :
      (id : ℕ) (rows : List (OutboxRow P))
      → waiting b now is_locked (set_where_id id mark rows) ≤ waiting b now is_locked rows
  unfolding mark
  waiting-mark id rows = count-set_where_id_le can mark id (λ r. refl) rows

  waiting-mark_lt :
      (row : OutboxRow P) (rows : List (OutboxRow P))
      → Memᴰ row rows
      → can row ≡ true
      → waiting b now is_locked (set_where_id row.id mark rows) < waiting b now is_locked rows
  unfolding set_where_id mark
  waiting-mark_lt row [] m c = elim m [ ]
  waiting-mark_lt row (x ∷ xs) (Memᴰ.head e) c =
      ground (arith, waiting-mark row.id xs, ap (λ r. can r) e, ap (λ (r : OutboxRow P). r.id) e)
  waiting-mark_lt row (x ∷ xs) (Memᴰ.tail m) c = ground (arith, waiting-mark_lt row xs m c)

  relay_rows_le :
      (batch : List (OutboxRow P)) (p : Pass P State)
      → All IsKnown batch
      → waiting b now is_locked (relay_rows b now is_locked batch p).rows
        ≤ waiting b now is_locked p.rows
  unfolding relay_rows
  relay_rows_le [] p known = omega arith
  relay_rows_le (row ∷ batch) p known = omega (
    arith,
    relay_rows_le batch (relay_row b now is_locked row p) known.1,
    ap (waiting b now is_locked) (relay_row_up row p known.0),
    waiting-mark row.id p.rows,
  )

  relay_rows_lt :
      (batch : List (OutboxRow P)) (p : Pass P State)
      → 0 < length batch
      → All IsKnown batch
      → All (IsClaimable p.rows) batch
      → waiting b now is_locked (relay_rows b now is_locked batch p).rows
        < waiting b now is_locked p.rows
  unfolding relay_rows IsClaimable
  relay_rows_lt [] p some_row known h = absurd (omega arith)
  relay_rows_lt (row ∷ batch) p some_row known h = omega (
    arith,
    relay_rows_le batch (relay_row b now is_locked row p) known.1,
    ap (waiting b now is_locked) (relay_row_up row p known.0),
    waiting-mark_lt row p.rows h.0.0 h.0.1,
  )

  relay_rows-IsKnown :
      (batch : List (OutboxRow P)) (p : Pass P State)
      → All IsKnown batch
      → All IsKnown p.rows
      → All IsKnown (relay_rows b now is_locked batch p).rows
  unfolding relay_rows mark
  relay_rows-IsKnown [] p batch_known known = known
  relay_rows-IsKnown (row ∷ batch) p batch_known known =
      relay_rows-IsKnown batch (relay_row b now is_locked row p) batch_known.1 (
        rw (relay_row_up row p batch_known.0)
          (set_where_id-IsKnown row.id mark p.rows (λ r. refl) known))

  -- With working queues and rows that all name a queue, a pass ends after at most one round more
  -- than there are rows to claim, and every row that no other worker holds is then relayed.
  pub relay_once_drains :
      (fuel : ℕ) (p : Pass P State)
      → All IsKnown p.rows
      → waiting b now is_locked p.rows < fuel
      → (q : Pass P State) × (relay_once b now is_locked fuel p ≡ some q)
        × (waiting b now is_locked q.rows ≡ 0)
  relay_once_drains zero p known enough = absurd (omega arith)
  relay_once_drains (suc fuel) p known enough = elim (dec_lt (waiting b now is_locked p.rows) 100) [
    | yes short ↦ (
      relay_rows b now is_locked batch p,
      relay_once_short b now is_locked fuel p short,
      relay_rows_covered batch p batch_known (claim_short-Covers p.rows short),
    )
    | no full ↦ rw (relay_once_full b now is_locked fuel p (omega arith)) (
        relay_once_drains fuel (relay_rows b now is_locked batch p)
          (relay_rows-IsKnown batch p batch_known known)
          (omega (
            arith,
            relay_rows_lt batch p (omega (arith, length-claim b now is_locked p.rows)) batch_known
                (claim-IsClaimable p.rows),
          )))
  ]
    where
      batch : List (OutboxRow P)
      batch = claim b now is_locked p.rows

      batch_known : All IsKnown batch
      batch_known = claim-IsKnown p.rows known
