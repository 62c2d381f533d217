-- ===== src/Outbox.antt =====
-- The transactional outbox and the relay that drains it: packages/infra/src/outbox.ts, with the
-- columns of packages/db/src/schema/outbox.ts and the queue names of packages/infra/src/queues.ts.
-- BullMQ is a parameter: a broker with a state of its own.
pub mod Table
pub mod Cancel
pub mod Retaken
pub mod Pump
pub mod Relay
pub mod Drain
mod Tests
use Prim.Native.String
use chatbot_integration.Prelude.{
  ℕ, zero, suc, ◌+◌, String, Bool, true, false, ◌&&◌, ◌||◌, Option, none, some, List, [], ◌∷◌, ◌++◌,
  any, if◌then◌else◌, keep, take, length, leb, ltb, ◌==◌, str_eq, map, get_or,
}

pub data Op : Type 0 where
  add remove : Op

-- One row. Ids are time-ordered, so they are numbers here; `P` holds payloads and job options.
pub record OutboxRow (P : Type 0) : Type 0 where
  pub id : ℕ
  pub workspace_id : Option String
  pub op : Op
  pub queue : String
  pub name : String
  pub payload : P
  pub job_id : String
  pub delay_ms : Option ℕ
  pub options : Option P
  pub attempts : ℕ
  pub last_error : Option String
  pub relayed_at : Option ℕ

pub record OutboxRequest (P : Type 0) : Type 0 where
  pub queue : String
  pub name : String
  pub payload : P
  pub job_id : Option String
  pub delay_ms : Option ℕ
  pub options : Option P
  pub workspace_id : Option String

abbrev pub queue_names : List String
queue_names =
    "inbound" ∷ "ai_turn" ∷ "suggestion" ∷ "outbound" ∷ "waiting_human" ∷ "knowledge_ingest"
    ∷ "summarize" ∷ "retention" ∷ "idle_resolve" ∷ "customer_erasure" ∷ "workspace_erasure" ∷ "push"
    ∷ []

-- Whether `queues[row.queue]` is there.
unfoldable pub queue_exists : String → Bool
queue_exists queue = any (str_eq queue) queue_names

-- What the relay asks of BullMQ. An error is the message of what was thrown.
pub record Broker (P : Type 0) : Type 1 where
  pub State : Type 0
  pub add_job : OutboxRow P → State → State × Option String
  -- `queue.getJob(id)` and then `job?.remove()`, whose own failure is swallowed.
  pub remove_job : (queue job_id : String) → State → State × Option String

abbrev pub is_add : Op → Bool
is_add add = true
is_add remove = false

abbrev pub is_pending : {P : Type 0} → OutboxRow P → Bool
is_pending row = elim row.relayed_at [ none ↦ true | some t ↦ false ]

module _ {P : Type 0} where
  unfoldable pub enqueue :
      (id : ℕ) (id_text : String)
      → OutboxRequest P
      → List (OutboxRow P)
      → List (OutboxRow P) × (ℕ × String)
  enqueue id id_text request rows =
      let job_id = get_or request.job_id (String.◌++◌ "outbox-" id_text) in
      (
        rows
            ++ record {
              id = id;
              workspace_id = request.workspace_id;
              op = add;
              queue = request.queue;
              name = request.name;
              payload = request.payload;
              job_id = job_id;
              delay_ms = request.delay_ms;
              options = request.options;
              attempts = 0;
              last_error = none;
              relayed_at = none;
            }
              ∷ [],
        (id, job_id),
      )

  -- The condition of `cancel`'s update: a pending `add` for the same job.
  abbrev pub is_withdrawn : (queue job_id : String) → OutboxRow P → Bool
  is_withdrawn queue job_id row =
      str_eq row.queue queue && (str_eq row.job_id job_id && (is_add row.op && is_pending row))

  unfoldable pub withdraw : (now : ℕ) (queue job_id : String) → OutboxRow P → OutboxRow P
  withdraw now queue job_id row =
      if is_withdrawn queue job_id row
      then record row { relayed_at = some now; last_error = some "cancelled before relay" }
      else row

  -- `empty` is the payload `{}`.
  unfoldable pub cancel :
      (id now : ℕ) (empty : P) (queue job_id : String) → List (OutboxRow P) → List (OutboxRow P)
  unfolding withdraw
  cancel id now empty queue job_id rows =
      map (withdraw now queue job_id) rows
      ++ record {
        id = id;
        workspace_id = none;
        op = remove;
        queue = queue;
        name = "cancel";
        payload = empty;
        job_id = job_id;
        delay_ms = none;
        options = none;
        attempts = 0;
        last_error = none;
        relayed_at = none;
      }
        ∷ []

  -- `order by id`.
  pub insert_by_id : OutboxRow P → List (OutboxRow P) → List (OutboxRow P)
  insert_by_id row [] = row ∷ []
  insert_by_id row (r ∷ rs) = if leb row.id r.id then row ∷ r ∷ rs else r ∷ insert_by_id row rs

  pub sort_by_id : List (OutboxRow P) → List (OutboxRow P)
  sort_by_id [] = []
  sort_by_id (r ∷ rs) = insert_by_id r (sort_by_id rs)

  -- `update … where id = …`.
  pub set_where_id :
      (id : ℕ) → (OutboxRow P → OutboxRow P) → List (OutboxRow P) → List (OutboxRow P)
  set_where_id id f [] = []
  set_where_id id f (r ∷ rs) = (if r.id == id then f r else r) ∷ set_where_id id f rs

abbrev pub batch_size : ℕ
batch_size = 100

pub record Pass (P S : Type 0) : Type 0 where
  pub rows : List (OutboxRow P)
  pub broker : S
  pub relayed : ℕ
  pub failed : ℕ

module _ {P : Type 0} (b : Broker P) (now : ℕ) (is_locked : ℕ → Bool) where
  open b use {State, add_job, remove_job}

  -- The body of the `try`: hand one row to its queue.
  pub hand_over : OutboxRow P → State → State × Option String
  hand_over row s =
      if queue_exists row.queue
      then if is_add row.op then add_job row s else remove_job row.queue row.job_id s
      else (s, some (String.◌++◌ "no such queue: " row.queue))

  -- Mark the row relayed, or record the error and leave it pending.
  pub settle : OutboxRow P → Pass P State → State × Option String → Pass P State
  settle row p (s, none) = record p {
    rows = set_where_id row.id (λ r. record r { relayed_at = some now; last_error = none }) p.rows;
    broker = s;
    relayed = p.relayed + 1;
  }
  settle row p (s, some message) = record p {
    rows =
        set_where_id row.id
          (λ r. record r { attempts = row.attempts + 1; last_error = some message }) p.rows;
    broker = s;
    failed = p.failed + 1;
  }

  pub relay_row : OutboxRow P → Pass P State → Pass P State
  unfolding hand_over settle
  relay_row row p = settle row p (hand_over row p.broker)

  pub relay_rows : List (OutboxRow P) → Pass P State → Pass P State
  relay_rows [] p = p
  relay_rows (row ∷ rows) p = relay_rows rows (relay_row row p)

  -- The rows that the pass may claim: pending, and not locked by another worker.
  abbrev pub claimable : OutboxRow P → Bool
  claimable row = is_pending row && (if is_locked row.id then false else true)

  pub claim : List (OutboxRow P) → List (OutboxRow P)
  claim rows = take batch_size (sort_by_id (keep claimable rows))

  -- `for (;;)`: one batch after another until one is not full. `none` means that the fuel ran out.
  pub relay_once : (fuel : ℕ) → Pass P State → Option (Pass P State)
  relay_once zero p = none
  relay_once (suc fuel) p =
      let batch = claim p.rows in
      let p' = relay_rows batch p in
      let rest = relay_once fuel p' in if ltb (length batch) batch_size then some p' else rest
