-- ===== src/Inbound/Job.antt =====
-- The job round the transactions, with its loop over the events of one payload:
-- apps/worker/src/processors/inbound.ts.
pub mod Done
use chatbot_integration.Prelude.{
  ℕ, String, Bool, List, [], ◌∷◌, Option, none, some, if◌then◌else◌, ltb,
}
use chatbot_integration.Effects.{EffectPorts, Logger}
use chatbot_integration.Inbound.{
  InboundKind, receipt, PlatformEvent, Database, Settings, handle_event,
}

-- A row of `inbound_events`. A payload of `none` is the emptied one.
pub record EventRow (P : Type 0) : Type 0 where
  pub processed_at : Option ℕ
  pub error : Option String
  pub payload : Option P

pub record JobWorld (W P : Type 0) : Type 0 where
  pub row : Option (EventRow P)
  pub database : Database W

-- What the job calls: the adapter's parser, `resolveConversation`, `applyReceipt`, `newId`, and how
-- an error reads.
pub record Calls (W E P : Type 0) : Type 0 where
  pub parse : Option P → Option E × List PlatformEvent
  pub resolve : PlatformEvent → Database W → Database W × String
  pub apply_receipt : PlatformEvent → (watermark : ℕ) → Database W → Database W
  pub message_id : PlatformEvent → String
  pub message_of : E → String

pub data JobEnd (W E P : Type 0) : Type 0 where
  returned : JobWorld W P → JobEnd W E P
  threw : JobWorld W P → E → JobEnd W E P

module _ {W E P : Type 0} (ports : EffectPorts W E) (logger : Logger W E) (workspace_id : String)
    (settings : Settings) (calls : Calls W E P) where
  -- `watermark > 0 ? watermark : event.timestamp`.
  watermark_of : ℕ → PlatformEvent → ℕ
  watermark_of watermark event = if ltb 0 watermark then watermark else event.timestamp

  one_event : InboundKind → PlatformEvent → Database W → Database W × Option E
  unfolding watermark_of
  one_event (receipt watermark) event db =
      (calls.apply_receipt event (watermark_of watermark event) db, none)
  one_event _ event db =
      let (db', c) = calls.resolve event db in
      handle_event ports logger workspace_id settings c (calls.message_id event) event db'

  and_then : Database W × Option E → (Database W → Database W × Option E) → Database W × Option E
  and_then (db, none) rest = rest db
  and_then (db, some error) rest = (db, some error)

  unfoldable pub process_events : List PlatformEvent → Database W → Database W × Option E
  unfolding one_event and_then
  process_events [] db = (db, none)
  process_events (event ∷ events) db =
      and_then (one_event event.kind event db) (λ db'. process_events events db')

  -- The end of the `try`, and its `catch`.
  settle : (now : ℕ) → EventRow P → Database W × Option E → JobEnd W E P
  settle now row (db, none) = returned (record {
    row = some (record { processed_at = some now; error = none; payload = none });
    database = db;
  })
  settle now row (db, some error) =
      threw
        (record {
          row = some (record row { error = some (calls.message_of error) });
          database = db;
        })
        error

  parsed : (now : ℕ) → EventRow P → Option E × List PlatformEvent → Database W → JobEnd W E P
  unfolding settle
  parsed now row (some error, events) db = settle now row (db, some error)
  parsed now row (none, events) db = settle now row (process_events events db)

  guarded : (is_workable : Bool) (now : ℕ) → Option (EventRow P) → JobWorld W P → JobEnd W E P
  unfolding parsed
  guarded is_workable now none w = returned w
  guarded is_workable now (some row) w = elim row.processed_at [
    | some at ↦ returned w
    | none ↦ if is_workable then parsed now row (calls.parse row.payload) w.database else returned w
  ]

  unfoldable pub process_inbound : (is_workable : Bool) (now : ℕ) → JobWorld W P → JobEnd W E P
  unfolding guarded
  process_inbound is_workable now w = guarded is_workable now w.row w
