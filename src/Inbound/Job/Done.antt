-- ===== src/Inbound/Job/Done.antt =====
-- A job that is through stays through: apps/worker/src/processors/inbound.ts.
use chatbot_integration.Prelude.{
  ℕ, String, Bool, true, ◌≡◌, refl, subst, ap, ◌∙◌, Option, none, some, Option-cases, inl, inr,
  List,
}
use chatbot_integration.Effects.{EffectPorts, Logger}
use chatbot_integration.Inbound.{PlatformEvent, Database, Settings}
use chatbot_integration.Inbound.Job.{
  EventRow, JobWorld, Calls, JobEnd, returned, threw, process_inbound, process_events, guarded,
  parsed, settle,
}

module _ {W E P : Type 0} (ports again : EffectPorts W E) (logger : Logger W E)
    (workspace_id : String) (settings later : Settings) (calls : Calls W E P) where
  -- A job that ended well has nothing left to do.
  abbrev IsThrough : JobEnd W E P → Type 0
  IsThrough (returned w) =
      (is_workable : Bool) (soon : ℕ)
      → process_inbound again logger workspace_id later calls is_workable soon w ≡ returned w
  IsThrough (threw w error) = Unit

  settled :
      (now : ℕ) (row : EventRow P) (o : Database W × Option E)
      → IsThrough (settle ports logger workspace_id settings calls now row o)
  unfolding settle process_inbound guarded
  settled now row (db, none) = λ is_workable soon. refl
  settled now row (db, some error) = tt

  parsed-IsThrough :
      (now : ℕ) (row : EventRow P) (o : Option E × List PlatformEvent) (db : Database W)
      → IsThrough (parsed ports logger workspace_id settings calls now row o db)
  unfolding parsed
  parsed-IsThrough now row (some error, events) db = settled now row (db, some error)
  parsed-IsThrough now row (none, events) db =
      settled now row (process_events ports logger workspace_id settings calls events db)

  again_processed :
      (row : EventRow P) (time soon : ℕ) (is_workable : Bool) (w : JobWorld W P)
      → row.processed_at ≡ some time
      → guarded again logger workspace_id later calls is_workable soon (some row) w ≡ returned w
  unfolding guarded
  again_processed row time soon is_workable w p = rw p refl

  guarded-IsThrough :
      (now : ℕ) (row : Option (EventRow P)) (w : JobWorld W P)
      → w.row ≡ row
      → IsThrough (guarded ports logger workspace_id settings calls true now row w)
  unfolding guarded process_inbound
  guarded-IsThrough now none w e = λ is_workable soon. rw e refl
  guarded-IsThrough now (some row) w e = elim (Option-cases row.processed_at) [
    | inl p ↦ rw p (parsed-IsThrough now row (calls.parse row.payload) w.database)
    | inr (time, p) ↦ rw p (λ is_workable soon.
        ap (λ r. guarded again logger workspace_id later calls is_workable soon r w) e
        ∙ again_processed row time soon is_workable w p)
  ]

  -- Once a job has returned for a workspace that is workable, every later run of it, with whatever
  -- ports and settings, returns with nothing changed: no event of a payload is handled again.
  pub process_inbound_through :
      (now soon : ℕ) (is_workable : Bool) (w w' : JobWorld W P)
      → process_inbound ports logger workspace_id settings calls true now w ≡ returned w'
      → process_inbound again logger workspace_id later calls is_workable soon w' ≡ returned w'
  unfolding process_inbound
  process_inbound_through now soon is_workable w w' h =
      subst IsThrough h (guarded-IsThrough now w.row w refl) is_workable soon
