-- ===== src/AiTurn/Writes.antt =====
-- The writes that a turn fires: `runPendingWrites` of packages/infra/src/tools.ts. What a tool
-- answers is a parameter: `none`, or the message of what went wrong, where an empty one counts as
-- none from an MCP server.
use chatbot_integration.Prelude.{
  ◌≡◌, refl, ap, String, Bool, Option, none, some, List, [], ◌∷◌, map, if◌then◌else◌, Option-either,
}
use chatbot_integration.Conversation.{is_truthy}

pub data ToolSource : Type 0 where
  http mcp : ToolSource

pub record PendingWrite : Type 0 where
  pub tool_id : String
  pub tool : String
  pub idempotency_key : String
  pub source : ToolSource

-- A write that failed is the tool's name and what it said.
pub record WriteOutcome : Type 0 where
  pub succeeded : List String
  pub failed : Option (String × String)

abbrev pub tools_of : List PendingWrite → List String
tools_of writes = map (λ w. w.tool) writes

module _ (is_defined : (tool_id : String) → Bool) (execute : PendingWrite → Option String) where
  abbrev failure_by : ToolSource → PendingWrite → Option String
  failure_by ToolSource.mcp write =
      let failed = execute write in if is_truthy failed then failed else none
  failure_by ToolSource.http write =
      if is_defined write.tool_id
      then execute write
      else some "is no longer defined in this workspace"

  -- What goes wrong with one write, if anything.
  abbrev pub write_failure : PendingWrite → Option String
  write_failure write = failure_by write.source write

  -- One after another, up to the first that fails.
  unfoldable pub run_pending_writes : List PendingWrite → WriteOutcome
  run_pending_writes [] = record { succeeded = []; failed = none }
  run_pending_writes (write ∷ writes) =
      let rest = run_pending_writes writes in
      elim (write_failure write) [
        | none ↦ record { succeeded = write.tool ∷ rest.succeeded; failed = rest.failed }
        | some message ↦ record { succeeded = []; failed = some (write.tool, message) }
      ]

  -- Where none failed, all were carried out.
  pub none_failed :
      (writes : List PendingWrite)
      → (run_pending_writes writes).failed ≡ none
      → (run_pending_writes writes).succeeded ≡ tools_of writes
  unfolding run_pending_writes
  none_failed [] = λ h. refl
  none_failed (write ∷ writes) =
      Option-either
        (λ (o : WriteOutcome). o.failed ≡ none → o.succeeded ≡ write.tool ∷ tools_of writes)
        (write_failure write) _ _ (λ e h. ap (◌∷◌ write.tool) (none_failed writes h))
        (λ message e h. absurd cc)
