-- ===== src/Outbox/Pump/Tests.antt =====
-- A relay that is rung during a pass (packages/infra/src/outbox.ts).
use chatbot_integration.Prelude.{
  ℕ, String, Option, ◌≡◌, refl, true, false, List, [], ◌∷◌, none, some,
}
use chatbot_integration.Outbox.{OutboxRow, add}
use chatbot_integration.Outbox.Pump.{RelayState, RelayEvent, rung, stop_called, ended, relay_step}
use chatbot_integration.Outbox.Pump.Served.{starts, ends}

abbrev idle : RelayState
idle = record { running = false; again = false; stopped = false }

abbrev in_pass : RelayState
in_pass = record { running = true; again = false; stopped = false }

abbrev history : List RelayEvent
history = rung ∷ rung ∷ ended false ∷ stop_called ∷ ended false ∷ rung ∷ []

history_test : (starts idle history ≡ 2) × (ends idle history ≡ 2)
unfolding relay_step
history_test = (refl, refl)

abbrev row : (id : ℕ) (relayed_at : Option ℕ) → OutboxRow String
row id relayed_at = record {
  id = id;
  workspace_id = none;
  op = add;
  queue = "outbound";
  name = "deliver";
  payload = "p";
  job_id = "j";
  delay_ms = none;
  options = none;
  attempts = 0;
  last_error = none;
  relayed_at = relayed_at;
}

abbrev rows : List (OutboxRow String)
rows = row 1 (some 5) ∷ row 2 none ∷ row 3 (some 90) ∷ []
