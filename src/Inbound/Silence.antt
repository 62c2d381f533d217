-- ===== src/Inbound/Silence.antt =====
-- A customer writes to a conversation that a human owns:
-- apps/worker/src/processors/inbound.ts.
use chatbot_integration.Prelude.{◌≡◌, String, Option, none, some}
use chatbot_integration.Conversation.{human}
use chatbot_integration.Effects.{EffectPorts, Logger}
use chatbot_integration.Effects.Reach.{LeavesAlone}
use chatbot_integration.Inbound.{Database, Settings, find_row, ConversationRow}

module _ {W E V : Type 0} (view : W → V) (ports : EffectPorts W E) (logger : Logger W E)
    (workspace_id : String) (settings : Settings) (alone : LeavesAlone view ports logger) where
  -- The row, if there is one, is a human's.
  abbrev IsHumans : Option ConversationRow → Type 0
  IsHumans none = Unit
  IsHumans (some row) = row.state.mode ≡ human

  abbrev Kept : Database W → Database W → String → Type 0
  Kept db db' c = (db'.promised ≡ db.promised) × IsHumans (find_row c db'.conversations)
