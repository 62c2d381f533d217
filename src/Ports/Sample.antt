-- ===== src/Ports/Sample.antt =====
-- A small database and the reads of one workspace, for tests.
use Prim.Native.String
use chatbot_integration.Prelude.{ℕ, String, true, none, some, []}
use chatbot_integration.Conversation.{Language}
use chatbot_integration.Effects.{Logger}
use chatbot_integration.Ports.{Reads}
use chatbot_integration.Ports.Jobs.{decimal}
use chatbot_integration.Ports.Store.{Database}

abbrev pub empty_database : Database
empty_database = record {
  rows = [];
  messages = [];
  notes = [];
  handoffs = [];
  notices = [];
  warnings = [];
  next_id = 0;
}

abbrev pub id_text : ℕ → String
id_text n = String.◌++◌ "id-" (decimal n)

abbrev pub reads : Reads
reads = record {
  settings = λ workspace_id. record {
    acknowledgement_text = record { th = some ""; en = some "A colleague will reply." };
    still_waiting_text = record { th = none; en = some "Still looking." };
    default_language = Language.th;
    redact = λ text. text;
  };
  customer_language_evidence = λ workspace_id conversation_id. none;
  conversation_language = λ workspace_id conversation_id fallback. fallback;
  customer_id = λ workspace_id conversation_id. some "customer";
  vapid_keys = true;
}

abbrev pub logger : Logger Database String
logger = record { notify_failed = λ ctx reason error db. db; timeout_ignored = λ ctx db. db }
