-- ===== src/Ports/Tests.antt =====
-- Ports over a small database.

use chatbot_integration.Prelude.{◌≡◌, refl, String, none, some, List, [], ◌∷◌}
use chatbot_integration.Conversation.{
  AcknowledgementKind, HandoffReason, NotifyReason, Language, ConversationState, Effect,
  record_handoff, send_acknowledgement, add_internal_note, notify_agents,
  schedule_waiting_human_timeout, PartialOptions, human, «open»,
}
use chatbot_integration.Effects.{EffectContext, AcknowledgementInput}
use chatbot_integration.Ports
use chatbot_integration.Ports.{Reads, WorkspaceSettings, Texts, effect_ports, texts_of}
use chatbot_integration.Ports.Jobs.{ack_turn_key, decimal}
use chatbot_integration.Ports.Store.{Database, find_by_turn_key}
use chatbot_integration.Ports.Grows.{NoNews}
use chatbot_integration.Ports.Again.{run, run_again}
use chatbot_integration.Ports.Ack.{IsSending, acknowledgement_promised}
use chatbot_integration.Ports.Sample.{empty_database, id_text, reads, logger}

abbrev ctx : EffectContext
ctx = record {
  workspace_id = "w";
  conversation_id = "c";
  trigger_message_id = some "m";
  turn_key = none;
}

abbrev handoff_effects : List Effect
handoff_effects =
    record_handoff HandoffReason.ai_requested 1700000000000
    ∷ send_acknowledgement AcknowledgementKind.handoff none 1700000000000
    ∷ add_internal_note "AI handed off."
    ∷ notify_agents NotifyReason.handoff 1700000000000
    ∷ schedule_waiting_human_timeout 15
    ∷ []

key_test :
    ack_turn_key AcknowledgementKind.handoff "c" 1700000000000 ≡ "ack-handoff-c-1700000000000"
unfolding ack_turn_key decimal
key_test = refl

abbrev once : Database
once = (run id_text reads 0 logger ctx handoff_effects empty_database).0

-- By the retry the customer has written English.
abbrev reads_later : Reads
reads_later = record reads { customer_language_evidence = λ w c. some Language.en }

run_again_example :
    ((run id_text reads 0 logger ctx handoff_effects empty_database).1 ≡ none)
    × ((run id_text reads_later 9 logger ctx handoff_effects once).1 ≡ none)
    × NoNews once (run id_text reads_later 9 logger ctx handoff_effects once).0
run_again_example =
    run_again id_text logger ctx reads reads_later 0 9 handoff_effects empty_database
      (record { settings = λ w. refl; customer_id = λ w c. refl; vapid_keys = refl }) refl

abbrev apology : AcknowledgementInput
apology = record { kind = AcknowledgementKind.still_waiting; language = some Language.en; at = 5 }

acknowledgement_promised_example :
    (id : String) × (find_by_turn_key "w"
        (ack_turn_key AcknowledgementKind.still_waiting "c" 5)
        (Ports.send_acknowledgement id_text reads 0 ctx apology empty_database).messages
      ≡ some id)
    × IsSending id_text reads 0 ctx id
        (Ports.send_acknowledgement id_text reads 0 ctx apology empty_database).rows
acknowledgement_promised_example =
    acknowledgement_promised id_text reads 0 ctx apology empty_database refl

abbrev owned : ConversationState
owned = record {
  mode = human;
  status = «open»;
  assignee_user_id = some "u";
  waiting_human_since = none;
  handoff_reason = none;
}

abbrev no_options : PartialOptions
no_options = record { waiting_human_fallback_minutes = none; handoff_on_unsupported_media = none }
