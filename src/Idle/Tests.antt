-- ===== src/Idle/Tests.antt =====
-- A pass over a small table.
use chatbot_integration.Prelude.{ℕ, ◌≡◌, refl, String, false, none, List, [], ◌∷◌, map}
use chatbot_integration.Conversation.{ConversationMode, ConversationStatus, transition, resolved}
use chatbot_integration.Delivery.{SenderType}
use chatbot_integration.Effects.{EffectPorts, apply_effects, apply_effect}
use chatbot_integration.Ports.{effect_ports}
use chatbot_integration.Ports.Store.{Database}
use chatbot_integration.Ports.Sample.{reads, id_text, logger, empty_database}
use chatbot_integration.Ports.Again.{run-returns}
use chatbot_integration.Idle.{
  IdleMessage, IdleConversation, IdleDb, idle_since, last_of, created_at_of, resolve_one,
  resolve_all, resolve_idle_conversations, cutoff_of, find_among, is_answered, first_row,
}
use chatbot_integration.Idle.Rows.{resolved_if}
use chatbot_integration.Idle.Left.{is_left}
use chatbot_integration.Idle.Pass.{pass_closes_idle}

abbrev message : ℕ → SenderType → (created_at : ℕ) → IdleMessage
message id sender_type created_at = record {
  id = id;
  workspace_id = "w";
  conversation_id = "c";
  sender_type = sender_type;
  is_event = false;
  created_at = created_at;
}

abbrev quiet : IdleConversation
quiet = record {
  id = "c";
  workspace_id = "w";
  mode = ConversationMode.ai;
  status = ConversationStatus.«open»;
  assignee_user_id = none;
  handoff_reason = none;
  updated_at = 0;
}

abbrev thread : List IdleMessage
thread = message 1 SenderType.customer 10 ∷ message 2 SenderType.ai 20 ∷ []

abbrev db : IdleDb Database
db = record {
  conversations = quiet ∷ [];
  messages = thread;
  promised = empty_database;
  published = [];
}

abbrev ports : EffectPorts Database String
ports = effect_ports id_text reads 0

pass_test :
    (resolve_idle_conversations ports logger "w" 1 3600100 (λ k d. d) db).0.conversations
    ≡ record quiet { status = resolved; updated_at = 3600100 } ∷ []
unfolding resolve_idle_conversations resolve_all resolve_one find_among idle_since last_of
    is_answered created_at_of first_row transition apply_effects apply_effect
pass_test = refl

pass_closes_idle_example :
    let r = resolve_idle_conversations ports logger "w" 1 3600100 (λ k d. d) db in
    let again = resolve_idle_conversations ports logger "w" 1 3600100 (λ k d. d) r.0 in
    (r.1.1 ≡ none)
    × (r.0.conversations
        ≡ map
            (λ c. resolved_if (is_left "w" (cutoff_of 3600100 1) thread c) 3600100 c)
            (quiet ∷ []))
    × (again.0.conversations ≡ r.0.conversations)
pass_closes_idle_example =
    pass_closes_idle ports logger "w" 1 3600100
      (λ ctx effects d. run-returns id_text reads 0 logger ctx effects d) db refl

abbrev answered_db : IdleDb Database
answered_db = record db { messages = message 3 SenderType.customer 30 ∷ thread }

abbrev tied : List IdleMessage
tied = message 1 SenderType.ai 20 ∷ message 2 SenderType.ai 20 ∷ []
