-- ===== src/AiTurn/HandOff.antt =====
-- `handOff` of apps/worker/src/processors/ai-turn.ts.
use chatbot_integration.Prelude.{
  ℕ, String, Option, none, some, get_or, List, [], ◌∷◌, ◌&&◌, if◌then◌else◌, str_eq,
}
use chatbot_integration.Conversation.{
  ConversationState, HandoffReason, ai_handoff, PartialOptions, TransitionResult, transition,
}
use chatbot_integration.Effects.{apply_effects}
use chatbot_integration.Ports.{effect_ports}
use chatbot_integration.Ports.Jobs.{present}
use chatbot_integration.Ports.Store.{StoredMessage}
use chatbot_integration.AiTurn.{Env, AiTurnJob, TurnWorld, Moment, find_conversation, update_state}

unfoldable pub created_at_of : (workspace_id id : String) → List StoredMessage → Option ℕ
created_at_of workspace_id id [] = none
created_at_of workspace_id id (m ∷ ms) =
    if str_eq m.id id && str_eq m.workspace_id workspace_id
    then some m.created_at
    else created_at_of workspace_id id ms

module _ {K E : Type 0} (env : Env K E) (j : AiTurnJob) where
  abbrev pub handoff_at : TurnWorld K → ℕ
  handoff_at w = elim (present j.trigger_message_id) [
    | none ↦ env.now
    | some trigger ↦ get_or (created_at_of j.workspace_id trigger w.db.messages) env.now
  ]

  abbrev pub handoff_options : PartialOptions
  handoff_options = record {
    waiting_human_fallback_minutes = some env.fallback_minutes;
    handoff_on_unsupported_media = none;
  }

  abbrev pub handoff_result :
      HandoffReason → (note : String) → ConversationState → TurnWorld K → TransitionResult
  handoff_result reason note state w =
      transition state
        (ai_handoff (handoff_at w) reason (some note)
          (env.reads.customer_language_evidence j.workspace_id j.conversation_id))
        handoff_options

  -- The transaction: the patch and what it owes. The effects' context has no trigger.
  unfoldable pub commit_handoff : TransitionResult → TurnWorld K → TurnWorld K
  commit_handoff result w = record w {
    conversations = update_state j result.patch w.conversations;
    db =
        (apply_effects (effect_ports env.id_text env.reads env.now) env.logger
          (record {
            workspace_id = j.workspace_id;
            conversation_id = j.conversation_id;
            trigger_message_id = none;
            turn_key = none;
          })
          result.effects w.db).0;
  }

  -- The conversation is read before the transaction.
  unfoldable pub hand_off : HandoffReason → (note : String) → TurnWorld K → TurnWorld K
  unfolding commit_handoff
  hand_off reason note w = elim (find_conversation j w.conversations) [
    | none ↦ w
    | some row ↦
        commit_handoff (handoff_result reason note row.state w) (env.others Moment.handoff_read w)
  ]
