-- ===== src/AiTurn.antt =====
-- One AI turn: apps/worker/src/processors/ai-turn.ts, with the link of packages/infra/src/identity.ts
-- and the note of packages/infra/src/tools.ts. What the model answers, what the tenant's tools do
-- and what other requests do between two reads of the database are parameters.
pub mod Writes
pub mod HandOff
pub mod Process
pub mod Steps
pub mod Newer
pub mod Handed
pub mod Ends
pub mod Replies
pub mod Withheld
pub mod Earned
mod Tests
pub mod Retry
use Prim.Native.String
use chatbot_integration.Prelude.{
  ℕ, ◌+◌, String, Bool, true, false, ◌&&◌, ◌||◌, Option, none, some, get_or, List, [], ◌∷◌, ◌++◌,
  any, map, if◌then◌else◌, str_eq, not,
}
use chatbot_integration.Conversation.{
  ConversationState, HandoffReason, Deliver, Patch, apply_patch, is_truthy,
}
use chatbot_integration.Delivery.{SenderType, queued, outbound}
use chatbot_integration.Effects.{EffectContext, Logger}
use chatbot_integration.Outbox.{OutboxRow}
use chatbot_integration.Ports.{Reads, job, queue_message}
use chatbot_integration.Ports.Jobs.{present}
use chatbot_integration.Ports.Store.{
  JobPayload, StoredMessage, Database, store_message, find_by_turn_key, enqueue_job,
}
use Writes.{PendingWrite, WriteOutcome, run_pending_writes}

pub record AiTurnJob : Type 0 where
  pub workspace_id : String
  pub conversation_id : String
  pub deliver : Deliver
  pub trigger_message_id : Option String

pub record TurnConversation : Type 0 where
  pub id : String
  pub workspace_id : String
  pub state : ConversationState
  pub last_message_at : Option ℕ

pub record Suggestion : Type 0 where
  pub id : String
  pub workspace_id : String
  pub conversation_id : String
  pub message_text : String

-- `known` is what the customer's record and the conversation's tags hold, `traces` the recorded
-- traces, and `tool_calls` the writes that reached the tenant's systems.
pub record TurnWorld (K : Type 0) : Type 0 where
  pub conversations : List TurnConversation
  pub db : Database
  pub suggestions : List Suggestion
  pub known : K
  pub traces : List String
  pub tool_calls : List String

pub record AgentTurnResult : Type 0 where
  pub text : String
  pub handoff : Option (HandoffReason × Option String)
  pub pending_writes : List PendingWrite
  pub verification_requested : Bool

-- Where other requests may come between two steps of a turn.
pub data Moment : Type 0 where
  context_loaded key_looked_up configured model_answered checked_again newer_ruled_out : Moment
  learnt writes_allowed writes_done checked_last handoff_read : Moment

pub record Env (K E : Type 0) : Type 0 where
  pub id_text : ℕ → String
  pub reads : Reads
  pub logger : Logger Database E
  pub now : ℕ
  -- The order of ids, which are time-ordered.
  pub is_newer : String → String → Bool
  -- `loadTurnContext` also finds the customer, the identity and the channel.
  pub is_complete : Bool
  pub is_workable : Bool
  pub has_chat_slot : Bool
  pub fallback_minutes : Option ℕ
  -- What `runAgentTurn` returns, the tools that are defined, and what a call of one answers.
  pub result : AgentTurnResult
  pub is_defined : String → Bool
  pub execute : PendingWrite → Option String
  -- `mergeCustomerFields`, `suggestMergesFor` and `addConversationTags`.
  pub learn : K → K
  -- The text with the verification link, unless it is refused or throws.
  pub link_text : Option String
  pub others : Moment → TurnWorld K → TurnWorld K

abbrev pub outcome : {K E : Type 0} → Env K E → WriteOutcome
outcome env = run_pending_writes env.is_defined env.execute env.result.pending_writes

abbrev pub is_send : Deliver → Bool
is_send Deliver.send = true
is_send Deliver.draft = false

abbrev pub is_customer : SenderType → Bool
is_customer SenderType.customer = true
is_customer _ = false

abbrev pub is_row : AiTurnJob → TurnConversation → Bool
is_row j c = str_eq c.id j.conversation_id && str_eq c.workspace_id j.workspace_id

unfoldable pub find_conversation : AiTurnJob → List TurnConversation → Option TurnConversation
find_conversation j [] = none
find_conversation j (c ∷ cs) = if is_row j c then some c else find_conversation j cs

unfoldable pub update_state : AiTurnJob → Patch → List TurnConversation → List TurnConversation
update_state j patch [] = []
update_state j patch (c ∷ cs) =
    (if is_row j c then record c { state = apply_patch c.state patch } else c)
    ∷ update_state j patch cs

-- `last_error is distinct from 'cancelled before relay'`.
abbrev pub is_owed : (message_id : String) → OutboxRow JobPayload → Bool
is_owed message_id row =
    str_eq row.queue "ai_turn"
    && (str_eq row.job_id (String.◌++◌ "ai-turn-" message_id)
        && not (str_eq (get_or row.last_error "") "cancelled before relay"))

unfoldable pub newer_turn_owed : (is_newer : String → String → Bool) → AiTurnJob → Database → Bool
newer_turn_owed is_newer j db = elim (present j.trigger_message_id) [
  | none ↦ false
  | some trigger ↦
      any
        (λ m.
          str_eq m.workspace_id j.workspace_id
          && (str_eq m.conversation_id j.conversation_id
              && (is_customer m.sender_type
                  && (is_newer m.id trigger && any (is_owed m.id) db.rows))))
        db.messages
]

abbrev pub suggestion_id : (trigger : Option String) → Option String
suggestion_id none = none
suggestion_id (some trigger) = some (String.◌++◌ "suggestion-" trigger)

abbrev pub job_context : AiTurnJob → EffectContext
job_context j = record {
  workspace_id = j.workspace_id;
  conversation_id = j.conversation_id;
  trigger_message_id = present j.trigger_message_id;
  turn_key = none;
}

module _ {K E : Type 0} (env : Env K E) (j : AiTurnJob) where
  unfoldable pub suggest_instead : TurnWorld K → TurnWorld K
  suggest_instead w = record w {
    db =
        enqueue_job env.id_text
          (job env.id_text env.reads env.now (job_context j) "suggestion" "run"
            (JobPayload.suggestion j.workspace_id j.conversation_id (present j.trigger_message_id))
            (suggestion_id (present j.trigger_message_id)))
          w.db;
  }

  abbrev pub outbound_text : SenderType → Option String → (text id : String) → StoredMessage
  outbound_text sender_type turn_key text id = record {
    id = id;
    workspace_id = j.workspace_id;
    conversation_id = j.conversation_id;
    direction = outbound;
    sender_type = sender_type;
    created_at = env.now;
    text = (env.reads.settings j.workspace_id).redact text;
    platform_message_id = none;
    status = queued;
    turn_key = turn_key;
  }

  -- The id to deliver: of a duplicate, that of the other attempt's reply.
  abbrev pub winner : (turn_key : Option String) (id : String) → Database × Bool → String
  winner turn_key id (db, duplicate) =
      if duplicate && is_truthy turn_key
      then get_or (find_by_turn_key j.workspace_id (get_or turn_key "") db.messages) id
      else id

  unfoldable pub enqueue_outbound : (message_id : String) → Database → Database
  enqueue_outbound message_id db =
      queue_message env.id_text env.reads env.now (job_context j) (some message_id) db

  -- A text that is stored and queued in one transaction.
  unfoldable pub store_and_send : SenderType → Option String → (text : String) → Database → Database
  unfolding enqueue_outbound
  store_and_send sender_type turn_key text db =
      let id = env.id_text db.next_id in
      let stored =
        store_message (outbound_text sender_type turn_key text id)
          (record db { next_id = db.next_id + 1 }) in
      enqueue_outbound (winner turn_key id stored) stored.0

  -- `sendVerificationLink`, once the text is made; the flag is `ok`.
  unfoldable pub send_verification_link : TurnWorld K → TurnWorld K × Bool
  unfolding find_conversation store_and_send
  send_verification_link w = elim (find_conversation j w.conversations) [
    | none ↦ (w, false)
    | some row ↦ elim env.link_text [
      | none ↦ (w, false)
      | some text ↦ (record w { db = store_and_send SenderType.system none text w.db }, true)
    ]
  ]
