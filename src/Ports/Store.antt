-- ===== src/Ports/Store.antt =====
-- The rows that the ports write: the inserts of packages/infra/src/repo.ts and
-- packages/infra/src/effect-ports.ts, with the unique indexes of packages/db/src/schema/app.ts.
use chatbot_integration.Prelude.{
  ℕ, ◌+◌, String, Bool, true, false, ◌&&◌, ◌||◌, Option, none, some, List, [], ◌∷◌, ◌++◌, any,
  if◌then◌else◌, ◌==◌, str_eq,
}
use chatbot_integration.Conversation.{HandoffReason, Deliver, NotifyReason, AcknowledgementKind}
use chatbot_integration.Delivery.{MessageStatus, MessageDirection, SenderType}
use chatbot_integration.Outbox.{OutboxRow, OutboxRequest, enqueue, cancel}

-- The payload of a job, by its queue; `empty` is `{}`.
pub data JobPayload : Type 0 where
  turn :
      (workspace_id conversation_id : String) (deliver : Deliver)
      (trigger_message_id : Option String)
      → JobPayload
  suggestion :
      (workspace_id conversation_id : String) (trigger_message_id : Option String) → JobPayload
  outbound : (workspace_id conversation_id message_id : String) → JobPayload
  push :
      (workspace_id conversation_id : String) (reason : NotifyReason)
      (trigger_message_id : Option String)
      → JobPayload
  waiting : (workspace_id conversation_id : String) → JobPayload
  summary : (workspace_id customer_id conversation_id : String) → JobPayload
  remove_on_complete empty : JobPayload

pub record StoredMessage : Type 0 where
  pub id : String
  pub workspace_id : String
  pub conversation_id : String
  pub direction : MessageDirection
  pub sender_type : SenderType
  pub created_at : ℕ
  pub text : String
  pub platform_message_id : Option String
  pub status : MessageStatus
  pub turn_key : Option String

pub record InternalNote : Type 0 where
  pub id : String
  pub workspace_id : String
  pub conversation_id : String
  pub body : String

pub record HandoffEvent : Type 0 where
  pub id : String
  pub workspace_id : String
  pub conversation_id : String
  pub reason : HandoffReason
  pub occurred_at : ℕ

-- `next_id` numbers the ids that `newId` hands out; `notices` are the nudges that wait for the
-- commit, and `warnings` the acknowledgements for which no text is configured.
pub record Database : Type 0 where
  pub rows : List (OutboxRow JobPayload)
  pub messages : List StoredMessage
  pub notes : List InternalNote
  pub handoffs : List HandoffEvent
  pub notices : List (String × NotifyReason)
  pub warnings : List (String × AcknowledgementKind)
  pub next_id : ℕ

-- Equality of two columns in a unique index, where a null differs from everything.
abbrev pub same_key : Option String → Option String → Bool
same_key none b = false
same_key (some a) none = false
same_key (some a) (some b) = str_eq a b

-- The two unique indexes of the messages.
abbrev pub conflicts : StoredMessage → StoredMessage → Bool
conflicts m n =
    (str_eq m.workspace_id n.workspace_id && same_key m.turn_key n.turn_key)
    || (str_eq m.conversation_id n.conversation_id
        && same_key m.platform_message_id n.platform_message_id)

-- `storeMessage`: the message goes in unless it conflicts, and the flag is `duplicate`.
unfoldable pub store_message : StoredMessage → Database → Database × Bool
store_message message db =
    if any (conflicts message) db.messages
    then (db, true)
    else (record db { messages = db.messages ++ message ∷ [] }, false)

unfoldable pub find_by_turn_key :
    (workspace_id turn_key : String) → List StoredMessage → Option String
find_by_turn_key workspace_id turn_key [] = none
find_by_turn_key workspace_id turn_key (m ∷ messages) =
    if str_eq workspace_id m.workspace_id && same_key (some turn_key) m.turn_key
    then some m.id
    else find_by_turn_key workspace_id turn_key messages

abbrev pub same_handoff : HandoffEvent → HandoffEvent → Bool
same_handoff h k = str_eq h.conversation_id k.conversation_id && (h.occurred_at == k.occurred_at)

-- `onConflictDoNothing` on the conversation and the instant.
unfoldable pub insert_handoff : HandoffEvent → Database → Database
insert_handoff event db =
    if any (same_handoff event) db.handoffs
    then db
    else record db { handoffs = db.handoffs ++ event ∷ [] }

-- `newId` is a number here, printed by `id_text`.
module _ (id_text : ℕ → String) where
  unfoldable pub enqueue_job : OutboxRequest JobPayload → Database → Database
  enqueue_job request db = record db {
    rows = (enqueue db.next_id (id_text db.next_id) request db.rows).0;
    next_id = db.next_id + 1;
  }

unfoldable pub cancel_job : (now : ℕ) (queue job_id : String) → Database → Database
cancel_job now queue job_id db = record db {
  rows = cancel db.next_id now JobPayload.empty queue job_id db.rows;
  next_id = db.next_id + 1;
}
