-- ===== src/Ports.antt =====
-- The ports that carry out effects over the database: packages/infra/src/effect-ports.ts, with the
-- inserts of packages/infra/src/repo.ts, the job ids of packages/infra/src/queues.ts and
-- packages/infra/src/push.ts, and the unique indexes of packages/db/src/schema/app.ts. What the
-- queries of other rows answer, and the redaction of a text, are parameters.
pub mod Jobs
pub mod Store
pub mod Keys
pub mod Grows
pub mod Promised
pub mod Step
pub mod Later
pub mod Again
pub mod Records
pub mod Ack
pub mod Quiet
pub mod Sample
mod Tests
use Prim.Native.String
use chatbot_integration.Prelude.{
  ℕ, ◌+◌, ◌*◌, String, Bool, true, false, ◌&&◌, ◌||◌, Option, none, some, get_or, List, [], ◌∷◌,
  ◌++◌, if◌then◌else◌,
}
use chatbot_integration.Conversation.{
  HandoffReason, Language, NotifyReason, AcknowledgementKind, Deliver, is_truthy,
}
use chatbot_integration.Delivery.{SenderType, queued, outbound}
use chatbot_integration.Effects.{EffectContext, AcknowledgementInput, EffectPorts}
use chatbot_integration.Outbox.{OutboxRequest}
use Jobs.{
  turn_job_id, suggestion_job_id, outbound_job_id, waiting_human_job_id, summary_job_id,
  push_job_id, ack_turn_key, present,
}
use Store.{
  JobPayload, StoredMessage, Database, store_message, find_by_turn_key, insert_handoff, enqueue_job,
  cancel_job,
}

-- `acknowledgementText` and `stillWaitingText`, by language.
pub record Texts : Type 0 where
  pub th : Option String
  pub en : Option String

-- `redact` is `redactText` with the workspace's options.
pub record WorkspaceSettings : Type 0 where
  pub acknowledgement_text : Texts
  pub still_waiting_text : Texts
  pub default_language : Language
  pub redact : String → String

-- What the ports read of rows that no port writes.
pub record Reads : Type 0 where
  pub settings : (workspace_id : String) → WorkspaceSettings
  pub customer_language_evidence : (workspace_id conversation_id : String) → Option Language
  pub conversation_language : (workspace_id conversation_id : String) → Language → Language
  pub customer_id : (workspace_id conversation_id : String) → Option String
  pub vapid_keys : Bool

abbrev pub in_language : Language → Texts → Option String
in_language Language.th texts = texts.th
in_language Language.en texts = texts.en

abbrev pub texts_of : AcknowledgementKind → WorkspaceSettings → Texts
texts_of AcknowledgementKind.handoff settings = settings.acknowledgement_text
texts_of AcknowledgementKind.still_waiting settings = settings.still_waiting_text

-- `a || b` of two texts, where an empty text counts as missing.
abbrev pub or_text : Option String → Option String → Option String
or_text a b = if is_truthy a then a else b

unfoldable pub acknowledgement : Texts → Language → Option String
acknowledgement texts chosen = or_text (in_language chosen texts) (or_text texts.en texts.th)

module _ (id_text : ℕ → String) (reads : Reads) (now : ℕ) where
  abbrev pub chosen_language : EffectContext → Option Language → Language
  chosen_language ctx language = get_or language (
      get_or (reads.customer_language_evidence ctx.workspace_id ctx.conversation_id) (
        reads.conversation_language ctx.workspace_id ctx.conversation_id
          (reads.settings ctx.workspace_id).default_language))

  abbrev pub job :
      EffectContext → (queue name : String) → JobPayload → Option String → OutboxRequest JobPayload
  job ctx queue name payload job_id = record {
    queue = queue;
    name = name;
    payload = payload;
    job_id = job_id;
    delay_ms = none;
    options = none;
    workspace_id = some ctx.workspace_id;
  }

  unfoldable pub enqueue_ai_turn : EffectContext → Deliver → Database → Database
  enqueue_ai_turn ctx deliver db =
      enqueue_job id_text
        (job ctx "ai_turn" "run"
          (JobPayload.turn ctx.workspace_id ctx.conversation_id deliver
            (present ctx.trigger_message_id))
          (turn_job_id ctx))
        db

  unfoldable pub enqueue_suggestion : EffectContext → Database → Database
  enqueue_suggestion ctx db =
      enqueue_job id_text
        (job ctx "suggestion" "run"
          (JobPayload.suggestion ctx.workspace_id ctx.conversation_id
            (present ctx.trigger_message_id))
          (suggestion_job_id ctx))
        db

  abbrev pub ack_message : EffectContext → AcknowledgementInput → (text id : String) → StoredMessage
  ack_message ctx input text id = record {
    id = id;
    workspace_id = ctx.workspace_id;
    conversation_id = ctx.conversation_id;
    direction = outbound;
    sender_type = SenderType.system;
    created_at = now;
    text = (reads.settings ctx.workspace_id).redact text;
    platform_message_id = none;
    status = queued;
    turn_key = some (ack_turn_key input.kind ctx.conversation_id input.at);
  }

  -- The message that the key names is queued, whichever attempt stored it.
  unfoldable pub queue_message : EffectContext → Option String → Database → Database
  queue_message ctx none db = db
  queue_message ctx (some message_id) db =
      enqueue_job id_text
        (job ctx "outbound" "send"
          (JobPayload.outbound ctx.workspace_id ctx.conversation_id message_id)
          (some (outbound_job_id message_id)))
        db

  unfoldable pub store_and_queue :
      EffectContext → AcknowledgementInput → String → Database → Database
  store_and_queue ctx input text db =
      let id = id_text db.next_id in
      let (db', duplicate) =
        store_message (ack_message ctx input text id) (record db { next_id = db.next_id + 1 }) in
      queue_message ctx
        (if duplicate
          then find_by_turn_key ctx.workspace_id
              (ack_turn_key input.kind ctx.conversation_id input.at) db'.messages
          else some id)
        db'

  -- The text to send, if the workspace has one.
  unfoldable pub owed_text : EffectContext → AcknowledgementInput → Option String
  owed_text ctx input = present (
      acknowledgement (texts_of input.kind (reads.settings ctx.workspace_id))
        (chosen_language ctx input.language))

  unfoldable pub send_acknowledgement : EffectContext → AcknowledgementInput → Database → Database
  send_acknowledgement ctx input db = elim (owed_text ctx input) [
    | none ↦ record db { warnings = db.warnings ++ (ctx.conversation_id, input.kind) ∷ [] }
    | some text ↦ store_and_queue ctx input text db
  ]

  unfoldable pub add_internal_note : EffectContext → (body : String) → Database → Database
  add_internal_note ctx body db = record db {
    notes =
        db.notes
        ++ record {
          id = id_text db.next_id;
          workspace_id = ctx.workspace_id;
          conversation_id = ctx.conversation_id;
          body = (reads.settings ctx.workspace_id).redact body;
        }
          ∷ [];
    next_id = db.next_id + 1;
  }

  unfoldable pub record_handoff : EffectContext → HandoffReason → (at : ℕ) → Database → Database
  record_handoff ctx reason at db =
      insert_handoff
        (record {
          id = id_text db.next_id;
          workspace_id = ctx.workspace_id;
          conversation_id = ctx.conversation_id;
          reason = reason;
          occurred_at = at;
        })
        (record db { next_id = db.next_id + 1 })

  unfoldable pub notify_agents : EffectContext → NotifyReason → (at : ℕ) → Database → Database
  notify_agents ctx reason at db =
      let db' = record db { notices = db.notices ++ (ctx.conversation_id, reason) ∷ [] } in
      if reads.vapid_keys
      then enqueue_job id_text
          (job ctx "push" "send"
            (JobPayload.push ctx.workspace_id ctx.conversation_id reason
              (present ctx.trigger_message_id))
            (some (push_job_id ctx reason at)))
          db'
      else db'

  unfoldable pub schedule_waiting_human_timeout :
      EffectContext → (minutes : ℕ) → Database → Database
  schedule_waiting_human_timeout ctx minutes db =
      enqueue_job id_text
        (record (job ctx "waiting_human" "timeout"
          (JobPayload.waiting ctx.workspace_id ctx.conversation_id)
          (some (waiting_human_job_id ctx.conversation_id))) { delay_ms = some (minutes * 60000) })
        db

  unfoldable pub cancel_waiting_human_timeout : EffectContext → Database → Database
  cancel_waiting_human_timeout ctx db =
      cancel_job now "waiting_human" (waiting_human_job_id ctx.conversation_id) db

  unfoldable pub enqueue_summary : EffectContext → Database → Database
  enqueue_summary ctx db = elim (present (reads.customer_id ctx.workspace_id ctx.conversation_id)) [
    | none ↦ db
    | some customer_id ↦
        enqueue_job id_text
          (record (job ctx "summarize" "run"
            (JobPayload.summary ctx.workspace_id customer_id ctx.conversation_id)
            (some (summary_job_id ctx.conversation_id))) {
              options = some JobPayload.remove_on_complete;
            })
          db
  ]

  -- The database answers, so that no port throws.
  abbrev pub effect_ports : {E : Type 0} → EffectPorts Database E
  effect_ports = record {
    enqueue_ai_turn = λ ctx deliver db. (enqueue_ai_turn ctx deliver db, none);
    enqueue_suggestion = λ ctx db. (enqueue_suggestion ctx db, none);
    send_acknowledgement = λ ctx input db. (send_acknowledgement ctx input db, none);
    add_internal_note = λ ctx body db. (add_internal_note ctx body db, none);
    notify_agents = λ ctx reason at db. (notify_agents ctx reason at db, none);
    schedule_waiting_human_timeout =
        λ ctx minutes db. (schedule_waiting_human_timeout ctx minutes db, none);
    cancel_waiting_human_timeout = λ ctx db. (cancel_waiting_human_timeout ctx db, none);
    enqueue_summary = λ ctx db. (enqueue_summary ctx db, none);
    record_handoff = λ ctx reason at db. (record_handoff ctx reason at db, none);
  }
