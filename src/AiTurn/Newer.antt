-- ===== src/AiTurn/Newer.antt =====
-- A later turn that is owed: `newerTurnOwed` of apps/worker/src/processors/ai-turn.ts.
use Prim.Native.String
use mathlib.Core.List.{Memᴰ}
use chatbot_integration.Prelude.{
  ◌≡◌, refl, String, Bool, true, false, some, get_or, str_eq, eq_iff, some_of, arith, any, ◌&&◌,
  inl, inr, Option-cases,
}
use chatbot_integration.Delivery.{SenderType}
use chatbot_integration.Outbox.{OutboxRow}
use chatbot_integration.Ports.Jobs.{present}
use chatbot_integration.Ports.Store.{Database, StoredMessage, JobPayload}
use chatbot_integration.AiTurn.{AiTurnJob, is_customer, is_owed, newer_turn_owed}

-- A message of the customer in the conversation, newer than the one that the turn answers, and the
-- job of a turn for it that nobody took back.
abbrev pub HasNewerTurn : (is_newer : String → String → Bool) → AiTurnJob → Database → Type 0
HasNewerTurn is_newer j db =
    (trigger : String) × (present j.trigger_message_id ≡ some trigger)
    × (m : StoredMessage) × Memᴰ m db.messages
    × (m.workspace_id ≡ j.workspace_id)
    × (m.conversation_id ≡ j.conversation_id)
    × (m.sender_type ≡ SenderType.customer)
    × (is_newer m.id trigger ≡ true)
    × (r : OutboxRow JobPayload) × Memᴰ r db.rows
    × (r.queue ≡ "ai_turn")
    × (r.job_id ≡ String.◌++◌ "ai-turn-" m.id)
    × (str_eq (get_or r.last_error "") "cancelled before relay" ≡ false)

customer_sender : (s : SenderType) → is_customer s ≡ true → s ≡ SenderType.customer
customer_sender SenderType.customer h = refl
customer_sender SenderType.ai h = absurd (ground arith)
customer_sender SenderType.human h = absurd (ground arith)
customer_sender SenderType.system h = absurd (ground arith)

owed_row :
    (message_id : String) (r : OutboxRow JobPayload)
    → is_owed message_id r ≡ true
    → (r.queue ≡ "ai_turn")
      × (r.job_id ≡ String.◌++◌ "ai-turn-" message_id)
      × (str_eq (get_or r.last_error "") "cancelled before relay" ≡ false)
owed_row message_id r h = (
  (eq_iff r.queue "ai_turn").0 (ground arith),
  (eq_iff r.job_id (String.◌++◌ "ai-turn-" message_id)).0 (ground arith),
  ground arith,
)

pub newer_turn_owed-HasNewerTurn :
    (is_newer : String → String → Bool) (j : AiTurnJob) (db : Database)
    → newer_turn_owed is_newer j db ≡ true
    → HasNewerTurn is_newer j db
unfolding newer_turn_owed
newer_turn_owed-HasNewerTurn is_newer j db h = elim (Option-cases (present j.trigger_message_id)) [
  | inl e ↦ absurd (ground arith)
  | inr (trigger, e) ↦
      let (m, there, f) =
        some_of
          (λ (m : StoredMessage).
            str_eq m.workspace_id j.workspace_id
            && (str_eq m.conversation_id j.conversation_id
                && (is_customer m.sender_type
                    && (is_newer m.id trigger && any (is_owed m.id) db.rows))))
          db.messages (rw (e, newer_turn_owed) at h) in
      let (r, here, g) = some_of (is_owed m.id) db.rows (ground arith) in
      let (queue, job_id, live) = owed_row m.id r g in
      (
        trigger,
        e,
        m,
        there,
        (eq_iff m.workspace_id j.workspace_id).0 (ground arith),
        (eq_iff m.conversation_id j.conversation_id).0 (ground arith),
        customer_sender m.sender_type (ground arith),
        ground arith,
        r,
        here,
        queue,
        job_id,
        live,
      )
]
