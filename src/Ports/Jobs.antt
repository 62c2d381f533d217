-- ===== src/Ports/Jobs.antt =====
-- The job ids and keys of promised work: packages/infra/src/effect-ports.ts, and of
-- packages/infra/src/queues.ts and packages/infra/src/push.ts the functions that name a job.
use Prim.Native.String
use chatbot_integration.Prelude.{
  ℕ, zero, suc, ◌/◌, ◌%◌, String, Option, none, some, ltb, if◌then◌else◌,
}
use chatbot_integration.Conversation.{NotifyReason, AcknowledgementKind, is_truthy}
use chatbot_integration.Effects.{EffectContext}

abbrev digits : String
digits = "0123456789"

-- The character at an index, as a text.
digit_at : String → ℕ → String
digit_at String.[] n = ""
digit_at (String.◌∷◌ c s) zero = String.◌∷◌ c ""
digit_at (String.◌∷◌ c s) (suc n) = digit_at s n

decimal_digits : (fuel : ℕ) → ℕ → String
unfolding digit_at
decimal_digits zero n = ""
decimal_digits (suc fuel) n =
    let rest = decimal_digits fuel (n / 10) in
    if ltb n 10 then digit_at digits n else String.◌++◌ rest (digit_at digits (n % 10))

-- A number in a template string.
unfoldable pub decimal : ℕ → String
unfolding decimal_digits digit_at
decimal n = decimal_digits (suc n) n

abbrev kind_text : AcknowledgementKind → String
kind_text AcknowledgementKind.handoff = "handoff"
kind_text AcknowledgementKind.still_waiting = "still_waiting"

abbrev notify_text : NotifyReason → String
notify_text NotifyReason.handoff = "handoff"
notify_text NotifyReason.draft_ready = "draft_ready"
notify_text NotifyReason.timeout = "timeout"
notify_text NotifyReason.customer_message = "customer_message"

abbrev template : String → String → String
template a b = String.◌++◌ a b

-- `x ? { x } : {}`.
abbrev pub present : Option String → Option String
present x = if is_truthy x then x else none

-- `none` leaves the id to the outbox.
unfoldable pub turn_job_id : EffectContext → Option String
turn_job_id ctx = if is_truthy ctx.turn_key then ctx.turn_key else elim ctx.trigger_message_id [
  | none ↦ none
  | some trigger ↦ if is_truthy (some trigger) then some (template "ai-turn-" trigger) else none
]

unfoldable pub suggestion_job_id : EffectContext → Option String
suggestion_job_id ctx = elim ctx.trigger_message_id [
  | none ↦ none
  | some trigger ↦ if is_truthy (some trigger) then some (template "suggestion-" trigger) else none
]

abbrev pub outbound_job_id : (message_id : String) → String
outbound_job_id message_id = template "outbound-" message_id

abbrev pub waiting_human_job_id : (conversation_id : String) → String
waiting_human_job_id conversation_id = template "waiting-human-" conversation_id

abbrev pub summary_job_id : (conversation_id : String) → String
summary_job_id conversation_id = template "summary-" conversation_id

unfoldable pub push_job_id : EffectContext → NotifyReason → (at : ℕ) → String
push_job_id ctx reason at = template "push-" (
    template (notify_text reason) (
      template "-" (
        template ctx.conversation_id (
          template "-"
            (elim ctx.trigger_message_id [ none ↦ decimal at | some trigger ↦ trigger ])))))

unfoldable pub ack_turn_key : AcknowledgementKind → (conversation_id : String) (at : ℕ) → String
ack_turn_key kind conversation_id at = template "ack-" (
    template (kind_text kind) (template "-" (template conversation_id (template "-" (decimal at)))))
