-- ===== src/AiTurn/Process.antt =====
-- `processAiTurn` of apps/worker/src/processors/ai-turn.ts, from its last steps to its first.
use Prim.Native.String
use chatbot_integration.Prelude.{
  ◌+◌, String, Bool, true, false, ◌&&◌, Option, none, some, get_or, List, [], ◌∷◌, ◌++◌, map,
  if◌then◌else◌, not,
}
use chatbot_integration.Conversation.{
  model_error, tool_error, NotifyReason, ai_may_send, is_truthy, reason_text,
}
use chatbot_integration.Delivery.{SenderType}
use chatbot_integration.Ports
use chatbot_integration.Ports.Store.{find_by_turn_key}
use chatbot_integration.AiTurn.{
  Env, AiTurnJob, TurnWorld, TurnConversation, Moment, is_send, is_row, job_context,
  find_conversation, newer_turn_owed, suggest_instead, enqueue_outbound, store_and_send,
  send_verification_link, outcome,
}
use chatbot_integration.AiTurn.Writes.{tools_of}
use chatbot_integration.AiTurn.HandOff.{hand_off}

abbrev pub is_empty : {A : Type 0} → List A → Bool
is_empty [] = true
is_empty (x ∷ xs) = false

-- Tool names for a note.
unfoldable pub join_names : List String → String
join_names [] = ""
join_names (name ∷ []) = name
join_names (name ∷ names) = String.◌++◌ name (String.◌++◌ ", " (join_names names))

-- `describeWriteFailure`.
unfoldable pub describe_write_failure : (tool message : String) (succeeded : List String) → String
describe_write_failure tool message succeeded = String.◌++◌ "The AI wrote a reply but \"" (
    String.◌++◌ tool (
      String.◌++◌ "\" " (
        String.◌++◌ message (
          String.◌++◌ ", so the reply was not sent." (
            if is_empty succeeded
            then " Nothing was carried out."
            else String.◌++◌ " These were already carried out and may need undoing: "
                (String.◌++◌ (join_names succeeded) "."))))))

pub data Committed : Type 0 where
  taken_over superseded stored : Committed

module _ {K E : Type 0} (env : Env K E) (j : AiTurnJob) (turn_key : Option String) where
  abbrev newer : TurnWorld K → Bool
  newer w = newer_turn_owed env.is_newer j w.db

  unfoldable pub send_link : TurnWorld K → TurnWorld K
  send_link w =
      let sent = send_verification_link env j w in
      if sent.1
      then sent.0
      else hand_off env j tool_error
          "The AI told this customer a verification link was on its way, and it could not be sent. They are waiting for it."
          sent.0

  abbrev pub touched : List TurnConversation → List TurnConversation
  touched cs = map (λ c. if is_row j c then record c { last_message_at = some env.now } else c) cs

  abbrev pub stored_reply : TurnWorld K → TurnWorld K
  stored_reply w = record w {
    conversations = touched w.conversations;
    db = store_and_send env j SenderType.ai turn_key env.result.text w.db;
  }

  -- What the transaction decides, with the conversation locked.
  unfoldable pub under_lock : TurnWorld K → Committed
  under_lock w =
      if is_send j.deliver
      then elim (find_conversation j w.conversations) [
        | none ↦ taken_over
        | some row ↦
            if not (ai_may_send row.state.mode)
            then taken_over
            else if is_empty env.result.pending_writes && newer w
            then superseded
            else stored
      ]
      else stored

  unfoldable pub finish : Committed → TurnWorld K → TurnWorld K
  unfolding send_link
  finish taken_over w = suggest_instead env j w
  finish superseded w = w
  finish stored w =
      if env.result.verification_requested then send_link (stored_reply w) else stored_reply w

  unfoldable pub still_ai_owned : TurnWorld K → Bool
  still_ai_owned w =
      if is_send j.deliver
      then (elim (find_conversation j w.conversations) [
        | none ↦ false
        | some row ↦ ai_may_send row.state.mode
      ])
      else true

  -- The last check before the transaction, and the transaction.
  unfoldable pub send_reply : TurnWorld K → TurnWorld K
  unfolding finish under_lock still_ai_owned
  send_reply w =
      let locked = env.others Moment.checked_last w in
      if not (still_ai_owned w) then suggest_instead env j w else finish (under_lock locked) locked

  unfoldable pub save_draft : TurnWorld K → TurnWorld K
  save_draft w =
      let id = env.id_text w.db.next_id in
      let db = record w.db { next_id = w.db.next_id + 1 } in
      if newer w then w else record w {
        suggestions =
            w.suggestions
            ++ record {
              id = id;
              workspace_id = j.workspace_id;
              conversation_id = j.conversation_id;
              message_text = (env.reads.settings j.workspace_id).redact env.result.text;
            }
              ∷ [];
        db =
            Ports.notify_agents env.id_text env.reads env.now (job_context j)
              NotifyReason.draft_ready env.now db;
      }

  abbrev pub empty_note : String
  empty_note =
      if is_empty env.result.pending_writes
      then "The AI returned nothing at all, so this needs a person. The trace shows what it was asked."
      else String.◌++◌
          "The AI returned nothing at all, so this needs a person. It had already carried out: "
          (String.◌++◌ (join_names (tools_of env.result.pending_writes))
            ". The trace shows what it was asked.")

  -- What becomes of the text.
  unfoldable pub deliver_text : TurnWorld K → TurnWorld K
  unfolding save_draft send_reply
  deliver_text w =
      if not (is_truthy (some env.result.text))
      then if is_send j.deliver then hand_off env j model_error empty_note w else w
      else if is_send j.deliver
      then send_reply w
      else save_draft w

  -- The writes, which hold the text back when one of them fails.
  unfoldable pub run_writes : TurnWorld K → TurnWorld K
  unfolding deliver_text describe_write_failure
  run_writes w =
      let wrote = record w { tool_calls = w.tool_calls ++ (outcome env).succeeded } in
      elim (outcome env).failed [
        | none ↦ deliver_text (env.others Moment.writes_done wrote)
        | some (tool, message) ↦
            hand_off env j tool_error (describe_write_failure tool message (outcome env).succeeded)
              wrote
      ]

  unfoldable pub allow_writes : TurnWorld K → TurnWorld K
  unfolding run_writes still_ai_owned deliver_text
  allow_writes w =
      if is_empty env.result.pending_writes
      then deliver_text w
      else if not (still_ai_owned w)
      then suggest_instead env j w
      else run_writes (env.others Moment.writes_allowed w)

  unfoldable pub conclude : TurnWorld K → TurnWorld K
  unfolding allow_writes
  conclude w = elim env.result.handoff [
    | none ↦ allow_writes w
    | some (reason, note) ↦
        hand_off env j reason (get_or note (String.◌++◌ "AI handed off: " (reason_text reason))) w
  ]

  -- The checks after the model, before anything it learnt is written.
  unfoldable pub check_again : TurnWorld K → TurnWorld K
  unfolding conclude still_ai_owned
  check_again w =
      let again = env.others Moment.checked_again w in
      let learnt = λ (v : TurnWorld K). record v { known = env.learn v.known } in
      if not (still_ai_owned w)
      then suggest_instead env j w
      else if newer again
      then again
      else conclude (env.others Moment.learnt (learnt (env.others Moment.newer_ruled_out again)))

  -- `recordTrace`, with the id of the trace.
  abbrev pub record_trace : TurnWorld K → TurnWorld K
  record_trace w = record w {
    traces = w.traces ++ env.id_text w.db.next_id ∷ [];
    db = record w.db { next_id = w.db.next_id + 1 };
  }

  -- The model is asked where it is configured.
  unfoldable pub ask_model : TurnWorld K → TurnWorld K
  unfolding check_again
  ask_model w =
      if env.has_chat_slot
      then check_again (env.others Moment.model_answered (record_trace w))
      else hand_off env j model_error "No AI provider is configured." w

  unfoldable pub already_answered : TurnWorld K → Option String
  already_answered w = elim turn_key [
    | none ↦ none
    | some key ↦
        if is_truthy (some key) then find_by_turn_key j.workspace_id key w.db.messages else none
  ]

  unfoldable pub answer : TurnWorld K → TurnWorld K
  unfolding ask_model already_answered
  answer w =
      let looked_up = env.others Moment.key_looked_up w in
      elim (already_answered w) [
        | some id ↦ record w { db = enqueue_outbound env j id w.db }
        | none ↦
            if newer looked_up
            then looked_up
            else ask_model (env.others Moment.configured looked_up)
      ]

  -- The first check reads the conversation that was loaded.
  unfoldable pub process_ai_turn : TurnWorld K → TurnWorld K
  unfolding answer
  process_ai_turn w = elim (find_conversation j w.conversations) [
    | none ↦ w
    | some row ↦
        if not (env.is_complete && env.is_workable)
        then w
        else if is_send j.deliver && not (ai_may_send row.state.mode)
        then suggest_instead env j w
        else answer (env.others Moment.context_loaded w)
  ]

-- `handOffAfterFailure`: every attempt threw, the last with `message`.
pub hand_off_after_failure :
    {K E : Type 0} → Env K E → AiTurnJob → (message : String) → TurnWorld K → TurnWorld K
hand_off_after_failure env j message w =
    hand_off env j model_error
      (String.◌++◌ "The AI turn failed after every retry, so this needs a person: " message) w
