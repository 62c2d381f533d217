-- ===== src/AiTurn/Tests.antt =====
-- Turns over a small world.
use chatbot_integration.Prelude.{
  ◌≡◌, refl, inl, String, true, none, some, List, [], ◌∷◌, str_eq, not, map,
}
use chatbot_integration.Conversation.{
  ConversationMode, Deliver, ai_may_send, ai, transition, apply_patch, human, «open», HandoffReason,
  is_waiting,
}
use chatbot_integration.Delivery.{SenderType, inbound, outbound, delivered}
use chatbot_integration.Outbox.{enqueue}
use chatbot_integration.Effects.{apply_effects, apply_effect, caught}
use chatbot_integration.Ports
use chatbot_integration.Ports.{queue_message, owed_text, acknowledgement, store_and_queue}
use chatbot_integration.Ports.Jobs.{decimal, ack_turn_key}
use chatbot_integration.Ports.Store.{
  StoredMessage, find_by_turn_key, store_message, enqueue_job, insert_handoff,
}
use chatbot_integration.Ports.Sample.{empty_database, id_text, reads, logger}
use chatbot_integration.AiTurn.{
  AiTurnJob, TurnConversation, TurnWorld, Env, Moment, find_conversation, store_and_send,
  send_verification_link, newer_turn_owed, update_state, enqueue_outbound,
}
use chatbot_integration.AiTurn.Writes.{ToolSource, run_pending_writes}
use chatbot_integration.AiTurn.HandOff.{hand_off, commit_handoff, created_at_of}
use chatbot_integration.AiTurn.Process.{
  process_ai_turn, answer, already_answered, ask_model, check_again, conclude, allow_writes,
  run_writes, deliver_text, send_reply, finish, under_lock, still_ai_owned, send_link,
}
use chatbot_integration.AiTurn.Handed.{IsHandedFor}
use chatbot_integration.AiTurn.Ends.{IsTold, never_silent}
use chatbot_integration.AiTurn.Replies.{replies}
use chatbot_integration.AiTurn.Withheld.{IsEarned}
use chatbot_integration.AiTurn.Earned.{process_ai_turn-IsEarned}
use chatbot_integration.AiTurn.Retry.{
  IsSettled, hand_off_again, answered_turn_rests, handoff_over_take_over,
}

abbrev row : ConversationMode → TurnConversation
row mode = record {
  id = "c";
  workspace_id = "w";
  state = record {
    mode = mode;
    status = «open»;
    assignee_user_id = some "u";
    waiting_human_since = none;
    handoff_reason = none;
  };
  last_message_at = none;
}

abbrev question : StoredMessage
question = record {
  id = "m";
  workspace_id = "w";
  conversation_id = "c";
  direction = inbound;
  sender_type = SenderType.customer;
  created_at = 7;
  text = "Where is my order?";
  platform_message_id = some "p";
  status = delivered;
  turn_key = none;
}

abbrev world : TurnWorld (List String)
world = record {
  conversations = row ai ∷ [];
  db = record empty_database { messages = question ∷ [] };
  suggestions = [];
  known = [];
  traces = [];
  tool_calls = [];
}

abbrev turn : AiTurnJob
turn = record {
  workspace_id = "w";
  conversation_id = "c";
  deliver = Deliver.send;
  trigger_message_id = some "m";
}

abbrev env :
    (text : String)
    → (Moment → TurnWorld (List String) → TurnWorld (List String))
    → Env (List String) String
env text others = record {
  id_text = id_text;
  reads = reads;
  logger = logger;
  now = 9;
  is_newer = λ a b. not (str_eq a b);
  is_complete = true;
  is_workable = true;
  has_chat_slot = true;
  fallback_minutes = some 15;
  result = record {
    text = text;
    handoff = none;
    pending_writes =
        record { tool_id = "t"; tool = "refund"; idempotency_key = "k"; source = ToolSource.http }
        ∷ [];
    verification_requested = true;
  };
  is_defined = λ tool_id. true;
  execute = λ write. none;
  learn = λ known. "blue" ∷ known;
  link_text = none;
  others = others;
}

abbrev alone : Moment → TurnWorld (List String) → TurnWorld (List String)
alone moment w = w

-- Somebody takes the conversation over just before a moment.
abbrev take_over : Moment → TurnWorld (List String) → TurnWorld (List String)
take_over Moment.handoff_read w = record w { conversations = row human ∷ [] }
take_over moment w = w

abbrev answered : TurnWorld (List String)
answered = process_ai_turn (env "On its way." alone) turn (some "ai-turn-m") world

never_silent_example :
    IsTold
      (env "" alone)
      turn
      "ai-turn-m"
      (process_ai_turn (env "" alone) turn (some "ai-turn-m") world)
unfolding find_conversation IsHandedFor
never_silent_example =
    never_silent (env "" alone) turn "ai-turn-m" refl refl (λ w. refl) (λ m w ok. ok) world (row ai)
      refl refl (inl refl)

process_ai_turn-IsEarned_example :
    IsEarned (env "On its way." alone) turn (some "ai-turn-m") (λ m w. refl) [] answered
process_ai_turn-IsEarned_example =
    process_ai_turn-IsEarned (env "On its way." alone) turn (some "ai-turn-m") (λ m w. refl) refl
      world

hand_off_again_example :
    let once = hand_off (env "" alone) turn HandoffReason.model_error "No answer." world in
    hand_off (env "" alone) turn HandoffReason.tool_error "Again." once ≡ once
hand_off_again_example =
    hand_off_again (env "" alone) turn (λ w. refl) HandoffReason.model_error
      HandoffReason.tool_error "No answer." "Again." world

abbrev reply : StoredMessage
reply = record question {
  id = "r";
  direction = outbound;
  sender_type = SenderType.ai;
  text = "On its way.";
  platform_message_id = none;
  turn_key = some "ai-turn-m";
}

abbrev world_with_reply : TurnWorld (List String)
world_with_reply = record world { db = record empty_database { messages = question ∷ reply ∷ [] } }

answered_turn_rests_example :
    IsSettled
      (env "Another answer." alone)
      turn
      "ai-turn-m"
      world_with_reply
      (process_ai_turn (env "Another answer." alone) turn (some "ai-turn-m") world_with_reply)
unfolding find_by_turn_key
answered_turn_rests_example =
    answered_turn_rests (env "Another answer." alone) turn "ai-turn-m" world_with_reply "r" refl
      refl refl

handoff_over_take_over_example :
    (after : TurnConversation) × (find_conversation turn
        (hand_off
          (env "" take_over)
          turn
          HandoffReason.model_error
          "No answer."
          world).conversations
      ≡ some after)
    × (is_waiting after.state.mode ≡ true)
    × (after.state.assignee_user_id ≡ some "u")
unfolding find_conversation
handoff_over_take_over_example =
    handoff_over_take_over (env "" take_over) turn HandoffReason.model_error "No answer." world
      (row ai) (row human) refl refl refl refl

-- The reply is stored and the write was carried out, but the link that it speaks of could not be
-- sent, so the conversation waits for a person.
answered_test :
    (map (λ (m : StoredMessage). m.text) (replies answered.db) ≡ "On its way." ∷ [])
    × (answered.tool_calls ≡ "refund" ∷ [])
    × (map (λ (c : TurnConversation). is_waiting c.state.mode) answered.conversations ≡ true ∷ [])
unfolding process_ai_turn answer already_answered ask_model check_again conclude allow_writes
    run_writes deliver_text send_reply finish under_lock still_ai_owned send_link store_and_send
    send_verification_link find_conversation newer_turn_owed hand_off commit_handoff update_state
    transition apply_patch find_by_turn_key store_message enqueue_outbound queue_message enqueue_job
    enqueue created_at_of apply_effects apply_effect caught Ports.record_handoff
    Ports.send_acknowledgement owed_text acknowledgement store_and_queue Ports.add_internal_note
    Ports.notify_agents Ports.schedule_waiting_human_timeout insert_handoff decimal ack_turn_key
    ai_may_send run_pending_writes
answered_test = (refl, refl, refl)
