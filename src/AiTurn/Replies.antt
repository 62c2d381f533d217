-- ===== src/AiTurn/Replies.antt =====
-- When a turn stores a reply: apps/worker/src/processors/ai-turn.ts.

use chatbot_integration.Prelude.{
  ℕ, ◌≡◌, refl, ◌∙◌, String, Bool, true, false, inl, inr, Option, none, some, List, [], ◌∷◌, ◌++◌,
  any, keep, Bool-cases, Option-cases, if-either, Option-either,
}
use chatbot_integration.Conversation.{
  Effect, HandoffReason, run_ai_turn, run_suggestion, send_acknowledgement, add_internal_note,
  notify_agents, schedule_waiting_human_timeout, cancel_waiting_human_timeout, enqueue_summary,
  record_handoff,
}
use chatbot_integration.Delivery.{SenderType}
use chatbot_integration.Effects.{
  EffectContext, Logger, apply_effect, apply_effects, caught, AcknowledgementInput,
}
use chatbot_integration.Ports
use chatbot_integration.Ports.{Reads, store_and_queue, queue_message, ack_message, owed_text}
use chatbot_integration.Ports.Store.{
  Database, StoredMessage, store_message, conflicts, enqueue_job, cancel_job, insert_handoff,
  HandoffEvent, same_handoff,
}
use chatbot_integration.Ports.Jobs.{present}
use chatbot_integration.Ports.Grows.{drawn}
use chatbot_integration.Ports.Step.{after}
use chatbot_integration.Ports.Again.{run, run-cons}
use chatbot_integration.AiTurn.{
  Env, AiTurnJob, TurnWorld, Moment, find_conversation, suggest_instead, enqueue_outbound,
  send_verification_link, store_and_send,
}
use chatbot_integration.AiTurn.HandOff.{hand_off, commit_handoff}

abbrev pub is_reply : StoredMessage → Bool
is_reply m = elim m.sender_type [
  | SenderType.customer ↦ false
  | SenderType.ai ↦ true
  | SenderType.human ↦ false
  | SenderType.system ↦ false
]

-- The messages that an AI wrote.
abbrev pub replies : Database → List StoredMessage
replies db = keep is_reply db.messages

keep-last :
    (ms : List StoredMessage) (m : StoredMessage)
    → is_reply m ≡ false
    → keep is_reply (ms ++ m ∷ []) ≡ keep is_reply ms
keep-last [] m h = rw h refl
keep-last (n ∷ ms) m h = elim (Bool-cases (is_reply n)) [
  | inl e ↦ rw (e, keep-last ms m h) refl
  | inr e ↦ rw (e, keep-last ms m h) refl
]

store-replies :
    (m : StoredMessage) (db : Database)
    → is_reply m ≡ false
    → replies (store_message m db).0 ≡ replies db
unfolding store_message
store-replies m db h = elim (Bool-cases (any (conflicts m) db.messages)) [
  | inl e ↦ rw e refl
  | inr e ↦ rw e (keep-last db.messages m h)
]

insert-replies :
    (event : HandoffEvent) (db : Database) → replies (insert_handoff event db) ≡ replies db
unfolding insert_handoff
insert-replies event db = elim (Bool-cases (any (same_handoff event) db.handoffs)) [
  | inl e ↦ rw e refl
  | inr e ↦ rw e refl
]

module _ {E : Type 0} (id_text : ℕ → String) (reads : Reads) (now : ℕ) (logger : Logger Database E)
    (ctx : EffectContext) where
  queue-replies :
      (o : Option String) (db : Database)
      → replies (queue_message id_text reads now ctx o db) ≡ replies db
  unfolding queue_message enqueue_job
  queue-replies none db = refl
  queue-replies (some id) db = refl

  ack-replies :
      (input : AcknowledgementInput) (db : Database)
      → replies (Ports.send_acknowledgement id_text reads now ctx input db) ≡ replies db
  unfolding Ports.send_acknowledgement store_and_queue
  ack-replies input db =
      Option-either (λ (d : Database). replies d ≡ replies db)
        (owed_text id_text reads now ctx input) _ _ (λ h. refl)
        (λ text h. queue-replies _ _ ∙ store-replies _ _ refl)

  apply-replies :
      (x : Effect) (db : Database) → replies (after id_text reads now logger ctx x db) ≡ replies db
  unfolding apply_effect caught Ports.enqueue_ai_turn Ports.enqueue_suggestion Ports.record_handoff
      Ports.add_internal_note Ports.notify_agents Ports.schedule_waiting_human_timeout
      Ports.cancel_waiting_human_timeout Ports.enqueue_summary enqueue_job cancel_job
  apply-replies (run_ai_turn deliver) db = refl
  apply-replies run_suggestion db = refl
  apply-replies (send_acknowledgement kind language at) db = ack-replies _ db
  apply-replies (record_handoff reason at) db = insert-replies _ (drawn db)
  apply-replies (add_internal_note body) db = refl
  apply-replies (notify_agents reason at) db =
      if-either (λ (d : Database). replies d ≡ replies db) reads.vapid_keys _ _ (λ h. refl)
        (λ h. refl)
  apply-replies (schedule_waiting_human_timeout minutes) db = refl
  apply-replies cancel_waiting_human_timeout db = refl
  apply-replies enqueue_summary db =
      Option-either (λ (d : Database). replies d ≡ replies db)
        (present (reads.customer_id ctx.workspace_id ctx.conversation_id)) _ _ (λ h. refl)
        (λ c h. refl)

  pub run-replies :
      (xs : List Effect) (db : Database)
      → replies (run id_text reads now logger ctx xs db).0 ≡ replies db
  unfolding apply_effects
  run-replies [] db = refl
  run-replies (x ∷ xs) db =
      rw (run-cons id_text reads now logger ctx x xs db)
        (run-replies xs (after id_text reads now logger ctx x db) ∙ apply-replies x db)

module _ {K E : Type 0} (env : Env K E) (j : AiTurnJob)
    (calm : (m : Moment) (w : TurnWorld K) → replies (env.others m w).db ≡ replies w.db) where
  pub hand_off-replies :
      (reason : HandoffReason) (note : String) (w : TurnWorld K)
      → replies (hand_off env j reason note w).db ≡ replies w.db
  unfolding hand_off commit_handoff
  hand_off-replies reason note w =
      Option-either (λ (v : TurnWorld K). replies v.db ≡ replies w.db)
        (find_conversation j w.conversations) _ _ (λ h. refl)
        (λ row h.
          run-replies env.id_text env.reads env.now env.logger _ _ _ ∙ calm Moment.handoff_read w)

  pub suggest-replies : (w : TurnWorld K) → replies (suggest_instead env j w).db ≡ replies w.db
  unfolding suggest_instead enqueue_job
  suggest-replies w = refl

  pub delivery-replies :
      (id : String) (db : Database) → replies (enqueue_outbound env j id db) ≡ replies db
  unfolding enqueue_outbound
  delivery-replies id db = queue-replies env.id_text env.reads env.now env.logger _ (some id) db

  pub link-replies :
      (w : TurnWorld K) → replies (send_verification_link env j w).0.db ≡ replies w.db
  unfolding send_verification_link store_and_send
  link-replies w = elim (Option-cases (find_conversation j w.conversations)) [
    | inl e ↦ rw (e, send_verification_link) refl
    | inr (row, e) ↦ elim (Option-cases env.link_text) [
      | inl f ↦ rw (e, send_verification_link, f) refl
      | inr (text, f) ↦
          rw (e, send_verification_link, f) (delivery-replies _ _ ∙ store-replies _ _ refl)
    ]
  ]
