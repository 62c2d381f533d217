-- ===== src/AiTurn/Withheld.antt =====
-- What a reply waits for: apps/worker/src/processors/ai-turn.ts.

use chatbot_integration.Prelude.{
  ◌≡◌, refl, ◌∙◌, String, true, ◌⊎◌, inl, inr, Option, none, some, List, [], ◌∷◌, ◌++◌, any, keep,
  Bool-cases, if-either,
}
use chatbot_integration.Conversation.{HandoffReason, ai_may_send, is_truthy}
use chatbot_integration.Delivery.{SenderType}
use chatbot_integration.Ports.Store.{Database, StoredMessage, conflicts, store_message}
use chatbot_integration.AiTurn.{
  outcome, Env, AiTurnJob, TurnWorld, TurnConversation, Moment, find_conversation, store_and_send,
  outbound_text, send_verification_link,
}
use chatbot_integration.AiTurn.Writes.{tools_of}
use chatbot_integration.AiTurn.HandOff.{hand_off}
use chatbot_integration.AiTurn.Process.{stored, finish, send_link, stored_reply}
use chatbot_integration.AiTurn.Replies.{
  is_reply, replies, hand_off-replies, delivery-replies, link-replies,
}

keep-new :
    (ms : List StoredMessage) (m : StoredMessage)
    → is_reply m ≡ true
    → keep is_reply (ms ++ m ∷ []) ≡ keep is_reply ms ++ m ∷ []
keep-new [] m h = rw h refl
keep-new (n ∷ ms) m h = elim (Bool-cases (is_reply n)) [
  | inl e ↦ rw (e, keep-new ms m h) refl
  | inr e ↦ rw (e, keep-new ms m h) refl
]

module _ {K E : Type 0} (env : Env K E) (j : AiTurnJob) (key : Option String)
    (calm : (m : Moment) (w : TurnWorld K) → replies (env.others m w).db ≡ replies w.db) where
  -- No reply more, or this one.
  abbrev pub HasAtMost : List StoredMessage → Database → Type 0
  HasAtMost base db =
      (replies db ≡ base)
      ⊎ ((id : String) × (replies db
            ≡ base ++ outbound_text env j SenderType.ai key env.result.text id ∷ []))

  -- The turn stored its reply with the conversation locked in `locked`, where the AI may send.
  abbrev pub IsSent : TurnWorld K → Type 0
  IsSent r =
      (locked : TurnWorld K) × (row : TurnConversation) × (find_conversation j locked.conversations
        ≡ some row)
      × (ai_may_send row.state.mode ≡ true)
      × (r ≡ finish env j key stored locked)

  abbrev pub IsAllowed : Type 0
  IsAllowed =
      (env.result.handoff ≡ none)
      × (is_truthy (some env.result.text) ≡ true)
      × ((outcome env).succeeded ≡ tools_of env.result.pending_writes)

  abbrev pub IsEarned : List StoredMessage → TurnWorld K → Type 0
  IsEarned base r = (replies r.db ≡ base) ⊎ (HasAtMost base r.db × IsSent r × IsAllowed)

  stored-HasAtMost : (w : TurnWorld K) → HasAtMost (replies w.db) (stored_reply env j key w).db
  unfolding store_and_send store_message
  stored-HasAtMost w =
      let m = outbound_text env j SenderType.ai key env.result.text (env.id_text w.db.next_id) in
      elim (Bool-cases (any (conflicts m) w.db.messages)) [
        | inl e ↦ rw e (inl (delivery-replies env j calm _ _))
        | inr e ↦ rw e (inr (_, delivery-replies env j calm _ _ ∙ keep-new w.db.messages m refl))
      ]

  HasAtMost-same :
      (base : List StoredMessage) (d d' : Database)
      → replies d' ≡ replies d
      → HasAtMost base d
      → HasAtMost base d'
  HasAtMost-same base d d' e (inl h) = inl (e ∙ h)
  HasAtMost-same base d d' e (inr (id, h)) = inr (id, e ∙ h)

  hand_off-HasAtMost :
      (base : List StoredMessage) (reason : HandoffReason) (note : String) (w : TurnWorld K)
      → HasAtMost base w.db
      → HasAtMost base (hand_off env j reason note w).db
  hand_off-HasAtMost base reason note w h =
      HasAtMost-same base w.db (hand_off env j reason note w).db
        (hand_off-replies env j calm reason note w) h

  send_link-HasAtMost :
      (base : List StoredMessage) (w : TurnWorld K)
      → HasAtMost base w.db
      → HasAtMost base (send_link env j key w).db
  unfolding send_link
  send_link-HasAtMost base w h =
      let sent = send_verification_link env j w in
      let linked = HasAtMost-same base w.db sent.0.db (link-replies env j calm w) h in
      if-either (λ (v : TurnWorld K). HasAtMost base v.db) sent.1 _ _ (λ e. linked)
        (λ e. hand_off-HasAtMost base _ _ sent.0 linked)

  pub finish-HasAtMost : (w : TurnWorld K) → HasAtMost (replies w.db) (finish env j key stored w).db
  unfolding finish
  finish-HasAtMost w =
      if-either (λ (v : TurnWorld K). HasAtMost (replies w.db) v.db)
        env.result.verification_requested _ _
        (λ e. send_link-HasAtMost (replies w.db) (stored_reply env j key w) (stored-HasAtMost w))
        (λ e. stored-HasAtMost w)
