-- ===== src/AiTurn/Retry.antt =====
-- Attempts of one turn: apps/worker/src/processors/ai-turn.ts.
use chatbot_integration.Prelude.{
  ◌≡◌, refl, sym, subst, String, true, false, ◌&&◌, ◌||◌, inl, inr, none, some, List, [], ◌∷◌,
  Bool-cases, if-either, Option-either, arith, not,
}
use chatbot_integration.Conversation.{
  HandoffReason, ConversationState, apply_patch, is_human, is_waiting, transition, ai_may_send,
  nothing, no_patch, is_truthy,
}
use chatbot_integration.Effects.{apply_effects}
use chatbot_integration.Ports.{queue_message}
use chatbot_integration.Ports.Store.{enqueue_job, find_by_turn_key}
use chatbot_integration.AiTurn.{
  Env, AiTurnJob, TurnWorld, TurnConversation, Moment, is_row, is_send, find_conversation,
  update_state, suggest_instead, enqueue_outbound,
}
use chatbot_integration.AiTurn.HandOff.{hand_off, commit_handoff, handoff_result}
use chatbot_integration.AiTurn.Process.{already_answered, answer, process_ai_turn}
use chatbot_integration.AiTurn.Steps.{update-finds, hand_off-IsWithPeople}

update-nothing : (j : AiTurnJob) (cs : List TurnConversation) → update_state j no_patch cs ≡ cs
unfolding update_state apply_patch
update-nothing j [] = refl
update-nothing j (c ∷ cs) = elim (Bool-cases (is_row j c)) [
  | inl e ↦ rw (e, update-nothing j cs) refl
  | inr e ↦ rw (e, update-nothing j cs) refl
]

module _ {K E : Type 0} (env : Env K E) (j : AiTurnJob)
    (quiet : (w : TurnWorld K) → env.others Moment.handoff_read w ≡ w) where
  handoff-nothing :
      (reason : HandoffReason) (note : String) (state : ConversationState) (w : TurnWorld K)
      → (is_human state.mode || is_waiting state.mode) ≡ true
      → handoff_result env j reason note state w ≡ nothing
  unfolding transition
  handoff-nothing reason note state w e = rw e refl

  commit-nothing : (w : TurnWorld K) → commit_handoff env j nothing w ≡ w
  unfolding commit_handoff apply_effects
  commit-nothing w = rw (update-nothing j w.conversations) refl

  hand_off-people :
      (reason : HandoffReason) (note : String) (w : TurnWorld K) (row : TurnConversation)
      → find_conversation j w.conversations ≡ some row
      → (is_human row.state.mode || is_waiting row.state.mode) ≡ true
      → hand_off env j reason note w ≡ w
  unfolding hand_off
  hand_off-people reason note w row found e =
      rw (found, hand_off, handoff-nothing reason note row.state w e, quiet w) (commit-nothing w)

  hand_off-gone :
      (reason : HandoffReason) (note : String) (w : TurnWorld K)
      → find_conversation j w.conversations ≡ none
      → hand_off env j reason note w ≡ w
  unfolding hand_off
  hand_off-gone reason note w e = rw (e, hand_off) refl

  -- A handoff that is asked for again, for whatever reason, as by an attempt after one that threw
  -- later, changes nothing, where no other request comes between its read and its transaction.
  pub hand_off_again :
      (reason reason' : HandoffReason) (note note' : String) (w : TurnWorld K)
      → hand_off env j reason' note' (hand_off env j reason note w) ≡ hand_off env j reason note w
  hand_off_again reason reason' note note' w =
      let w' = hand_off env j reason note w in
      elim (hand_off-IsWithPeople env j quiet reason note w) [
        | inl gone ↦ hand_off-gone reason' note' w' gone
        | inr (row, found, e) ↦ hand_off-people reason' note' w' row found e
      ]

module _ {K E : Type 0} (env : Env K E) (j : AiTurnJob) (key : String) where
  -- The thread, the handoffs, the tenant's systems and what is known of the customer are the same.
  abbrev pub IsSettled : TurnWorld K → TurnWorld K → Type 0
  IsSettled w r =
      (r.db.messages ≡ w.db.messages)
      × (r.db.handoffs ≡ w.db.handoffs)
      × (r.tool_calls ≡ w.tool_calls)
      × (r.known ≡ w.known)

  IsSettled-refl : (w : TurnWorld K) → IsSettled w w
  IsSettled-refl w = (refl, refl, refl, refl)

  suggest-IsSettled : (w : TurnWorld K) → IsSettled w (suggest_instead env j w)
  unfolding suggest_instead enqueue_job
  suggest-IsSettled w = (refl, refl, refl, refl)

  delivery-IsSettled :
      (id : String) (w : TurnWorld K)
      → IsSettled w (record w { db = enqueue_outbound env j id w.db })
  unfolding enqueue_outbound queue_message enqueue_job
  delivery-IsSettled id w = (refl, refl, refl, refl)

  answer-IsSettled :
      (w : TurnWorld K) (id : String)
      → is_truthy (some key) ≡ true
      → find_by_turn_key j.workspace_id key w.db.messages ≡ some id
      → IsSettled w (answer env j (some key) w)
  unfolding answer already_answered
  answer-IsSettled w id named found =
      Option-either (IsSettled w) (already_answered env j (some key) w) _ _
        (λ h. absurd (ground arith)) (λ i h. delivery-IsSettled i w)

  -- An attempt of a turn whose reply is stored already stores no message, records no handoff, and
  -- writes nothing to the tenant's systems or to what is known of the customer, whatever the
  -- model would have answered now, where no other request changed a thing as it began.
  pub answered_turn_rests :
      (w : TurnWorld K) (id : String)
      → is_truthy (some key) ≡ true
      → find_by_turn_key j.workspace_id key w.db.messages ≡ some id
      → env.others Moment.context_loaded w ≡ w
      → IsSettled w (process_ai_turn env j (some key) w)
  unfolding process_ai_turn
  answered_turn_rests w id named found still =
      Option-either (IsSettled w) (find_conversation j w.conversations) _ _ (λ h. IsSettled-refl w)
        (λ row h.
          if-either (IsSettled w) (not (env.is_complete && env.is_workable)) _ _
            (λ n. IsSettled-refl w)
            (λ n.
              if-either (IsSettled w) (is_send j.deliver && not (ai_may_send row.state.mode)) _ _
                (λ m. suggest-IsSettled w)
                (λ m.
                  subst (λ v. IsSettled w (answer env j (some key) v)) (sym still)
                    (answer-IsSettled w id named found))))

-- A handoff reads the conversation before its transaction, and writes what it decided then: a
-- conversation that a person takes over in between waits for a person afterwards, although
-- somebody is assigned to it.
pub handoff_over_take_over :
    {K E : Type 0} (env : Env K E) (j : AiTurnJob) (reason : HandoffReason) (note : String)
    (w : TurnWorld K) (row taken : TurnConversation)
    → find_conversation j w.conversations ≡ some row
    → (is_human row.state.mode || is_waiting row.state.mode) ≡ false
    → find_conversation j (env.others Moment.handoff_read w).conversations ≡ some taken
    → is_human taken.state.mode ≡ true
    → (after : TurnConversation) × (find_conversation j (hand_off env j reason note w).conversations
        ≡ some after)
      × (is_waiting after.state.mode ≡ true)
      × (after.state.assignee_user_id ≡ taken.state.assignee_user_id)
unfolding hand_off commit_handoff transition apply_patch
handoff_over_take_over env j reason note w row taken found free found' human =
    rw (found, hand_off)
      (
        _,
        update-finds j (handoff_result env j reason note row.state w).patch
            (env.others Moment.handoff_read w).conversations taken found',
        rw free refl,
        rw free refl,
      )
