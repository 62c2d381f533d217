-- ===== src/AiTurn/Earned.antt =====
-- A reply that is stored was earned: apps/worker/src/processors/ai-turn.ts.
use chatbot_integration.Prelude.{
  Bool, [], ◌∷◌, ◌≡◌, refl, subst, ◌∙◌, String, true, ◌&&◌, inl, inr, Option, none, some, List,
  if-either, Option-either, arith, not,
}
use chatbot_integration.Conversation.{HandoffReason, ai_may_send, is_truthy}
use chatbot_integration.Ports.Store.{StoredMessage}
use chatbot_integration.AiTurn.{
  outcome, Env, AiTurnJob, TurnWorld, TurnConversation, Moment, is_send, find_conversation,
  newer_turn_owed, suggest_instead,
}
use chatbot_integration.AiTurn.Writes.{PendingWrite, tools_of, run_pending_writes, none_failed}
use chatbot_integration.AiTurn.HandOff.{hand_off}
use chatbot_integration.AiTurn.Process.{
  Committed, taken_over, superseded, stored, under_lock, finish, still_ai_owned, send_reply,
  deliver_text, run_writes, allow_writes, conclude, check_again, ask_model, already_answered,
  answer, process_ai_turn, is_empty,
}
use chatbot_integration.AiTurn.Replies.{
  replies, hand_off-replies, suggest-replies, delivery-replies,
}
use chatbot_integration.AiTurn.Withheld.{HasAtMost, IsAllowed, IsEarned, finish-HasAtMost}

none_asked :
    (is_defined : String → Bool) (execute : PendingWrite → Option String)
    (writes : List PendingWrite)
    → is_empty writes ≡ true
    → (run_pending_writes is_defined execute writes).succeeded ≡ tools_of writes
unfolding run_pending_writes
none_asked is_defined execute [] h = refl
none_asked is_defined execute (write ∷ writes) h = cc

module _ {K E : Type 0} (env : Env K E) (j : AiTurnJob) (key : Option String)
    (calm : (m : Moment) (w : TurnWorld K) → replies (env.others m w).db ≡ replies w.db)
    (sends : is_send j.deliver ≡ true) (base : List StoredMessage) where
  abbrev Earned : TurnWorld K → Type 0
  Earned r = IsEarned env j key calm base r

  abbrev WritesDone : Type 0
  WritesDone = (outcome env).succeeded ≡ tools_of env.result.pending_writes

  hand_off-Earned :
      (reason : HandoffReason) (note : String) (w : TurnWorld K)
      → replies w.db ≡ base
      → Earned (hand_off env j reason note w)
  hand_off-Earned reason note w h = inl (hand_off-replies env j calm reason note w ∙ h)

  suggest-Earned : (w : TurnWorld K) → replies w.db ≡ base → Earned (suggest_instead env j w)
  suggest-Earned w h = inl (suggest-replies env j calm w ∙ h)

  under_lock-sends :
      (w : TurnWorld K)
      → under_lock env j key w ≡ stored
      → (row : TurnConversation) × (find_conversation j w.conversations ≡ some row)
        × (ai_may_send row.state.mode ≡ true)
  unfolding under_lock
  under_lock-sends w =
      let Sends = λ (c : Committed).
        c ≡ stored
        → (row : TurnConversation) × (find_conversation j w.conversations ≡ some row)
          × (ai_may_send row.state.mode ≡ true) in
      if-either Sends (is_send j.deliver) _ stored
        (λ s.
          Option-either Sends (find_conversation j w.conversations) taken_over _ (λ f e. absurd cc)
            (λ row f.
              if-either Sends (not (ai_may_send row.state.mode)) taken_over _ (λ m e. absurd cc)
                (λ m.
                  if-either Sends _ superseded stored (λ n e. absurd cc)
                    (λ n e. (row, f, ground arith)))))
        (λ s e. absurd (ground arith))

  finish-Earned :
      (c : Committed) (w : TurnWorld K)
      → under_lock env j key w ≡ c
      → IsAllowed env j key calm
      → replies w.db ≡ base
      → Earned (finish env j key c w)
  unfolding finish
  finish-Earned taken_over w e ok h = suggest-Earned w h
  finish-Earned superseded w e ok h = inl h
  finish-Earned stored w e ok h =
      let (row, found, may) = under_lock-sends w e in
      inr (
        subst (λ b. HasAtMost env j key calm b (finish env j key stored w).db) h
            (finish-HasAtMost env j key calm w),
        (w, row, found, may, refl),
        ok,
      )

  send_reply-Earned :
      (w : TurnWorld K)
      → IsAllowed env j key calm
      → replies w.db ≡ base
      → Earned (send_reply env j key w)
  unfolding send_reply
  send_reply-Earned w ok h =
      let locked = env.others Moment.checked_last w in
      if-either Earned (not (still_ai_owned env j key w)) _ _ (λ e. suggest-Earned w h)
        (λ e.
          finish-Earned (under_lock env j key locked) locked refl ok
            (calm Moment.checked_last w ∙ h))

  deliver_text-Earned :
      (w : TurnWorld K)
      → env.result.handoff ≡ none
      → WritesDone
      → replies w.db ≡ base
      → Earned (deliver_text env j key w)
  unfolding deliver_text
  deliver_text-Earned w asked done h =
      if-either Earned (not (is_truthy (some env.result.text))) _ _
        (λ e. if-either Earned (is_send j.deliver) _ _ (λ s. hand_off-Earned _ _ w h) (λ s. inl h))
        (λ e.
          if-either Earned (is_send j.deliver) _ _
            (λ s. send_reply-Earned w (asked, ground arith, done) h) (λ s. absurd (ground arith)))

  run_writes-Earned :
      (w : TurnWorld K)
      → env.result.handoff ≡ none
      → replies w.db ≡ base
      → Earned (run_writes env j key w)
  unfolding run_writes
  run_writes-Earned w asked h =
      Option-either Earned (outcome env).failed _ _
        (λ e.
          deliver_text-Earned _ asked
            (none_failed env.is_defined env.execute env.result.pending_writes e)
            (calm Moment.writes_done _ ∙ h))
        (λ failed e. hand_off-Earned _ _ _ h)

  allow_writes-Earned :
      (w : TurnWorld K)
      → env.result.handoff ≡ none
      → replies w.db ≡ base
      → Earned (allow_writes env j key w)
  unfolding allow_writes
  allow_writes-Earned w asked h =
      if-either Earned (is_empty env.result.pending_writes) _ _
        (λ e.
          deliver_text-Earned w asked
            (none_asked env.is_defined env.execute env.result.pending_writes e) h)
        (λ e.
          if-either Earned (not (still_ai_owned env j key w)) _ _ (λ m. suggest-Earned w h)
            (λ m. run_writes-Earned _ asked (calm Moment.writes_allowed w ∙ h)))

  conclude-Earned : (w : TurnWorld K) → replies w.db ≡ base → Earned (conclude env j key w)
  unfolding conclude
  conclude-Earned w h =
      Option-either Earned env.result.handoff _ _ (λ e. allow_writes-Earned w e h)
        (λ asked e. hand_off-Earned _ _ w h)

  check_again-Earned : (w : TurnWorld K) → replies w.db ≡ base → Earned (check_again env j key w)
  unfolding check_again
  check_again-Earned w h =
      let again = env.others Moment.checked_again w in
      let same : replies again.db ≡ base = calm Moment.checked_again w ∙ h in
      if-either Earned (not (still_ai_owned env j key w)) _ _ (λ e. suggest-Earned w h)
        (λ e.
          if-either Earned (newer_turn_owed env.is_newer j again.db) _ _ (λ n. inl same)
            (λ n.
              conclude-Earned _ (calm Moment.learnt _ ∙ calm Moment.newer_ruled_out again ∙ same)))

  ask_model-Earned : (w : TurnWorld K) → replies w.db ≡ base → Earned (ask_model env j key w)
  unfolding ask_model
  ask_model-Earned w h =
      if-either Earned env.has_chat_slot _ _
        (λ e. check_again-Earned _ (calm Moment.model_answered _ ∙ h))
        (λ e. hand_off-Earned _ _ w h)

  answer-Earned : (w : TurnWorld K) → replies w.db ≡ base → Earned (answer env j key w)
  unfolding answer
  answer-Earned w h =
      let looked_up = env.others Moment.key_looked_up w in
      let same : replies looked_up.db ≡ base = calm Moment.key_looked_up w ∙ h in
      Option-either Earned (already_answered env j key w) _ _
        (λ e.
          if-either Earned (newer_turn_owed env.is_newer j looked_up.db) _ _ (λ n. inl same)
            (λ n. ask_model-Earned _ (calm Moment.configured looked_up ∙ same)))
        (λ id e. inl (delivery-replies env j calm id w.db ∙ h))

  process-Earned : (w : TurnWorld K) → replies w.db ≡ base → Earned (process_ai_turn env j key w)
  unfolding process_ai_turn
  process-Earned w h =
      Option-either Earned (find_conversation j w.conversations) _ _ (λ e. inl h)
        (λ row e.
          if-either Earned (not (env.is_complete && env.is_workable)) _ _ (λ n. inl h)
            (λ n.
              if-either Earned (is_send j.deliver && not (ai_may_send row.state.mode)) _ _
                (λ m. suggest-Earned w h)
                (λ m. answer-Earned _ (calm Moment.context_loaded w ∙ h))))

-- Where other requests store no reply of the AI, a turn that is to send stores none either, or at
-- most one, with the text that the model wrote, and then only if the model asked for no handoff
-- and wrote something, if every write that it asked for was carried out, and if the AI might send
-- in the conversation as it was when its row was locked.
pub process_ai_turn-IsEarned :
    {K E : Type 0} (env : Env K E) (j : AiTurnJob) (key : Option String)
    (calm : (m : Moment) (w : TurnWorld K) → replies (env.others m w).db ≡ replies w.db)
    → is_send j.deliver ≡ true
    → (w : TurnWorld K) → IsEarned env j key calm (replies w.db) (process_ai_turn env j key w)
process_ai_turn-IsEarned env j key calm sends w =
    process-Earned env j key calm sends (replies w.db) w refl
