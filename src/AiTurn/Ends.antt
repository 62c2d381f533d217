-- ===== src/AiTurn/Ends.antt =====
-- How a turn ends: apps/worker/src/processors/ai-turn.ts.
use chatbot_integration.Prelude.{
  ◌≡◌, refl, String, true, ◌&&◌, ◌++◌, ◌⊎◌, inl, inr, some, Bool-cases, if-either, Option-either,
  not, arith,
}
use chatbot_integration.Conversation.{HandoffReason, ai_may_send, is_truthy}
use chatbot_integration.Delivery.{SenderType}
use chatbot_integration.AiTurn.{
  outcome, Env, AiTurnJob, TurnWorld, TurnConversation, Moment, is_send, find_conversation,
  newer_turn_owed, suggest_instead, send_verification_link, store_and_send,
}
use chatbot_integration.Ports.Grows.{drawn-Grows}
use chatbot_integration.AiTurn.HandOff.{hand_off}
use chatbot_integration.AiTurn.Newer.{HasNewerTurn, newer_turn_owed-HasNewerTurn}
use chatbot_integration.AiTurn.Process.{
  Committed, taken_over, superseded, stored, under_lock, finish, send_link, stored_reply,
  still_ai_owned, send_reply, deliver_text, run_writes, allow_writes, conclude, check_again,
  record_trace, ask_model, already_answered, answer, process_ai_turn, is_empty,
}
use chatbot_integration.AiTurn.Steps.{
  IsAnswered, IsSuggested, IsAnswered-later, enqueue_outbound-answers, store_and_send-answers,
  send_verification_link-Grows, send_verification_link-conversations, store_and_send-Grows,
  suggest_instead-IsSuggested,
}
use chatbot_integration.AiTurn.Handed.{
  IsLookedAfter, IsAccounted, IsHandedFor-Grows, IsHandedFor-touched, hand_off-IsLookedAfter,
}

module _ {K E : Type 0} (env : Env K E) (j : AiTurnJob) (key : String) where
  -- Answered, looked after by people, suggested to people, or left to a newer turn.
  abbrev pub IsTold : TurnWorld K → Type 0
  IsTold w =
      IsAnswered env j key w.db
      ⊎ (IsLookedAfter env j w ⊎ (IsSuggested env j w.db ⊎ HasNewerTurn env.is_newer j w.db))

  newer-IsTold : (w : TurnWorld K) → newer_turn_owed env.is_newer j w.db ≡ true → IsTold w
  newer-IsTold w h = inr (inr (inr (newer_turn_owed-HasNewerTurn env.is_newer j w.db h)))

  suggest-IsTold : (w : TurnWorld K) → IsTold (suggest_instead env j w)
  suggest-IsTold w = inr (inr (inl (suggest_instead-IsSuggested env j w)))

  module _ (sends : is_send j.deliver ≡ true) (named : is_truthy (some key) ≡ true)
      (quiet : (w : TurnWorld K) → env.others Moment.handoff_read w ≡ w)
      (fair : (m : Moment) (w : TurnWorld K)
        → IsAccounted env j w
        → IsAccounted env j (env.others m w)) where
    hand_off-IsTold :
        (reason : HandoffReason) (note : String) (w : TurnWorld K)
        → IsAccounted env j w
        → IsTold (hand_off env j reason note w)
    hand_off-IsTold reason note w ok =
        inr (inl (hand_off-IsLookedAfter env j quiet reason note w ok))

    send_verification_link-IsAccounted :
        (w : TurnWorld K)
        → IsAccounted env j w
        → IsAccounted env j (send_verification_link env j w).0
    send_verification_link-IsAccounted w ok = rw (send_verification_link-conversations env j w) (
        IsHandedFor-Grows env j (find_conversation j w.conversations) w.db
          (send_verification_link env j w).0.db (send_verification_link-Grows env j w) ok)

    stored_reply-IsAccounted :
        (w : TurnWorld K)
        → IsAccounted env j w
        → IsAccounted env j (stored_reply env j (some key) w)
    stored_reply-IsAccounted w ok =
        let db' = store_and_send env j SenderType.ai (some key) env.result.text w.db in
        IsHandedFor-Grows env j _ w.db db'
          (store_and_send-Grows env j SenderType.ai (some key) env.result.text w.db)
          (IsHandedFor-touched env j env.now w.conversations w.db ok)

    send_link-IsTold :
        (w : TurnWorld K)
        → IsAccounted env j w
        → IsAnswered env j key w.db
        → IsTold (send_link env j (some key) w)
    unfolding send_link
    send_link-IsTold w ok h =
        let sent = send_verification_link env j w in
        let later =
          IsAnswered-later env j key w.db sent.0.db (send_verification_link-Grows env j w) h in
        elim (Bool-cases sent.1) [
          | inl e ↦ rw e (inl later)
          | inr e ↦ rw e (hand_off-IsTold _ _ sent.0 (send_verification_link-IsAccounted w ok))
        ]

    under_lock-newer :
        (w : TurnWorld K)
        → under_lock env j (some key) w ≡ superseded
        → newer_turn_owed env.is_newer j w.db ≡ true
    unfolding under_lock
    under_lock-newer w =
        let Newer =
          λ (c : Committed). c ≡ superseded → newer_turn_owed env.is_newer j w.db ≡ true in
        if-either Newer (is_send j.deliver) _ stored
          (λ s.
            Option-either Newer (find_conversation j w.conversations) taken_over _
              (λ f e. absurd cc)
              (λ row f.
                if-either Newer (not (ai_may_send row.state.mode)) taken_over _ (λ m e. absurd cc)
                  (λ m.
                    if-either Newer _ superseded stored (λ n e. ground arith) (λ n e. absurd cc))))
          (λ s e. absurd cc)

    finish-IsTold :
        (c : Committed) (w : TurnWorld K)
        → IsAccounted env j w
        → under_lock env j (some key) w ≡ c
        → IsTold (finish env j (some key) c w)
    unfolding finish
    finish-IsTold taken_over w ok e = suggest-IsTold w
    finish-IsTold superseded w ok e = newer-IsTold w (under_lock-newer w e)
    finish-IsTold stored w ok e =
        let answered = store_and_send-answers env j key env.result.text w.db named in
        if-either IsTold env.result.verification_requested _ _
          (λ v.
            send_link-IsTold (stored_reply env j (some key) w) (stored_reply-IsAccounted w ok)
              answered)
          (λ v. inl answered)

    send_reply-IsTold :
        (w : TurnWorld K) → IsAccounted env j w → IsTold (send_reply env j (some key) w)
    unfolding send_reply
    send_reply-IsTold w ok =
        let locked = env.others Moment.checked_last w in
        if-either IsTold (not (still_ai_owned env j (some key) w)) _ _ (λ h. suggest-IsTold w)
          (λ h.
            finish-IsTold (under_lock env j (some key) locked) locked
              (fair Moment.checked_last w ok) refl)

    deliver_text-IsTold :
        (w : TurnWorld K) → IsAccounted env j w → IsTold (deliver_text env j (some key) w)
    unfolding deliver_text
    deliver_text-IsTold w ok =
        if-either IsTold (not (is_truthy (some env.result.text))) _ _
          (λ h.
            if-either IsTold (is_send j.deliver) _ _ (λ s. hand_off-IsTold _ _ w ok)
              (λ s. absurd (ground arith)))
          (λ h.
            if-either IsTold (is_send j.deliver) _ _ (λ s. send_reply-IsTold w ok)
              (λ s. absurd (ground arith)))

    run_writes-IsTold :
        (w : TurnWorld K) → IsAccounted env j w → IsTold (run_writes env j (some key) w)
    unfolding run_writes
    run_writes-IsTold w ok =
        let wrote = record w { tool_calls = w.tool_calls ++ (outcome env).succeeded } in
        Option-either IsTold (outcome env).failed _ _
          (λ h.
            deliver_text-IsTold (env.others Moment.writes_done wrote)
              (fair Moment.writes_done wrote ok))
          (λ failed h. hand_off-IsTold _ _ wrote ok)

    allow_writes-IsTold :
        (w : TurnWorld K) → IsAccounted env j w → IsTold (allow_writes env j (some key) w)
    unfolding allow_writes
    allow_writes-IsTold w ok =
        if-either IsTold (is_empty env.result.pending_writes) _ _ (λ h. deliver_text-IsTold w ok)
          (λ h.
            if-either IsTold (not (still_ai_owned env j (some key) w)) _ _ (λ m. suggest-IsTold w)
              (λ m.
                run_writes-IsTold (env.others Moment.writes_allowed w)
                  (fair Moment.writes_allowed w ok)))

    conclude-IsTold : (w : TurnWorld K) → IsAccounted env j w → IsTold (conclude env j (some key) w)
    unfolding conclude
    conclude-IsTold w ok =
        Option-either IsTold env.result.handoff _ _ (λ h. allow_writes-IsTold w ok)
          (λ asked h. hand_off-IsTold _ _ w ok)

    check_again-IsTold :
        (w : TurnWorld K) → IsAccounted env j w → IsTold (check_again env j (some key) w)
    unfolding check_again
    check_again-IsTold w ok =
        let again = env.others Moment.checked_again w in
        let ok' = fair Moment.checked_again w ok in
        let ruled_out = env.others Moment.newer_ruled_out again in
        let learnt = record ruled_out { known = env.learn ruled_out.known } in
        if-either IsTold (not (still_ai_owned env j (some key) w)) _ _ (λ h. suggest-IsTold w)
          (λ h.
            if-either IsTold (newer_turn_owed env.is_newer j (env.others Moment.checked_again w).db)
              _ _ (λ n. newer-IsTold again n)
              (λ n.
                conclude-IsTold (env.others Moment.learnt learnt)
                  (fair Moment.learnt learnt (fair Moment.newer_ruled_out again ok'))))

    ask_model-IsTold :
        (w : TurnWorld K) → IsAccounted env j w → IsTold (ask_model env j (some key) w)
    unfolding ask_model
    ask_model-IsTold w ok =
        let traced = record_trace env j (some key) w in
        if-either IsTold env.has_chat_slot _ _
          (λ h. check_again-IsTold (env.others Moment.model_answered traced) (
            fair Moment.model_answered traced (
              IsHandedFor-Grows env j (find_conversation j w.conversations) w.db traced.db
                (drawn-Grows w.db) ok)))
          (λ h. hand_off-IsTold _ _ w ok)

    answer-IsTold : (w : TurnWorld K) → IsAccounted env j w → IsTold (answer env j (some key) w)
    unfolding answer already_answered
    answer-IsTold w ok =
        let looked_up = env.others Moment.key_looked_up w in
        Option-either IsTold (already_answered env j (some key) w) _ _
          (λ h.
            if-either IsTold (newer_turn_owed env.is_newer j looked_up.db) _ _
              (λ n. newer-IsTold looked_up n)
              (λ n.
                ask_model-IsTold (env.others Moment.configured looked_up)
                  (fair Moment.configured looked_up (fair Moment.key_looked_up w ok))))
          (λ id h. inl (enqueue_outbound-answers env j key id w.db (ground arith)))

    -- Whatever the model answers, whatever the tenant's tools do, and whatever other requests do
    -- between the steps, except between the two of a handoff, as long as they too leave the
    -- conversation waiting only after a handoff that is recorded and told, a turn that is to
    -- send, whose job has an id, in a workspace that is active and a conversation whose rows are
    -- all there, does not end in silence: the reply of this turn is stored and a job to deliver
    -- that very message waits to be relayed; or the conversation is gone, or a person has it, or
    -- it waits for one and the handoff is recorded, the customer told, where the workspace has a
    -- text for that, by a message that is stored and waits to be delivered, and a push to the
    -- agents asked for, where there are keys for it; or a job to suggest a reply to the turn's
    -- message waits to be relayed; or a later message of the customer has a turn that nobody took
    -- back.
    pub never_silent :
        (w : TurnWorld K) (row : TurnConversation)
        → find_conversation j w.conversations ≡ some row
        → (env.is_complete && env.is_workable) ≡ true
        → IsAccounted env j w
        → IsTold (process_ai_turn env j (some key) w)
    unfolding process_ai_turn
    never_silent w row found fine ok =
        Option-either IsTold (find_conversation j w.conversations) _ _ (λ h. absurd (ground arith))
          (λ there h.
            if-either IsTold (not (env.is_complete && env.is_workable)) _ _
              (λ n. absurd (ground arith))
              (λ n.
                if-either IsTold (is_send j.deliver && not (ai_may_send there.state.mode)) _ _
                  (λ m. suggest-IsTold w)
                  (λ m.
                    answer-IsTold (env.others Moment.context_loaded w)
                      (fair Moment.context_loaded w ok))))
