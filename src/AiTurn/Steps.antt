-- ===== src/AiTurn/Steps.antt =====
-- What the steps of a turn leave: apps/worker/src/processors/ai-turn.ts.
use Prim.Native.String
use mathlib.Core.List.{append-nil}
use chatbot_integration.Prelude.{
  ℕ, ◌≡◌, refl, sym, String, true, ◌||◌, ◌⊎◌, inl, inr, Option, none, some, List, [], ◌∷◌, ◌++◌,
  any, arith, Bool-cases, Option-cases,
}
use chatbot_integration.Conversation.{
  HandoffReason, ConversationState, Effect, Patch, apply_patch, is_human, is_waiting, is_truthy,
  transition,
}
use chatbot_integration.Effects.{EffectContext, Logger, apply_effects}
use chatbot_integration.Delivery.{SenderType}
use chatbot_integration.Ports.{Reads, job, queue_message}
use chatbot_integration.Ports.Jobs.{present, outbound_job_id}
use chatbot_integration.Ports.Store.{
  Database, store_message, find_by_turn_key, conflicts, enqueue_job, JobPayload,
}
use chatbot_integration.Ports.Promised.{
  IsPromised, IsPromised-Grows, enqueue-IsPromised, enqueue-asked,
}
use chatbot_integration.Ports.Keys.{find-append, find-last, conflicts-find}
use chatbot_integration.Ports.Grows.{
  drawn, from_drawn-Grows, Grows, Grows-trans, NoNews-Grows, NoNews-refl, enqueue-Grows,
}
use chatbot_integration.Ports.Step.{after, apply-Grows}
use chatbot_integration.Ports.Again.{run, run-cons}
use chatbot_integration.AiTurn.{
  Env, AiTurnJob, TurnWorld, TurnConversation, Moment, is_row, find_conversation, update_state,
  suggest_instead, suggestion_id, job_context, store_and_send, enqueue_outbound, outbound_text,
  send_verification_link,
}
use chatbot_integration.AiTurn.HandOff.{hand_off, commit_handoff, handoff_result}

pub run-Grows :
    {E : Type 0} (id_text : ℕ → String) (reads : Reads) (now : ℕ) (logger : Logger Database E)
    (ctx : EffectContext) (xs : List Effect) (db : Database)
    → Grows db (run id_text reads now logger ctx xs db).0
unfolding apply_effects
run-Grows id_text reads now logger ctx [] db = NoNews-Grows db db (NoNews-refl db)
run-Grows id_text reads now logger ctx (x ∷ xs) db =
    let db' = after id_text reads now logger ctx x db in
    rw (run-cons id_text reads now logger ctx x xs db) (
      Grows-trans db db' _ (apply-Grows id_text reads now logger ctx x db)
        (run-Grows id_text reads now logger ctx xs db'))

-- Whether people have the conversation, or it is gone.
abbrev pub IsWithPeople : {K : Type 0} → AiTurnJob → TurnWorld K → Type 0
IsWithPeople j w =
    (find_conversation j w.conversations ≡ none)
    ⊎ ((row : TurnConversation) × (find_conversation j w.conversations ≡ some row)
        × ((is_human row.state.mode || is_waiting row.state.mode) ≡ true))

pub update-finds :
    (j : AiTurnJob) (patch : Patch) (cs : List TurnConversation) (row : TurnConversation)
    → find_conversation j cs ≡ some row
    → find_conversation j (update_state j patch cs)
      ≡ some (record row { state = apply_patch row.state patch })
unfolding find_conversation update_state
update-finds j patch [] row h = cc
update-finds j patch (c ∷ cs) row h = elim (Bool-cases (is_row j c)) [
  | inl e ↦ rw e (ground arith)
  | inr e ↦ rw (e, e) (update-finds j patch cs row (ground arith))
]

module _ {K E : Type 0} (env : Env K E) (j : AiTurnJob) where
  pub handoff-people :
      (reason : HandoffReason) (note : String) (state : ConversationState) (w : TurnWorld K)
      → let mode = (apply_patch state (handoff_result env j reason note state w).patch).mode in
        (is_human mode || is_waiting mode) ≡ true
  unfolding transition apply_patch
  handoff-people reason note state w =
      elim (Bool-cases (is_human state.mode || is_waiting state.mode)) [
        | inl e ↦ rw e e
        | inr e ↦ rw e refl
      ]

  -- What a key names is stored, and a job to deliver it waits to be relayed.
  abbrev pub IsAnswered : (key : String) → Database → Type 0
  IsAnswered key db =
      (id : String) × (find_by_turn_key j.workspace_id key db.messages ≡ some id)
      × IsPromised "outbound" (outbound_job_id id)
          (JobPayload.outbound j.workspace_id j.conversation_id id) db.rows

  pub IsAnswered-later :
      (key : String) (db db' : Database) → Grows db db' → IsAnswered key db → IsAnswered key db'
  IsAnswered-later key db db' g (id, found, there) = (
    id,
    rw g.messages.1 (find-append j.workspace_id key id db.messages g.messages.0 found),
    IsPromised-Grows "outbound" (outbound_job_id id) _ db db' refl g there,
  )

  pub enqueue_outbound-answers :
      (key id : String) (db : Database)
      → find_by_turn_key j.workspace_id key db.messages ≡ some id
      → IsAnswered key (enqueue_outbound env j id db)
  unfolding enqueue_outbound enqueue_job queue_message
  enqueue_outbound-answers key id db found = (
    id,
    found,
    enqueue-IsPromised env.id_text
        (job env.id_text env.reads env.now (job_context j) "outbound" "send"
          (JobPayload.outbound j.workspace_id j.conversation_id id) (some (outbound_job_id id)))
        (outbound_job_id id) db refl,
  )

  enqueue_outbound-Grows : (id : String) (db : Database) → Grows db (enqueue_outbound env j id db)
  unfolding enqueue_outbound queue_message
  enqueue_outbound-Grows id db = enqueue-Grows env.id_text _ db

  pub store_and_send-answers :
      (key text : String) (db : Database)
      → is_truthy (some key) ≡ true
      → IsAnswered key (store_and_send env j SenderType.ai (some key) text db)
  unfolding store_and_send store_message
  store_and_send-answers key text db h =
      let m = outbound_text env j SenderType.ai (some key) text (env.id_text db.next_id) in
      elim (Bool-cases (any (conflicts m) db.messages)) [
        | inl e ↦
            let (id, found) = conflicts-find m key db.messages refl refl e in
            rw (e, h, found) (enqueue_outbound-answers key id (drawn db) found)
        | inr e ↦ rw e (
            enqueue_outbound-answers key (env.id_text db.next_id)
              (record (drawn db) { messages = db.messages ++ m ∷ [] })
              (find-last m key db.messages refl e))
      ]

  pub store_and_send-Grows :
      (sender : SenderType) (key : Option String) (text : String) (db : Database)
      → Grows db (store_and_send env j sender key text db)
  unfolding store_and_send store_message
  store_and_send-Grows sender key text db =
      let m = outbound_text env j sender key text (env.id_text db.next_id) in
      elim (Bool-cases (any (conflicts m) db.messages)) [
        | inl e ↦ rw e (from_drawn-Grows db _ (enqueue_outbound-Grows _ (drawn db)))
        | inr e ↦
            let stored = record (drawn db) { messages = db.messages ++ m ∷ [] } in
            rw e (
              Grows-trans db stored _
                (record {
                  messages = (m ∷ [], refl);
                  handoffs = ([], sym (append-nil db.handoffs));
                  jobs = λ queue job_id h. h;
                  kept = λ r other m. m;
                })
                (enqueue_outbound-Grows (env.id_text db.next_id) stored))
      ]

  pub send_verification_link-conversations :
      (w : TurnWorld K) → (send_verification_link env j w).0.conversations ≡ w.conversations
  unfolding send_verification_link
  send_verification_link-conversations w =
      elim (Option-cases (find_conversation j w.conversations)) [
        | inl e ↦ rw (e, send_verification_link) refl
        | inr (row, e) ↦ elim (Option-cases env.link_text) [
          | inl f ↦ rw (e, send_verification_link, f) refl
          | inr (text, f) ↦ rw (e, send_verification_link, f) refl
        ]
      ]

  pub send_verification_link-Grows :
      (w : TurnWorld K) → Grows w.db (send_verification_link env j w).0.db
  unfolding send_verification_link
  send_verification_link-Grows w = elim (Option-cases (find_conversation j w.conversations)) [
    | inl e ↦ rw (e, send_verification_link) (NoNews-Grows w.db w.db (NoNews-refl w.db))
    | inr (row, e) ↦ elim (Option-cases env.link_text) [
      | inl f ↦ rw (e, send_verification_link, f) (NoNews-Grows w.db w.db (NoNews-refl w.db))
      | inr (text, f) ↦
          rw (e, send_verification_link, f) (store_and_send-Grows SenderType.system none text w.db)
    ]
  ]

  abbrev IsSuggestedFor : (trigger : Option String) → Database → Type 0
  IsSuggestedFor none db =
      (id : String) × IsPromised "suggestion" id
        (JobPayload.suggestion j.workspace_id j.conversation_id none) db.rows
  IsSuggestedFor (some trigger) db =
      IsPromised "suggestion" (String.◌++◌ "suggestion-" trigger)
        (JobPayload.suggestion j.workspace_id j.conversation_id (some trigger)) db.rows

  -- The job for a suggestion to the message that the turn answers waits to be relayed.
  abbrev pub IsSuggested : Database → Type 0
  IsSuggested db = IsSuggestedFor (present j.trigger_message_id) db

  suggested :
      (trigger : Option String) (db : Database)
      → IsSuggestedFor trigger (
          enqueue_job env.id_text
            (job env.id_text env.reads env.now
              (job_context j)
              "suggestion"
              "run"
              (JobPayload.suggestion j.workspace_id j.conversation_id trigger)
              (suggestion_id trigger))
            db)
  suggested none db = (
    _,
    enqueue-asked env.id_text
        (job env.id_text env.reads env.now (job_context j) "suggestion" "run"
          (JobPayload.suggestion j.workspace_id j.conversation_id none) none)
        db,
  )
  suggested (some trigger) db =
      enqueue-asked env.id_text
        (job env.id_text env.reads env.now (job_context j) "suggestion" "run"
          (JobPayload.suggestion j.workspace_id j.conversation_id (some trigger))
          (suggestion_id (some trigger)))
        db

  pub suggest_instead-IsSuggested : (w : TurnWorld K) → IsSuggested (suggest_instead env j w).db
  unfolding suggest_instead
  suggest_instead-IsSuggested w = suggested (present j.trigger_message_id) w.db

  module _ (quiet : (w : TurnWorld K) → env.others Moment.handoff_read w ≡ w) where
    pub hand_off-Grows :
        (reason : HandoffReason) (note : String) (w : TurnWorld K)
        → Grows w.db (hand_off env j reason note w).db
    unfolding hand_off commit_handoff
    hand_off-Grows reason note w = elim (Option-cases (find_conversation j w.conversations)) [
      | inl e ↦ rw (e, hand_off) (NoNews-Grows w.db w.db (NoNews-refl w.db))
      | inr (row, e) ↦
          rw (e, hand_off, quiet w) (run-Grows env.id_text env.reads env.now env.logger _ _ w.db)
    ]

    pub hand_off-IsWithPeople :
        (reason : HandoffReason) (note : String) (w : TurnWorld K)
        → IsWithPeople j (hand_off env j reason note w)
    unfolding hand_off commit_handoff
    hand_off-IsWithPeople reason note w =
        elim (Option-cases (find_conversation j w.conversations)) [
          | inl e ↦ rw (e, hand_off) (inl e)
          | inr (row, e) ↦
              rw (e, hand_off, quiet w)
                (inr (
                  _,
                  update-finds j (handoff_result env j reason note row.state w).patch
                      w.conversations row e,
                  handoff-people reason note row.state w,
                ))
        ]
