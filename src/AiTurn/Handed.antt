-- ===== src/AiTurn/Handed.antt =====
-- What a handoff of apps/worker/src/processors/ai-turn.ts owes, and that it is there.
use chatbot_integration.Prelude.{
  ℕ, ◌≡◌, refl, subst, String, true, false, ◌&&◌, Option, none, some, List, [], ◌∷◌, any, all, ◌⊎◌,
  inl, inr, Bool-cases, Option-cases, str_eq, ◌==◌, arith, map, if◌then◌else◌,
}
use chatbot_integration.Conversation.{
  HandoffReason, Language, NotifyReason, AcknowledgementKind, ConversationState, Effect, is_human,
  is_waiting, transition, apply_patch, record_handoff, send_acknowledgement, notify_agents,
  add_internal_note, schedule,
}
use chatbot_integration.Effects.{EffectContext, apply_effects}
use chatbot_integration.Ports.Jobs.{push_job_id}
use chatbot_integration.Ports.Store.{Database}
use chatbot_integration.Ports.Grows.{Grows, has_job}
use chatbot_integration.Ports.Ack.{Told}
use chatbot_integration.Ports.Step.{Done, Done-Grows, is_named}
use chatbot_integration.Ports.Again.{run, run-Done}
use chatbot_integration.AiTurn.{
  Env, AiTurnJob, TurnWorld, TurnConversation, Moment, find_conversation, is_row,
}
use chatbot_integration.AiTurn.HandOff.{hand_off, commit_handoff, handoff_result}
use chatbot_integration.AiTurn.Steps.{update-finds}

module _ {K E : Type 0} (env : Env K E) (j : AiTurnJob) where
  -- The context of a handoff's effects.
  abbrev pub handoff_context : EffectContext
  handoff_context = record {
    workspace_id = j.workspace_id;
    conversation_id = j.conversation_id;
    trigger_message_id = none;
    turn_key = none;
  }

  -- For some instant, the handoff is recorded, the customer is told of it where the workspace has
  -- a text for that, and a push to the agents is promised where there are keys for it.
  unfoldable pub IsHanded : Database → Type 0
  IsHanded db =
      (at : ℕ) × (language : Option Language) × (any
          (λ h. str_eq j.conversation_id h.conversation_id && (at == h.occurred_at)) db.handoffs
        ≡ true)
      × Told env.id_text env.reads env.now handoff_context
          (record { kind = AcknowledgementKind.handoff; language = language; at = at }) db
      × ((env.reads.vapid_keys ≡ false)
          ⊎ (has_job "push" (push_job_id handoff_context NotifyReason.handoff at) db.rows ≡ true))

  unfoldable pub IsHandedFor : Option TurnConversation → Database → Type 0
  IsHandedFor none db = Unit
  IsHandedFor (some row) db = (is_waiting row.state.mode ≡ false) ⊎ IsHanded db

  -- If the conversation waits for a person, then the handoff is recorded and told.
  abbrev pub IsAccounted : TurnWorld K → Type 0
  IsAccounted w = IsHandedFor (find_conversation j w.conversations) w.db

  -- Whether the conversation is gone, or a person has it, or it waits for one after a handoff that
  -- is recorded and told.
  unfoldable pub IsLookedAfter : TurnWorld K → Type 0
  IsLookedAfter w =
      (find_conversation j w.conversations ≡ none)
      ⊎ ((row : TurnConversation) × (find_conversation j w.conversations ≡ some row)
          × ((is_human row.state.mode ≡ true)
              ⊎ ((is_waiting row.state.mode ≡ true) × IsHanded w.db)))

  IsHanded-Done :
      (reason : HandoffReason) (at : ℕ) (language : Option Language) (db : Database)
      → Done env.id_text env.reads env.now env.logger handoff_context (record_handoff reason at) db
      → Done env.id_text env.reads env.now env.logger handoff_context
          (send_acknowledgement AcknowledgementKind.handoff language at)
          db
      → Done env.id_text env.reads env.now env.logger handoff_context
          (notify_agents NotifyReason.handoff at)
          db
      → IsHanded db
  unfolding Done IsHanded
  IsHanded-Done reason at language db a b c = (at, language, a, b, c)

  Done-IsHanded :
      (db : Database)
      → IsHanded db
      → (at : ℕ) × (language : Option Language) × Done env.id_text env.reads env.now env.logger
          handoff_context
          (record_handoff HandoffReason.ai_requested at)
          db
        × Done env.id_text env.reads env.now env.logger handoff_context
            (send_acknowledgement AcknowledgementKind.handoff language at)
            db
        × Done env.id_text env.reads env.now env.logger handoff_context
            (notify_agents NotifyReason.handoff at)
            db
  unfolding Done IsHanded
  Done-IsHanded db h = h

  pub IsHanded-Grows : (db db' : Database) → Grows db db' → IsHanded db → IsHanded db'
  IsHanded-Grows db db' g h =
      let (at, language, a, b, c) = Done-IsHanded db h in
      IsHanded-Done HandoffReason.ai_requested at language db'
        (still (record_handoff HandoffReason.ai_requested at) a)
        (still (send_acknowledgement AcknowledgementKind.handoff language at) b)
        (still (notify_agents NotifyReason.handoff at) c)
    where
      still :
          (x : Effect)
          → Done env.id_text env.reads env.now env.logger handoff_context x db
          → Done env.id_text env.reads env.now env.logger handoff_context x db'
      still x = Done-Grows env.id_text env.reads env.now env.logger handoff_context x db db' g

  abbrev owed :
      (reason : HandoffReason) (at : ℕ) (language : Option Language) (body : String)
      (minutes : Option ℕ)
      → List Effect
  owed reason at language body minutes =
      record_handoff reason at
      ∷ send_acknowledgement AcknowledgementKind.handoff language at
      ∷ add_internal_note body
      ∷ notify_agents NotifyReason.handoff at
      ∷ schedule minutes

  all_named :
      (reason : HandoffReason) (at : ℕ) (language : Option Language) (body : String)
      (minutes : Option ℕ)
      → all
          (is_named env.id_text env.reads env.now env.logger handoff_context)
          (owed reason at language body minutes)
        ≡ true
  all_named reason at language body none = refl
  all_named reason at language body (some minutes) = refl

  carried_out :
      (reason : HandoffReason) (at : ℕ) (language : Option Language) (body : String)
      (minutes : Option ℕ) (db : Database)
      → IsHanded
          (run env.id_text env.reads env.now env.logger handoff_context
            (owed reason at language body minutes)
            db).0
  carried_out reason at language body minutes db =
      let (recorded, (told, (noted, (notified, rest)))) =
        run-Done env.id_text env.reads env.now env.logger handoff_context
          (owed reason at language body minutes) db (all_named reason at language body minutes) in
      IsHanded-Done reason at language _ recorded told notified

  -- The handoff is carried out, or the conversation was with people before.
  handed :
      (reason : HandoffReason) (note : String) (state : ConversationState) (w : TurnWorld K)
      → (is_waiting state.mode ≡ false) ⊎ IsHanded w.db
      → let result = handoff_result env j reason note state w in
        let mode = (apply_patch state result.patch).mode in
        (is_human mode ≡ true)
        ⊎ ((is_waiting mode ≡ true)
            × IsHanded
                (run env.id_text env.reads env.now env.logger handoff_context result.effects
                  w.db).0)
  unfolding transition apply_patch apply_effects
  handed reason note state w ok = elim (Bool-cases (is_human state.mode)) [
    | inl h ↦ rw h (inl h)
    | inr h ↦ elim (Bool-cases (is_waiting state.mode)) [
      | inl k ↦ elim ok [ inl off ↦ absurd (ground arith) | inr there ↦ rw (h, k) (inr (k, there)) ]
      | inr k ↦ rw (h, k) (inr (refl, carried_out _ _ _ _ _ w.db))
    ]
  ]

  -- Where the rows of the conversation stay and the database grows, the handoff stays told.
  pub IsHandedFor-Grows :
      (o : Option TurnConversation) (db db' : Database)
      → Grows db db'
      → IsHandedFor o db
      → IsHandedFor o db'
  unfolding IsHandedFor
  IsHandedFor-Grows none db db' g h = tt
  IsHandedFor-Grows (some row) db db' g (inl h) = inl h
  IsHandedFor-Grows (some row) db db' g (inr h) = inr (IsHanded-Grows db db' g h)

  -- A row that is touched keeps its mode.
  pub IsHandedFor-touched :
      (at : ℕ) (cs : List TurnConversation) (db : Database)
      → IsHandedFor (find_conversation j cs) db
      → IsHandedFor
          (find_conversation j
            (map (λ c. if is_row j c then record c { last_message_at = some at } else c) cs))
          db
  unfolding find_conversation IsHandedFor
  IsHandedFor-touched at [] db h = h
  IsHandedFor-touched at (c ∷ cs) db h = elim (Bool-cases (is_row j c)) [
    | inl e ↦ rw (e, e, find_conversation) (same_mode (rw (e, find_conversation) at h))
    | inr e ↦
        rw (e, e, find_conversation) (IsHandedFor-touched at cs db (rw (e, find_conversation) at h))
  ]
    where
      same_mode :
          IsHandedFor (some c) db → IsHandedFor (some (record c { last_message_at = some at })) db
      same_mode h = h

  module _ (quiet : (w : TurnWorld K) → env.others Moment.handoff_read w ≡ w) where
    pub hand_off-IsLookedAfter :
        (reason : HandoffReason) (note : String) (w : TurnWorld K)
        → IsAccounted w
        → IsLookedAfter (hand_off env j reason note w)
    unfolding hand_off commit_handoff IsLookedAfter IsHandedFor
    hand_off-IsLookedAfter reason note w ok =
        elim (Option-cases (find_conversation j w.conversations)) [
          | inl e ↦ rw (e, hand_off) (inl e)
          | inr (row, e) ↦
              let ok' : (is_waiting row.state.mode ≡ false) ⊎ IsHanded w.db =
                subst (λ o. IsHandedFor o w.db) e ok in
              let result = handoff_result env j reason note row.state w in
              let found = update-finds j result.patch w.conversations row e in
              rw (e, hand_off, quiet w) (inr (_, found, handed reason note row.state w ok'))
        ]
