-- ===== src/Ports/Step.antt =====
-- What one effect leaves, and that its second run leaves nothing new:
-- packages/infra/src/effect-ports.ts.
use Prim.Native.String
use mathlib.Core.List.{append-nil}
use chatbot_integration.Prelude.{
  ℕ, ◌≡◌, refl, sym, ap, subst, String, Bool, true, false, ◌&&◌, none, some, get_or, [], any,
  any-append, str_eq, ◌==◌, arith, ◌⊎◌, inl, inr, Bool-cases, Option-cases,
}
use chatbot_integration.Conversation.{
  HandoffReason, Effect, run_ai_turn, run_suggestion, send_acknowledgement, add_internal_note,
  notify_agents, schedule_waiting_human_timeout, cancel_waiting_human_timeout, enqueue_summary,
  record_handoff,
}
use chatbot_integration.Effects.{EffectContext, Logger, apply_effect, caught}
use chatbot_integration.Outbox.{OutboxRequest}
use chatbot_integration.Ports
use chatbot_integration.Ports.{Reads, effect_ports, job}
use chatbot_integration.Ports.Jobs.{
  present, turn_job_id, suggestion_job_id, push_job_id, waiting_human_job_id, summary_job_id,
  outbound_job_id,
}
use chatbot_integration.Ports.Store.{
  Database, JobPayload, HandoffEvent, find_by_turn_key, enqueue_job,
}
use chatbot_integration.Ports.Grows.{
  drawn, from_drawn-NoNews, from_drawn-Grows, has_job, Grows, NoNews, NoNews-refl, NoNews-Grows,
  enqueue-Grows, enqueue-NoNews, enqueue-promises, cancel-NoNews,
}
use chatbot_integration.Ports.Promised.{IsPromised-Grows}
use chatbot_integration.Ports.Keys.{find-append}
use chatbot_integration.Ports.Ack.{
  Told, ack_key, send_acknowledgement-Told, send_acknowledgement-Grows, send_acknowledgement-NoNews,
}
use chatbot_integration.Ports.Records.{
  insert_handoff-done, insert_handoff-Grows, insert_handoff-NoNews, noticed, noticed-NoNews,
  from_noticed-NoNews, from_noticed-Grows,
}

promised_as :
    (id_text : ℕ → String) (request : OutboxRequest JobPayload) (db : Database) (id : String)
    → request.job_id ≡ some id
    → has_job request.queue id (enqueue_job id_text request db).rows ≡ true
promised_as id_text request db id e =
    subst (λ i. has_job request.queue i (enqueue_job id_text request db).rows ≡ true)
      (ap (λ o. get_or o (String.◌++◌ "outbox-" (id_text db.next_id))) e)
      (enqueue-promises id_text request db)

module _ {E : Type 0} (id_text : ℕ → String) (reads : Reads) (now : ℕ) (logger : Logger Database E)
    (ctx : EffectContext) where
  -- Whether the effect's job has an id of its own, which a turn with neither a key nor a message
  -- that triggered it has not.
  abbrev pub is_named : Effect → Bool
  is_named (run_ai_turn deliver) = elim (turn_job_id ctx) [ none ↦ false | some id ↦ true ]
  is_named run_suggestion = elim (suggestion_job_id ctx) [ none ↦ false | some id ↦ true ]
  is_named _ = true

  abbrev event_at : HandoffReason → (at : ℕ) → Database → HandoffEvent
  event_at reason at db = record {
    id = id_text db.next_id;
    workspace_id = ctx.workspace_id;
    conversation_id = ctx.conversation_id;
    reason = reason;
    occurred_at = at;
  }

  -- What an effect leaves for good.
  unfoldable pub Done : Effect → Database → Type 0
  Done (run_ai_turn deliver) db =
      (id : String) × (turn_job_id ctx ≡ some id) × (has_job "ai_turn" id db.rows ≡ true)
  Done run_suggestion db =
      (id : String) × (suggestion_job_id ctx ≡ some id) × (has_job "suggestion" id db.rows ≡ true)
  Done (send_acknowledgement kind language at) db =
      Told id_text reads now ctx (record { kind = kind; language = language; at = at }) db
  Done (record_handoff reason at) db =
      any (λ h. str_eq ctx.conversation_id h.conversation_id && (at == h.occurred_at)) db.handoffs
      ≡ true
  Done (notify_agents reason at) db =
      (reads.vapid_keys ≡ false) ⊎ (has_job "push" (push_job_id ctx reason at) db.rows ≡ true)
  Done (schedule_waiting_human_timeout minutes) db =
      has_job "waiting_human" (waiting_human_job_id ctx.conversation_id) db.rows ≡ true
  Done enqueue_summary db =
      (present (reads.customer_id ctx.workspace_id ctx.conversation_id) ≡ none)
      ⊎ (has_job "summarize" (summary_job_id ctx.conversation_id) db.rows ≡ true)
  Done _ db = Unit

  abbrev pub after : Effect → Database → Database
  after x db = (apply_effect (effect_ports id_text reads now) logger ctx x db).0

  pub apply-Grows : (x : Effect) (db : Database) → Grows db (after x db)
  unfolding apply_effect caught Ports.enqueue_ai_turn Ports.enqueue_suggestion Ports.record_handoff
      Ports.add_internal_note Ports.notify_agents Ports.schedule_waiting_human_timeout
      Ports.cancel_waiting_human_timeout Ports.enqueue_summary
  apply-Grows (run_ai_turn deliver) db = enqueue-Grows id_text _ db
  apply-Grows run_suggestion db = enqueue-Grows id_text _ db
  apply-Grows (send_acknowledgement kind language at) db =
      send_acknowledgement-Grows id_text reads now ctx _ db
  apply-Grows (record_handoff reason at) db =
      from_drawn-Grows db _ (insert_handoff-Grows (event_at reason at db) (drawn db))
  apply-Grows (add_internal_note body) db = record {
    messages = ([], sym (append-nil db.messages));
    handoffs = ([], sym (append-nil db.handoffs));
    jobs = λ queue job_id h. h;
    kept = λ r other m. m;
  }
  apply-Grows (notify_agents reason at) db = elim (Bool-cases reads.vapid_keys) [
    | inl e ↦
        rw (e, Ports.notify_agents)
          (from_noticed-Grows db _ _ (enqueue-Grows id_text _ (noticed db _)))
    | inr e ↦ rw (e, Ports.notify_agents) (NoNews-Grows db _ (noticed-NoNews db _))
  ]
  apply-Grows (schedule_waiting_human_timeout minutes) db = enqueue-Grows id_text _ db
  apply-Grows cancel_waiting_human_timeout db =
      NoNews-Grows db _ (cancel-NoNews now (waiting_human_job_id ctx.conversation_id) db)
  apply-Grows enqueue_summary db =
      elim (Option-cases (present (reads.customer_id ctx.workspace_id ctx.conversation_id))) [
        | inl e ↦ rw (e, Ports.enqueue_summary) (NoNews-Grows db db (NoNews-refl db))
        | inr (customer_id, e) ↦ rw (e, Ports.enqueue_summary) (enqueue-Grows id_text _ db)
      ]

  pub apply-Done : (x : Effect) (db : Database) → is_named x ≡ true → Done x (after x db)
  unfolding Done apply_effect caught Ports.enqueue_ai_turn Ports.enqueue_suggestion
      Ports.record_handoff Ports.add_internal_note Ports.notify_agents
      Ports.schedule_waiting_human_timeout Ports.cancel_waiting_human_timeout Ports.enqueue_summary
  apply-Done (run_ai_turn deliver) db h = elim (Option-cases (turn_job_id ctx)) [
    | inl e ↦ absurd (ground arith)
    | inr (id, e) ↦ (id, e, promised_as id_text _ db id e)
  ]
  apply-Done run_suggestion db h = elim (Option-cases (suggestion_job_id ctx)) [
    | inl e ↦ absurd (ground arith)
    | inr (id, e) ↦ (id, e, promised_as id_text _ db id e)
  ]
  apply-Done (send_acknowledgement kind language at) db h =
      send_acknowledgement-Told id_text reads now ctx _ db
  apply-Done (record_handoff reason at) db h =
      insert_handoff-done (event_at reason at db) (drawn db)
  apply-Done (add_internal_note body) db h = tt
  apply-Done (notify_agents reason at) db h = elim (Bool-cases reads.vapid_keys) [
    | inl e ↦ rw (e, Ports.notify_agents) (inr (enqueue-promises id_text _ _))
    | inr e ↦ inl e
  ]
  apply-Done (schedule_waiting_human_timeout minutes) db h = enqueue-promises id_text _ db
  apply-Done cancel_waiting_human_timeout db h = tt
  apply-Done enqueue_summary db h =
      elim (Option-cases (present (reads.customer_id ctx.workspace_id ctx.conversation_id))) [
        | inl e ↦ inl e
        | inr (customer_id, e) ↦ rw (e, Ports.enqueue_summary) (inr (enqueue-promises id_text _ db))
      ]

  pub apply-NoNews : (x : Effect) (db : Database) → Done x db → NoNews db (after x db)
  unfolding Done apply_effect caught Ports.enqueue_ai_turn Ports.enqueue_suggestion
      Ports.record_handoff Ports.add_internal_note Ports.notify_agents
      Ports.schedule_waiting_human_timeout Ports.cancel_waiting_human_timeout Ports.enqueue_summary
  apply-NoNews (run_ai_turn deliver) db (id, e, h) = enqueue-NoNews id_text _ db id e h
  apply-NoNews run_suggestion db (id, e, h) = enqueue-NoNews id_text _ db id e h
  apply-NoNews (send_acknowledgement kind language at) db d =
      send_acknowledgement-NoNews id_text reads now ctx _ db d
  apply-NoNews (record_handoff reason at) db d =
      from_drawn-NoNews db _ (insert_handoff-NoNews (event_at reason at db) (drawn db) d)
  apply-NoNews (add_internal_note body) db d = record {
    messages = refl;
    handoffs = refl;
    jobs = λ queue job_id. refl;
    kept = λ r other m. m;
  }
  apply-NoNews (notify_agents reason at) db (inl e) =
      rw (e, Ports.notify_agents) (noticed-NoNews db _)
  apply-NoNews (notify_agents reason at) db (inr d) = elim (Bool-cases reads.vapid_keys) [
    | inl e ↦
        rw (e, Ports.notify_agents)
          (from_noticed-NoNews db _ _
            (enqueue-NoNews id_text _ (noticed db _) (push_job_id ctx reason at) refl d))
    | inr e ↦ rw (e, Ports.notify_agents) (noticed-NoNews db _)
  ]
  apply-NoNews (schedule_waiting_human_timeout minutes) db d =
      enqueue-NoNews id_text _ db (waiting_human_job_id ctx.conversation_id) refl d
  apply-NoNews cancel_waiting_human_timeout db d =
      cancel-NoNews now (waiting_human_job_id ctx.conversation_id) db
  apply-NoNews enqueue_summary db (inl e) = rw (e, Ports.enqueue_summary) (NoNews-refl db)
  apply-NoNews enqueue_summary db (inr d) =
      elim (Option-cases (present (reads.customer_id ctx.workspace_id ctx.conversation_id))) [
        | inl e ↦ rw (e, Ports.enqueue_summary) (NoNews-refl db)
        | inr (customer_id, e) ↦
            rw (e, Ports.enqueue_summary)
              (enqueue-NoNews id_text _ db (summary_job_id ctx.conversation_id) refl d)
      ]

  pub Done-Grows : (x : Effect) (db db' : Database) → Grows db db' → Done x db → Done x db'
  unfolding Done
  Done-Grows (run_ai_turn deliver) db db' g (id, e, h) = (id, e, g.jobs "ai_turn" id h)
  Done-Grows run_suggestion db db' g (id, e, h) = (id, e, g.jobs "suggestion" id h)
  Done-Grows (send_acknowledgement kind language at) db db' g (inl h) = inl h
  Done-Grows (send_acknowledgement kind language at) db db' g (inr (id, found, h)) = inr (
    id,
    subst
        (λ ms.
          find_by_turn_key ctx.workspace_id
            (ack_key id_text reads now ctx (record { kind = kind; language = language; at = at }))
            ms
          ≡ some id)
        (sym g.messages.1)
        (find-append ctx.workspace_id
          (ack_key id_text reads now ctx (record { kind = kind; language = language; at = at })) id
          db.messages g.messages.0 found),
    IsPromised-Grows "outbound" (outbound_job_id id) _ db db' refl g h,
  )
  Done-Grows (record_handoff reason at) db db' g h =
      rw
        (
          g.handoffs.1,
          any-append (λ k. str_eq ctx.conversation_id k.conversation_id && (at == k.occurred_at))
              db.handoffs g.handoffs.0,
          h,
        )
        refl
  Done-Grows (notify_agents reason at) db db' g (inl h) = inl h
  Done-Grows (notify_agents reason at) db db' g (inr h) =
      inr (g.jobs "push" (push_job_id ctx reason at) h)
  Done-Grows (schedule_waiting_human_timeout minutes) db db' g h =
      g.jobs "waiting_human" (waiting_human_job_id ctx.conversation_id) h
  Done-Grows enqueue_summary db db' g (inl h) = inl h
  Done-Grows enqueue_summary db db' g (inr h) =
      inr (g.jobs "summarize" (summary_job_id ctx.conversation_id) h)
  Done-Grows (add_internal_note body) db db' g h = tt
  Done-Grows cancel_waiting_human_timeout db db' g h = tt

  -- No port throws over a database that answers.
  pub apply-returns :
      (x : Effect) (db : Database)
      → apply_effect (effect_ports id_text reads now) logger ctx x db ≡ (after x db, none)
  unfolding apply_effect caught
  apply-returns (run_ai_turn deliver) db = refl
  apply-returns run_suggestion db = refl
  apply-returns (send_acknowledgement kind language at) db = refl
  apply-returns (record_handoff reason at) db = refl
  apply-returns (add_internal_note body) db = refl
  apply-returns (notify_agents reason at) db = refl
  apply-returns (schedule_waiting_human_timeout minutes) db = refl
  apply-returns cancel_waiting_human_timeout db = refl
  apply-returns enqueue_summary db = refl
