-- ===== src/Ports/Quiet.antt =====
-- The ports for agents, timers and records leave the customer alone:
-- packages/infra/src/effect-ports.ts.
use mathlib.Core.List.{append-nil}
use chatbot_integration.Prelude.{
  ℕ, String, ◌≡◌, refl, ap, sym, subst, eq_iff, ◌∙◌, Bool, false, ◌&&◌, ◌||◌, List, [], ◌∷◌, ◌++◌,
  keep, map, any, str_eq, arith, inl, inr, Bool-cases, Option-cases,
}
use chatbot_integration.Conversation.{
  ConversationState, ConversationEvent, PartialOptions, human, emitted, NotifyReason,
}
use chatbot_integration.Effects.{EffectContext, Logger, apply_effects}
use chatbot_integration.Effects.Reach.{LeavesAlone, human_silence_at_ports}
use chatbot_integration.Outbox.{
  OutboxRow, OutboxRequest, is_add, withdraw, is_withdrawn, cancel, enqueue,
}
use chatbot_integration.Ports
use chatbot_integration.Ports.{Reads, effect_ports}
use chatbot_integration.Ports.Jobs.{present}
use chatbot_integration.Ports.Store.{
  Database, HandoffEvent, JobPayload, StoredMessage, enqueue_job, cancel_job, insert_handoff,
  same_handoff,
}

-- A row that promises the customer something: an AI turn, or a delivery.
abbrev pub is_for_customer : OutboxRow JobPayload → Bool
is_for_customer r = is_add r.op && (str_eq r.queue "ai_turn" || str_eq r.queue "outbound")

-- What the customer has been written, and is to be written.
abbrev pub for_customer : Database → List StoredMessage × List (OutboxRow JobPayload)
for_customer db = (db.messages, keep is_for_customer db.rows)

keep-append :
    (p : OutboxRow JobPayload → Bool) (xs ys : List (OutboxRow JobPayload))
    → keep p (xs ++ ys) ≡ keep p xs ++ keep p ys
keep-append p [] ys = refl
keep-append p (x ∷ xs) ys = ground (arith, keep-append p xs ys)

enqueue-quiet :
    (id_text : ℕ → String) (request : OutboxRequest JobPayload) (db : Database)
    → (str_eq request.queue "ai_turn" || str_eq request.queue "outbound") ≡ false
    → for_customer (enqueue_job id_text request db) ≡ for_customer db
unfolding enqueue_job enqueue
enqueue-quiet id_text request db off =
    ap (λ rows. (db.messages, rows))
      (rw (keep-append is_for_customer db.rows _, off) (append-nil (keep is_for_customer db.rows)))

withdraw-quiet :
    (now : ℕ) (job_id : String) (rows : List (OutboxRow JobPayload))
    → keep is_for_customer (map (withdraw now "waiting_human" job_id) rows)
      ≡ keep is_for_customer rows
unfolding withdraw
withdraw-quiet now job_id [] = refl
withdraw-quiet now job_id (r ∷ rs) = elim (Bool-cases (is_withdrawn "waiting_human" job_id r)) [
  | inr e ↦ rw e (ground (arith, withdraw-quiet now job_id rs))
  | inl e ↦
      let q : r.queue ≡ "waiting_human" = (eq_iff r.queue "waiting_human").0 (ground arith) in
      let off : (str_eq r.queue "ai_turn" || str_eq r.queue "outbound") ≡ false =
        subst (λ k. (str_eq k "ai_turn" || str_eq k "outbound") ≡ false) (sym q) refl in
      rw e (ground (arith, off, withdraw-quiet now job_id rs))
]

insert_handoff-quiet :
    (event : HandoffEvent) (db : Database)
    → for_customer (insert_handoff event db) ≡ for_customer db
unfolding insert_handoff
insert_handoff-quiet event db = elim (Bool-cases (any (same_handoff event) db.handoffs)) [
  | inl e ↦ rw e refl
  | inr e ↦ rw e refl
]

module _ {E : Type 0} (id_text : ℕ → String) (reads : Reads) (now : ℕ) (logger : Logger Database E)
    (warned : (ctx : EffectContext) (reason : NotifyReason) (error : E) (db : Database)
      → for_customer (logger.notify_failed ctx reason error db) ≡ for_customer db)
    (ignored : (ctx : EffectContext) (db : Database)
      → for_customer (logger.timeout_ignored ctx db) ≡ for_customer db) where
  notify_agents-quiet :
      (ctx : EffectContext) (reason : NotifyReason) (at : ℕ) (db : Database)
      → for_customer (Ports.notify_agents id_text reads now ctx reason at db) ≡ for_customer db
  unfolding Ports.notify_agents
  notify_agents-quiet ctx reason at db = elim (Bool-cases reads.vapid_keys) [
    | inl e ↦ rw e (enqueue-quiet id_text _ _ refl)
    | inr e ↦ rw e refl
  ]

  enqueue_summary-quiet :
      (ctx : EffectContext) (db : Database)
      → for_customer (Ports.enqueue_summary id_text reads now ctx db) ≡ for_customer db
  unfolding Ports.enqueue_summary
  enqueue_summary-quiet ctx db =
      elim (Option-cases (present (reads.customer_id ctx.workspace_id ctx.conversation_id))) [
        | inl e ↦ rw (e, Ports.enqueue_summary) refl
        | inr (customer_id, e) ↦ rw (e, Ports.enqueue_summary) (enqueue-quiet id_text _ db refl)
      ]

  cancel-quiet :
      (ctx : EffectContext) (db : Database)
      → for_customer (Ports.cancel_waiting_human_timeout id_text reads now ctx db) ≡ for_customer db
  unfolding Ports.cancel_waiting_human_timeout cancel_job cancel
  cancel-quiet ctx db =
      ap (λ rows. (db.messages, rows))
        (keep-append is_for_customer (map (withdraw now "waiting_human" _) db.rows) _
          ∙ append-nil _
          ∙ withdraw-quiet now _ db.rows)

  ports-LeavesAlone : LeavesAlone for_customer (effect_ports id_text reads now) logger
  unfolding Ports.enqueue_suggestion Ports.add_internal_note Ports.schedule_waiting_human_timeout
      Ports.record_handoff
  ports-LeavesAlone = record {
    suggestion = λ ctx db. enqueue-quiet id_text _ db refl;
    note = λ ctx body db. refl;
    notify = notify_agents-quiet;
    start = λ ctx minutes db. enqueue-quiet id_text _ db refl;
    stop = cancel-quiet;
    summary = enqueue_summary-quiet;
    handed_off = λ ctx reason at db. insert_handoff-quiet _ _;
    warned = warned;
    ignored = ignored;
  }

  -- In a conversation that a human owns, carrying out the effects of any event stores no message,
  -- and promises neither an AI turn nor a delivery, where logging leaves those alone.
  human_silence_stored :
      (ctx : EffectContext) (options : PartialOptions) (state : ConversationState)
      (event : ConversationEvent) (db : Database)
      → state.mode ≡ human
      → for_customer
          (apply_effects
            (effect_ports id_text reads now)
            logger
            ctx
            (emitted options state event)
            db).0
        ≡ for_customer db
  human_silence_stored ctx options state event db h =
      human_silence_at_ports for_customer (effect_ports id_text reads now) logger ctx
        ports-LeavesAlone options state event db h
