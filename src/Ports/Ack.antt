-- ===== src/Ports/Ack.antt =====
-- Acknowledgements: `sendAcknowledgement` of packages/infra/src/effect-ports.ts.

use mathlib.Core.List.{append-nil}
use chatbot_integration.Prelude.{
  arith, ◌||◌, ℕ, ◌≡◌, refl, sym, String, true, Option, none, some, List, [], ◌∷◌, ◌++◌, any, ◌⊎◌,
  inl, inr, Bool-cases, Option-cases,
}
use chatbot_integration.Conversation.{is_truthy, AcknowledgementKind}
use chatbot_integration.Effects.{EffectContext, AcknowledgementInput}
use chatbot_integration.Ports.{
  or_text, chosen_language, acknowledgement, texts_of, in_language, job, Reads, owed_text,
  store_and_queue, queue_message, ack_message, send_acknowledgement,
}
use chatbot_integration.Ports.Jobs.{present, outbound_job_id, ack_turn_key}
use chatbot_integration.Ports.Store.{
  Database, JobPayload, store_message, find_by_turn_key, enqueue_job, conflicts,
}
use chatbot_integration.Ports.Keys.{find-conflicts, conflicts-find, find-last}
use chatbot_integration.Outbox.{OutboxRow}
use chatbot_integration.Ports.Promised.{IsPromised, IsPromised-has_job, enqueue-IsPromised}
use chatbot_integration.Ports.Grows.{
  drawn, from_drawn-NoNews, from_drawn-Grows, Grows, NoNews, NoNews-refl, NoNews-Grows, Grows-trans,
  enqueue-Grows, enqueue-NoNews,
}

pub truthy-present :
    (o : Option String) → is_truthy o ≡ true → (text : String) × (present o ≡ some text)
truthy-present none h = cc
truthy-present (some String.[]) h = cc
truthy-present (some (String.◌∷◌ c s)) h = (String.◌∷◌ c s, refl)

pub or_text_truthy :
    (a b c : Option String)
    → (is_truthy b || is_truthy c) ≡ true
    → is_truthy (or_text a (or_text b c)) ≡ true
or_text_truthy a b c h = elim (Bool-cases (is_truthy a)) [
  | inl e ↦ rw e e
  | inr e ↦ elim (Bool-cases (is_truthy b)) [
    | inl f ↦ rw (e, f) f
    | inr f ↦ rw (e, f) (ground arith)
  ]
]

module _ (id_text : ℕ → String) (reads : Reads) (now : ℕ) where
  abbrev pub ack_key : EffectContext → AcknowledgementInput → String
  ack_key ctx input = ack_turn_key input.kind ctx.conversation_id input.at

  -- A job to deliver the message waits to be relayed.
  abbrev pub IsSending : EffectContext → (id : String) → List (OutboxRow JobPayload) → Type 0
  IsSending ctx id rows =
      IsPromised "outbound" (outbound_job_id id)
        (JobPayload.outbound ctx.workspace_id ctx.conversation_id id) rows

  -- Nothing is owed, or the message that the key names is stored and promised to be sent.
  abbrev pub Told : EffectContext → AcknowledgementInput → Database → Type 0
  Told ctx input db =
      (owed_text id_text reads now ctx input ≡ none)
      ⊎ ((id : String) × (find_by_turn_key ctx.workspace_id (ack_key ctx input) db.messages
            ≡ some id)
          × IsSending ctx id db.rows)

  queue_message-tells :
      (ctx : EffectContext) (input : AcknowledgementInput) (id : String) (db : Database)
      → find_by_turn_key ctx.workspace_id (ack_key ctx input) db.messages ≡ some id
      → let db' = queue_message id_text reads now ctx (some id) db in
        (i : String) × (find_by_turn_key ctx.workspace_id (ack_key ctx input) db'.messages ≡ some i)
        × IsSending ctx i db'.rows
  unfolding queue_message enqueue_job
  queue_message-tells ctx input id db found = (
    id,
    found,
    enqueue-IsPromised id_text
        (job id_text reads now ctx "outbound" "send"
          (JobPayload.outbound ctx.workspace_id ctx.conversation_id id) (some (outbound_job_id id)))
        (outbound_job_id id) db refl,
  )

  queue_message-Grows :
      (ctx : EffectContext) (o : Option String) (db : Database)
      → Grows db (queue_message id_text reads now ctx o db)
  unfolding queue_message
  queue_message-Grows ctx none db = NoNews-Grows db db (NoNews-refl db)
  queue_message-Grows ctx (some id) db = enqueue-Grows id_text _ db

  store_and_queue-tells :
      (ctx : EffectContext) (input : AcknowledgementInput) (text : String) (db : Database)
      → let db' = store_and_queue id_text reads now ctx input text db in
        (id : String) × (find_by_turn_key ctx.workspace_id (ack_key ctx input) db'.messages
          ≡ some id)
        × IsSending ctx id db'.rows
  unfolding store_and_queue store_message
  store_and_queue-tells ctx input text db =
      let m = ack_message id_text reads now ctx input text (id_text db.next_id) in
      elim (Bool-cases (any (conflicts m) db.messages)) [
        | inl e ↦
            let (id, found) = conflicts-find m (ack_key ctx input) db.messages refl refl e in
            rw (e, found) (queue_message-tells ctx input id (drawn db) found)
        | inr e ↦ rw e (
            queue_message-tells ctx input (id_text db.next_id)
              (record (drawn db) { messages = db.messages ++ m ∷ [] })
              (find-last m (ack_key ctx input) db.messages refl e))
      ]

  store_and_queue-Grows :
      (ctx : EffectContext) (input : AcknowledgementInput) (text : String) (db : Database)
      → Grows db (store_and_queue id_text reads now ctx input text db)
  unfolding store_and_queue store_message
  store_and_queue-Grows ctx input text db =
      let m = ack_message id_text reads now ctx input text (id_text db.next_id) in
      elim (Bool-cases (any (conflicts m) db.messages)) [
        | inl e ↦ rw e (
            from_drawn-Grows db _ (
              queue_message-Grows ctx
                (find_by_turn_key ctx.workspace_id (ack_key ctx input) db.messages) (drawn db)))
        | inr e ↦
            let stored = record (drawn db) { messages = db.messages ++ m ∷ [] } in
            rw e (
              Grows-trans db stored _
                (record {
                  messages = (m ∷ [], refl);
                  handoffs = ([], sym (append-nil db.handoffs));
                  jobs = λ queue job_id h. h;
                  kept = λ r other m. m;
                })
                (queue_message-Grows ctx (some (id_text db.next_id)) stored))
      ]

  store_and_queue-NoNews :
      (ctx : EffectContext) (input : AcknowledgementInput) (text id : String) (db : Database)
      → find_by_turn_key ctx.workspace_id (ack_key ctx input) db.messages ≡ some id
      → IsSending ctx id db.rows
      → NoNews db (store_and_queue id_text reads now ctx input text db)
  unfolding store_and_queue store_message queue_message
  store_and_queue-NoNews ctx input text id db found there =
      let m = ack_message id_text reads now ctx input text (id_text db.next_id) in
      rw (find-conflicts m (ack_key ctx input) id db.messages refl found, found)
        (from_drawn-NoNews db _ (
          enqueue-NoNews id_text
            (job id_text reads now ctx "outbound" "send"
              (JobPayload.outbound ctx.workspace_id ctx.conversation_id id)
              (some (outbound_job_id id)))
            (drawn db) (outbound_job_id id) refl (IsPromised-has_job "outbound" _ _ db.rows there)))

  pub send_acknowledgement-Told :
      (ctx : EffectContext) (input : AcknowledgementInput) (db : Database)
      → Told ctx input (send_acknowledgement id_text reads now ctx input db)
  unfolding send_acknowledgement
  send_acknowledgement-Told ctx input db =
      elim (Option-cases (owed_text id_text reads now ctx input)) [
        | inl e ↦ inl e
        | inr (text, e) ↦
            rw (e, send_acknowledgement) (inr (store_and_queue-tells ctx input text db))
      ]

  pub send_acknowledgement-Grows :
      (ctx : EffectContext) (input : AcknowledgementInput) (db : Database)
      → Grows db (send_acknowledgement id_text reads now ctx input db)
  unfolding send_acknowledgement
  send_acknowledgement-Grows ctx input db =
      elim (Option-cases (owed_text id_text reads now ctx input)) [
        | inl e ↦ rw (e, send_acknowledgement) (warned db _)
        | inr (text, e) ↦ rw (e, send_acknowledgement) (store_and_queue-Grows ctx input text db)
      ]
    where
      warned :
          (db : Database) (w : List (String × AcknowledgementKind))
          → Grows db (record db { warnings = w })
      warned db w = record {
        messages = ([], sym (append-nil db.messages));
        handoffs = ([], sym (append-nil db.handoffs));
        jobs = λ queue job_id h. h;
        kept = λ r other m. m;
      }

  pub send_acknowledgement-NoNews :
      (ctx : EffectContext) (input : AcknowledgementInput) (db : Database)
      → Told ctx input db
      → NoNews db (send_acknowledgement id_text reads now ctx input db)
  unfolding send_acknowledgement
  send_acknowledgement-NoNews ctx input db (inl e) =
      rw (e, send_acknowledgement)
        (record {
          messages = refl;
          handoffs = refl;
          jobs = λ queue job_id. refl;
          kept = λ r other m. m;
        })
  send_acknowledgement-NoNews ctx input db (inr (id, found, there)) =
      elim (Option-cases (owed_text id_text reads now ctx input)) [
        | inl e ↦
            rw (e, send_acknowledgement)
              (record {
                messages = refl;
                handoffs = refl;
                jobs = λ queue job_id. refl;
                kept = λ r other m. m;
              })
        | inr (text, e) ↦
            rw (e, send_acknowledgement) (store_and_queue-NoNews ctx input text id db found there)
      ]

  owed_some :
      (ctx : EffectContext) (input : AcknowledgementInput)
      → let texts = texts_of input.kind (reads.settings ctx.workspace_id) in
        (is_truthy texts.en || is_truthy texts.th) ≡ true
        → (text : String) × (owed_text id_text reads now ctx input ≡ some text)
  unfolding owed_text acknowledgement
  owed_some ctx input h =
      let settings = reads.settings ctx.workspace_id in
      let texts = texts_of input.kind settings in
      truthy-present _ (
        or_text_truthy (in_language (chosen_language id_text reads now ctx input.language) texts)
          texts.en texts.th h)

  -- If the workspace has a text of the kind in either language, then after an acknowledgement,
  -- also one whose message an earlier attempt had stored already, the message that the key names
  -- is stored, and a job to deliver that very message, with the workspace, the conversation and
  -- the message's id as its payload, waits in the outbox to be relayed.
  pub acknowledgement_promised :
      (ctx : EffectContext) (input : AcknowledgementInput) (db : Database)
      → let texts = texts_of input.kind (reads.settings ctx.workspace_id) in
        (is_truthy texts.en || is_truthy texts.th) ≡ true
        → let db' = send_acknowledgement id_text reads now ctx input db in
          (id : String) × (find_by_turn_key ctx.workspace_id
              (ack_turn_key input.kind ctx.conversation_id input.at)
              db'.messages
            ≡ some id)
          × IsSending ctx id db'.rows
  unfolding send_acknowledgement
  acknowledgement_promised ctx input db h =
      let (text, e) = owed_some ctx input h in
      rw (e, send_acknowledgement) (store_and_queue-tells ctx input text db)
