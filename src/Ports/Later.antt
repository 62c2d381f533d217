-- ===== src/Ports/Later.antt =====
-- What a retry finds done at a later clock, when the customer may write another language:
-- packages/infra/src/effect-ports.ts.
use chatbot_integration.Prelude.{
  ℕ, ◌≡◌, refl, ap, ◌∙◌, String, false, ◌||◌, Option, none, arith, inl, inr, Bool-cases,
}
use chatbot_integration.Conversation.{
  Effect, Language, is_truthy, run_ai_turn, run_suggestion, send_acknowledgement, add_internal_note,
  notify_agents, schedule_waiting_human_timeout, cancel_waiting_human_timeout, enqueue_summary,
  record_handoff,
}
use chatbot_integration.Effects.{EffectContext, AcknowledgementInput, Logger}
use chatbot_integration.Ports.{
  Reads, Texts, owed_text, acknowledgement, or_text, in_language, texts_of,
}
use chatbot_integration.Ports.Jobs.{present}
use chatbot_integration.Ports.Store.{Database}
use chatbot_integration.Ports.Ack.{truthy-present, or_text_truthy}
use chatbot_integration.Ports.Step.{Done}

-- The rows that an operator writes are the same; the languages may be others.
pub record SameSetup (reads reads' : Reads) : Type 0 where
  pub settings :
      (workspace_id : String) → reads'.settings workspace_id ≡ reads.settings workspace_id
  pub customer_id :
      (workspace_id conversation_id : String)
      → reads'.customer_id workspace_id conversation_id
        ≡ reads.customer_id workspace_id conversation_id
  pub vapid_keys : reads'.vapid_keys ≡ reads.vapid_keys

missing-present : (o : Option String) → present o ≡ none → is_truthy o ≡ false
missing-present o h = elim (Bool-cases (is_truthy o)) [
  | inr e ↦ e
  | inl e ↦ let (text, f) = truthy-present o e in absurd (ground arith)
]

-- With a text in neither language, none is owed in any.
no_text :
    (texts : Texts) (first second : Language)
    → present (acknowledgement texts first) ≡ none
    → present (acknowledgement texts second) ≡ none
unfolding acknowledgement
no_text texts first second h = elim (Bool-cases (is_truthy texts.en || is_truthy texts.th)) [
  | inl e ↦ absurd (
      ground (
        arith,
        or_text_truthy (in_language first texts) texts.en texts.th e,
        missing-present (acknowledgement texts first) h,
      ))
  | inr e ↦ none_in second (ground arith) (ground arith)
]
  where
    none_in :
        (l : Language)
        → is_truthy texts.en ≡ false
        → is_truthy texts.th ≡ false
        → present (or_text (in_language l texts) (or_text texts.en texts.th)) ≡ none
    none_in Language.th en th = rw (en, th) (rw th refl)
    none_in Language.en en th = rw (en, th) refl

module _ {E : Type 0} (id_text : ℕ → String) (reads reads' : Reads) (now later : ℕ)
    (logger : Logger Database E) (ctx : EffectContext) (same : SameSetup reads reads') where
  owed_text_later :
      (input : AcknowledgementInput)
      → owed_text id_text reads now ctx input ≡ none
      → owed_text id_text reads' later ctx input ≡ none
  unfolding owed_text
  owed_text_later input h =
      rw (same.settings ctx.workspace_id)
        (no_text (texts_of input.kind (reads.settings ctx.workspace_id)) _ _ h)

  pub Done-later :
      (x : Effect) (db : Database)
      → Done id_text reads now logger ctx x db
      → Done id_text reads' later logger ctx x db
  unfolding Done
  Done-later (run_ai_turn deliver) db d = d
  Done-later run_suggestion db d = d
  Done-later (send_acknowledgement kind language at) db (inl h) =
      inl (owed_text_later (record { kind = kind; language = language; at = at }) h)
  Done-later (send_acknowledgement kind language at) db (inr h) = inr h
  Done-later (record_handoff reason at) db d = d
  Done-later (notify_agents reason at) db (inl h) = inl (same.vapid_keys ∙ h)
  Done-later (notify_agents reason at) db (inr h) = inr h
  Done-later (schedule_waiting_human_timeout minutes) db d = d
  Done-later enqueue_summary db (inl h) =
      inl (ap present (same.customer_id ctx.workspace_id ctx.conversation_id) ∙ h)
  Done-later enqueue_summary db (inr h) = inr h
  Done-later (add_internal_note body) db d = tt
  Done-later cancel_waiting_human_timeout db d = tt
