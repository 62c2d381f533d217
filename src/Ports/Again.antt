-- ===== src/Ports/Again.antt =====
-- Effects that are carried out again: packages/infra/src/effect-ports.ts.
use chatbot_integration.Prelude.{
  subst, sym, String, ℕ, ◌≡◌, refl, true, Option, none, List, [], ◌∷◌, all, All, All-map, arith,
}
use chatbot_integration.Conversation.{Effect}
use chatbot_integration.Effects.{EffectContext, Logger, apply_effects}
use chatbot_integration.Ports.{Reads, effect_ports}
use chatbot_integration.Ports.Store.{Database}
use chatbot_integration.Ports.Grows.{NoNews, NoNews-refl, NoNews-trans}
use chatbot_integration.Ports.Later.{SameSetup, Done-later}
use chatbot_integration.Ports.Step.{
  is_named, Done, after, apply-returns, apply-Grows, apply-Done, apply-NoNews, Done-Grows,
}

module _ {E : Type 0} (id_text : ℕ → String) (reads : Reads) (now : ℕ) (logger : Logger Database E)
    (ctx : EffectContext) where
  abbrev pub run : List Effect → Database → Database × Option E
  run effects db = apply_effects (effect_ports id_text reads now) logger ctx effects db

  pub run-cons :
      (x : Effect) (xs : List Effect) (db : Database)
      → run (x ∷ xs) db ≡ run xs (after id_text reads now logger ctx x db)
  unfolding apply_effects
  run-cons x xs db = rw (apply-returns id_text reads now logger ctx x db) refl

  pub run-returns : (xs : List Effect) (db : Database) → (run xs db).1 ≡ none
  unfolding apply_effects
  run-returns [] db = refl
  run-returns (x ∷ xs) db =
      rw (run-cons x xs db) (run-returns xs (after id_text reads now logger ctx x db))

  run-keeps :
      (xs : List Effect) (x : Effect) (db : Database)
      → Done id_text reads now logger ctx x db
      → Done id_text reads now logger ctx x (run xs db).0
  unfolding apply_effects
  run-keeps [] x db d = d
  run-keeps (y ∷ ys) x db d =
      let db' = after id_text reads now logger ctx y db in
      rw (run-cons y ys db) (
        run-keeps ys x db' (
          Done-Grows id_text reads now logger ctx x db db'
            (apply-Grows id_text reads now logger ctx y db) d))

  pub run-Done :
      (xs : List Effect) (db : Database)
      → all (is_named id_text reads now logger ctx) xs ≡ true
      → All (λ x. Done id_text reads now logger ctx x (run xs db).0) xs
  run-Done [] db h = tt
  run-Done (x ∷ xs) db h =
      let db' = after id_text reads now logger ctx x db in
      subst (λ o. All (λ y. Done id_text reads now logger ctx y o.0) (x ∷ xs))
        (sym (run-cons x xs db))
        (
          run-keeps xs x db' (apply-Done id_text reads now logger ctx x db (ground arith)),
          run-Done xs db' (ground arith),
        )

  run-NoNews :
      (xs : List Effect) (db : Database)
      → All (λ x. Done id_text reads now logger ctx x db) xs
      → NoNews db (run xs db).0
  unfolding apply_effects
  run-NoNews [] db h = NoNews-refl db
  run-NoNews (x ∷ xs) db h =
      let db' = after id_text reads now logger ctx x db in
      rw (run-cons x xs db) (
        NoNews-trans db db' _ (apply-NoNews id_text reads now logger ctx x db h.0) (
          run-NoNews xs db' (
            All-map _ _ xs
              (λ y d.
                Done-Grows id_text reads now logger ctx y db db'
                  (apply-Grows id_text reads now logger ctx x db) d)
              h.1)))

module _ {E : Type 0} (id_text : ℕ → String) (logger : Logger Database E)
    (ctx : EffectContext) where
  -- Effects that are carried out a second time, as by a job that is retried, at whatever clock
  -- and with whatever language is read of the customer by then, add no message, no handoff and no
  -- job to those of the first time, if every AI turn and every suggestion among them has a job id
  -- of its own, and the settings, the customer of the conversation and the push keys are the
  -- same; and neither time throws.
  pub run_again :
      (reads reads' : Reads) (now later : ℕ) (xs : List Effect) (db : Database)
      → SameSetup reads reads'
      → all (is_named id_text reads now logger ctx) xs ≡ true
      → let first = run id_text reads now logger ctx xs db in
        let second = run id_text reads' later logger ctx xs first.0 in
        (first.1 ≡ none) × (second.1 ≡ none) × NoNews first.0 second.0
  run_again reads reads' now later xs db same h =
      let first = (run id_text reads now logger ctx xs db).0 in
      (
        run-returns id_text reads now logger ctx xs db,
        run-returns id_text reads' later logger ctx xs first,
        run-NoNews id_text reads' later logger ctx xs first (
            All-map _ _ xs (λ x. Done-later id_text reads reads' now later logger ctx same x first)
              (run-Done id_text reads now logger ctx xs db h)),
      )
