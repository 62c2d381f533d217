-- ===== src/Inbound/Once.antt =====
-- One customer event is one commit, however often it is tried:
-- apps/worker/src/processors/inbound.ts.
use text.Mathlib.TextPositions.{eq_refl}
use chatbot_integration.Prelude.{
  ◌≡◌, refl, ap, ◌∙◌, String, true, ◌&&◌, List, [], ◌∷◌, ◌++◌, Option, none, some, str_eq, arith,
  Bool-cases, inl, inr, ◌⊎◌, any-append, Option-cases, All,
}
use chatbot_integration.Effects.{EffectPorts, Logger}
use chatbot_integration.Inbound.{
  PlatformEvent, Database, Settings, TxEnd, duplicate, stored, failed, is_stored, is_event,
  handle_event, event_body, committed, moved, find_row, ConversationRow, keep_token, finish,
}

is_stored-append :
    (c p : String) (messages : List (String × String))
    → is_stored c p (messages ++ (c, p) ∷ []) ≡ true
is_stored-append c p messages =
    rw
      (
        any-append (λ (m : String × String). str_eq m.0 c && str_eq m.1 p) messages ((c, p) ∷ []),
        eq_refl c,
        eq_refl p,
      )
      (ground arith)

module _ {W E : Type 0} (logger : Logger W E) (workspace_id : String) (settings : Settings)
    (c id : String) (event : PlatformEvent) where
  keep_token-messages :
      (ports : EffectPorts W E) (db : Database W)
      → (keep_token ports logger workspace_id settings c event db).messages ≡ db.messages
  unfolding keep_token
  keep_token-messages ports db = elim (Option-cases event.reply_token) [
    | inl e ↦ rw e refl
    | inr (token, e) ↦ rw e refl
  ]

  -- What a transaction that commits leaves among the messages.
  abbrev Keeps : Database W → TxEnd W E → Type 0
  Keeps db (duplicate db') = db'.messages ≡ db.messages
  Keeps db (stored db') = db'.messages ≡ db.messages
  Keeps db (failed error) = Unit {0}

  finish-Keeps :
      (ports : EffectPorts W E) (db db' : Database W) (o : W × Option E)
      → db'.messages ≡ db.messages
      → Keeps db (finish ports logger workspace_id settings db' o)
  unfolding finish
  finish-Keeps ports db db' (w, none) same = same
  finish-Keeps ports db db' (w, some error) same = tt

  moved-Keeps :
      (ports : EffectPorts W E) (db : Database W) (row : Option ConversationRow)
      → Keeps db (moved ports logger workspace_id settings c id event db row)
  unfolding moved
  moved-Keeps ports db none = refl
  moved-Keeps ports db (some row) = finish-Keeps ports db (record db { conversations = _ }) _ refl

  abbrev HasIt : Database W → Type 0
  HasIt db = is_stored c event.platform_event_id db.messages ≡ true

  abbrev Handled : Database W → Database W × Option E → Type 0
  Handled db o = ((o.1 ≡ none) × HasIt o.0) ⊎ ((error : E) × (o ≡ (db, some error)))

  committed-Handled :
      (db db' : Database W) (t : TxEnd W E) → HasIt db' → Keeps db' t → Handled db (committed db t)
  committed-Handled db db' (duplicate d) h k =
      inl (refl, ap (is_stored c event.platform_event_id) k ∙ h)
  committed-Handled db db' (stored d) h k =
      inl (refl, ap (is_stored c event.platform_event_id) k ∙ h)
  committed-Handled db db' (failed error) h k = inr (error, refl)

  handle_event-again :
      (ports : EffectPorts W E) (db : Database W)
      → HasIt db
      → handle_event ports logger workspace_id settings c id event db ≡ (db, none)
  unfolding handle_event event_body
  handle_event-again ports db h = rw h refl

  handle_event-Handled :
      (ports : EffectPorts W E) (db : Database W)
      → Handled db (handle_event ports logger workspace_id settings c id event db)
  unfolding handle_event event_body
  handle_event-Handled ports db =
      let added : Database W = record db {
        messages = db.messages ++ (c, event.platform_event_id) ∷ [];
      } in
      let kept = keep_token ports logger workspace_id settings c event added in
      let has : HasIt kept =
        ap (is_stored c event.platform_event_id) (keep_token-messages ports added)
        ∙ is_stored-append c event.platform_event_id db.messages in
      elim (Bool-cases (is_stored c event.platform_event_id db.messages)) [
        | inl e ↦ rw e (inl (refl, e))
        | inr e ↦ elim (Bool-cases (is_event event.kind)) [
          | inl k ↦ rw (e, k) (inl (refl, has))
          | inr k ↦
              rw (e, k)
                (committed-Handled db kept
                  (moved ports logger workspace_id settings c id event kept
                    (find_row c kept.conversations))
                  has (moved-Keeps ports kept (find_row c kept.conversations)))
        ]
      ]

  -- The job's attempts at the event, each with ports of its own.
  unfoldable pub attempt_all : List (EffectPorts W E) → Database W → Database W
  attempt_all [] db = db
  attempt_all (ports ∷ rest) db =
      attempt_all rest (handle_event ports logger workspace_id settings c id event db).0

  attempts_idle :
      (attempts : List (EffectPorts W E)) (db : Database W)
      → HasIt db
      → attempt_all attempts db ≡ db
  unfolding attempt_all
  attempts_idle [] db h = refl
  attempts_idle (ports ∷ rest) db h = rw (handle_event-again ports db h) (attempts_idle rest db h)

  -- Whether an attempt succeeds, on the database as it is.
  abbrev pub Fails : Database W → EffectPorts W E → Type 0
  Fails db ports =
      (error : E) × ((handle_event ports logger workspace_id settings c id event db).1 ≡ some error)

  -- Either every attempt fails, or one is the first that does not.
  abbrev pub AllFail : Database W → List (EffectPorts W E) → Type 0
  AllFail db attempts = All (Fails db) attempts

  pub record FirstSuccess (attempts : List (EffectPorts W E)) (db : Database W) : Type 0 where
    pub failed : List (EffectPorts W E)
    pub ports : EffectPorts W E
    pub later : List (EffectPorts W E)
    pub split : attempts ≡ failed ++ ports ∷ later
    pub earlier : AllFail db failed
    pub succeeds : (handle_event ports logger workspace_id settings c id event db).1 ≡ none

  -- An event that is tried any number of times, with ports that may fail at any call: either every
  -- attempt fails, and nothing changes, or all the attempts together change exactly what the first
  -- of them that succeeds changes when it is made alone.
  pub event_once :
      (attempts : List (EffectPorts W E)) (db : Database W)
      → (AllFail db attempts × (attempt_all attempts db ≡ db))
        ⊎ ((first : FirstSuccess attempts db) × (attempt_all attempts db
              ≡ (handle_event first.ports logger workspace_id settings c id event db).0))
  unfolding attempt_all
  event_once [] db = inl (tt, refl)
  event_once (ports ∷ rest) db = elim (handle_event-Handled ports db) [
    | inl (done, has) ↦ inr (
      record {
        failed = [];
        ports = ports;
        later = rest;
        split = refl;
        earlier = tt;
        succeeds = done;
      },
      attempts_idle rest _ has,
    )
    | inr (error, e) ↦
        let fails : Fails db ports = (error, ap (λ o. o.1) e) in
        elim (event_once rest db) [
          | inl (all_fail, same) ↦ inl ((fails, all_fail), rw e same)
          | inr (first, same) ↦ inr (
            record {
              failed = ports ∷ first.failed;
              ports = first.ports;
              later = first.later;
              split = ap (◌∷◌ ports) first.split;
              earlier = (fails, first.earlier);
              succeeds = first.succeeds;
            },
            rw e same,
          )
        ]
  ]
