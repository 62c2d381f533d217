-- ===== src/Inbound.antt =====
-- The inbound processor, which turns a stored webhook payload into conversation state:
-- apps/worker/src/processors/inbound.ts. Parsing a payload, resolving its conversation and applying
-- a receipt are parameters; a transaction that fails leaves the database as it was.
pub mod Once
pub mod Silence
pub mod Job
mod Tests
use chatbot_integration.Prelude.{
  ℕ, ◌+◌, String, Bool, true, false, ◌&&◌, ◌||◌, not, List, [], ◌∷◌, ◌++◌, Option, none, some, any,
  str_eq, if◌then◌else◌, ◌==◌,
}
use chatbot_integration.Conversation.{
  ConversationState, ConversationEvent, customer_message, Effect, PartialOptions, transition,
  apply_patch,
}
use chatbot_integration.Effects.{EffectContext, EffectPorts, Logger, apply_effects}

-- The kinds of a normalised message that the processor tells apart.
pub data InboundKind : Type 0 where
  text image file audio video sticker location : InboundKind
  receipt : (watermark : ℕ) → InboundKind
  channel_event : InboundKind

pub record PlatformEvent : Type 0 where
  pub external_id : String
  pub platform_event_id : String
  pub timestamp : ℕ
  pub kind : InboundKind
  pub reply_token : Option String

pub record ConversationRow : Type 0 where
  pub state : ConversationState
  pub reply_token : Option String
  pub reply_token_expires_at : Option ℕ

-- The rows that an event's transaction reads and writes: the messages, each by its conversation and
-- its platform's id, the conversations, and in `promised` all that the ports write.
pub record Database (W : Type 0) : Type 0 where
  pub messages : List (String × String)
  pub conversations : List (String × ConversationRow)
  pub promised : W

abbrev pub reply_token_ttl : ℕ
reply_token_ttl = 55000

-- The unique index on (conversation, platform id).
abbrev pub is_stored : (conversation_id platform_event_id : String) → List (String × String) → Bool
is_stored c p messages = any (λ m. str_eq m.0 c && str_eq m.1 p) messages

pub find_row : String → List (String × ConversationRow) → Option ConversationRow
find_row c [] = none
find_row c ((k, row) ∷ rows) = let rest = find_row c rows in if str_eq k c then some row else rest

pub set_row :
    String
    → (ConversationRow → ConversationRow)
    → List (String × ConversationRow)
    → List (String × ConversationRow)
set_row c f [] = []
set_row c f ((k, row) ∷ rows) = (k, if str_eq k c then f row else row) ∷ set_row c f rows

abbrev pub is_event : InboundKind → Bool
is_event (receipt watermark) = true
is_event channel_event = true
is_event _ = false

abbrev pub is_uninterpretable : (vision_configured : Bool) → InboundKind → Bool
is_uninterpretable vision file = true
is_uninterpretable vision audio = true
is_uninterpretable vision video = true
is_uninterpretable vision image = not vision
is_uninterpretable vision _ = false

-- How the transaction of one event ends.
pub data TxEnd (W E : Type 0) : Type 0 where
  duplicate stored : Database W → TxEnd W E
  failed : (error : E) → TxEnd W E

-- What the transaction leaves: its work, or nothing of it.
abbrev pub committed : {W E : Type 0} → Database W → TxEnd W E → Database W × Option E
committed db (duplicate db') = (db', none)
committed db (stored db') = (db', none)
committed db (failed error) = (db, some error)

pub record Settings : Type 0 where
  pub waiting_human_fallback_minutes : Option ℕ
  pub vision_configured : Bool

module _ {W E : Type 0} (ports : EffectPorts W E) (logger : Logger W E) (workspace_id : String)
    (settings : Settings) where
  keep_token : String → PlatformEvent → Database W → Database W
  keep_token c event db = elim event.reply_token [
    | none ↦ db
    | some token ↦ record db {
      conversations =
          set_row c
            (λ row. record row {
              reply_token = some token;
              reply_token_expires_at = some (event.timestamp + reply_token_ttl);
            })
            db.conversations;
    }
  ]

  pub inbound_options : PartialOptions
  inbound_options = record {
    waiting_human_fallback_minutes = some settings.waiting_human_fallback_minutes;
    handoff_on_unsupported_media = some true;
  }

  pub context : (conversation_id message_id : String) → EffectContext
  context c id = record {
    workspace_id = workspace_id;
    conversation_id = c;
    trigger_message_id = some id;
    turn_key = none;
  }

  -- `applyEffects` inside the transaction.
  finish : Database W → W × Option E → TxEnd W E
  finish db (promised, none) = stored (record db { promised = promised })
  finish db (promised, some error) = failed error

  -- The state machine's step for a customer message, and what follows from it.
  pub moved :
      (conversation_id message_id : String)
      → PlatformEvent
      → Database W
      → Option ConversationRow
      → TxEnd W E
  unfolding finish inbound_options context
  moved c id event db none = stored db
  moved c id event db (some row) =
      let result =
        transition row.state
          (customer_message event.timestamp
            (is_uninterpretable settings.vision_configured event.kind))
          inbound_options in
      finish
        (record db {
          conversations =
              set_row c (λ r. record r { state = apply_patch r.state result.patch })
                db.conversations;
        })
        (apply_effects ports logger (context c id) result.effects db.promised)

  -- The body of the transaction: `id` is the id that a new message takes.
  pub event_body : (conversation_id message_id : String) → PlatformEvent → Database W → TxEnd W E
  unfolding keep_token moved
  event_body c id event db =
      if is_stored c event.platform_event_id db.messages
      then duplicate db
      else (let db' =
            keep_token c event
              (record db { messages = db.messages ++ (c, event.platform_event_id) ∷ [] }) in
          if is_event event.kind
          then stored db'
          else moved c id event db' (find_row c db'.conversations))

  pub handle_event :
      (conversation_id message_id : String) → PlatformEvent → Database W → Database W × Option E
  unfolding event_body
  handle_event c id event db = committed db (event_body c id event db)
