-- ===== src/Idle.antt =====
-- Closing conversations that the customer has left: packages/infra/src/idle-resolve.ts. Ids of
-- messages are time-ordered, so they are numbers here; `between` is what other requests do before
-- the transaction of each candidate.
pub mod Rows
pub mod Last
pub mod Left
pub mod Pass
pub mod Ties
mod Tests
use Prim.Native.String
use chatbot_integration.Prelude.{
  ℕ, suc, ◌+◌, ◌-◌, ◌*◌, String, Bool, true, false, ◌&&◌, ◌||◌, Option, none, some, List, [], ◌∷◌,
  ◌++◌, any, map, keep, if◌then◌else◌, ltb, leb, ◌==◌, str_eq, not,
}
use chatbot_integration.Conversation.{
  ConversationMode, ConversationStatus, HandoffReason, ai, ai_supervised, «open», resolved, Effect,
  add_internal_note, PartialOptions, set_status, transition, ConversationState,
}
use chatbot_integration.Delivery.{SenderType}
use chatbot_integration.Effects.{EffectContext, EffectPorts, Logger, apply_effects}
use chatbot_integration.Ports.Jobs.{decimal}

pub record IdleMessage : Type 0 where
  pub id : ℕ
  pub workspace_id : String
  pub conversation_id : String
  pub sender_type : SenderType
  pub is_event : Bool
  pub created_at : ℕ

pub record IdleConversation : Type 0 where
  pub id : String
  pub workspace_id : String
  pub mode : ConversationMode
  pub status : ConversationStatus
  pub assignee_user_id : Option String
  pub handoff_reason : Option HandoffReason
  pub updated_at : ℕ

-- `promised` is what the effect ports write, and `published` the conversations announced.
pub record IdleDb (W : Type 0) : Type 0 where
  pub conversations : List IdleConversation
  pub messages : List IdleMessage
  pub promised : W
  pub published : List String

pub record Candidate : Type 0 where
  pub id : String
  pub last_message_id : ℕ

-- The messages of a conversation that are no events.
abbrev pub in_thread : (workspace_id conversation_id : String) → IdleMessage → Bool
in_thread workspace_id conversation_id m =
    str_eq m.conversation_id conversation_id
    && (str_eq m.workspace_id workspace_id && not m.is_event)

-- `order by created_at desc, id desc`.
abbrev pub is_after : IdleMessage → IdleMessage → Bool
is_after m n = ltb n.created_at m.created_at || ((m.created_at == n.created_at) && ltb n.id m.id)

pub last_of : List IdleMessage → Option IdleMessage
last_of [] = none
last_of (m ∷ ms) = elim (last_of ms) [
  | none ↦ some m
  | some n ↦ some (if is_after m n then m else n)
]

abbrev pub is_ours : SenderType → Bool
is_ours SenderType.ai = true
is_ours SenderType.human = true
is_ours _ = false

abbrev pub is_ai_mode : ConversationMode → Bool
is_ai_mode ai = true
is_ai_mode ai_supervised = true
is_ai_mode _ = false

abbrev pub is_open : ConversationStatus → Bool
is_open «open» = true
is_open _ = false

abbrev pub cutoff_of : (now hours : ℕ) → ℕ
cutoff_of now hours = now - hours * 60 * 60 * 1000

-- Ours was the last word, and before the cutoff.
unfoldable pub idle_since :
    (cutoff : ℕ) (workspace_id id : String) → List IdleMessage → Option IdleMessage
unfolding last_of
idle_since cutoff workspace_id id messages =
    elim (last_of (keep (in_thread workspace_id id) messages)) [
      | none ↦ none
      | some last ↦
          if is_ours last.sender_type && ltb last.created_at cutoff then some last else none
    ]

-- The conversation's own part of the rule, which the search and the close share.
abbrev pub is_resolvable : (workspace_id : String) → IdleConversation → Bool
is_resolvable workspace_id c =
    str_eq c.workspace_id workspace_id && (is_open c.status && is_ai_mode c.mode)

unfoldable pub find_among :
    (cutoff : ℕ) (workspace_id : String) → List IdleMessage → List IdleConversation → List Candidate
find_among cutoff workspace_id messages [] = []
find_among cutoff workspace_id messages (c ∷ cs) =
    let rest = find_among cutoff workspace_id messages cs in
    elim (idle_since cutoff workspace_id c.id messages) [
      | none ↦ rest
      | some last ↦
          if is_resolvable workspace_id c
          then record { id = c.id; last_message_id = last.id } ∷ rest
          else rest
    ]

abbrev pub find_idle_conversations :
    {W : Type 0} (workspace_id : String) (hours now : ℕ) → IdleDb W → List Candidate
find_idle_conversations workspace_id hours now db =
    find_among (cutoff_of now hours) workspace_id db.messages db.conversations

-- `select created_at … where id = …`.
pub created_at_of : (workspace_id : String) (id : ℕ) → List IdleMessage → Option ℕ
created_at_of workspace_id id [] = none
created_at_of workspace_id id (m ∷ ms) =
    if (m.id == id) && str_eq m.workspace_id workspace_id
    then some m.created_at
    else created_at_of workspace_id id ms

-- Whether another message stands at or after the one that the search found.
unfoldable pub is_answered : (workspace_id : String) → Candidate → List IdleMessage → Bool
unfolding created_at_of
is_answered workspace_id candidate messages =
    elim (created_at_of workspace_id candidate.last_message_id messages) [
      | none ↦ false
      | some at ↦
          any
            (λ m.
              in_thread workspace_id candidate.id m
              && (not (m.id == candidate.last_message_id) && leb at m.created_at))
            messages
    ]

abbrev pub closes : (workspace_id : String) → Candidate → List IdleMessage → IdleConversation → Bool
closes workspace_id candidate messages c =
    str_eq c.id candidate.id
    && (is_resolvable workspace_id c && not (is_answered workspace_id candidate messages))

abbrev pub closed : (now : ℕ) → IdleConversation → IdleConversation
closed now c = record c { status = resolved; updated_at = now }

pub first_row : List IdleConversation → Option IdleConversation
first_row [] = none
first_row (c ∷ cs) = some c

abbrev pub no_options : PartialOptions
no_options = record { waiting_human_fallback_minutes = none; handoff_on_unsupported_media = none }

unfoldable pub resolve_note : (hours : ℕ) → String
resolve_note hours =
    String.◌++◌ "Resolved automatically: no reply from the customer for "
      (String.◌++◌ (decimal hours) " hours after our last message.")

module _ {W E : Type 0} (ports : EffectPorts W E) (logger : Logger W E) (workspace_id : String)
    (hours now : ℕ) where
  abbrev pub context : (conversation_id : String) → EffectContext
  context conversation_id = record {
    workspace_id = workspace_id;
    conversation_id = conversation_id;
    trigger_message_id = none;
    turn_key = none;
  }

  abbrev pub effects_of : IdleConversation → List Effect
  effects_of c =
      add_internal_note (resolve_note hours)
      ∷ (transition
          (record {
            mode = c.mode;
            status = «open»;
            assignee_user_id = c.assignee_user_id;
            waiting_human_since = none;
            handoff_reason = c.handoff_reason;
          })
          (set_status now resolved) no_options).effects

  -- How the transaction of one candidate ends; what fails is rolled back.
  abbrev pub committed :
      Candidate → IdleDb W → IdleDb W → W × Option E → IdleDb W × (Bool × Option E)
  committed candidate before db (promised, none) = (
    record db { promised = promised; published = db.published ++ candidate.id ∷ [] },
    (true, none),
  )
  committed candidate before db (promised, some error) = (before, (false, some error))

  unfoldable pub resolve_one : Candidate → IdleDb W → IdleDb W × (Bool × Option E)
  unfolding first_row
  resolve_one candidate db =
      let closing = closes workspace_id candidate db.messages in
      elim (first_row (keep closing db.conversations)) [
        | none ↦ (db, (false, none))
        | some row ↦
            committed candidate db
              (record db {
                conversations = map (λ c. if closing c then closed now c else c) db.conversations;
              })
              (apply_effects ports logger (context candidate.id) (effects_of row) db.promised)
      ]

  module _ (between : Candidate → IdleDb W → IdleDb W) where
    -- The loop, with the number of conversations it closed, until a transaction throws.
    unfoldable pub resolve_all : List Candidate → (count : ℕ) → IdleDb W → IdleDb W × (ℕ × Option E)
    resolve_all [] count db = (db, (count, none))
    resolve_all (candidate ∷ candidates) count db =
        let (db', (closed, error)) = resolve_one candidate (between candidate db) in
        elim error [
          | some e ↦ (db', (count, some e))
          | none ↦ resolve_all candidates (if closed then count + 1 else count) db'
        ]

    pub resolve_idle_conversations : IdleDb W → IdleDb W × (ℕ × Option E)
    resolve_idle_conversations db =
        resolve_all (find_idle_conversations workspace_id hours now db) 0 db
