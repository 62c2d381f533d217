-- ===== src/Delivery/Outbound/Types.antt =====
-- What the outbound processor reads, asks and answers: apps/worker/src/processors/outbound.ts.
use chatbot_integration.Prelude.{ℕ, String, Bool, true, false, List, Option}
use chatbot_integration.Conversation.{ConversationMode, Language}
use chatbot_integration.Delivery.{
  Message, MessageStatus, queued, failed, SenderType, ai, NormalizedMessage, text, media,
}

-- The columns of the conversation that delivery reads, with the customer's channel identity.
pub record Conversation : Type 0 where
  pub mode : ConversationMode
  pub reply_token : Option String
  pub reply_token_expires_at : Option ℕ
  pub messaging_window_expires_at : Option ℕ
  pub external_id : Option String

-- How a send ends: taken by the platform, refused, or possibly delivered
-- (`UncertainDeliveryError`).
pub data SendOutcome : Type 0 where
  taken : (platform_message_id : Option String) → SendOutcome
  refused maybe_delivered : (reason : String) → SendOutcome

pub record SendRequest : Type 0 where
  pub external_id : String
  pub part : NormalizedMessage
  pub index : ℕ
  pub messaging_window_expires_at : Option ℕ
  pub language : Option Language
  pub reply_token : Option String
  pub retry_key : List ℕ
  pub start_at : Option ℕ

-- A channel adapter over a platform's state. `units` are its calls of `onUnitSent`, in order.
pub record Adapter (S : Type 0) : Type 0 where
  pub max_text_length : ℕ
  pub send : SendRequest → S → S × SendOutcome
  pub units : SendRequest → S → List (ℕ × Option String)

-- What the processor finds and is configured with. A failure to load the channel or to make the
-- media links is the message of what is thrown.
pub record Reads : Type 0 where
  pub is_workable : Bool
  pub channel_failure : Option String
  pub links_failure : Option String
  pub with_media_links : NormalizedMessage → NormalizedMessage
  pub customer_language : Language
  pub now : ℕ
  pub final_attempt : Bool

pub record World (S : Type 0) : Type 0 where
  pub message : Option Message
  pub conversation : Option Conversation
  pub platform : S

-- How the job ends. `hung` is a split that never returns, at a limit of zero.
pub data JobEnd (S : Type 0) : Type 0 where
  returned : World S → JobEnd S
  threw : World S → (reason : String) → JobEnd S
  hung : JobEnd S

abbrev pub is_settled : MessageStatus → Bool
is_settled queued = false
is_settled failed = false
is_settled _ = true

abbrev pub is_ai_sender : SenderType → Bool
is_ai_sender ai = true
is_ai_sender _ = false

abbrev pub is_text : NormalizedMessage → Bool
is_text (text t) = true
is_text _ = false

abbrev pub has_attachments : NormalizedMessage → Bool
has_attachments (media m) = true
has_attachments _ = false
