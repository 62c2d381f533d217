-- ===== src/Delivery.antt =====
-- Delivering a stored message, and the receipts that come back:
-- apps/worker/src/processors/outbound.ts and packages/infra/src/receipts.ts, with the enums of
-- packages/shared/src/conversation.ts.
pub mod Outbound
pub mod Receipts
pub mod RetryKey
use chatbot_integration.Prelude.{ℕ, String, Option, List}

pub data MessageStatus : Type 0 where
  queued sent delivered read failed canceled uncertain : MessageStatus

pub data MessageDirection : Type 0 where
  inbound outbound : MessageDirection

pub data SenderType : Type 0 where
  customer ai human system : SenderType

-- The kinds that delivery tells apart: text, a message that carries files, and any other. A text is
-- its code units; the content of the others is opaque here.
pub data NormalizedMessage : Type 0 where
  text : List ℕ → NormalizedMessage
  media : String → NormalizedMessage
  other : String → NormalizedMessage

pub record Message : Type 0 where
  pub id : String
  pub workspace_id : String
  pub conversation_id : String
  pub direction : MessageDirection
  pub sender_type : SenderType
  pub status : MessageStatus
  pub created_at : ℕ
  pub content : NormalizedMessage
  pub sent_parts : ℕ
  pub platform_message_id : Option String
  pub platform_message_ids : List String
  pub error : Option String
  pub sent_at : Option ℕ
