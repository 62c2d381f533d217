-- ===== src/Delivery/Receipts.antt =====
-- Delivery and read receipts: packages/infra/src/receipts.ts.
pub mod Order
mod Tests
use chatbot_integration.Prelude.{
  ℕ, String, Bool, true, false, ◌&&◌, List, Option, none, some, leb, ltb, ◌==◌, str_eq,
  if◌then◌else◌, map, keep, length,
}
use chatbot_integration.Delivery.{
  Message, MessageStatus, queued, sent, failed, outbound, inbound, MessageDirection,
}

pub data Receipt : Type 0 where
  delivered read : Receipt

-- A watermark that is not finite or not positive is 0 here.
pub record ReceiptInput : Type 0 where
  pub workspace_id : String
  pub conversation_id : String
  pub receipt : Receipt
  pub watermark : ℕ

-- `RANK`; `canceled` and `uncertain` have no entry.
abbrev pub rank : MessageStatus → Option ℕ
rank queued = some 0
rank sent = some 1
rank MessageStatus.delivered = some 2
rank MessageStatus.read = some 3
rank failed = some 0
rank _ = none

abbrev pub receipt_status : Receipt → MessageStatus
receipt_status Receipt.delivered = MessageStatus.delivered
receipt_status Receipt.read = MessageStatus.read

abbrev pub receipt_rank : Receipt → ℕ
receipt_rank Receipt.delivered = 2
receipt_rank Receipt.read = 3

-- Whether `weaker` holds the status.
abbrev pub is_weaker : Receipt → MessageStatus → Bool
is_weaker receipt failed = false
is_weaker receipt status = elim (rank status) [
  | none ↦ false
  | some r ↦ ltb r (receipt_rank receipt)
]

abbrev pub is_outbound : MessageDirection → Bool
is_outbound outbound = true
is_outbound inbound = false

-- The update's condition.
abbrev pub is_covered : ReceiptInput → Message → Bool
is_covered input m =
    str_eq m.workspace_id input.workspace_id
    && (str_eq m.conversation_id input.conversation_id
        && (is_outbound m.direction
            && (leb m.created_at input.watermark && is_weaker input.receipt m.status)))

unfoldable pub raise : ReceiptInput → Message → Message
raise input m = if is_covered input m then record m { status = receipt_status input.receipt } else m

unfoldable pub apply_receipt : ReceiptInput → List Message → List Message × ℕ
apply_receipt input messages =
    if input.watermark == 0
    then (messages, 0)
    else (map (raise input) messages, length (keep (is_covered input) messages))
