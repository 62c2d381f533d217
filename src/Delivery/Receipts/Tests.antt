-- ===== src/Delivery/Receipts/Tests.antt =====
-- Receipts for a conversation of two messages (packages/infra/src/receipts.ts).
use chatbot_integration.Prelude.{ℕ, ◌≡◌, refl, List, [], ◌∷◌, none}
use chatbot_integration.Text.{codes}
use chatbot_integration.Delivery.{Message, MessageStatus, sent, ai, outbound, text}
use chatbot_integration.Delivery.Receipts.{Receipt, ReceiptInput, apply_receipt, raise}
use chatbot_integration.Delivery.Receipts.Order.{receipts_settle}

abbrev message_at : ℕ → MessageStatus → Message
message_at created_at status = record {
  id = "m";
  workspace_id = "w";
  conversation_id = "c";
  direction = outbound;
  sender_type = ai;
  status = status;
  created_at = created_at;
  content = text (codes "Hello");
  sent_parts = 1;
  platform_message_id = none;
  platform_message_ids = [];
  error = none;
  sent_at = none;
}

abbrev receipt_at : ℕ → Receipt → ReceiptInput
receipt_at watermark receipt = record {
  workspace_id = "w";
  conversation_id = "c";
  receipt = receipt;
  watermark = watermark;
}

abbrev two_sent : List Message
two_sent = message_at 10 sent ∷ message_at 20 sent ∷ []

abbrev two_raised : List Message
two_raised = message_at 10 MessageStatus.read ∷ message_at 20 MessageStatus.delivered ∷ []

read_first :
    apply_receipt
      (receipt_at 20 Receipt.delivered)
      (apply_receipt (receipt_at 10 Receipt.read) two_sent).0
    ≡ (two_raised, 1)
unfolding apply_receipt raise
read_first = refl

receipts_settle_example :
    ((apply_receipt
        (receipt_at 20 Receipt.delivered)
        (apply_receipt (receipt_at 10 Receipt.read) two_sent).0).0
      ≡ (apply_receipt
          (receipt_at 10 Receipt.read)
          (apply_receipt (receipt_at 20 Receipt.delivered) two_sent).0).0)
    × (apply_receipt
          (receipt_at 20 Receipt.delivered)
          (apply_receipt (receipt_at 20 Receipt.delivered) two_sent).0
        ≡ ((apply_receipt (receipt_at 20 Receipt.delivered) two_sent).0, 0))
receipts_settle_example =
    receipts_settle (receipt_at 20 Receipt.delivered) (receipt_at 10 Receipt.read) two_sent
