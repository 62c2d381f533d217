-- ===== src/Delivery/Outbound/Guards.antt =====
-- What delivery refuses to send: apps/worker/src/processors/outbound.ts, with the receipts of
-- packages/infra/src/receipts.ts.
use chatbot_integration.Prelude.{
  String, true, false, ◌≡◌, ap, ◌∙◌, refl, none, some, arith, Bool-cases, inl, inr,
}
use chatbot_integration.Conversation.{ai_may_send}
use chatbot_integration.Delivery.{Message, queued, canceled, ai}
use chatbot_integration.Delivery.Receipts.{ReceiptInput, raise, is_covered, receipt_status, Receipt}
use chatbot_integration.Delivery.Outbound.{
  Adapter, Reads, World, Conversation, returned, is_settled, process_outbound, process_message,
  claim_token,
}

receipt_status_settled : (receipt : Receipt) → is_settled (receipt_status receipt) ≡ true
receipt_status_settled Receipt.delivered = refl
receipt_status_settled Receipt.read = refl

module _ {S : Type 0} (adapter : Adapter S) (reads : Reads) where
  -- A message that is sent, delivered, read, withdrawn or possibly delivered is not sent again: the
  -- job ends with nothing changed, the platform included.
  settled_not_resent :
      (m : Message) (w : World S)
      → w.message ≡ some m
      → is_settled m.status ≡ true
      → process_outbound adapter reads w ≡ returned w
  unfolding process_outbound process_message
  settled_not_resent m w found settled = elim (Bool-cases reads.is_workable) [
    | inr idle ↦ rw idle
    | inl work ↦ rw (work, found, settled)
  ]

  -- An AI reply that waits in the queue while a human takes the conversation over never reaches
  -- the platform: it is canceled, with the conversation and its reply token left alone.
  overtaken_not_sent :
      (m : Message) (c : Conversation) (w : World S)
      → reads.is_workable ≡ true
      → w.message ≡ some m
      → w.conversation ≡ some c
      → m.sender_type ≡ ai
      → is_settled m.status ≡ false
      → ai_may_send c.mode ≡ false
      → process_outbound adapter reads w
        ≡ returned (record w {
          message = some (record m {
            status = canceled;
            error = some "A colleague took over before this was delivered";
          });
        })
  unfolding process_outbound process_message
  overtaken_not_sent m c w work found held sender pending overtaken =
      rw (work, found, pending, held, sender, overtaken)

  -- A queued message that a receipt's watermark covers is raised as if it had been sent, and is
  -- then never sent: the job that was to deliver it ends with nothing changed.
  pub receipt_swallows_queued :
      (input : ReceiptInput) (m : Message) (w : World S)
      → m.status ≡ queued
      → is_covered input m ≡ true
      → w.message ≡ some (raise input m)
      → ((raise input m).status ≡ receipt_status input.receipt)
        × (process_outbound adapter reads w ≡ returned w)
  unfolding raise
  receipt_swallows_queued input m w waiting covered found =
      let raised : (raise input m).status ≡ receipt_status input.receipt = rw covered in
      (
        raised,
        settled_not_resent (raise input m) w found
            (ap is_settled raised ∙ receipt_status_settled input.receipt),
      )

-- Of two jobs that read one reply token, whichever comes second claims nothing.
claim_once :
    (token other : String) (c : Conversation)
    → (claim_token token c).1 ≡ some token
    → (claim_token other (claim_token token c).0).1 ≡ none
unfolding claim_token
claim_once token other c h = ground arith
