-- ===== src/Delivery/Receipts/Order.antt =====
-- Receipts arrive in any order, and more than once: packages/infra/src/receipts.ts.
use chatbot_integration.Prelude.{
  ◌≡◌, refl, false, List, [], ◌∷◌, arith, map, Bool-cases, inl, inr, ◌==◌, keep,
}
use chatbot_integration.Delivery.{Message}
use chatbot_integration.Delivery.Receipts.{ReceiptInput, raise, apply_receipt, is_covered}

raise-commutes : (i j : ReceiptInput) (m : Message) → raise i (raise j m) ≡ raise j (raise i m)
unfolding raise
raise-commutes i j m = ground arith

raise_again :
    (i : ReceiptInput) (m : Message)
    → (raise i (raise i m) ≡ raise i m) × (is_covered i (raise i m) ≡ false)
unfolding raise
raise_again i m = ground arith

map-raise-commutes :
    (i j : ReceiptInput) (messages : List Message)
    → map (raise i) (map (raise j) messages) ≡ map (raise j) (map (raise i) messages)
map-raise-commutes i j [] = refl
map-raise-commutes i j (m ∷ ms) = rw (raise-commutes i j m, map-raise-commutes i j ms) refl

keep-raise :
    (i : ReceiptInput) (messages : List Message)
    → (map (raise i) (map (raise i) messages) ≡ map (raise i) messages)
      × (keep (is_covered i) (map (raise i) messages) ≡ [])
keep-raise i [] = (refl, refl)
keep-raise i (m ∷ ms) =
    let (same, none_left) = keep-raise i ms in
    let (once, spent) = raise_again i m in (rw (once, same) refl, rw (spent, none_left) refl)

apply_receipt-commutes :
    (i j : ReceiptInput) (messages : List Message)
    → (apply_receipt i (apply_receipt j messages).0).0
      ≡ (apply_receipt j (apply_receipt i messages).0).0
unfolding apply_receipt
apply_receipt-commutes i j messages = elim (Bool-cases (i.watermark == 0)) [
  | inl a ↦ rw a refl
  | inr a ↦ elim (Bool-cases (j.watermark == 0)) [
    | inl b ↦ rw (a, b) refl
    | inr b ↦ rw (a, b) (map-raise-commutes i j messages)
  ]
]

apply_receipt_again :
    (i : ReceiptInput) (messages : List Message)
    → apply_receipt i (apply_receipt i messages).0 ≡ ((apply_receipt i messages).0, 0)
unfolding apply_receipt
apply_receipt_again i messages = elim (Bool-cases (i.watermark == 0)) [
  | inl a ↦ rw a refl
  | inr a ↦ let (same, none_left) = keep-raise i messages in rw (a, same, none_left) refl
]

-- Two receipts, whatever their kinds, conversations and watermarks, leave the messages the same in
-- either order, and one that arrives again changes no message and counts none.
pub receipts_settle :
    (i j : ReceiptInput) (messages : List Message)
    → ((apply_receipt i (apply_receipt j messages).0).0
        ≡ (apply_receipt j (apply_receipt i messages).0).0)
      × (apply_receipt i (apply_receipt i messages).0 ≡ ((apply_receipt i messages).0, 0))
receipts_settle i j messages = (apply_receipt-commutes i j messages, apply_receipt_again i messages)
