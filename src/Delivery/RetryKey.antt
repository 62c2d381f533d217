-- ===== src/Delivery/RetryKey.antt =====
-- The key under which a platform may refuse a repeated send: `retryKeyFor` of
-- apps/worker/src/processors/outbound.ts. A text is the list of its code units.
pub mod Distinct
mod Tests
use chatbot_integration.Prelude.{
  ℕ, zero, suc, ◌+◌, ◌-◌, ◌/◌, ◌%◌, List, [], ◌∷◌, ◌++◌, if◌then◌else◌, ltb, length, take,
}

pub hex_digit : ℕ → ℕ
hex_digit d = if ltb d 10 then b'0' + d else b'a' + (d - 10)

-- `toString(16)`, before the digits that are written already.
pub hex_before : (fuel n : ℕ) → List ℕ → List ℕ
hex_before zero n digits = digits
hex_before (suc fuel) n digits =
    let more = hex_before fuel (n / 16) (hex_digit (n % 16) ∷ digits) in
    if ltb n 16 then hex_digit n ∷ digits else more

pub padding : ℕ → List ℕ
padding zero = []
padding (suc n) = b'0' ∷ padding n

pub retry_key_for : (message_id : List ℕ) (part : ℕ) → List ℕ
retry_key_for message_id part =
    let hex = hex_before (suc part) part [] in
    take (length message_id - 4) message_id ++ (padding (4 - length hex) ++ hex)
