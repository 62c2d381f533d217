-- ===== src/Delivery/RetryKey/Distinct.antt =====
-- Each part has a key of its own: apps/worker/src/processors/outbound.ts.
use chatbot_integration.Prelude.{
  ℕ, zero, suc, ◌+◌, ◌-◌, ◌*◌, ◌/◌, ◌%◌, ◌≡◌, ◌≢◌, ◌<◌, refl, sym, ap, ◌∙◌, List, [], ◌∷◌, ◌++◌,
  if◌then◌else◌, ltb, length, take, cut_left, arith, dec_lt, true, false,
}
use chatbot_integration.Delivery.RetryKey.{hex_digit, hex_before, padding, retry_key_for}

digit_value : ℕ → ℕ
digit_value c = if ltb c b'a' then c - b'0' else c - b'a' + 10

-- The number that a text of hexadecimal digits goes on to write after `n`.
value_from : ℕ → List ℕ → ℕ
unfolding digit_value
value_from n [] = n
value_from n (c ∷ s) = value_from (n * 16 + digit_value c) s

digit_value-hex_digit : (d : ℕ) → d < 16 → digit_value (hex_digit d) ≡ d
unfolding digit_value hex_digit
digit_value-hex_digit d h = ground arith

value_from-hex_before :
    (fuel n : ℕ) (digits : List ℕ)
    → n < fuel
    → value_from 0 (hex_before fuel n digits) ≡ value_from n digits
unfolding value_from hex_before
value_from-hex_before zero n digits h = absurd (omega arith)
value_from-hex_before (suc fuel) n digits h = elim (dec_lt n 16) [
  | yes small ↦
      let first : ltb n 16 ≡ true = ground arith in
      let same : 0 * 16 + digit_value (hex_digit n) ≡ n =
        omega (arith, digit_value-hex_digit n small) in
      rw first (ap (λ k. value_from k digits) same)
  | no large ↦
      let first : ltb n 16 ≡ false = ground arith in
      let same : n / 16 * 16 + digit_value (hex_digit (n % 16)) ≡ n =
        omega (arith, digit_value-hex_digit (n % 16) (omega arith)) in
      rw first (
        value_from-hex_before fuel (n / 16) (hex_digit (n % 16) ∷ digits) (omega arith)
        ∙ ap (λ k. value_from k digits) same)
]

value_from-padding : (n : ℕ) (s : List ℕ) → value_from 0 (padding n ++ s) ≡ value_from 0 s
unfolding value_from padding digit_value
value_from-padding zero s = refl
value_from-padding (suc n) s = value_from-padding n s

abbrev written : ℕ → List ℕ
written n = hex_before (suc n) n []

decoded : (n : ℕ) → value_from 0 (padding (4 - length (written n)) ++ written n) ≡ n
unfolding value_from
decoded n =
    value_from-padding (4 - length (written n)) (written n)
    ∙ value_from-hex_before (suc n) n [] (omega arith)

retry_key_for-injective :
    (message_id : List ℕ) (i j : ℕ)
    → retry_key_for message_id i ≡ retry_key_for message_id j
    → i ≡ j
unfolding retry_key_for
retry_key_for-injective message_id i j e =
    sym (decoded i)
    ∙ ap (value_from 0) (cut_left (take (length message_id - 4) message_id) _ _ e)
    ∙ decoded j

-- Two different parts of one message never share a key, so a platform that drops a repeated key drops no
-- part that was not sent.
retry_keys_differ :
    (message_id : List ℕ) (i j : ℕ)
    → i ≢ j
    → retry_key_for message_id i ≢ retry_key_for message_id j
retry_keys_differ message_id i j differ same = differ (retry_key_for-injective message_id i j same)
