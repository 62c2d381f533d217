-- ===== src/Redaction/Tests.antt =====
-- Messages that hold numbers (packages/core/src/redaction/redact.ts).
use chatbot_integration.Prelude.{ℕ, ◌≡◌, refl, true, false, List, [], ◌∷◌, ◌++◌, arith}
use chatbot_integration.Text.{codes, is_space}
use chatbot_integration.Redaction.{
  redact_text, redact_from, match_run, longest_middle, is_middle, replacement, is_luhn_valid,
  is_thai_national_id, looks_like_card_number, luhn_from, luhn_value, mask, bump, default_redaction,
  card_number, RedactionType,
}
use chatbot_integration.Redaction.Luhn.{Slip, luhn_detects}
use chatbot_integration.Redaction.Cards.{card_mark, redact_text_card}

abbrev card : List ℕ
card = codes "4111111111111111"

card_valid :
    (is_luhn_valid card ≡ true)
    × (looks_like_card_number card ≡ true)
    × (is_thai_national_id card ≡ false)
unfolding is_luhn_valid luhn_from luhn_value looks_like_card_number is_thai_national_id
card_valid = (refl, refl, refl)

spaced :
    redact_text (codes "ID 1-1017-00203-45-0, card 4111 1111 1111 1111.") default_redaction
    ≡ record {
      text =
          codes "ID "
          ++ (mask (codes "thai id") (codes "1101700203450")
              ++ (codes ", card " ++ (mask (codes "card") card ++ codes ".")));
      findings = (RedactionType.thai_national_id, 1) ∷ (card_number, 1) ∷ [];
    }
unfolding is_space redact_text redact_from match_run longest_middle is_middle replacement
    is_luhn_valid luhn_from luhn_value looks_like_card_number is_thai_national_id mask bump
spaced = refl

redact_text_card_example :
    (redact_text (codes "Card " ++ (card ++ codes ", ok")) default_redaction).text
    ≡ codes "Card "
      ++ (card_mark default_redaction (codes "1111")
          ++ (redact_text (codes ", ok") default_redaction).text)
redact_text_card_example =
    redact_text_card default_redaction (codes "Card ") (codes "411111111111") (codes "1111")
      (codes ", ok") refl refl refl (unfold is_space in refl) refl card_valid.1 card_valid.0
      card_valid.2

luhn_detects_example : is_luhn_valid (b'1' ∷ b'4' ∷ codes "11111111111111") ≡ false
luhn_detects_example =
    luhn_detects (codes "4111111111111111") (b'1' ∷ b'4' ∷ codes "11111111111111")
      (Slip.swapped_digits [] (codes "11111111111111") b'4' b'1' (λ e. omega arith)
        (λ h. ground arith))
      card_valid.0
