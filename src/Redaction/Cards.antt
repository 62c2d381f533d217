-- ===== src/Redaction/Cards.antt =====
-- A card number inside a text: packages/core/src/redaction/redact.ts.
use chatbot_integration.Prelude.{
  ℕ, zero, suc, ◌+◌, ◌-◌, ◌≡◌, refl, ap, ◌∙◌, Bool, true, false, List, [], ◌∷◌, ◌++◌, none, some,
  arith, length, length-append, take, drop, all, any, Option-cases, inl, inr,
}
use chatbot_integration.Text.{codes, is_digit}
use chatbot_integration.Redaction.{
  RedactionOptions, card_number, Findings, replacement, match_run, redact_from, redact_text,
  is_thai_national_id, is_luhn_valid, looks_like_card_number, record_found, mask, bump,
}
use chatbot_integration.Redaction.Runs.{
  breaks_run, no_run_char-digit, and_false, match_run-digits, digits_of-digits, take-length,
  luhn_length,
}

match_run-no_digit :
    (after_digit : Bool) (c : ℕ) (s : List ℕ)
    → is_digit c ≡ false
    → match_run after_digit (c ∷ s) ≡ none
unfolding match_run
match_run-no_digit true c s h = refl
match_run-no_digit false c s h = rw h refl

module _ (options : RedactionOptions) where
  skipped :
      (after_digit : Bool) (counts : Findings) (ds s : List ℕ)
      → breaks_run s ≡ true
      → redact_from options (length ds) after_digit counts (ds ++ s)
        ≡ redact_from options 0 false counts s
  unfolding redact_from
  skipped after_digit counts [] [] b = refl
  skipped true counts [] (c ∷ s) b =
      rw
        (
          match_run-no_digit true c s (no_run_char-digit c b),
          match_run-no_digit false c s (no_run_char-digit c b),
          redact_from,
        )
        refl
  skipped false counts [] (c ∷ s) b = refl
  skipped after_digit counts (d ∷ ds) s b = skipped (is_digit d) counts ds s b

  text_counts :
      (skip : ℕ) (after_digit : Bool) (m n : Findings) (s : List ℕ)
      → (redact_from options skip after_digit m s).text
        ≡ (redact_from options skip after_digit n s).text
  unfolding redact_from
  text_counts zero after_digit m n [] = refl
  text_counts (suc skip) after_digit m n [] = refl
  text_counts (suc skip) after_digit m n (c ∷ s) = text_counts skip (is_digit c) m n s
  text_counts zero after_digit m n (c ∷ s) = elim (Option-cases (match_run after_digit (c ∷ s))) [
    | inl e ↦ rw (e, redact_from) (ap (◌∷◌ c) (text_counts 0 (is_digit c) m n s))
    | inr (k, e) ↦
        rw (e, redact_from)
          (ap (◌++◌ (replacement options (take k (c ∷ s))).0) (
            text_counts (k - 1) (is_digit c)
              (record_found (replacement options (take k (c ∷ s))).1 m)
              (record_found (replacement options (take k (c ∷ s))).1 n) s))
  ]

  passed :
      (before s : List ℕ) (counts : Findings)
      → any is_digit before ≡ false
      → (redact_from options 0 false counts (before ++ s)).text
        ≡ before ++ (redact_from options 0 false counts s).text
  unfolding redact_from
  passed [] s counts h = refl
  passed (c ∷ before) s counts h =
      let none_here : is_digit c ≡ false = ground arith in
      let none_later : any is_digit before ≡ false = ground arith in
      rw (match_run-no_digit false c (before ++ s) none_here, redact_from, none_here)
        (ap (◌∷◌ c) (passed before s counts none_later))

  replacement_card :
      (ds : List ℕ)
      → all is_digit ds ≡ true
      → options.card_numbers ≡ true
      → looks_like_card_number ds ≡ true
      → is_luhn_valid ds ≡ true
      → is_thai_national_id ds ≡ false
      → replacement options ds ≡ (mask (codes "card") ds, some card_number)
  unfolding replacement
  replacement_card ds h on looks valid other =
      rw (digits_of-digits ds h, other, and_false options.thai_national_id, on, looks, valid) refl

  card_here :
      (m d : ℕ) (ds s : List ℕ)
      → all is_digit (d ∷ ds) ≡ true
      → breaks_run s ≡ true
      → options.card_numbers ≡ true
      → looks_like_card_number (d ∷ ds) ≡ true
      → is_luhn_valid (d ∷ ds) ≡ true
      → is_thai_national_id (d ∷ ds) ≡ false
      → length ds ≡ suc m
      → (redact_from options 0 false [] (d ∷ (ds ++ s))).text
        ≡ mask (codes "card") (d ∷ ds) ++ (redact_from options 0 false [] s).text
  unfolding redact_from
  card_here m d ds s h b on looks valid other len =
      let (low, high) = luhn_length (d ∷ ds) valid in
      let whole : m + 2 ≡ length (d ∷ ds) = omega arith in
      let rest : length (d ∷ ds) - 1 ≡ length ds = omega arith in
      rw
        (
          match_run-digits m d ds s h b len (omega arith) (omega arith),
          redact_from,
          whole,
          take-length (d ∷ ds) s,
          replacement_card (d ∷ ds) h on looks valid other,
          rest,
          skipped (is_digit d) (bump card_number []) ds s b,
          text_counts 0 false (bump card_number []) [] s,
        )
        refl

  masked_text :
      (before ds after : List ℕ)
      → any is_digit before ≡ false
      → all is_digit ds ≡ true
      → breaks_run after ≡ true
      → options.card_numbers ≡ true
      → looks_like_card_number ds ≡ true
      → is_luhn_valid ds ≡ true
      → is_thai_national_id ds ≡ false
      → (redact_text (before ++ (ds ++ after)) options).text
        ≡ before ++ (mask (codes "card") ds ++ (redact_text after options).text)
  unfolding redact_text
  masked_text before [] after clear h b on looks valid other =
      absurd (omega (arith, luhn_length [] valid))
  masked_text before (d ∷ []) after clear h b on looks valid other =
      absurd (omega (arith, luhn_length (d ∷ []) valid))
  masked_text before (d ∷ e ∷ ds) after clear h b on looks valid other =
      passed before (d ∷ e ∷ ds ++ after) [] clear
      ∙ ap (◌++◌ before) (card_here (length ds) d (e ∷ ds) after h b on looks valid other refl)

  -- The mark that stands for a card: four bullets and the last four digits.
  abbrev pub card_mark : (shown : List ℕ) → List ℕ
  card_mark shown = codes "[card " ++ 8226 ∷ 8226 ∷ 8226 ∷ 8226 ∷ shown ++ codes "]"

  drop-append : (xs ys : List ℕ) → drop (length xs) (xs ++ ys) ≡ ys
  drop-append [] ys = refl
  drop-append (x ∷ xs) ys = drop-append xs ys

  mask-mark :
      (hidden shown : List ℕ)
      → length shown ≡ 4
      → mask (codes "card") (hidden ++ shown) ≡ card_mark shown
  unfolding mask
  mask-mark hidden shown h =
      let size : length (hidden ++ shown) - 4 ≡ length hidden =
        omega (arith, length-append hidden shown) in
      rw (size, drop-append hidden shown) refl

  -- A number that passes the checks of a card and not those of a national id, in a text with no
  -- digit before it and nothing right after it that could continue a run, where card numbers are
  -- redacted: all of its digits but the last four are gone, and `[card ••••`, these four and `]`
  -- stand there instead; the text before it stays, and the rest of the text is redacted as if it
  -- stood alone.
  pub redact_text_card :
      (before hidden shown after : List ℕ)
      → any is_digit before ≡ false
      → all is_digit (hidden ++ shown) ≡ true
      → length shown ≡ 4
      → breaks_run after ≡ true
      → options.card_numbers ≡ true
      → looks_like_card_number (hidden ++ shown) ≡ true
      → is_luhn_valid (hidden ++ shown) ≡ true
      → is_thai_national_id (hidden ++ shown) ≡ false
      → (redact_text (before ++ (hidden ++ shown ++ after)) options).text
        ≡ before ++ (card_mark shown ++ (redact_text after options).text)
  redact_text_card before hidden shown after clear h four b on looks valid other =
      masked_text before (hidden ++ shown) after clear h b on looks valid other
      ∙ ap (λ m. before ++ (m ++ (redact_text after options).text)) (mask-mark hidden shown four)
