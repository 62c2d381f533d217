-- ===== src/Redaction/Short.antt =====
-- Texts with few digits are left alone: packages/core/src/redaction/redact.ts.
use chatbot_integration.Prelude.{
  drop-nil, ℕ, zero, suc, ◌+◌, ◌-◌, ◌≡◌, ◌≤◌, ◌<◌, refl, sym, ap, ◌∙◌, Bool, true, false, List, [],
  ◌∷◌, Option, none, some, arith, length, take, drop, take-append-drop, Option-cases, inl, inr,
  Bool-cases, ltb, ◌==◌,
}
use chatbot_integration.Text.{is_digit}
use chatbot_integration.Redaction.{
  RedactionOptions, Findings, digits_of, replacement, match_run, longest_middle, redact_from,
  redact_text, is_thai_national_id, is_luhn_valid, looks_like_card_number,
}
use chatbot_integration.Redaction.Runs.{and_false}

not_thai : (digits : List ℕ) → length digits < 13 → is_thai_national_id digits ≡ false
unfolding is_thai_national_id
not_thai digits h = let e : (length digits == 13) ≡ false = ground arith in rw e refl

not_luhn : (digits : List ℕ) → length digits < 13 → is_luhn_valid digits ≡ false
unfolding is_luhn_valid
not_luhn digits h = let e : ltb (length digits) 13 ≡ true = ground arith in rw e refl

-- A run of fewer than 13 digits is no card number and no national id.
replacement_short :
    (options : RedactionOptions) (found : List ℕ)
    → length (digits_of found) < 13
    → replacement options found ≡ (found, none)
unfolding replacement
replacement_short options found h =
    rw
      (
        not_thai (digits_of found) h,
        not_luhn (digits_of found) h,
        and_false options.thai_national_id,
        and_false (looks_like_card_number (digits_of found)),
        and_false options.card_numbers,
      )
      refl

keep-take-length : (n : ℕ) (s : List ℕ) → length (digits_of (take n s)) ≤ length (digits_of s)
keep-take-length zero s = omega arith
keep-take-length (suc n) [] = omega arith
keep-take-length (suc n) (c ∷ s) = ground (arith, keep-take-length n s)

longer :
    (r : Option ℕ) (n : ℕ)
    → (elim r [ none ↦ none | some k ↦ some (k + 2) ]) ≡ some n
    → suc (suc (n - 2)) ≡ n
longer none n h = cc
longer (some k) n h = ground arith

fewer : (c : ℕ) (s : List ℕ) → length (digits_of (c ∷ s)) < 13 → length (digits_of s) < 13
fewer c s h = ground arith

match_run-some :
    (after_digit : Bool) (c n : ℕ) (s : List ℕ)
    → match_run after_digit (c ∷ s) ≡ some n
    → suc (suc (n - 2)) ≡ n
unfolding match_run
match_run-some true c n s h = cc
match_run-some false c n s h = elim (Bool-cases (is_digit c)) [
  | inr e ↦ ground arith
  | inl e ↦ longer (longest_middle 12 s) n (rw e at h)
]

module _ (options : RedactionOptions) where
  matched :
      (m : ℕ) (after_digit : Bool) (counts : Findings) (c : ℕ) (s : List ℕ)
      → match_run after_digit (c ∷ s) ≡ some (suc (suc m))
      → length (digits_of (c ∷ s)) < 13
      → redact_from options (suc m) (is_digit c) counts s
        ≡ record { text = drop (suc m) s; findings = counts }
      → redact_from options zero after_digit counts (c ∷ s)
        ≡ record { text = c ∷ s; findings = counts }
  unfolding redact_from
  matched m after_digit counts c s e few rest =
      let less : suc (suc m) - 1 ≡ suc m = omega arith in
      rw
        (
          e,
          redact_from,
          replacement_short options (take (suc (suc m)) (c ∷ s))
              (omega (arith, keep-take-length (suc (suc m)) (c ∷ s))),
          less,
          rest,
          take-append-drop (suc m) s,
        )
        refl

  short_from :
      (skip : ℕ) (after_digit : Bool) (counts : Findings) (s : List ℕ)
      → length (digits_of s) < 13
      → redact_from options skip after_digit counts s
        ≡ record { text = drop skip s; findings = counts }
  unfolding redact_from
  short_from skip after_digit counts [] few = rw (drop-nil skip) refl
  short_from (suc skip) after_digit counts (c ∷ s) few =
      short_from skip (is_digit c) counts s (fewer c s few)
  short_from zero after_digit counts (c ∷ s) few =
      elim (Option-cases (match_run after_digit (c ∷ s))) [
        | inl e ↦ rw (e, redact_from, short_from zero (is_digit c) counts s (fewer c s few)) refl
        | inr (n, e) ↦
            matched (n - 2) after_digit counts c s
              (e ∙ ap some (sym (match_run-some after_digit c n s e))) few
              (short_from (suc (n - 2)) (is_digit c) counts s (fewer c s few))
      ]

  -- A text with fewer than 13 digits, such as a phone number or a short order reference among
  -- words, is left as it is, and nothing is reported.
  redact_text_short :
      (input : List ℕ)
      → length (digits_of input) < 13
      → redact_text input options ≡ record { text = input; findings = [] }
  unfolding redact_text
  redact_text_short input few = short_from zero false [] input few
