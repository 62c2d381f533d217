-- ===== src/Redaction.antt =====
-- Redaction of card numbers and Thai national ids in free text:
-- packages/core/src/redaction/redact.ts. A text is the list of its UTF-16 code units.
pub mod Luhn
pub mod Runs
pub mod Short
pub mod Cards
mod Tests
use mathlib.Core.List.{reverse}
use chatbot_integration.Prelude.{
  ℕ, zero, suc, ◌+◌, ◌-◌, ◌*◌, ◌%◌, Bool, true, false, ◌&&◌, ◌||◌, not, List, [], ◌∷◌, ◌++◌, Option,
  none, some, leb, ltb, ◌==◌, if◌then◌else◌, length, any, all, take, drop, keep,
}
use chatbot_integration.Text.{codes, is_digit, is_space, starts_with}

pub data RedactionType : Type 0 where
  card_number thai_national_id : RedactionType

pub record RedactionOptions : Type 0 where
  pub card_numbers : Bool
  pub thai_national_id : Bool

abbrev pub default_redaction : RedactionOptions
default_redaction = record { card_numbers = true; thai_national_id = true }

-- The entries of the `Map`, in the order of insertion.
abbrev pub Findings : Type 0
Findings = List (RedactionType × ℕ)

pub record RedactionResult : Type 0 where
  pub text : List ℕ
  pub findings : Findings

abbrev pub same_type : RedactionType → RedactionType → Bool
same_type card_number card_number = true
same_type RedactionType.thai_national_id RedactionType.thai_national_id = true
same_type _ _ = false

-- `counts.set(type, (counts.get(type) ?? 0) + 1)`.
pub bump : RedactionType → Findings → Findings
bump t [] = (t, 1) ∷ []
bump t ((u, n) ∷ counts) =
    let rest = bump t counts in if same_type t u then (u, n + 1) ∷ counts else (u, n) ∷ rest

abbrev pub digits_of : List ℕ → List ℕ
digits_of raw = keep is_digit raw

digits_value : ℕ → List ℕ → ℕ
digits_value n [] = n
digits_value n (c ∷ s) = digits_value (n * 10 + (c - b'0')) s

-- `Number(d.slice(0, n))`, of digits.
prefix : ℕ → List ℕ → ℕ
unfolding digits_value
prefix n digits = digits_value 0 (take n digits)

is_between : ℕ → ℕ → ℕ → Bool
is_between low high n = leb low n && leb n high

-- The issuers of `CARD_PREFIXES`, each with the lengths that it issues.
is_visa : List ℕ → Bool
is_visa d = starts_with (codes "4") d && any (◌==◌ (length d)) (13 ∷ 16 ∷ 19 ∷ [])

is_mastercard : List ℕ → Bool
unfolding prefix is_between
is_mastercard d =
    (is_between 51 55 (prefix 2 d) || is_between 2221 2720 (prefix 4 d)) && (length d == 16)

is_american_express : List ℕ → Bool
is_american_express d =
    (starts_with (codes "34") d || starts_with (codes "37") d) && (length d == 15)

is_jcb : List ℕ → Bool
unfolding prefix is_between
is_jcb d = is_between 3528 3589 (prefix 4 d) && any (◌==◌ (length d)) (16 ∷ 17 ∷ 18 ∷ 19 ∷ [])

is_union_pay : List ℕ → Bool
is_union_pay d = starts_with (codes "62") d && any (◌==◌ (length d)) (16 ∷ 17 ∷ 18 ∷ 19 ∷ [])

is_discover : List ℕ → Bool
unfolding prefix is_between
is_discover d =
    (starts_with (codes "6011") d
      || (starts_with (codes "65") d || is_between 644 649 (prefix 3 d)))
    && any (◌==◌ (length d)) (16 ∷ 19 ∷ [])

is_diners_club : List ℕ → Bool
unfolding prefix is_between
is_diners_club d =
    (is_between 300 305 (prefix 3 d) || (starts_with (codes "36") d || starts_with (codes "38") d))
    && any (◌==◌ (length d)) (14 ∷ 16 ∷ 19 ∷ [])

pub looks_like_card_number : List ℕ → Bool
unfolding is_visa is_mastercard is_american_express is_jcb is_union_pay is_discover is_diners_club
looks_like_card_number d =
    is_visa d
    || (is_mastercard d
        || (is_american_express d
            || (is_jcb d || (is_union_pay d || (is_discover d || is_diners_club d)))))

-- What a digit adds to the sum of Luhn's check.
pub luhn_value : (double : Bool) (digit : ℕ) → ℕ
luhn_value false digit = digit
luhn_value true digit = if ltb 9 (digit * 2) then digit * 2 - 9 else digit * 2

-- The loop of `isLuhnValid`, which goes from the last digit to the first.
pub luhn_from : (sum : ℕ) (double : Bool) → (backwards : List ℕ) → Bool
unfolding luhn_value
luhn_from sum double [] = sum % 10 == 0
luhn_from sum double (c ∷ s) =
    let rest = luhn_from (sum + luhn_value double (c - b'0')) (not double) s in
    if is_digit c then rest else false

pub is_luhn_valid : List ℕ → Bool
is_luhn_valid digits =
    if ltb (length digits) 13 || ltb 19 (length digits)
    then false
    else luhn_from 0 false (reverse digits)

-- The loop of `isThaiNationalId`: the weights go from 13 down to 2. With the sum, what remains.
weigh : (left sum : ℕ) → List ℕ → Option (ℕ × List ℕ)
weigh zero sum s = some (sum, s)
weigh (suc left) sum [] = none
weigh (suc left) sum (c ∷ s) =
    let rest = weigh left (sum + (c - b'0') * (suc left + 1)) s in if is_digit c then rest else none

is_check_digit : Option (ℕ × List ℕ) → Bool
is_check_digit (some (sum, c ∷ [])) = ((11 - sum % 11) % 10 + b'0') == c
is_check_digit _ = false

pub is_thai_national_id : List ℕ → Bool
unfolding weigh is_check_digit
is_thai_national_id digits =
    if length digits == 13 then is_check_digit (weigh 12 0 digits) else false

abbrev bullet : ℕ
bullet = 8226

pub mask : (label digits : List ℕ) → List ℕ
mask label digits =
    codes "["
    ++ label
    ++ codes " "
    ++ bullet ∷ bullet ∷ bullet ∷ bullet ∷ drop (length digits - 4) digits
    ++ codes "]"

-- The callback of `replace`: what stands for a match, and what it was found to be.
pub replacement : RedactionOptions → (found : List ℕ) → List ℕ × Option RedactionType
unfolding mask
replacement options found =
    let digits = digits_of found in
    if options.thai_national_id && is_thai_national_id digits
    then (mask (codes "thai id") digits, some RedactionType.thai_national_id)
    else if options.card_numbers && (looks_like_card_number digits && is_luhn_valid digits)
    then (mask (codes "card") digits, some card_number)
    else (found, none)

-- `DIGIT_RUN` is a digit, 11 to 23 of these, and a digit, between no digits.
abbrev pub is_run_char : ℕ → Bool
is_run_char c = is_digit c || (is_space c || (c == b'-'))

abbrev pub begins_with_digit : List ℕ → Bool
begins_with_digit [] = false
begins_with_digit (c ∷ s) = is_digit c

-- The last digit of a run, with no digit after it.
abbrev pub ends_run : List ℕ → Bool
ends_run [] = false
ends_run (c ∷ s) = is_digit c && not (begins_with_digit s)

pub is_middle : (n : ℕ) → List ℕ → Bool
is_middle n s = leb n (length s) && (all is_run_char (take n s) && ends_run (drop n s))

-- Greedy: the longest middle of at most `11 + extra`.
pub longest_middle : (extra : ℕ) → List ℕ → Option ℕ
unfolding is_middle
longest_middle zero s = if is_middle 11 s then some 11 else none
longest_middle (suc extra) s =
    let shorter = longest_middle extra s in
    if is_middle (12 + extra) s then some (12 + extra) else shorter

-- The length of the match that begins here, where `after_digit` tells of the unit before.
pub match_run : (after_digit : Bool) → List ℕ → Option ℕ
match_run after_digit [] = none
match_run after_digit (c ∷ s) =
    if after_digit || not (is_digit c)
    then none
    else elim (longest_middle 12 s) [ none ↦ none | some n ↦ some (n + 2) ]

abbrev pub record_found : Option RedactionType → Findings → Findings
record_found none counts = counts
record_found (some t) counts = bump t counts

abbrev pub put_front : List ℕ → RedactionResult → RedactionResult
put_front s r = record r { text = s ++ r.text }

-- `replace`, from left to right: `skip` units still belong to the last match.
pub redact_from :
    RedactionOptions
    → (skip : ℕ) (after_digit : Bool) (counts : Findings) → List ℕ
    → RedactionResult
redact_from options skip after_digit counts [] = record { text = []; findings = counts }
redact_from options (suc skip) after_digit counts (c ∷ s) =
    redact_from options skip (is_digit c) counts s
redact_from options zero after_digit counts (c ∷ s) = elim (match_run after_digit (c ∷ s)) [
  | none ↦ put_front (c ∷ []) (redact_from options zero (is_digit c) counts s)
  | some n ↦
      let (text, kind) = replacement options (take n (c ∷ s)) in
      put_front text (redact_from options (n - 1) (is_digit c) (record_found kind counts) s)
]

pub redact_text : (input : List ℕ) → RedactionOptions → RedactionResult
redact_text input options = redact_from options 0 false [] input
