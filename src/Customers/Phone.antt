-- ===== src/Customers/Phone.antt =====
-- The comparable form of a telephone number: `normaliseMatchValue` of packages/infra/src/merge.ts.
use chatbot_integration.Prelude.{
  ℕ, ◌≡◌, ◌⊎◌, inl, inr, refl, sym, ap, subst, ◌∙◌, Bool, true, false, ◌||◌, some, List, [], ◌∷◌,
  ◌++◌, length, keep, not, ◌==◌, arith,
}
use chatbot_integration.Text.{codes, is_digit, is_space, trim}
use chatbot_integration.Text.Trim.{nonspace-trim}
use chatbot_integration.Customers.{phone}
use chatbot_integration.Customers.Match.{
  is_none, bare_digits, normalise_phone, normalise_match_value,
}

keep-keep :
    (p q : ℕ → Bool) (s : List ℕ)
    → ((c : ℕ) → p c ≡ true → q c ≡ true)
    → keep p (keep q s) ≡ keep p s
keep-keep p q [] h = refl
keep-keep p q (c ∷ s) h = ground (arith, h c, keep-keep p q s h)

digit-IsPlain : (c : ℕ) → is_digit c ≡ true → not (is_space c) ≡ true
unfolding is_space
digit-IsPlain c h = ground arith

-- The digits of a text are those of it without its white space.
digits-trim : (s : List ℕ) → keep is_digit (trim s) ≡ keep is_digit s
digits-trim s =
    let plain = keep-keep is_digit (λ c. not (is_space c)) in
    sym (plain (trim s) digit-IsPlain)
    ∙ ap (keep is_digit) (nonspace-trim s)
    ∙ plain s digit-IsPlain

bare_digits-trim : (s : List ℕ) → bare_digits (trim s) ≡ keep is_digit s
bare_digits-trim s =
    keep-keep is_digit (λ c. is_digit c || (c == b'+')) (trim s) (λ c h. ground arith)
    ∙ digits-trim s

abbrev leads_with_zero : List ℕ → Bool
leads_with_zero [] = false
leads_with_zero (c ∷ s) = c == b'0'

-- Each way to write the number.
abbrev Writes : (digits national : List ℕ) → Type 0
Writes digits national =
    (digits ≡ b'0' ∷ national)
    ⊎ ((digits ≡ codes "66" ++ national) ⊎ (digits ≡ codes "0066" ++ national))

normalise_phone_lem :
    (digits national : List ℕ)
    → length national ≡ 9
    → leads_with_zero national ≡ false
    → Writes digits national
    → normalise_phone digits ≡ some (b'0' ∷ national)
unfolding normalise_phone
normalise_phone_lem digits (c ∷ s) n z (inl e) = rw e (ground arith)
normalise_phone_lem digits (c ∷ s) n z (inr (inl e)) = rw e (ground arith)
normalise_phone_lem digits (c ∷ s) n z (inr (inr e)) = rw e (ground arith)
normalise_phone_lem digits [] n z w = absurd (omega (arith, n))

not_blank : (s national : List ℕ) → Writes (keep is_digit s) national → is_none s ≡ false
not_blank [] national (inl e) = cc
not_blank [] national (inr (inl e)) = cc
not_blank [] national (inr (inr e)) = cc
not_blank (c ∷ s) national w = refl

-- However a Thai number of nine digits after the prefix, the first of them not 0, is written, `0`
-- or `66` or `0066` first, with whatever else between its digits, its comparable form is the one
-- that begins with `0`.
pub thai_phone_lem :
    (lower : List ℕ → List ℕ) (raw national : List ℕ)
    → length national ≡ 9
    → leads_with_zero national ≡ false
    → Writes (keep is_digit raw) national
    → normalise_match_value lower phone raw ≡ some (b'0' ∷ national)
unfolding normalise_match_value
thai_phone_lem lower raw national n z w =
    let same = subst (λ digits. Writes digits national) (sym (digits-trim raw)) w in
    rw (bare_digits-trim raw, not_blank (trim raw) national same)
      (normalise_phone_lem (keep is_digit raw) national n z w)
