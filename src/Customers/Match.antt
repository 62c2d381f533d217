-- ===== src/Customers/Match.antt =====
-- The comparable form of an identifier: `normaliseMatchValue` of packages/infra/src/merge.ts. The
-- lower case of an address is a parameter.
use chatbot_integration.Prelude.{
  ℕ, ◌-◌, Bool, true, false, ◌&&◌, ◌||◌, Option, none, some, List, [], ◌∷◌, length, take, drop,
  keep, any, ltb, leb, ◌==◌, not, if◌then◌else◌,
}
use chatbot_integration.Text.{codes, is_digit, is_space, trim, starts_with}
use chatbot_integration.Json.{same_units}
use chatbot_integration.Tokens.Envelope.{split_at_unit}
use chatbot_integration.Customers.{
  MergeMatchKey, phone, email, account_id, KnownField, Customer, key_text,
}

-- `fields[key] ?? ''`.
unfoldable pub field_or_empty : (key : List ℕ) → List KnownField → List ℕ
field_or_empty key [] = []
field_or_empty key (f ∷ fields) =
    let rest = field_or_empty key fields in if same_units key f.key then f.value else rest

abbrev pub is_none : List ℕ → Bool
is_none [] = true
is_none (c ∷ s) = false

-- `[^@\s]+`, where the text holds_value no `@`.
abbrev is_unspaced : List ℕ → Bool
is_unspaced s = not (is_none s) && not (any is_space s)

-- A dot that is neither the first unit nor the last.
abbrev has_inner_dot : List ℕ → Bool
has_inner_dot s = any (◌==◌ b'.') (take (length s - 2) (drop 1 s))

abbrev is_address : List (List ℕ) → Bool
is_address (local ∷ domain ∷ []) = is_unspaced local && (is_unspaced domain && has_inner_dot domain)
is_address _ = false

-- `value.replace(/[^\d+]/g, '').replace(/\D/g, '')`.
abbrev pub bare_digits : List ℕ → List ℕ
bare_digits value = keep is_digit (keep (λ c. is_digit c || (c == b'+')) value)

unfoldable pub normalise_phone : (bare : List ℕ) → Option (List ℕ)
normalise_phone bare =
    if ltb (length bare) 9
    then none
    else if starts_with (codes "66") bare && (length bare == 11)
    then some (b'0' ∷ drop 2 bare)
    else if starts_with (codes "0066") bare
    then some (b'0' ∷ drop 4 bare)
    else some bare

module _ (lower : List ℕ → List ℕ) where
  abbrev normalise_email : (value : List ℕ) → Option (List ℕ)
  normalise_email value =
      if is_address (split_at_unit b'@' (lower value)) then some (lower value) else none

  abbrev normalise_key : MergeMatchKey → (value : List ℕ) → Option (List ℕ)
  normalise_key phone value = normalise_phone (bare_digits value)
  normalise_key email value = normalise_email value
  normalise_key account_id value = if leb 4 (length value) then some value else none

  unfoldable pub normalise_match_value : MergeMatchKey → (raw : List ℕ) → Option (List ℕ)
  normalise_match_value key raw =
      let value = trim raw in if is_none value then none else normalise_key key value

  unfoldable pub value_of : MergeMatchKey → Customer → Option (List ℕ)
  value_of key row = normalise_match_value key (field_or_empty (key_text key) row.fields)
