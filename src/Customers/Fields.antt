-- ===== src/Customers/Fields.antt =====
-- The fields of two customers joined: the spreads of `mergeCustomers`, packages/infra/src/merge.ts.
use chatbot_integration.Prelude.{
  ℕ, ◌≡◌, refl, sym, ap, subst, ◌∙◌, true, Option, none, some, List, [], ◌∷◌, if◌then◌else◌, arith,
  inl, inr, Bool-cases,
}
use chatbot_integration.Json.{same_units}
use chatbot_integration.Customers.{KnownField}
use chatbot_integration.Customers.Merge.{set_field, spread, or_else}

abbrev pub find_field : (key : List ℕ) → List KnownField → Option (List ℕ)
find_field key [] = none
find_field key (f ∷ fields) =
    let rest = find_field key fields in if same_units key f.key then some f.value else rest

-- The keys of an object are different.
abbrev pub HasUniqueKeys : List KnownField → Type 0
HasUniqueKeys [] = Unit
HasUniqueKeys (f ∷ fields) = (find_field f.key fields ≡ none) × HasUniqueKeys fields

same_units_refl : (s : List ℕ) → same_units s s ≡ true
same_units_refl [] = refl
same_units_refl (c ∷ s) = ground (arith, same_units_refl s)

pub same_units_sound : (s t : List ℕ) → same_units s t ≡ true → s ≡ t
same_units_sound [] [] h = refl
same_units_sound (c ∷ s) (d ∷ t) h = ground (arith, same_units_sound s t)
same_units_sound [] (d ∷ t) h = cc
same_units_sound (c ∷ s) [] h = cc

one_key :
    (key a b : List ℕ) → same_units key a ≡ true → same_units key b ≡ true → same_units a b ≡ true
one_key key a b h k = subst (λ s. same_units s b ≡ true) (same_units_sound key a h) k

find_field-set :
    (key : List ℕ) (f : KnownField) (fields : List KnownField)
    → find_field key (set_field f fields)
      ≡ (if same_units key f.key then some f.value else find_field key fields)
unfolding set_field
find_field-set key f [] = refl
find_field-set key f (g ∷ fields) = elim (Bool-cases (same_units f.key g.key)) [
  | inl e ↦ rw (e, sym (same_units_sound f.key g.key e)) (ground arith)
  | inr e ↦ rw e (ground (arith, find_field-set key f fields, one_key key f.key g.key))
]

-- What the first object says of a key, where the second is silent.
pub find_field-spread :
    (key : List ℕ) (under over : List KnownField)
    → HasUniqueKeys over
    → find_field key (spread under over) ≡ or_else (find_field key over) (find_field key under)
unfolding spread
find_field-spread key under [] h = refl
find_field-spread key under (f ∷ over) h =
    find_field-spread key (set_field f under) over h.1 ∙ elim (Bool-cases (same_units key f.key)) [
      | inl e ↦
          let silent : find_field key over ≡ none =
            ap (λ k. find_field k over) (same_units_sound key f.key e) ∙ h.0 in
          rw (find_field-set key f under, e, silent) refl
      | inr e ↦ rw (find_field-set key f under, e) refl
    ]
