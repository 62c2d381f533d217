-- ===== src/Text/Split.antt =====
-- Splitting loses no text and keeps to the limit (packages/channels/src/text.ts).
use mathlib.Core.Path.{ap₂}
use mathlib.Core.List.{append-nil}
use chatbot_integration.Prelude.{
  ℕ, zero, suc, ◌≤◌, ◌<◌, ◌≡◌, refl, sym, ap, ◌∙◌, true, false, some, List, [], ◌∷◌, ◌++◌, length,
  take, drop, keep, All, arith, ltb, leb, Bool-cases, inl, inr, length-take, length-drop,
  take-append-drop, All-keep, All-map,
}
use chatbot_integration.Text.{trim, find_break_point, is_nonempty, split_loop, split_text}
use chatbot_integration.Text.Trim.{nonspace, nonspace-append, nonspace-trim, length-trim}
use chatbot_integration.Text.Search.{find_break_point_bounds}

abbrev pub concat : List (List ℕ) → List ℕ
concat [] = []
concat (c ∷ cs) = c ++ concat cs

-- The chunks of a text: none longer than the limit, and all its characters but white space, in
-- order.
abbrev pub Splits : (text : List ℕ) (max_length : ℕ) → List (List ℕ) → Type 0
Splits text max_length chunks =
    All (λ c. length c ≤ max_length) chunks × (nonspace (concat chunks) ≡ nonspace text)

pub empty : (s : List ℕ) → is_nonempty s ≡ false → s ≡ []
empty [] h = refl
empty (c ∷ s) h = cc

concat-keep : (chunks : List (List ℕ)) → concat (keep is_nonempty chunks) ≡ concat chunks
concat-keep [] = refl
concat-keep ([] ∷ cs) = concat-keep cs
concat-keep ((c ∷ s) ∷ cs) = ap (◌++◌ (c ∷ s)) (concat-keep cs)

pieces :
    (text : List ℕ) (k : ℕ) (chunks : List (List ℕ))
    → nonspace (concat chunks) ≡ nonspace (trim (drop k text))
    → nonspace (trim (take k text) ++ concat chunks) ≡ nonspace text
pieces text k chunks same =
    nonspace-append (trim (take k text)) (concat chunks)
    ∙ ap₂ ◌++◌ (nonspace-trim (take k text)) (same ∙ nonspace-trim (drop k text))
    ∙ sym (nonspace-append (take k text) (drop k text))
    ∙ ap nonspace (take-append-drop k text)

split_loop_lem :
    (fuel : ℕ) (text : List ℕ) (max_length : ℕ)
    → 0 < max_length
    → length text < fuel
    → (chunks : List (List ℕ)) × (split_loop fuel text max_length ≡ some chunks)
      × Splits text max_length chunks
unfolding split_loop
split_loop_lem zero text max_length pos enough = absurd (omega arith)
split_loop_lem (suc fuel) text max_length pos enough =
    elim (Bool-cases (ltb max_length (length text))) [
      | inr short ↦ rw short (elim (Bool-cases (is_nonempty text)) [
        | inl e ↦ rw e (text ∷ [], refl, ((ground arith, tt), ap nonspace (append-nil text)))
        | inr e ↦ rw e ([], refl, (tt, ap nonspace (sym (empty text e))))
      ])
      | inl long ↦
          let k = find_break_point (take max_length text) max_length in
          let (low, high) =
            find_break_point_bounds (take max_length text) max_length pos
              (omega (arith, length-take max_length text)) in
          let (chunks, e, (fits, same)) =
            split_loop_lem fuel (trim (drop k text)) max_length pos
              (ground (arith, length-trim (drop k text), length-drop k text)) in
          rw (long, e)
            (
              trim (take k text) ∷ chunks,
              refl,
              (
                (omega (arith, length-trim (take k text), length-take k text), fits),
                pieces text k chunks same,
              ),
            )
    ]

-- For any limit but zero splitting ends, no chunk is empty or longer than the limit, and the
-- chunks hold the characters of the text in order, white space aside.
pub split_text_lem :
    (text : List ℕ) (max_length : ℕ)
    → 0 < max_length
    → (chunks : List (List ℕ)) × (split_text text max_length ≡ some chunks)
      × All (λ c. (is_nonempty c ≡ true) × (length c ≤ max_length)) chunks
      × (nonspace (concat chunks) ≡ nonspace text)
unfolding split_text
split_text_lem text max_length pos = elim (Bool-cases (is_nonempty (trim text))) [
  | inr e ↦ rw e ([], refl, tt, ap nonspace (sym (empty (trim text) e)) ∙ nonspace-trim text)
  | inl e ↦ elim (Bool-cases (leb (length (trim text)) max_length)) [
    | inl short ↦
        rw (e, short)
          (
            trim text ∷ [],
            refl,
            ((e, ground arith), tt),
            ap nonspace (append-nil (trim text)) ∙ nonspace-trim text,
          )
    | inr long ↦
        let (chunks, run, (fits, same)) =
          split_loop_lem (suc (length (trim text))) (trim text) max_length pos (omega arith) in
        rw (e, long, run)
          (
            keep is_nonempty chunks,
            refl,
            kept chunks (All-keep (λ c. length c ≤ max_length) is_nonempty chunks fits),
            ap nonspace (concat-keep chunks) ∙ same ∙ nonspace-trim text,
          )
  ]
]
  where
    kept :
        (chunks : List (List ℕ))
        → All (λ c. (length c ≤ max_length) × (is_nonempty c ≡ true)) (keep is_nonempty chunks)
        → All (λ c. (is_nonempty c ≡ true) × (length c ≤ max_length)) (keep is_nonempty chunks)
    kept chunks h = All-map _ _ (keep is_nonempty chunks) (λ c k. (k.1, k.0)) h
