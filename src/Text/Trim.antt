-- ===== src/Text/Trim.antt =====
-- What trimming keeps (packages/channels/src/text.ts).
use mathlib.Core.List.{reverse, reverse-cons, reverse-reverse, append-nil}
use chatbot_integration.Prelude.{
  ℕ, ◌≤◌, ◌≡◌, refl, ap, ◌∙◌, not, List, [], ◌∷◌, ◌++◌, length, keep, arith, length-append,
}
use chatbot_integration.Text.{is_space, trim_start, trim}

-- A text with its white space taken out.
abbrev pub nonspace : List ℕ → List ℕ
nonspace = keep (λ c. not (is_space c))

pub nonspace-append : (s t : List ℕ) → nonspace (s ++ t) ≡ nonspace s ++ nonspace t
nonspace-append [] t = refl
nonspace-append (c ∷ s) t = ground (arith, nonspace-append s t)

nonspace-reverse : (s : List ℕ) → nonspace (reverse s) ≡ reverse (nonspace s)
nonspace-reverse [] = refl
nonspace-reverse (c ∷ s) =
    rw (reverse-cons c s, nonspace-append (reverse s) (c ∷ []), nonspace-reverse s)
      (ground (arith, reverse-cons c (nonspace s), append-nil (reverse (nonspace s))))

pub length-reverse : (s : List ℕ) → length (reverse s) ≡ length s
length-reverse [] = refl
length-reverse (c ∷ s) =
    rw (reverse-cons c s, length-append (reverse s) (c ∷ []), length-reverse s) (omega arith)

nonspace-trim_start : (s : List ℕ) → nonspace (trim_start s) ≡ nonspace s
unfolding trim_start
nonspace-trim_start [] = refl
nonspace-trim_start (c ∷ s) = ground (arith, nonspace-trim_start s)

length-trim_start : (s : List ℕ) → length (trim_start s) ≤ length s
unfolding trim_start
length-trim_start [] = omega arith
length-trim_start (c ∷ s) = ground (arith, length-trim_start s)

-- Trimming takes out white space only.
pub nonspace-trim : (s : List ℕ) → nonspace (trim s) ≡ nonspace s
unfolding trim
nonspace-trim s =
    nonspace-reverse (trim_start (reverse (trim_start s)))
    ∙ ap reverse (nonspace-trim_start (reverse (trim_start s)) ∙ nonspace-reverse (trim_start s))
    ∙ reverse-reverse (nonspace (trim_start s))
    ∙ nonspace-trim_start s

pub length-trim : (s : List ℕ) → length (trim s) ≤ length s
unfolding trim
length-trim s = omega (
  arith,
  length-reverse (trim_start (reverse (trim_start s))),
  length-trim_start (reverse (trim_start s)),
  length-reverse (trim_start s),
  length-trim_start s,
)
