-- ===== src/Chunking/Cover.antt =====
-- What it means that pieces of a text cover it, and that folding the tail covers what the chunks
-- did (packages/core/src/rag/chunk.ts).
use mathlib.Core.List.{append-nil}
use chatbot_integration.Prelude.{
  ℕ, ◌+◌, ◌≤◌, ◌<◌, ◌≡◌, ◌&&◌, refl, sym, ap, ◌∙◌, List, [], ◌∷◌, ◌++◌, length, take, drop,
  take-append-drop, All, arith, ltb, Bool-cases, inl, inr, length-append,
}
use chatbot_integration.Text.{is_nonempty, is_space, trim}
use chatbot_integration.Text.Trim.{nonspace, nonspace-append, nonspace-trim, length-trim}
use chatbot_integration.Text.Split.{concat}
use chatbot_integration.Chunking.{fold_short_tail, newline}

-- `Covers overlap read text`: the characters `read`, white space aside, are those of `text` in
-- order, read in pieces, where each piece but the first starts at most `overlap` characters before
-- the end of the piece before it, never after that end, and later than that piece started.
pub data Covers (overlap : ℕ) : List ℕ → List ℕ → Type 0 where
  whole : {text : List ℕ} → Covers overlap (nonspace text) text
  piece :
      {read text : List ℕ} (stop start : ℕ)
      → 0 < start
      → start ≤ stop
      → stop ≤ start + overlap
      → Covers overlap read (drop start text)
      → Covers overlap (nonspace (take stop text) ++ read) text

-- With no overlap, every character is read exactly once.
pub Covers-once : (read text : List ℕ) → Covers 0 read text → read ≡ nonspace text
Covers-once _ _ Covers.whole = refl
Covers-once _ text (Covers.piece {read} stop start pos le close rest) =
    let same : start ≡ stop = omega arith in
    ap (◌++◌ (nonspace (take stop text)))
      (Covers-once read (drop start text) rest ∙ ap (λ k. nonspace (drop k text)) same)
    ∙ sym (nonspace-append (take stop text) (drop stop text))
    ∙ ap nonspace (take-append-drop stop text)

nonspace-fold :
    (previous last : List ℕ)
    → nonspace (concat (trim (previous ++ newline ∷ last) ∷ []))
      ≡ nonspace (concat (previous ∷ last ∷ []))
unfolding is_space
nonspace-fold previous last =
    ap nonspace (append-nil (trim (previous ++ newline ∷ last)))
    ∙ nonspace-trim (previous ++ newline ∷ last)
    ∙ nonspace-append previous (newline ∷ last)
    ∙ sym (nonspace-append previous last)
    ∙ ap (λ l. nonspace (previous ++ l)) (sym (append-nil last))

pub fold-concat :
    (chunks : List (List ℕ)) (min_size : ℕ)
    → nonspace (concat (fold_short_tail chunks min_size)) ≡ nonspace (concat chunks)
unfolding fold_short_tail
fold-concat [] min_size = refl
fold-concat (chunk ∷ []) min_size = refl
fold-concat (previous ∷ last ∷ []) min_size =
    elim (Bool-cases (is_nonempty last && is_nonempty previous && ltb (length last) min_size)) [
      | inl e ↦ rw e (nonspace-fold previous last)
      | inr e ↦ rw e refl
    ]
fold-concat (chunk ∷ c ∷ d ∷ chunks) min_size =
    nonspace-append chunk (concat (fold_short_tail (c ∷ d ∷ chunks) min_size))
    ∙ ap (◌++◌ (nonspace chunk)) (fold-concat (c ∷ d ∷ chunks) min_size)
    ∙ sym (nonspace-append chunk (concat (c ∷ d ∷ chunks)))

length-fold :
    (previous last : List ℕ)
    → length (trim (previous ++ newline ∷ last)) ≤ length previous + length last + 1
length-fold previous last =
    omega (arith, length-trim (previous ++ newline ∷ last), length-append previous (newline ∷ last))

pub fold-All :
    (chunks : List (List ℕ)) (size min_size : ℕ)
    → All (λ c. length c ≤ size) chunks
    → All (λ c. length c ≤ size + min_size) (fold_short_tail chunks min_size)
unfolding fold_short_tail
fold-All [] size min_size h = tt
fold-All (chunk ∷ []) size min_size h = (omega (arith, h.0), tt)
fold-All (previous ∷ last ∷ []) size min_size h =
    elim (Bool-cases (is_nonempty last && is_nonempty previous && ltb (length last) min_size)) [
      | inl e ↦
          let short : length last < min_size = ground arith in
          rw e ((omega (arith, h.0, short, length-fold previous last), tt))
      | inr e ↦ rw e ((omega (arith, h.0), (omega (arith, h.1.0), tt)))
    ]
fold-All (chunk ∷ c ∷ d ∷ chunks) size min_size h =
    (omega (arith, h.0), fold-All (c ∷ d ∷ chunks) size min_size h.1)
