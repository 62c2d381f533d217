-- ===== src/Chunking/Loop.antt =====
-- Chunking ends, keeps to its size and covers the text (packages/core/src/rag/chunk.ts).
use mathlib.Core.List.{append-nil}
use chatbot_integration.Prelude.{
  ℕ, zero, suc, ◌+◌, ◌-◌, min, max, ◌≤◌, ◌<◌, ◌≡◌, refl, sym, ap, ◌∙◌, subst, false, Option, true,
  some, List, [], ◌∷◌, ◌++◌, length, take, drop, drop-drop, drop_all, All, arith, ltb, leb, ◌==◌,
  Bool-cases, inl, inr, length-take, length-drop, if◌then◌else◌,
}
use chatbot_integration.Text.{trim, is_nonempty, push_chunk}
use chatbot_integration.Text.Trim.{nonspace, nonspace-append, nonspace-trim, length-trim}
use chatbot_integration.Text.Split.{concat, empty}
use chatbot_integration.Chunking.{
  ChunkOptions, chunk_text, fold_short_tail, unix_lines, chunk_loop, find_break, slice, unix_lines,
}
use chatbot_integration.Chunking.Break.{find_break_bounds}
use chatbot_integration.Chunking.Cover.{Covers, fold-All, fold-concat, fold-All}

-- A piece that is white space only is left out, which changes no other character.
abbrev push_piece : List ℕ → List (List ℕ) → List (List ℕ)
push_piece piece chunks = if is_nonempty piece then piece ∷ chunks else chunks

push_piece-nonspace :
    (part : List ℕ) (chunks : List (List ℕ))
    → nonspace (concat (push_piece (trim part) chunks)) ≡ nonspace part ++ nonspace (concat chunks)
push_piece-nonspace part chunks = elim (Bool-cases (is_nonempty (trim part))) [
  | inl e ↦ rw e (
      nonspace-append (trim part) (concat chunks)
      ∙ ap (λ p. p ++ nonspace (concat chunks)) (nonspace-trim part))
  | inr e ↦ rw e (
      ap (λ p. p ++ nonspace (concat chunks))
        (ap nonspace (sym (empty (trim part) e)) ∙ nonspace-trim part))
]

push_piece-All :
    (piece : List ℕ) (chunks : List (List ℕ)) (size : ℕ)
    → length piece ≤ size
    → All (λ c. length c ≤ size) chunks
    → All (λ c. length c ≤ size) (push_piece piece chunks)
push_piece-All piece chunks size h k = elim (Bool-cases (is_nonempty piece)) [
  | inl e ↦ rw e (h, k)
  | inr e ↦ rw e k
]

push_piece-some :
    (piece : List ℕ) (rest : Option (List (List ℕ))) (chunks : List (List ℕ))
    → rest ≡ some chunks
    → (if is_nonempty piece then push_chunk piece rest else rest) ≡ some (push_piece piece chunks)
push_piece-some piece rest chunks e = elim (Bool-cases (is_nonempty piece)) [
  | inl ne ↦ rw (ne, e) refl
  | inr ne ↦ rw (ne, e) refl
]

slice-length :
    (text : List ℕ) (start to : ℕ) → to ≤ length text → length (slice text start to) ≡ to - start
slice-length text start to h =
    omega (arith, length-take (to - start) (drop start text), length-drop start text)

-- The loop ends, its chunks keep to the size, and they cover what is left of the text.
abbrev Chunks : List ℕ → ChunkOptions → List (List ℕ) → Type 0
Chunks text options chunks =
    All (λ c. length c ≤ options.size) chunks
    × (0 < options.size → Covers options.overlap (nonspace (concat chunks)) text)

last_chunk :
    (text : List ℕ) (options : ChunkOptions)
    → length text ≤ options.size
    → Chunks text options (trim text ∷ [])
last_chunk text options h = (
  (omega (arith, length-trim text), tt),
  λ pos.
      subst (λ read. Covers options.overlap read text)
        (sym (ap nonspace (append-nil (trim text)) ∙ nonspace-trim text)) Covers.whole,
)

Chunks-step :
    (text : List ℕ) (options : ChunkOptions) (start break_at : ℕ) (chunks : List (List ℕ))
    → break_at ≤ options.size
    → (0 < options.size → 0 < break_at)
    → Chunks (drop (start + max (break_at - options.overlap) 1) text) options chunks
    → Chunks
        (drop start text)
        options
        (push_piece (trim (slice text start (start + break_at))) chunks)
Chunks-step text options start break_at chunks small forward (fits, covers) = (
  push_piece-All (trim (slice text start (start + break_at))) chunks options.size
      (omega (
        arith,
        length-trim (slice text start (start + break_at)),
        length-take (start + break_at - start) (drop start text),
      ))
      fits,
  λ pos.
      subst (λ read. Covers options.overlap read (drop start text))
        (sym (
          push_piece-nonspace (slice text start (start + break_at)) chunks
          ∙ ap (λ n. nonspace (take n (drop start text)) ++ nonspace (concat chunks))
              (omega arith)))
        (Covers.piece break_at (max (break_at - options.overlap) 1) (omega arith)
          (omega (arith, forward pos)) (omega arith)
          (subst (Covers options.overlap (nonspace (concat chunks)))
            (sym (drop-drop (max (break_at - options.overlap) 1) start text)) (covers pos))),
)

chunk_loop_lem :
    (fuel : ℕ) (text : List ℕ) (options : ChunkOptions) (start : ℕ)
    → length text - start < fuel
    → (chunks : List (List ℕ)) × (chunk_loop fuel text options start ≡ some chunks)
      × Chunks (drop start text) options chunks
unfolding chunk_loop
chunk_loop_lem zero text options start enough = absurd (omega arith)
chunk_loop_lem (suc fuel) text options start enough = elim (Bool-cases (ltb start (length text))) [
  | inr past ↦ rw past (
    [],
    refl,
    (
      tt,
      λ pos.
          subst (Covers options.overlap []) (sym (drop_all start text (ground arith))) Covers.whole,
    ),
  )
  | inl inside ↦
      let stop = min (start + options.size) (length text) in
      let break_at = find_break (slice text start stop) options.size in
      let (low, high) = find_break_bounds (slice text start stop) options.size in
      let next = start + max (break_at - options.overlap) 1 in
      let on : leb next start ≡ false = ground arith in
      let (chunks, e, ok) = chunk_loop_lem fuel text options next (ground arith) in
      elim (Bool-cases (stop == length text)) [
        | inl end ↦
            rw (inside, end)
              (
                trim (drop start text) ∷ [],
                refl,
                last_chunk (drop start text) options (ground (arith, length-drop start text)),
              )
        | inr go ↦
            rw (inside, go, on)
              (
                push_piece (trim (slice text start (start + break_at))) chunks,
                push_piece-some (trim (slice text start (start + break_at)))
                    (chunk_loop fuel text options next) chunks e,
                Chunks-step text options start break_at chunks
                    (ground (arith, slice-length text start stop))
                    (λ pos. ground (arith, slice-length text start stop)) ok,
              )
      ]
]

whole_text :
    (text : List ℕ) (options : ChunkOptions)
    → length text ≤ options.size
    → Chunks text options (text ∷ [])
whole_text text options h = (
  (h, tt),
  λ pos.
      subst (λ read. Covers options.overlap (nonspace read) text) (sym (append-nil text))
        Covers.whole,
)

no_text : (text : List ℕ) → (length text == 0) ≡ true → text ≡ []
no_text [] h = refl
no_text (c ∷ text) h = absurd (ground arith)

chunks_of :
    (input : List ℕ) (options : ChunkOptions)
    → (chunks : List (List ℕ)) × (chunk_text input options ≡ some chunks)
      × All (λ c. length c ≤ options.size + options.min_size) chunks
      × (0 < options.size
          → Covers options.overlap (nonspace (concat chunks)) (trim (unix_lines input)))
unfolding chunk_text
chunks_of input options =
    let text = trim (unix_lines input) in
    elim (Bool-cases (length text == 0)) [
      | inl nothing ↦ rw nothing (
        [],
        refl,
        tt,
        λ pos. subst (Covers options.overlap []) (sym (no_text text nothing)) Covers.whole,
      )
      | inr something ↦ elim (Bool-cases (leb (length text) options.size)) [
        | inl short ↦
            rw (something, short)
              (text ∷ [], refl, ground (arith), (whole_text text options (ground arith)).1)
        | inr long ↦
            let (chunks, run, (fits, covers)) =
              chunk_loop_lem (suc (length text)) text options 0 (omega arith) in
            rw (something, long, run)
              (
                fold_short_tail chunks options.min_size,
                refl,
                fold-All chunks options.size options.min_size fits,
                λ pos.
                    subst (λ read. Covers options.overlap read text)
                      (sym (fold-concat chunks options.min_size)) (covers pos),
              )
      ]
    ]

-- For any size but 0, chunking ends, no chunk is longer than the size and the shortest chunk
-- together, and the chunks cover the trimmed text: the characters, white space aside, are read in
-- order, each piece after the first starts no later than where the one before ended, and repeats
-- at most `overlap` characters of it.
pub chunk_text-Covers :
    (input : List ℕ) (options : ChunkOptions)
    → 0 < options.size
    → (chunks : List (List ℕ)) × (chunk_text input options ≡ some chunks)
      × All (λ c. length c ≤ options.size + options.min_size) chunks
      × Covers options.overlap (nonspace (concat chunks)) (trim (unix_lines input))
chunk_text-Covers input options pos =
    let (chunks, run, fits, covers) = chunks_of input options in (chunks, run, fits, covers pos)
