-- ===== src/Chunking.antt =====
-- Splitting knowledge for retrieval: packages/core/src/rag/chunk.ts. A text is the list of its
-- UTF-16 code units; the options of a call are those after the defaults were filled in.
pub mod Break
pub mod Cover
pub mod Loop
mod Tests
use chatbot_integration.Prelude.{
  ℕ, zero, suc, ◌+◌, ◌-◌, ◌*◌, min, max, Bool, true, false, not, ◌&&◌, ◌||◌, Option, none, some,
  List, [], ◌∷◌, ◌++◌, map, length, take, drop, leb, ltb, ◌==◌, if◌then◌else◌,
}
use chatbot_integration.Text.{codes, is_nonempty, last_index_of, push_chunk, trim}

pub record ChunkOptions : Type 0 where
  pub size : ℕ
  pub overlap : ℕ
  pub min_size : ℕ

abbrev pub default_chunk_options : ChunkOptions
default_chunk_options = record { size = 900; overlap = 120; min_size = 80 }

abbrev pub newline : ℕ
newline = 10

abbrev carriage_return : ℕ
carriage_return = 13

abbrev pub sentence_breaks : List (List ℕ)
sentence_breaks =
    (newline ∷ newline ∷ [])
    ∷ (newline ∷ [])
    ∷ codes ". "
    ∷ codes "! "
    ∷ codes "? "
    ∷ codes "。"
    ∷ codes "॥"
    ∷ codes " ๆ "
    ∷ codes " "
    ∷ []

-- `slice(from, to)`.
abbrev pub slice : List ℕ → ℕ → ℕ → List ℕ
slice text from to = take (to - from) (drop from text)

-- The loop of `findBreak`. `index > size * 0.4` is `2 * size < 5 * index`.
pub break_after : List (List ℕ) → (window : List ℕ) (size : ℕ) → ℕ
break_after [] window size = length window
break_after (sep ∷ seps) window size =
    let rest = break_after seps window size in
    elim (last_index_of sep window) [
      | none ↦ rest
      | some index ↦ if ltb (2 * size) (5 * index) then index + length sep else rest
    ]

pub find_break : (window : List ℕ) (size : ℕ) → ℕ
unfolding break_after
find_break window size = break_after sentence_breaks window size

-- A trailing fragment goes to the chunk before it.
pub fold_short_tail : List (List ℕ) → (min_size : ℕ) → List (List ℕ)
fold_short_tail [] min_size = []
fold_short_tail (chunk ∷ []) min_size = chunk ∷ []
fold_short_tail (previous ∷ last ∷ []) min_size =
    if is_nonempty last && is_nonempty previous && ltb (length last) min_size
    then trim (previous ++ newline ∷ last) ∷ []
    else previous ∷ last ∷ []
fold_short_tail (chunk ∷ c ∷ d ∷ chunks) min_size =
    chunk ∷ fold_short_tail (c ∷ d ∷ chunks) min_size

-- `replace(/\r\n/g, '\n')`.
pub unix_lines : List ℕ → List ℕ
unix_lines [] = []
unix_lines (c ∷ []) = c ∷ []
unix_lines (c ∷ d ∷ text) =
    let rest = unix_lines (d ∷ text) in
    if (c == carriage_return) && (d == newline) then rest else c ∷ rest

-- The `while` loop from `start`, with its chunks in order; `none` means that the fuel ran out.
pub chunk_loop : (fuel : ℕ) → List ℕ → ChunkOptions → (start : ℕ) → Option (List (List ℕ))
chunk_loop zero text options start = none
chunk_loop (suc fuel) text options start =
    let stop = min (start + options.size) (length text) in
    let break_at = find_break (slice text start stop) options.size in
    let piece = trim (slice text start (start + break_at)) in
    let next = start + max (break_at - options.overlap) 1 in
    let rest =
      chunk_loop fuel text options (if leb next start then start + options.size else next) in
    let more = if is_nonempty piece then push_chunk piece rest else rest in
    let last = some (trim (drop start text) ∷ []) in
    if ltb start (length text) then (if stop == length text then last else more) else some []

pub chunk_text : (input : List ℕ) → ChunkOptions → Option (List (List ℕ))
unfolding unix_lines
chunk_text input options =
    let text = trim (unix_lines input) in
    if length text == 0
    then some []
    else if leb (length text) options.size
    then some (text ∷ [])
    else elim (chunk_loop (suc (length text)) text options 0) [
      | none ↦ none
      | some chunks ↦ some (fold_short_tail chunks options.min_size)
    ]

-- The question before every chunk but the first.
abbrev pub repeat_question : List ℕ → List (List ℕ) → List (List ℕ)
repeat_question question [] = []
repeat_question question (chunk ∷ chunks) =
    chunk ∷ map (λ piece. trim question ++ newline ∷ piece) chunks

-- `question ? … : …`, for which an empty question is none.
abbrev pub given : Option (List ℕ) → Bool
given none = false
given (some question) = is_nonempty question

abbrev pub combined : Option (List ℕ) → List ℕ → List ℕ
combined none body = trim body
combined (some question) body =
    if is_nonempty question then trim question ++ newline ∷ trim body else trim body

pub chunk_qa : Option (List ℕ) → (body : List ℕ) → ChunkOptions → Option (List (List ℕ))
chunk_qa question body options = elim (chunk_text (combined question body) options) [
  | none ↦ none
  | some chunks ↦
      if not (given question) || leb (length chunks) 1
      then some chunks
      else some (repeat_question (get_question question) chunks)
]
  where
    get_question : Option (List ℕ) → List ℕ
    get_question none = []
    get_question (some q) = q
