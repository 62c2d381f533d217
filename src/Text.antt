-- ===== src/Text.antt =====
-- Splitting outbound text to a platform's limit: packages/channels/src/text.ts. A text is the list
-- of its UTF-16 code units, which is what `length` and `slice` count.
pub mod Trim
pub mod Search
pub mod Split
mod Tests
use mathlib.Core.List.{reverse}
use Prim.Native.Char.{code}
use Prim.Native.String
use chatbot_integration.Prelude.{
  ℕ, zero, suc, ◌+◌, ◌*◌, String, Bool, true, false, ◌&&◌, ◌||◌, Option, none, some, List, [], ◌∷◌,
  length, take, drop, keep, leb, ltb, ◌==◌, if◌then◌else◌, not, map,
}

-- The code units of a text that is ASCII.
abbrev pub codes : String → List ℕ
codes String.[] = []
codes (String.◌∷◌ c s) = code c ∷ codes s

abbrev pub is_digit : ℕ → Bool
is_digit c = leb b'0' c && leb c b'9'

-- The white space and line terminators of `String.prototype.trim`.
unfoldable pub is_space : ℕ → Bool
is_space c =
    (leb 9 c && leb c 13)
    || (c == 32)
    || (c == 160)
    || (c == 5760)
    || (leb 8192 c && leb c 8202)
    || (c == 8232)
    || (c == 8233)
    || (c == 8239)
    || (c == 8287)
    || (c == 12288)
    || (c == 65279)

unfoldable pub trim_start : List ℕ → List ℕ
trim_start [] = []
trim_start (c ∷ s) = if is_space c then trim_start s else c ∷ s

unfoldable pub trim : List ℕ → List ℕ
unfolding trim_start
trim s = reverse (trim_start (reverse (trim_start s)))

abbrev pub starts_with : List ℕ → List ℕ → Bool
starts_with [] s = true
starts_with (c ∷ sep) [] = false
starts_with (c ∷ sep) (d ∷ s) = (c == d) && starts_with sep s

-- `lastIndexOf`, with `none` for -1.
unfoldable pub last_index_of : List ℕ → List ℕ → Option ℕ
last_index_of sep [] = if starts_with sep [] then some 0 else none
last_index_of sep (c ∷ s) = elim (last_index_of sep s) [
  | some i ↦ some (suc i)
  | none ↦ if starts_with sep (c ∷ s) then some 0 else none
]

abbrev newline : ℕ
newline = 10

abbrev pub separators : List (List ℕ)
separators =
    (newline ∷ newline ∷ [])
    ∷ (newline ∷ [])
    ∷ codes ". "
    ∷ codes "! "
    ∷ codes "? "
    ∷ codes " "
    ∷ []

-- The loop of `findBreakPoint`. `index > maxLength * 0.5` is `maxLength < 2 * index`.
break_point : List (List ℕ) → (window : List ℕ) (max_length : ℕ) → ℕ
break_point [] window max_length = max_length
break_point (sep ∷ seps) window max_length =
    let rest = break_point seps window max_length in
    elim (last_index_of sep window) [
      | none ↦ rest
      | some index ↦ if ltb max_length (2 * index) then index + length sep else rest
    ]

pub find_break_point : (window : List ℕ) (max_length : ℕ) → ℕ
unfolding break_point
find_break_point window max_length = break_point separators window max_length

abbrev pub is_nonempty : List ℕ → Bool
is_nonempty [] = false
is_nonempty (c ∷ s) = true

abbrev pub push_chunk : List ℕ → Option (List (List ℕ)) → Option (List (List ℕ))
push_chunk chunk none = none
push_chunk chunk (some chunks) = some (chunk ∷ chunks)

-- The `while` loop, with its chunks in order; `none` means that the fuel ran out.
pub split_loop : (fuel : ℕ) → List ℕ → (max_length : ℕ) → Option (List (List ℕ))
split_loop zero remaining max_length = none
split_loop (suc fuel) remaining max_length =
    let break_at = find_break_point (take max_length remaining) max_length in
    let rest = split_loop fuel (trim (drop break_at remaining)) max_length in
    let more = push_chunk (trim (take break_at remaining)) rest in
    if ltb max_length (length remaining)
    then more
    else some (if is_nonempty remaining then remaining ∷ [] else [])

pub split_text : (text : List ℕ) (max_length : ℕ) → Option (List (List ℕ))
split_text text max_length =
    let trimmed = trim text in
    if not (is_nonempty trimmed)
    then some []
    else if leb (length trimmed) max_length
    then some (trimmed ∷ [])
    else elim (split_loop (suc (length trimmed)) trimmed max_length) [
      | none ↦ none
      | some chunks ↦ some (keep is_nonempty chunks)
    ]
