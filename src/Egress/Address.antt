-- ===== src/Egress/Address.antt =====
-- Which addresses are private: `isPrivateV4`, `expandV6`, `isPrivateV6` and `isPrivateAddress` of
-- packages/infra/src/egress.ts. A text is the list of its code units; `net.isIP` is a parameter.
pub mod Blocks
pub mod Embedded
mod Tests
use mathlib.Core.List.{reverse, flat_map}
use chatbot_integration.Prelude.{
  ℕ, zero, suc, ◌+◌, ◌-◌, ◌*◌, ◌/◌, ◌%◌, Bool, true, false, ◌&&◌, ◌||◌, not, List, [], ◌∷◌, ◌++◌,
  Option, none, some, leb, ltb, ◌==◌, if◌then◌else◌, map, length, any, all, take, drop, String,
}
use chatbot_integration.Text.{codes, starts_with, is_digit}

-- `split` at one code unit.
put_char : ℕ → List (List ℕ) → List (List ℕ)
put_char c [] = (c ∷ []) ∷ []
put_char c (p ∷ ps) = (c ∷ p) ∷ ps

pub split_at : (sep : ℕ) → List ℕ → List (List ℕ)
unfolding put_char
split_at sep [] = [] ∷ []
split_at sep (c ∷ s) = if c == sep then [] ∷ split_at sep s else put_char c (split_at sep s)

decimal_from : ℕ → List ℕ → ℕ
decimal_from n [] = n
decimal_from n (c ∷ s) = decimal_from (n * 10 + (c - b'0')) s

-- `Number`, on the texts that an address can hold: digits, or nothing, which is 0; all else is NaN.
pub number : List ℕ → Option ℕ
unfolding decimal_from
number s = if all is_digit s then some (decimal_from 0 s) else none

-- The ladder of `isPrivateV4` over the first two numbers.
unfoldable pub is_private_octets : (a b : ℕ) → Bool
is_private_octets a b =
    if a == 0
    then true
    else if a == 10
    then true
    else if a == 127
    then true
    else if (a == 169) && (b == 254)
    then true
    else if (a == 172) && (leb 16 b && leb b 31)
    then true
    else if (a == 192) && (b == 168)
    then true
    else if (a == 100) && (leb 64 b && leb b 127)
    then true
    else leb 224 a

private_parts : List (Option ℕ) → Bool
private_parts (some a ∷ some b ∷ some c ∷ some d ∷ []) = is_private_octets a b
private_parts parts = true

pub is_private_v4 : List ℕ → Bool
unfolding private_parts
is_private_v4 address = private_parts (map number (split_at b'.' address))

is_digits : List ℕ → Bool
is_digits [] = false
is_digits (c ∷ s) = all is_digit (c ∷ s)

-- A whole text of the form `\d+\.\d+\.\d+\.\d+`.
is_quad : List ℕ → Bool
unfolding is_digits
is_quad s = (length (split_at b'.' s) == 4) && all is_digits (split_at b'.' s)

-- `exec` of that pattern at the end of a text: what stands before the match, and the match.
find_quad : List ℕ → Option (List ℕ × List ℕ)
find_quad [] = none
find_quad (c ∷ s) =
    if is_quad (c ∷ s)
    then some ([], c ∷ s)
    else elim (find_quad s) [ none ↦ none | some (before, quad) ↦ some (c ∷ before, quad) ]

octet : List ℕ → Option ℕ
octet s = elim (number s) [ none ↦ none | some n ↦ if leb n 255 then some n else none ]

-- The two groups of a dotted quad.
quad_groups : List (Option ℕ) → Option (List ℕ)
quad_groups (some a ∷ some b ∷ some c ∷ some d ∷ []) = some ((a * 256 + b) ∷ (c * 256 + d) ∷ [])
quad_groups parts = none

-- Leave off a single trailing colon, but not a double one.
cut_colon : List ℕ → List ℕ
cut_colon [] = []
cut_colon (c ∷ []) = if c == b':' then [] else c ∷ []
cut_colon (c ∷ d ∷ r) = if (c == b':') && not (d == b':') then d ∷ r else c ∷ d ∷ r

drop_separator : List ℕ → List ℕ
unfolding cut_colon
drop_separator s = reverse (cut_colon (reverse s))

-- The trailing dotted quad as groups, and the text without it.
pub split_tail : List ℕ → Option (List ℕ × List ℕ)
unfolding find_quad quad_groups octet drop_separator
split_tail text = elim (find_quad text) [
  | none ↦ some (text, [])
  | some (before, quad) ↦ elim (quad_groups (map octet (split_at b'.' quad))) [
    | none ↦ none
    | some tail ↦ some (drop_separator before, tail)
  ]
]

-- `split('::')`: before the first `::`, and what follows it.
pub cut_double : List ℕ → List ℕ × Option (List ℕ)
cut_double [] = ([], none)
cut_double (c ∷ []) = (c ∷ [], none)
cut_double (c ∷ d ∷ s) =
    if (c == b':') && (d == b':')
    then ([], some s)
    else let (before, after) = cut_double (d ∷ s) in (c ∷ before, after)

hex_value : ℕ → Option ℕ
hex_value c =
    if is_digit c
    then some (c - b'0')
    else if leb b'a' c && leb c b'f'
    then some (c - b'a' + 10)
    else none

hex_from : ℕ → List ℕ → Option ℕ
hex_from n [] = some n
hex_from n (c ∷ s) = elim (hex_value c) [ none ↦ none | some v ↦ hex_from (n * 16 + v) s ]

-- One piece between colons: one to four lower-case hexadecimal digits.
pub group : List ℕ → Option ℕ
unfolding hex_value hex_from
group [] = none
group (c ∷ s) = if ltb 4 (length (c ∷ s)) then none else hex_from 0 (c ∷ s)

pub groups : List (List ℕ) → Option (List ℕ)
groups [] = some []
groups (p ∷ ps) = elim (group p) [
  | none ↦ none
  | some g ↦ elim (groups ps) [ none ↦ none | some gs ↦ some (g ∷ gs) ]
]

pub parse_part : List ℕ → Option (List ℕ)
parse_part [] = some []
parse_part (c ∷ s) = groups (split_at b':' (c ∷ s))

abbrev pub zeros : ℕ → List ℕ
zeros zero = []
zeros (suc n) = 0 ∷ zeros n

-- Eight groups, or nothing.
abbrev pub eight : List ℕ → Option (List ℕ)
eight gs = if length gs == 8 then some gs else none

pub fill : (head filled : List ℕ) → Option (List ℕ)
fill head filled =
    if leb (length head + length filled) 8
    then some (head ++ zeros (8 - length head - length filled) ++ filled)
    else none

-- The halves round `::`, where `after` is what follows the first one.
halves : (before : List ℕ) (after : Option (List ℕ)) (tail : List ℕ) → Option (List ℕ)
halves before none tail = elim (parse_part before) [
  | none ↦ none
  | some head ↦ eight (head ++ tail)
]
halves before (some after) tail = elim (cut_double after).1 [
  | some more ↦ none
  | none ↦ elim (parse_part before) [
    | none ↦ none
    | some head ↦ elim (parse_part after) [ none ↦ none | some rest ↦ fill head (rest ++ tail) ]
  ]
]

pub expand_v6 : List ℕ → Option (List ℕ)
unfolding halves
expand_v6 address = elim (split_tail address) [
  | none ↦ none
  | some (text, tail) ↦ halves (cut_double text).0 (cut_double text).1 tail
]

-- The decimal digits of a number below 1000.
abbrev pub decimal : ℕ → List ℕ
decimal n =
    if ltb n 10
    then (b'0' + n) ∷ []
    else if ltb n 100
    then (b'0' + n / 10) ∷ (b'0' + n % 10) ∷ []
    else (b'0' + n / 100) ∷ (b'0' + n / 10 % 10) ∷ (b'0' + n % 10) ∷ []

-- `embeddedV4`.
pub embedded_v4 : (g6 g7 : ℕ) → List ℕ
embedded_v4 g6 g7 =
    decimal (g6 / 256 % 256)
    ++ b'.' ∷ (decimal (g6 % 256) ++ b'.' ∷ (decimal (g7 / 256 % 256) ++ b'.' ∷ decimal (g7 % 256)))

-- The ladder of `isPrivateV6` over the eight groups. `(g0 & 0xfe00) === 0xfc00` compares the upper
-- 7 of 16 bits, and `(g0 & 0xffc0) === 0xfe80` the upper 10.
pub private_groups : List ℕ → Bool
private_groups (g0 ∷ g1 ∷ g2 ∷ g3 ∷ g4 ∷ g5 ∷ g6 ∷ g7 ∷ []) =
    let zero_lead = g0 + g1 + g2 + g3 == 0 in
    if (g0 + g1 + g2 + g3 + g4 + g5 + g6 == 0) && ((g7 == 0) || (g7 == 1))
    then true
    else if zero_lead && ((g4 == 0) && (g5 == 0xffff))
    then is_private_v4 (embedded_v4 g6 g7)
    else if zero_lead && ((g4 == 0xffff) && (g5 == 0))
    then is_private_v4 (embedded_v4 g6 g7)
    else if zero_lead && ((g4 == 0) && (g5 == 0))
    then is_private_v4 (embedded_v4 g6 g7)
    else if (g0 == 0x64) && (g1 == 0xff9b)
    then is_private_v4 (embedded_v4 g6 g7)
    else if g0 / 512 == 126
    then true
    else g0 / 64 == 1018
private_groups gs = true

abbrev pub lower : ℕ → ℕ
lower c = if leb b'A' c && leb c b'Z' then c + 32 else c

-- Up to a zone (`%`), in lower case and without brackets.
before_zone : List ℕ → List ℕ
before_zone [] = []
before_zone (c ∷ s) = if c == b'%' then [] else c ∷ before_zone s

strip_one : ℕ → List ℕ → List ℕ
strip_one bracket [] = []
strip_one bracket (c ∷ r) = if c == bracket then r else c ∷ r

pub unbracket : List ℕ → List ℕ
unfolding strip_one
unbracket s = reverse (strip_one b']' (reverse (strip_one b'[' s)))

pub is_private_v6 : List ℕ → Bool
unfolding before_zone
is_private_v6 address = elim (expand_v6 (unbracket (before_zone (map lower address)))) [
  | none ↦ true
  | some gs ↦ private_groups gs
]

-- `net.isIP` answers 4, 6, or 0.
pub is_private_address : (is_ip : String → ℕ) → String → Bool
is_private_address is_ip address =
    if is_ip address == 4
    then is_private_v4 (codes address)
    else if is_ip address == 6
    then is_private_v6 (codes address)
    else true
