-- ===== src/Tokens/Base64.antt =====
-- `base64UrlEncode` and `base64UrlDecode` of packages/channels/src/jwt.ts, with `btoa` and `atob`
-- as the platform documents them.
use chatbot_integration.Prelude.{
  ℕ, zero, suc, ◌+◌, ◌-◌, ◌*◌, ◌/◌, ◌%◌, Bool, true, false, ◌&&◌, ◌||◌, Option, none, some, List,
  [], ◌∷◌, ◌++◌, map, keep, length, ltb, ◌==◌, not, if◌then◌else◌,
}

-- Three bytes as four groups of six bits; the last group is filled up with zeros.
unfoldable pub sextets : List ℕ → List ℕ
sextets [] = []
sextets (a ∷ []) = a / 4 ∷ a % 4 * 16 ∷ []
sextets (a ∷ b ∷ []) = a / 4 ∷ (a % 4 * 16 + b / 16) ∷ b % 16 * 4 ∷ []
sextets (a ∷ b ∷ c ∷ bytes) =
    a / 4 ∷ (a % 4 * 16 + b / 16) ∷ (b % 16 * 4 + c / 64) ∷ c % 64 ∷ sextets bytes

-- What is left over of the last group is dropped.
unfoldable pub bytes_of : List ℕ → List ℕ
bytes_of [] = []
bytes_of (a ∷ []) = []
bytes_of (a ∷ b ∷ []) = (a * 4 + b / 16) ∷ []
bytes_of (a ∷ b ∷ c ∷ []) = (a * 4 + b / 16) ∷ (b % 16 * 16 + c / 4) ∷ []
bytes_of (a ∷ b ∷ c ∷ d ∷ rest) =
    (a * 4 + b / 16) ∷ (b % 16 * 16 + c / 4) ∷ (c % 4 * 64 + d) ∷ bytes_of rest

abbrev pub pad : ℕ
pad = b'='

-- The alphabet, `A-Z`, `a-z`, `0-9`, `+` and `/`.
unfoldable pub letter : ℕ → ℕ
letter n =
    if ltb n 26
    then n + 65
    else if ltb n 52
    then n + 71
    else if ltb n 62
    then n - 4
    else if n == 62
    then b'+'
    else b'/'

unfoldable pub letter_value : ℕ → Option ℕ
letter_value c =
    if ltb 64 c && ltb c 91
    then some (c - 65)
    else if ltb 96 c && ltb c 123
    then some (c - 71)
    else if ltb 47 c && ltb c 58
    then some (c + 4)
    else if c == b'+'
    then some 62
    else if c == b'/'
    then some 63
    else none

-- How many `=` make the length a multiple of four.
abbrev pub missing : ℕ → ℕ
missing n = (4 - n % 4) % 4

abbrev pub pads : ℕ → List ℕ
pads zero = []
pads (suc n) = pad ∷ pads n

abbrev pub padded : List ℕ → List ℕ
padded s = s ++ pads (missing (length s))

unfoldable pub btoa : List ℕ → List ℕ
btoa bytes = padded (map letter (sextets bytes))

-- `replace(/\+/g, '-').replace(/\//g, '_')`, and back.
unfoldable pub to_url : ℕ → ℕ
to_url c = if c == b'+' then b'-' else if c == b'/' then b'_' else c

unfoldable pub from_url : ℕ → ℕ
from_url c = if c == b'-' then b'+' else if c == b'_' then b'/' else c

abbrev is_nil : List ℕ → Bool
is_nil [] = true
is_nil (c ∷ s) = false

-- `replace(/=+$/, '')`.
unfoldable pub strip_pads : List ℕ → List ℕ
strip_pads [] = []
strip_pads (c ∷ s) = let rest = strip_pads s in if (c == pad) && is_nil rest then [] else c ∷ rest

unfoldable pub base64_url_encode : (bytes : List ℕ) → List ℕ
base64_url_encode bytes = strip_pads (map to_url (btoa bytes))

-- One `=` off the end, if there is one.
unfoldable pub strip_last : List ℕ → List ℕ
strip_last [] = []
strip_last (c ∷ []) = if c == pad then [] else c ∷ []
strip_last (c ∷ d ∷ s) = c ∷ strip_last (d ∷ s)

-- `atob` skips the white space of ASCII.
abbrev is_blank : ℕ → Bool
is_blank c = (c == 9) || ((c == 10) || ((c == 12) || ((c == 13) || (c == 32))))

unfoldable pub values : List ℕ → Option (List ℕ)
values [] = some []
values (c ∷ s) =
    let rest = values s in
    elim (letter_value c) [
      | none ↦ none
      | some n ↦ elim rest [ none ↦ none | some ns ↦ some (n ∷ ns) ]
    ]

abbrev unpadded : List ℕ → List ℕ
unpadded s = if length s % 4 == 0 then strip_last (strip_last s) else s

-- `none` is the error that is thrown.
abbrev decoded_values : Option (List ℕ) → Option (List ℕ)
decoded_values none = none
decoded_values (some ns) = if length ns % 4 == 1 then none else some (bytes_of ns)

unfoldable pub atob : List ℕ → Option (List ℕ)
atob s = decoded_values (values (unpadded (keep (λ c. not (is_blank c)) s)))

unfoldable pub base64_url_decode : (value : List ℕ) → Option (List ℕ)
base64_url_decode value = atob (padded (map from_url value))
