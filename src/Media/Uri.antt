-- ===== src/Media/Uri.antt =====
-- `encodeURIComponent`, for packages/infra/src/media-links.ts.
use chatbot_integration.Prelude.{
  ℕ, ◌+◌, ◌-◌, ◌*◌, ◌/◌, ◌%◌, Bool, ◌&&◌, ◌||◌, Option, none, some, List, [], ◌∷◌, ◌++◌, any, ltb,
  leb, ◌==◌, if◌then◌else◌,
}
use chatbot_integration.Text.{codes, is_digit}

abbrev is_unreserved : ℕ → Bool
is_unreserved c =
    is_digit c
    || ((leb 65 c && leb c 90) || ((leb 97 c && leb c 122) || any (◌==◌ c) (codes "-_.!~*'()")))

abbrev upper_hex : ℕ → ℕ
upper_hex n = if ltb n 10 then n + 48 else n + 55

abbrev escaped_byte : ℕ → List ℕ
escaped_byte b = b'%' ∷ upper_hex (b / 16) ∷ upper_hex (b % 16) ∷ []

-- A byte of UTF-8 that continues a code point, and the code point in bytes.
abbrev continued : ℕ → List ℕ
continued n = escaped_byte (n % 64 + 128)

abbrev escaped_point : ℕ → List ℕ
escaped_point n =
    if ltb n 128
    then escaped_byte n
    else if ltb n 2048
    then escaped_byte (n / 64 + 192) ++ continued n
    else if ltb n 65536
    then escaped_byte (n / 4096 + 224) ++ (continued (n / 64) ++ continued n)
    else escaped_byte (n / 262144 + 240)
      ++ (continued (n / 4096) ++ (continued (n / 64) ++ continued n))

abbrev pub is_high : ℕ → Bool
is_high c = leb 55296 c && leb c 56319

abbrev pub is_low : ℕ → Bool
is_low c = leb 56320 c && leb c 57343

abbrev point_of : (high low : ℕ) → ℕ
point_of high low = (high - 55296) * 1024 + (low - 56320) + 65536

abbrev encode_unit : ℕ → List ℕ
encode_unit c = if is_unreserved c then c ∷ [] else escaped_point c

abbrev before : List ℕ → Option (List ℕ) → Option (List ℕ)
before s none = none
before s (some rest) = some (s ++ rest)

-- `none` is the `URIError` of half a surrogate pair.
unfoldable pub encode_uri_component : List ℕ → Option (List ℕ)
encode_uri_component [] = some []
encode_uri_component (c ∷ []) = if is_high c || is_low c then none else some (encode_unit c)
encode_uri_component (c ∷ d ∷ s) =
    let next = encode_uri_component (d ∷ s) in
    let rest = encode_uri_component s in
    if is_high c
    then if is_low d then before (escaped_point (point_of c d)) rest else none
    else if is_low c
    then none
    else before (encode_unit c) next
