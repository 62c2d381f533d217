-- ===== src/Tokens/Envelope.antt =====
-- `signPayload`, `verifyEnvelope` and the checks on their claims: packages/channels/src/jwt.ts.
pub mod Read
use chatbot_integration.Prelude.{
  ℕ, ◌*◌, ◌<◌, ◌≡◌, Bool, true, false, ◌||◌, Option, none, some, List, [], ◌∷◌, ◌++◌, All, length,
  leb, ◌==◌, not, if◌then◌else◌,
}
use chatbot_integration.Text.{codes}
use chatbot_integration.Json.{
  Json, null, bool, num, text, array, object, Fields, end, field, same_units, get_field,
}
use chatbot_integration.Tokens.Base64.{base64_url_encode, base64_url_decode}

-- `VisitorTokenError`, by its message; `type_error` is what a header `null` throws.
pub data VisitorTokenError : Type 0 where
  three_segments header_json type_error unsupported_algorithm signature_base64 mismatch payload_json
        missing_claims expired :
      VisitorTokenError

pub data Verified (T : Type 0) : Type 0 where
  verified : T → Verified T
  refused : VisitorTokenError → Verified T

-- `stringify` gives the bytes of the text, and `parse` is `none` where it throws.
pub record Platform : Type 0 where
  pub hmac : (secret message : List ℕ) → List ℕ
  pub stringify : Json → List ℕ
  pub parse : List ℕ → Option Json

abbrev pub dot : ℕ
dot = b'.'

abbrev put_first : ℕ → List (List ℕ) → List (List ℕ)
put_first c [] = (c ∷ []) ∷ []
put_first c (part ∷ parts) = (c ∷ part) ∷ parts

-- `split`, at one code unit.
unfoldable pub split_at_unit : ℕ → List ℕ → List (List ℕ)
split_at_unit unit [] = [] ∷ []
split_at_unit unit (c ∷ s) =
    let rest = split_at_unit unit s in if c == unit then [] ∷ rest else put_first c rest

unfoldable pub differ : List ℕ → List ℕ → Bool
differ [] b = false
differ (x ∷ a) [] = not (x == 0) || differ a []
differ (x ∷ a) (y ∷ b) = not (x == y) || differ a b

unfoldable pub timing_safe_equal : List ℕ → List ℕ → Bool
unfolding differ
timing_safe_equal a b = if length a == length b then not (differ a b) else false

abbrev pub header_claims : Json
header_claims =
    object
      (field (codes "alg") (text (codes "HS256")) (field (codes "typ") (text (codes "JWT")) end))

-- What a signed payload relies on: HMAC gives bytes, and JSON gives bytes from which the header
-- and the claims are read back.
pub record IsCarried (platform : Platform) (value : Json) : Type 0 where
  pub json_bytes : All (λ b. b < 256) (platform.stringify value)
  pub parse_back : platform.parse (platform.stringify value) ≡ some value

pub record IsPlatform (platform : Platform) (claims : Json) : Type 0 where
  pub hmac_bytes : (secret message : List ℕ) → All (λ b. b < 256) (platform.hmac secret message)
  pub header : IsCarried platform header_claims
  pub payload : IsCarried platform claims

abbrev is_hs256 : Option Json → Bool
is_hs256 (some (text alg)) = same_units alg (codes "HS256")
is_hs256 _ = false

abbrev check_algorithm : Option Json → Option VisitorTokenError
check_algorithm alg = if is_hs256 alg then none else some unsupported_algorithm

-- What is wrong with a header.
abbrev pub check_header : Option Json → Option VisitorTokenError
check_header none = some header_json
check_header (some null) = some type_error
check_header (some (object fields)) = check_algorithm (get_field (codes "alg") fields)
check_header (some _) = some unsupported_algorithm

module _ (platform : Platform) where
  abbrev pub encode : Json → List ℕ
  encode value = base64_url_encode (platform.stringify value)

  abbrev pub json_of : (part : List ℕ) → Option Json
  json_of part = elim (base64_url_decode part) [ none ↦ none | some bytes ↦ platform.parse bytes ]

  abbrev pub signed_part : (header payload : List ℕ) → List ℕ
  signed_part header payload = header ++ dot ∷ payload

  unfoldable pub sign_payload : (claims : Json) (secret : List ℕ) → List ℕ
  sign_payload claims secret =
      let signed = signed_part (encode header_claims) (encode claims) in
      signed ++ dot ∷ base64_url_encode (platform.hmac secret signed)

  abbrev pub payload_of : Option Json → Verified Json
  payload_of none = refused payload_json
  payload_of (some claims) = verified claims

  abbrev pub check_signature : (expected : List ℕ) → Option (List ℕ) → Verified Json → Verified Json
  check_signature expected none payload = refused signature_base64
  check_signature expected (some provided) payload =
      if timing_safe_equal expected provided then payload else refused mismatch

  abbrev pub after_header : Option VisitorTokenError → Verified Json → Verified Json
  after_header (some error) rest = refused error
  after_header none rest = rest

  abbrev pub on_parts : (secret : List ℕ) → List (List ℕ) → Verified Json
  on_parts secret (header ∷ payload ∷ signature ∷ []) =
      after_header (check_header (json_of header)) (
        check_signature (platform.hmac secret (signed_part header payload))
          (base64_url_decode signature) (payload_of (json_of payload)))
  on_parts secret _ = refused three_segments

  unfoldable pub verify_envelope : (token secret : List ℕ) → Verified Json
  verify_envelope token secret = on_parts secret (split_at_unit dot token)

  abbrev pub expiry_of : Json → Option ℕ
  expiry_of (object fields) = elim (get_field (codes "exp") fields) [
    | some (num exp) ↦ some exp
    | _ ↦ none
  ]
  expiry_of _ = none

  -- Claims with no expiry do not expire; `now` is in milliseconds.
  abbrev pub is_expired : (now : ℕ) → Option ℕ → Bool
  is_expired now none = false
  is_expired now (some exp) = leb (exp * 1000) now

  abbrev pub concluded : {T : Type 0} → Option T → (has_expired : Bool) → Verified T
  concluded none has_expired = refused missing_claims
  concluded (some data_) has_expired = if has_expired then refused expired else verified data_

  abbrev pub check_claims :
      {T : Type 0} (schema : Json → Option T) (now : ℕ) → Verified Json → Verified T
  check_claims schema now (refused error) = refused error
  check_claims schema now (verified raw) = concluded (schema raw) (is_expired now (expiry_of raw))

  unfoldable pub verify_signed_payload :
      {T : Type 0} (token secret : List ℕ) (schema : Json → Option T) (now : ℕ) → Verified T
  unfolding verify_envelope
  verify_signed_payload token secret schema now =
      check_claims schema now (verify_envelope token secret)
