-- ===== src/Tokens/Envelope/Read.antt =====
-- Tokens that are read back: packages/channels/src/jwt.ts.
use mathlib.Core.Path.{ap₂}
use mathlib.Core.List.{append_assoc}
use chatbot_integration.Prelude.{
  ℕ, ◌≡◌, refl, sym, ap, ◌∙◌, true, false, Option, none, some, List, [], ◌∷◌, ◌++◌, All, All-append,
  length, ◌==◌, ==_iff, arith, Bool-cases, inl, inr,
}
use chatbot_integration.Json.{Json}
use chatbot_integration.Tokens.Base64.{base64_url_encode, base64_url_decode}
use chatbot_integration.Tokens.Groups.{
  IsUnbroken, base64_url_decode-encode, base64_url_encode-IsUnbroken,
}
use chatbot_integration.Tokens.Envelope.{
  Platform, IsPlatform, IsCarried, Verified, verified, split_at_unit, differ, timing_safe_equal,
  dot, VisitorTokenError, check_header, after_header, check_signature, payload_of, sign_payload,
  verify_envelope, header_claims, json_of, on_parts, encode, signed_part,
}

pub split-plain :
    (unit : ℕ) (s : List ℕ) → All (λ c. (c == unit) ≡ false) s → split_at_unit unit s ≡ s ∷ []
unfolding split_at_unit
split-plain unit [] h = refl
split-plain unit (c ∷ s) (h, hs) = rw (h, split-plain unit s hs) refl

pub split-part :
    (unit : ℕ) (s rest : List ℕ)
    → All (λ c. (c == unit) ≡ false) s
    → split_at_unit unit (s ++ unit ∷ rest) ≡ s ∷ split_at_unit unit rest
unfolding split_at_unit
split-part unit [] rest h = ground arith
split-part unit (c ∷ s) rest (h, hs) = rw (h, split-part unit s rest hs) refl

differ_self : (a : List ℕ) → differ a a ≡ false
unfolding differ
differ_self [] = refl
differ_self (x ∷ a) = ground (arith, differ_self a)

pub timing_safe_equal_self : (a : List ℕ) → timing_safe_equal a a ≡ true
unfolding timing_safe_equal
timing_safe_equal_self a = ground (arith, differ_self a)

-- Comparing in constant time compares.
differ-same : (a b : List ℕ) → length a ≡ length b → differ a b ≡ false → a ≡ b
unfolding differ
differ-same [] [] e h = refl
differ-same [] (y ∷ b) e h = absurd (omega arith)
differ-same (x ∷ a) [] e h = absurd (omega arith)
differ-same (x ∷ a) (y ∷ b) e h = elim (Bool-cases (x == y)) [
  | inl same ↦ ap₂ (◌∷◌) ((==_iff x y).0 same) (differ-same a b (omega arith) (ground arith))
  | inr other ↦ absurd (ground arith)
]

pub timing_safe_equal-same : (a b : List ℕ) → timing_safe_equal a b ≡ true → a ≡ b
unfolding timing_safe_equal
timing_safe_equal-same a b h = elim (Bool-cases (length a == length b)) [
  | inl e ↦ differ-same a b ((==_iff (length a) (length b)).0 e) (ground arith)
  | inr e ↦ absurd (ground arith)
]

split-token :
    (header payload signature : List ℕ)
    → All (λ c. (c == dot) ≡ false) header
    → All (λ c. (c == dot) ≡ false) payload
    → All (λ c. (c == dot) ≡ false) signature
    → split_at_unit dot ((header ++ dot ∷ payload) ++ dot ∷ signature)
      ≡ header ∷ payload ∷ signature ∷ []
split-token header payload signature h p s =
    ap (split_at_unit dot) (append_assoc header (dot ∷ payload) (dot ∷ signature))
    ∙ split-part dot header (payload ++ dot ∷ signature) h
    ∙ ap (λ parts. header ∷ parts)
        (split-part dot payload signature p
          ∙ ap (λ parts. payload ∷ parts) (split-plain dot signature s))

module _ (platform : Platform) where
  json_of-encode :
      (value : Json)
      → IsCarried platform value
      → json_of platform (encode platform value) ≡ some value
  json_of-encode value carried =
      rw (base64_url_decode-encode (platform.stringify value) carried.json_bytes, json_of)
        carried.parse_back

  encode-IsUnbroken : (value : Json) → IsCarried platform value → IsUnbroken (encode platform value)
  encode-IsUnbroken value carried =
      base64_url_encode-IsUnbroken (platform.stringify value) carried.json_bytes

  on_parts-good :
      (secret header payload signature : List ℕ) (claims : Json)
      → json_of platform header ≡ some header_claims
      → json_of platform payload ≡ some claims
      → base64_url_decode signature
        ≡ some (platform.hmac secret (signed_part platform header payload))
      → on_parts platform secret (header ∷ payload ∷ signature ∷ []) ≡ verified claims
  on_parts-good secret header payload signature claims h p s =
      rw
        (
          h,
          s,
          p,
          timing_safe_equal_self (platform.hmac secret (signed_part platform header payload)),
        )
        refl

  -- A token that was signed with the secret is accepted under it, with the claims that were signed.
  pub verify_envelope-sign :
      (claims : Json)
      → IsPlatform platform claims
      → (secret : List ℕ)
      → verify_envelope platform (sign_payload platform claims secret) secret ≡ verified claims
  unfolding verify_envelope sign_payload
  verify_envelope-sign claims laws secret =
      let header = encode platform header_claims in
      let payload = encode platform claims in
      let mac = platform.hmac secret (signed_part platform header payload) in
      let mac_bytes = laws.hmac_bytes secret (signed_part platform header payload) in
      ap (on_parts platform secret) (
        split-token header payload (base64_url_encode mac)
          (encode-IsUnbroken header_claims laws.header).0 (encode-IsUnbroken claims laws.payload).0
          (base64_url_encode-IsUnbroken mac mac_bytes).0)
      ∙ on_parts-good secret header payload (base64_url_encode mac) claims
          (json_of-encode header_claims laws.header) (json_of-encode claims laws.payload)
          (base64_url_decode-encode mac mac_bytes)

  -- A token holds no slash.
  pub sign_payload-unbroken :
      (claims : Json)
      → IsPlatform platform claims
      → (secret : List ℕ) → All (λ c. (c == b'/') ≡ false) (sign_payload platform claims secret)
  unfolding sign_payload
  sign_payload-unbroken claims laws secret =
      let header = encode platform header_claims in
      let payload = encode platform claims in
      let signed = signed_part platform header payload in
      All-append _ signed (dot ∷ base64_url_encode (platform.hmac secret signed))
        (All-append _ header (dot ∷ payload) (encode-IsUnbroken header_claims laws.header).1
          (refl, (encode-IsUnbroken claims laws.payload).1))
        (
          refl,
          (base64_url_encode-IsUnbroken (platform.hmac secret signed)
              (laws.hmac_bytes secret signed)).1,
        )

module _ (platform : Platform) where
  -- Three parts, of which the last is the code of the other two under the secret.
  pub record IsSigned (token secret : List ℕ) (claims : Json) : Type 0 where
    pub header : List ℕ
    pub payload : List ℕ
    pub signature : List ℕ
    pub parts : split_at_unit dot token ≡ header ∷ payload ∷ signature ∷ []
    pub code :
        base64_url_decode signature
        ≡ some (platform.hmac secret (signed_part platform header payload))
    pub content : json_of platform payload ≡ some claims

  after_header-inverse :
      (wrong : Option VisitorTokenError) (v : Verified Json) (claims : Json)
      → after_header platform wrong v ≡ verified claims
      → v ≡ verified claims
  after_header-inverse none v claims h = h
  after_header-inverse (some error) v claims h = cc

  check_signature-inverse :
      (expected : List ℕ) (provided : Option (List ℕ)) (v : Verified Json) (claims : Json)
      → check_signature platform expected provided v ≡ verified claims
      → (provided ≡ some expected) × (v ≡ verified claims)
  check_signature-inverse expected none v claims h = cc
  check_signature-inverse expected (some provided) v claims h =
      elim (Bool-cases (timing_safe_equal expected provided)) [
        | inl e ↦ (ap some (sym (timing_safe_equal-same expected provided e)), rw e at h)
        | inr e ↦ absurd (ground arith)
      ]

  payload_of-inverse :
      (content : Option Json) (claims : Json)
      → payload_of platform content ≡ verified claims
      → content ≡ some claims
  payload_of-inverse none claims h = cc
  payload_of-inverse (some raw) claims h = cc

  on_parts-IsSigned :
      (token secret : List ℕ) (parts : List (List ℕ)) (claims : Json)
      → split_at_unit dot token ≡ parts
      → on_parts platform secret parts ≡ verified claims
      → IsSigned token secret claims
  on_parts-IsSigned token secret (header ∷ payload ∷ signature ∷ []) claims e h =
      let signed = after_header-inverse (check_header (json_of platform header)) _ claims h in
      let (code, content) =
        check_signature-inverse (platform.hmac secret (signed_part platform header payload))
          (base64_url_decode signature) (payload_of platform (json_of platform payload)) claims
          signed in
      record {
        header = header;
        payload = payload;
        signature = signature;
        parts = e;
        code = code;
        content = payload_of-inverse (json_of platform payload) claims content;
      }
  on_parts-IsSigned token secret _ claims e h = cc

  pub verify_envelope-IsSigned :
      (token secret : List ℕ) (claims : Json)
      → verify_envelope platform token secret ≡ verified claims
      → IsSigned token secret claims
  unfolding verify_envelope
  verify_envelope-IsSigned token secret claims h =
      on_parts-IsSigned token secret (split_at_unit dot token) claims refl h
