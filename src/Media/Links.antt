-- ===== src/Media/Links.antt =====
-- Links to stored files: packages/infra/src/media-links.ts, and the route that serves them,
-- apps/api/src/routes/media.ts. The store is a parameter.
pub mod Served
pub mod Let
use chatbot_integration.Prelude.{
  ℕ, ◌+◌, ◌*◌, ◌/◌, Bool, true, false, ◌&&◌, ◌||◌, Option, none, some, List, [], ◌∷◌, ◌++◌, any,
  map, take, ◌==◌, not, if◌then◌else◌,
}
use chatbot_integration.Text.{codes, starts_with, trim}
use chatbot_integration.Json.{Json, text, num, object, Fields, field, end, get_field}
use chatbot_integration.Tokens.Envelope.{
  Platform, Verified, verified, refused, split_at_unit, sign_payload, verify_signed_payload,
}
use chatbot_integration.Media.Uri.{encode_uri_component}
use chatbot_integration.Media.{
  slash, is_empty, is_workspace_key, MediaHeaders, media_serving_headers,
}

pub record MediaClaims : Type 0 where
  pub key : List ℕ
  pub ws : List ℕ
  pub exp : ℕ

abbrev pub claims_json : MediaClaims → Json
claims_json claims = object (
    field (codes "key") (text claims.key)
      (field (codes "ws") (text claims.ws) (field (codes "exp") (num claims.exp) end)))

abbrev claims_within : (key ws : List ℕ) (exp : ℕ) → Option MediaClaims
claims_within key ws exp =
    if is_empty key || (is_empty ws || not (starts_with (ws ++ slash ∷ []) key))
    then none
    else some (record { key = key; ws = ws; exp = exp })

abbrev pub on_claims : Option Json → Option Json → Option Json → Option MediaClaims
on_claims (some (text key)) (some (text ws)) (some (num exp)) = claims_within key ws exp
on_claims _ _ _ = none

-- `mediaClaimsSchema.safeParse`.
unfoldable pub media_claims_schema : Json → Option MediaClaims
media_claims_schema (object fields) =
    on_claims (get_field (codes "key") fields) (get_field (codes "ws") fields)
      (get_field (codes "exp") fields)
media_claims_schema _ = none

abbrev pub day_ms : ℕ
day_ms = 24 * 60 * 60 * 1000

abbrev is_unsafe : ℕ → Bool
is_unsafe c = any (◌==◌ c) (codes "/\\?%*:|\"<>")

unfoldable pub safe_file_name : (name : List ℕ) → List ℕ
safe_file_name name =
    let cleaned = trim (map (λ c. if is_unsafe c then b'-' else c) name) in
    if is_empty cleaned then codes "file" else take 120 cleaned

-- `pop` of the segments; there is always one.
abbrev pop : List (List ℕ) → List ℕ
pop [] = codes "file"
pop (segment ∷ []) = segment
pop (segment ∷ next ∷ segments) = pop (next ∷ segments)

-- `replace(/\/$/, '')`.
unfoldable pub trimmed_base : List ℕ → List ℕ
trimmed_base [] = []
trimmed_base (c ∷ []) = if c == slash then [] else c ∷ []
trimmed_base (c ∷ d ∷ s) = c ∷ trimmed_base (d ∷ s)

abbrev pub name_of : (storage_key : List ℕ) → Option (List ℕ) → List ℕ
name_of storage_key none = safe_file_name (pop (split_at_unit slash storage_key))
name_of storage_key (some file_name) = safe_file_name file_name

pub record LinkOptions : Type 0 where
  pub workspace_id : List ℕ
  pub secret : List ℕ
  pub base_url : List ℕ
  pub ttl_days : ℕ
  pub now : ℕ

pub record Attachment : Type 0 where
  pub storage_key : Option (List ℕ)
  pub source_url : Option (List ℕ)
  pub file_name : Option (List ℕ)

pub record StoredObject : Type 0 where
  pub data_ : List ℕ
  pub mime : List ℕ

-- `not_found` is the answer 404; of the headers of `found`, `cache-control` is left out.
pub data MediaResponse : Type 0 where
  not_found : MediaResponse
  found : (body : List ℕ) → MediaHeaders → MediaResponse

abbrev pub is_given : Option (List ℕ) → Bool
is_given none = false
is_given (some s) = not (is_empty s)

module _ (platform : Platform) where
  abbrev pub claims_of : LinkOptions → (storage_key : List ℕ) → MediaClaims
  claims_of options storage_key = record {
    key = storage_key;
    ws = options.workspace_id;
    exp = (options.now + options.ttl_days * day_ms) / 1000;
  }

  abbrev pub token_of : LinkOptions → (storage_key : List ℕ) → List ℕ
  token_of options storage_key =
      sign_payload platform (claims_json (claims_of options storage_key)) options.secret

  abbrev pub path_of : LinkOptions → (storage_key name : List ℕ) → List ℕ
  path_of options storage_key name = token_of options storage_key ++ slash ∷ name

  abbrev with_name : LinkOptions → (storage_key : List ℕ) → Option (List ℕ) → Option (List ℕ)
  with_name options storage_key none = none
  with_name options storage_key (some name) =
      some
        (trimmed_base options.base_url ++ (codes "/api/media/" ++ path_of options storage_key name))

  -- `none` is the error that is thrown.
  unfoldable pub sign_media_url :
      LinkOptions → (storage_key : List ℕ) → (file_name : Option (List ℕ)) → Option (List ℕ)
  sign_media_url options storage_key file_name =
      let name = encode_uri_component (name_of storage_key file_name) in
      if is_workspace_key options.workspace_id storage_key
      then with_name options storage_key name
      else none

  unfoldable pub verify_media_token : (token secret : List ℕ) (now : ℕ) → Verified MediaClaims
  verify_media_token token secret now =
      verify_signed_payload platform token secret media_claims_schema now

  abbrev with_url : Attachment → Option (List ℕ) → Option Attachment
  with_url attachment none = none
  with_url attachment (some url) = some (record attachment { source_url = some url })

  abbrev link_key : LinkOptions → Attachment → Option (List ℕ) → Option Attachment
  link_key options attachment none = some attachment
  link_key options attachment (some key) =
      with_url attachment (sign_media_url options key attachment.file_name)

  -- One that has a URL already, or no stored file, is left alone.
  unfoldable pub with_media_link : LinkOptions → Attachment → Option Attachment
  unfolding sign_media_url
  with_media_link options attachment =
      if is_given attachment.source_url || not (is_given attachment.storage_key)
      then some attachment
      else link_key options attachment attachment.storage_key

  unfoldable pub with_media_links : LinkOptions → List Attachment → Option (List Attachment)
  unfolding with_media_link
  with_media_links options [] = some []
  with_media_links options (attachment ∷ attachments) =
      let rest = with_media_links options attachments in
      elim (with_media_link options attachment) [
        | none ↦ none
        | some linked ↦ elim rest [ none ↦ none | some all_linked ↦ some (linked ∷ all_linked) ]
      ]

  module _ (get : (key : List ℕ) → Option StoredObject) where
    abbrev pub respond : Option StoredObject → MediaResponse
    respond none = not_found
    respond (some object_) = found object_.data_ (media_serving_headers object_.mime)

    abbrev pub serve : Verified MediaClaims → MediaResponse
    serve (refused error) = not_found
    serve (verified claims) =
        if is_workspace_key claims.ws claims.key then respond (get claims.key) else not_found

    abbrev pub token_segment : List (List ℕ) → List ℕ
    token_segment [] = []
    token_segment (part ∷ parts) = part

    -- The route, after `/api/media/`.
    unfoldable pub media_route : (secret path : List ℕ) (now : ℕ) → MediaResponse
    unfolding verify_media_token
    media_route secret path now =
        let token = token_segment (split_at_unit slash path) in
        if is_empty token then not_found else serve (verify_media_token token secret now)
