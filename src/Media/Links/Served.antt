-- ===== src/Media/Links/Served.antt =====
-- What a link leads to: packages/infra/src/media-links.ts and apps/api/src/routes/media.ts.
use chatbot_integration.Prelude.{
  ℕ, ◌+◌, ◌*◌, ◌/◌, ◌<◌, ◌≡◌, refl, true, false, ◌||◌, Option, some, List, [], ◌∷◌, ◌++◌, not,
  arith, leb,
}
use chatbot_integration.Text.{codes, starts_with}
use chatbot_integration.Json.{Json}
use chatbot_integration.Tokens.Envelope.{
  Platform, IsPlatform, verified, split_at_unit, sign_payload, verify_signed_payload, encode,
  signed_part, header_claims, dot,
}
use chatbot_integration.Tokens.Envelope.Read.{
  split-part, verify_envelope-sign, sign_payload-unbroken,
}
use chatbot_integration.Media.Uri.{encode_uri_component}
use chatbot_integration.Media.{slash, is_empty, is_workspace_key}
use chatbot_integration.Media.Links.{
  claims_json, media_claims_schema, LinkOptions, StoredObject, trimmed_base, claims_of, token_of,
  name_of, path_of, sign_media_url, verify_media_token, respond, media_route, day_ms,
}

claims_pass :
    (ws key : List ℕ)
    → is_workspace_key ws key ≡ true
    → (is_empty key || (is_empty ws || not (starts_with (ws ++ slash ∷ []) key))) ≡ false
unfolding is_workspace_key
claims_pass [] key h = cc
claims_pass (c ∷ ws) [] h = cc
claims_pass (c ∷ ws) (d ∷ key) h = ground arith

ended : (s : List ℕ) (c : ℕ) (t : List ℕ) → is_empty (s ++ c ∷ t) ≡ false
ended [] c t = refl
ended (d ∷ s) c t = refl

not_expired : (exp later : ℕ) → later < exp * 1000 → leb (exp * 1000) later ≡ false
not_expired exp later h = ground arith

module _ (platform : Platform) where
  -- JSON and HMAC, for the claims of a link.
  abbrev pub Carries : LinkOptions → (key : List ℕ) → Type 0
  Carries options key = IsPlatform platform (claims_json (claims_of platform options key))

  verify-token :
      (options : LinkOptions) (key : List ℕ) (later : ℕ)
      → Carries options key
      → is_workspace_key options.workspace_id key ≡ true
      → later < (claims_of platform options key).exp * 1000
      → verify_media_token platform (token_of platform options key) options.secret later
        ≡ verified (claims_of platform options key)
  unfolding verify_media_token verify_signed_payload media_claims_schema is_workspace_key
  verify-token options key later laws ok h =
      let claims = claims_of platform options key in
      rw
        (
          verify_envelope-sign platform (claims_json claims) laws options.secret,
          claims_pass options.workspace_id key ok,
          not_expired claims.exp later h,
        )
        refl

  token_in_path :
      (options : LinkOptions) (key name : List ℕ)
      → Carries options key
      → split_at_unit slash (token_of platform options key ++ slash ∷ name)
        ≡ token_of platform options key ∷ split_at_unit slash name
  token_in_path options key name laws = split-part slash (token_of platform options key) name (
      sign_payload-unbroken platform (claims_json (claims_of platform options key)) laws
        options.secret)

  token_not_empty :
      (claims : Json) (secret : List ℕ) → is_empty (sign_payload platform claims secret) ≡ false
  unfolding sign_payload
  token_not_empty claims secret =
      ended (signed_part platform (encode platform header_claims) (encode platform claims)) dot _

  -- A link to a file of the workspace can be made if its name can be encoded, and until it expires
  -- whoever fetches it gets that very file, whatever name the link ends in, where HMAC gives bytes
  -- and JSON reads back the header and the claims that it wrote.
  pub link_served :
      (options : LinkOptions) (key : List ℕ) (file_name : Option (List ℕ)) (name : List ℕ)
      (later : ℕ) (get : List ℕ → Option StoredObject)
      → Carries options key
      → is_workspace_key options.workspace_id key ≡ true
      → encode_uri_component (name_of key file_name) ≡ some name
      → later < (options.now + options.ttl_days * day_ms) / 1000 * 1000
      → (sign_media_url platform options key file_name
          ≡ some (
              trimmed_base options.base_url
              ++ (codes "/api/media/" ++ path_of platform options key name)))
        × (media_route platform get options.secret (path_of platform options key name) later
            ≡ respond platform get (get key))
  unfolding sign_media_url media_route
  link_served options key file_name name later get laws ok encoded h = (
    rw (ok, encoded) refl,
    rw
        (
          token_in_path options key name laws,
          token_not_empty (claims_json (claims_of platform options key)) options.secret,
          verify-token options key later laws ok h,
          ok,
        )
        refl,
  )
