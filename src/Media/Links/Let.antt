-- ===== src/Media/Links/Let.antt =====
-- What the route lets through: apps/api/src/routes/media.ts.
use chatbot_integration.Prelude.{
  ℕ, ◌*◌, ◌<◌, ◌≡◌, refl, subst, ap, Bool, true, false, ◌||◌, Option, none, some, List, [], ◌∷◌,
  ◌++◌, not, arith, Bool-cases, inl, inr, if◌then◌else◌,
}
use chatbot_integration.Text.{codes, starts_with}
use chatbot_integration.Json.{Json, text, num, object, get_field}
use chatbot_integration.Tokens.Envelope.{
  Platform, Verified, verified, refused, split_at_unit, verify_envelope, verify_signed_payload,
  check_claims, concluded, expiry_of, is_expired,
}
use chatbot_integration.Tokens.Envelope.Read.{IsSigned, verify_envelope-IsSigned}
use chatbot_integration.Media.{
  slash, is_empty, is_workspace_key, MediaHeaders, media_serving_headers,
}
use chatbot_integration.Media.Links.{
  MediaClaims, media_claims_schema, StoredObject, MediaResponse, found, not_found,
  verify_media_token, serve, respond, token_segment, media_route, on_claims,
}

on_claims-exp :
    (key ws exp : Option Json) (claims : MediaClaims)
    → on_claims key ws exp ≡ some claims
    → exp ≡ some (num claims.exp)
on_claims-exp (some (text key)) (some (text ws)) (some (num exp)) claims h =
    elim (Bool-cases (is_empty key || (is_empty ws || not (starts_with (ws ++ slash ∷ []) key)))) [
      | inl e ↦ absurd (ground arith)
      | inr e ↦ ap (λ n. some (num n)) (ground arith)
    ]
on_claims-exp _ _ _ claims h = cc

schema-exp :
    (platform : Platform) (raw : Json) (claims : MediaClaims)
    → media_claims_schema raw ≡ some claims
    → expiry_of platform raw ≡ some claims.exp
unfolding media_claims_schema
schema-exp platform (object fields) claims h =
    rw
      (
        on_claims-exp (get_field (codes "key") fields) (get_field (codes "ws") fields)
            (get_field (codes "exp") fields) claims h,
        expiry_of,
      )
      refl
schema-exp platform _ claims h = cc

not_found-inverse :
    (b : Bool) (r : MediaResponse) (body : List ℕ) (headers : MediaHeaders)
    → (if b then not_found else r) ≡ found body headers
    → r ≡ found body headers
not_found-inverse true r body headers h = cc
not_found-inverse false r body headers h = h

unexpired :
    (platform : Platform) (exp now : ℕ)
    → is_expired platform now (some exp) ≡ false
    → now < exp * 1000
unexpired platform exp now h = ground arith

concluded-inverse :
    {T : Type 0} (platform : Platform) (o : Option T) (has_expired : Bool) (data_ : T)
    → concluded platform o has_expired ≡ verified data_
    → (o ≡ some data_) × (has_expired ≡ false)
concluded-inverse platform none has_expired data_ h = cc
concluded-inverse platform (some d) true data_ h = cc
concluded-inverse platform (some d) false data_ h = (cc, refl)

check_claims-inverse :
    {T : Type 0} (platform : Platform) (schema : Json → Option T) (now : ℕ) (v : Verified Json)
    (data_ : T)
    → check_claims platform schema now v ≡ verified data_
    → (raw : Json) × (v ≡ verified raw)
      × (schema raw ≡ some data_)
      × (is_expired platform now (expiry_of platform raw) ≡ false)
check_claims-inverse platform schema now (refused error) data_ h = cc
check_claims-inverse platform schema now (verified raw) data_ h =
    let (e, f) =
      concluded-inverse platform (schema raw) (is_expired platform now (expiry_of platform raw))
        data_ h in
    (raw, refl, e, f)

module _ (platform : Platform) (get : List ℕ → Option StoredObject) where
  -- What a token lets through: the file of its claims.
  pub record IsLet (secret token : List ℕ) (now : ℕ) (body : List ℕ) (headers : MediaHeaders)
      : Type 0 where
    pub claims : MediaClaims
    pub raw : Json
    pub object_ : StoredObject
    pub signed : IsSigned platform token secret raw
    pub named : media_claims_schema raw ≡ some claims
    pub own : is_workspace_key claims.ws claims.key ≡ true
    pub fresh : now < claims.exp * 1000
    pub stored : get claims.key ≡ some object_
    pub sent : (body ≡ object_.data_) × (headers ≡ media_serving_headers object_.mime)

  respond-inverse :
      (o : Option StoredObject) (body : List ℕ) (headers : MediaHeaders)
      → respond platform get o ≡ found body headers
      → (object_ : StoredObject) × (o ≡ some object_)
        × (body ≡ object_.data_)
        × (headers ≡ media_serving_headers object_.mime)
  respond-inverse none body headers h = cc
  respond-inverse (some object_) body headers h = (object_, refl, cc, cc)

  serve-inverse :
      (v : Verified MediaClaims) (body : List ℕ) (headers : MediaHeaders)
      → serve platform get v ≡ found body headers
      → (claims : MediaClaims) × (v ≡ verified claims)
        × (is_workspace_key claims.ws claims.key ≡ true)
        × (respond platform get (get claims.key) ≡ found body headers)
  serve-inverse (refused error) body headers h = cc
  serve-inverse (verified claims) body headers h =
      elim (Bool-cases (is_workspace_key claims.ws claims.key)) [
        | inl e ↦ (claims, refl, e, rw e at h)
        | inr e ↦ absurd (ground arith)
      ]

  -- The route answers with a file only for a path whose first segment is a token of three parts,
  -- the last the code of the others under the secret, and then with the file that the token's
  -- claims name: the token has not expired, the key is one of its own workspace, and the headers
  -- are those of the file's type.
  pub media_route-IsLet :
      (secret path : List ℕ) (now : ℕ) (body : List ℕ) (headers : MediaHeaders)
      → media_route platform get secret path now ≡ found body headers
      → IsLet secret (token_segment platform get (split_at_unit slash path)) now body headers
  unfolding media_route verify_media_token verify_signed_payload
  media_route-IsLet secret path now body headers h =
      let token = token_segment platform get (split_at_unit slash path) in
      let served =
        not_found-inverse (is_empty token)
          (serve platform get (verify_media_token platform token secret now)) body headers h in
      let (claims, accepted, own, answered) =
        serve-inverse (verify_media_token platform token secret now) body headers served in
      let (raw, envelope, named, fresh) =
        check_claims-inverse platform media_claims_schema now
          (verify_envelope platform token secret) claims accepted in
      let (object_, stored, same_body, same_headers) =
        respond-inverse (get claims.key) body headers answered in
      record {
        claims = claims;
        raw = raw;
        object_ = object_;
        signed = verify_envelope-IsSigned platform token secret raw envelope;
        named = named;
        own = own;
        fresh = unexpired platform claims.exp now (
            subst (λ o. is_expired platform now o ≡ false) (schema-exp platform raw claims named)
              fresh);
        stored = stored;
        sent = (same_body, same_headers);
      }
