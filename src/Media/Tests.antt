-- ===== src/Media/Tests.antt =====
-- Links over a small platform.
use chatbot_integration.Prelude.{
  ℕ, zero, suc, ◌%◌, ◌≡◌, refl, Bool, true, false, Option, none, some, List, [], ◌∷◌, ◌++◌, length,
  arith, ◌==◌, if◌then◌else◌,
}
use chatbot_integration.Text.{codes, trim, trim_start, is_space}
use chatbot_integration.Json.{Json, object, get_field}
use chatbot_integration.Tokens.Envelope.{Platform, IsPlatform, split_at_unit, header_claims}
use chatbot_integration.Media.{slash, is_workspace_key, media_serving_headers, clean_mime}
use chatbot_integration.Media.Uri.{encode_uri_component}
use chatbot_integration.Media.Keys.{resolve_from, key_of_one_workspace}
use chatbot_integration.Media.Links.{
  path_of, safe_file_name, LinkOptions, StoredObject, found, claims_json, trimmed_base,
  sign_media_url, media_route, respond, token_segment,
}
use chatbot_integration.Media.Links.Served.{link_served}
use chatbot_integration.Media.Links.Let.{IsLet, media_route-IsLet}

abbrev options : LinkOptions
options = record {
  workspace_id = codes "w";
  secret = codes "s";
  base_url = codes "https://a/";
  ttl_days = 1;
  now = 5000;
}

abbrev is_header : Json → Bool
is_header (object fields) = elim (get_field (codes "alg") fields) [ none ↦ false | some alg ↦ true ]
is_header _ = false

abbrev key : List ℕ
key = codes "w/cat.png"

-- Two values, numbered.
abbrev platform : Platform
platform = record {
  hmac = λ secret message. length message % 256 ∷ [];
  stringify = λ value. (if is_header value then 1 else 2) ∷ [];
  parse = λ bytes. elim bytes [
    | [] ↦ none
    | n ∷ rest ↦ some (
        if n == 1
        then header_claims
        else claims_json (record { key = codes "w/cat.png"; ws = codes "w"; exp = 86405 }))
  ];
}

carried :
    IsPlatform platform
      (claims_json (record { key = codes "w/cat.png"; ws = codes "w"; exp = 86405 }))
carried = record {
  hmac_bytes = λ secret message. (omega arith, tt);
  header = record { json_bytes = (ground arith, tt); parse_back = refl };
  payload = record { json_bytes = (ground arith, tt); parse_back = refl };
}

abbrev get : List ℕ → Option StoredObject
get stored_key = some (record { data_ = 1 ∷ []; mime = codes "image/svg+xml" })

abbrev path : List ℕ
path = path_of platform options key (codes "cat.png")

link_served_example :
    (sign_media_url platform options key none
      ≡ some (trimmed_base options.base_url ++ (codes "/api/media/" ++ path)))
    × (media_route platform get options.secret path 86404999 ≡ respond platform get (get key))
unfolding is_workspace_key split_at_unit encode_uri_component safe_file_name trim trim_start
    is_space
link_served_example =
    link_served platform options key none (codes "cat.png") 86404999 get carried refl refl
      (ground arith)

-- What the route answers.
link_served_route :
    media_route platform get options.secret path 86404999
    ≡ found (1 ∷ []) (media_serving_headers (codes "image/svg+xml"))
unfolding is_workspace_key split_at_unit encode_uri_component safe_file_name trim trim_start
    is_space
link_served_route =
    (link_served platform options key none (codes "cat.png") 86404999 get carried refl refl
      (ground arith)).1

media_route-IsLet_example :
    IsLet platform get
      (codes "s")
      (token_segment platform get (split_at_unit slash path))
      86404999
      (1 ∷ [])
      (media_serving_headers (codes "image/svg+xml"))
media_route-IsLet_example =
    media_route-IsLet platform get (codes "s") path 86404999 (1 ∷ [])
      (media_serving_headers (codes "image/svg+xml")) link_served_route

key_of_one_workspace_example :
    ((rest : List (List ℕ)) × (resolve_from [] (split_at_unit slash key) ≡ some (codes "w" ∷ rest)))
    × (is_workspace_key (codes "v") key ≡ true → codes "v" ≡ codes "w")
unfolding is_workspace_key split_at_unit
key_of_one_workspace_example =
    key_of_one_workspace (codes "w") (codes "v") key (refl, tt) (refl, tt) refl

climbing_test : is_workspace_key (codes "w") (codes "w/../v/cat.png") ≡ false
unfolding is_workspace_key split_at_unit
climbing_test = refl

-- A document that may carry script is saved, not shown.
svg_test : media_serving_headers (codes "image/SVG+xml; charset=utf-8") ≡ record {
  content_type = codes "image/svg+xml";
  is_inline = false;
  is_nosniff = true;
  is_sandboxed = true;
}
unfolding media_serving_headers clean_mime split_at_unit trim trim_start is_space
svg_test = refl

abbrev letters : ℕ → List ℕ → List ℕ
letters zero s = s
letters (suc n) s = b'a' ∷ letters n s

-- A long name is cut after 120 units, here in the middle of an emoji, and has no link then.
cut_name_test :
    sign_media_url platform options key (some (letters 119 (55357 ∷ 56832 ∷ codes ".png"))) ≡ none
unfolding sign_media_url is_workspace_key split_at_unit encode_uri_component safe_file_name trim
    trim_start is_space
cut_name_test = refl

-- One unit less, and the emoji stays whole.
whole_name_test :
    encode_uri_component (safe_file_name (letters 118 (55357 ∷ 56832 ∷ codes ".png")))
    ≡ some (letters 118 (codes "%F0%9F%98%80"))
unfolding encode_uri_component safe_file_name trim trim_start is_space
whole_name_test = refl
