-- ===== src/Egress/Fetch.antt =====
-- The client that refuses to reach inward: `assertAllowed`, `crossOriginHeaders` and
-- `createRestrictedFetch` of packages/infra/src/egress.ts. URLs, DNS and the transport are
-- parameters over a world `W`. The names of headers are in lower case, as `Headers` lists them.
pub mod Checked
pub mod Hops
use Prim.Native.String
use chatbot_integration.Egress.Address.{is_private_address}
use chatbot_integration.Prelude.{
  ℕ, zero, suc, ◌+◌, String, Bool, true, false, ◌&&◌, ◌||◌, not, List, [], ◌∷◌, ◌++◌, Option, none,
  some, leb, ltb, ◌==◌, str_eq, if◌then◌else◌, map, any, keep,
}

-- What `URL` gives of a parsed URL, with the brackets of an IPv6 host taken off.
pub record Url : Type 0 where
  pub href : String
  pub origin : String
  pub protocol : String
  pub hostname : String
  pub has_credentials : Bool

pub record Request : Type 0 where
  pub method : String
  pub headers : List (String × String)
  pub body : Option String

pub record Response : Type 0 where
  pub status : ℕ
  pub location : Option String

abbrev pub Addresses : Type 0
Addresses = List String

pub data Result (A : Type 0) : Type 0 where
  ok : A → Result A
  err : (message : String) → Result A

-- The outside: `net.isIP`, `new URL(location, url)`, the resolver and the transport.
pub record Net (W : Type 0) : Type 0 where
  pub is_ip : String → ℕ
  pub resolve : (location : String) → Url → Result Url
  pub lookup : String → W → W × Result Addresses
  pub transport : Url → Request → Option Addresses → W → W × Result Response

pub record Options : Type 0 where
  pub allow_private : Bool
  pub allowed_origins : List String

abbrev pub max_redirects : ℕ
max_redirects = 3

abbrev pub cross_origin_safe_headers : List String
cross_origin_safe_headers =
    "accept" ∷ "accept-encoding" ∷ "accept-language" ∷ "content-type" ∷ "user-agent" ∷ []

unfoldable pub is_safe_header : String × String → Bool
is_safe_header (name, value) = any (str_eq name) cross_origin_safe_headers

abbrev pub cross_origin_headers : List (String × String) → List (String × String)
cross_origin_headers headers = keep is_safe_header headers

-- A redirect's location, if the response is one. An empty location is none.
unfoldable pub redirect_location : Response → Option String
redirect_location r = elim r.location [
  | none ↦ none
  | some location ↦
      if (leb 300 r.status && ltb r.status 400) && not (str_eq location "")
      then some location
      else none
]

abbrev pub becomes_get : ℕ → Bool
becomes_get status = (status == 303) || ((status == 301) || (status == 302))

abbrev pub as_get : Request → Request
as_get r = record r { method = "GET"; body = none }

abbrev pub has_body : Request → Bool
has_body r = elim r.body [ none ↦ false | some b ↦ true ]

-- The request for the next hop, or the refusal to take it.
pub next_request : (origin : String) (status : ℕ) → Url → Request → Result Request
next_request origin status next r =
    let r' = (if becomes_get status then as_get r else r) in
    if str_eq next.origin origin
    then ok r'
    else if not (becomes_get status) && has_body r'
    then err "refusing to resend a request body to another origin"
    else ok (record r' { headers = cross_origin_headers r'.headers })

module _ {W : Type 0} (net : Net W) (options : Options) where
  check_addresses : (hostname : String) → Addresses → Result (Option Addresses)
  check_addresses hostname [] = err (String.◌++◌ hostname " resolved to nothing")
  check_addresses hostname (a ∷ rest) =
      if any (is_private_address net.is_ip) (a ∷ rest)
      then err (String.◌++◌ hostname " resolves to an address which is not public")
      else ok (some (a ∷ rest))

  checked : (hostname : String) → W × Result Addresses → W × Result (Option Addresses)
  checked hostname (w, err message) = (w, err (String.◌++◌ hostname " could not be resolved"))
  checked hostname (w, ok addresses) = (w, check_addresses hostname addresses)

  is_allowed_protocol : Url → Bool
  is_allowed_protocol url =
      str_eq url.protocol "https:" || (options.allow_private && str_eq url.protocol "http:")

  -- The addresses to connect to, or `none` where nothing was resolved.
  pub assert_allowed : Url → W → W × Result (Option Addresses)
  unfolding checked check_addresses is_allowed_protocol
  assert_allowed url w =
      if url.has_credentials
      then (w, err "credentials in the URL are not allowed")
      else if any (str_eq url.origin) options.allowed_origins
      then (w, ok none)
      else if not (is_allowed_protocol url)
      then (w, err "only https is allowed")
      else if options.allow_private
      then (w, ok none)
      else if not (net.is_ip url.hostname == 0)
      then (
        w,
        (if is_private_address net.is_ip url.hostname
            then err (String.◌++◌ url.hostname " is not a public address")
            else ok (some (url.hostname ∷ []))),
      )
      else checked url.hostname (net.lookup url.hostname w)

-- What the transport was asked.
pub record Sent : Type 0 where
  pub url : Url
  pub request : Request
  pub addresses : Option Addresses

-- How the fetch ends, with everything it sent, in order.
pub record FetchEnd (W : Type 0) : Type 0 where
  pub world : W
  pub sent : List Sent
  pub result : Result Response

abbrev pub sent_before : {W : Type 0} → Sent → FetchEnd W → FetchEnd W
sent_before s e = record e { sent = s ∷ e.sent }

module _ {W : Type 0} (net : Net W) (options : Options) (origin : String) where
  abbrev pub end : W → Result Response → FetchEnd W
  end w r = record { world = w; sent = []; result = r }

  -- What follows a redirect: the next URL, the next request, and the next round.
  follow : (status : ℕ) → Result Url → Request → W → (Url → Request → W → FetchEnd W) → FetchEnd W
  follow status (err message) r w next = end w (err message)
  follow status (ok url) r w next = elim (next_request origin status url r) [
    | err message ↦ end w (err message)
    | ok r' ↦ next url r' w
  ]

  -- One answer of the transport. `again` is the next round, if a redirect remains.
  answered :
      Url → Request → Option (Url → Request → W → FetchEnd W) → W × Result Response → FetchEnd W
  unfolding follow
  answered url r again (w, err message) = end w (err message)
  answered url r again (w, ok response) = elim (redirect_location response) [
    | none ↦ end w (ok response)
    | some location ↦ elim again [
      | none ↦ end w (err "too many redirects")
      | some next ↦ follow response.status (net.resolve location url) r w next
    ]
  ]

  -- One round: check the URL, and send.
  round :
      Url
      → Request
      → Option (Url → Request → W → FetchEnd W)
      → W × Result (Option Addresses)
      → FetchEnd W
  unfolding answered
  round url r again (w, err message) = end w (err message)
  round url r again (w, ok addresses) =
      sent_before (record { url = url; request = r; addresses = addresses })
        (answered url r again (net.transport url r addresses w))

  -- `for (;;)`, by the redirects that remain.
  pub hops : (remaining : ℕ) → Url → Request → W → FetchEnd W
  unfolding round
  hops zero url r w = round url r none (assert_allowed net options url w)
  hops (suc remaining) url r w =
      round url r (some (hops remaining)) (assert_allowed net options url w)

pub restricted_fetch : {W : Type 0} → Net W → Options → Url → Request → W → FetchEnd W
unfolding hops
restricted_fetch net options url r w = hops net options url.origin max_redirects url r w
