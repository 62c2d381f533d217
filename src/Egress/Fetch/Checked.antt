-- ===== src/Egress/Fetch/Checked.antt =====
-- Every URL that is sent to was checked (packages/infra/src/egress.ts).
use chatbot_integration.Prelude.{
  ℕ, ◌≡◌, String, Bool, true, false, not, [], ◌∷◌, Option, none, some, any, All, arith, keep-passes,
  str_eq, ◌⊎◌,
}
use chatbot_integration.Egress.Address.{is_private_address}
use chatbot_integration.Egress.Fetch.{
  Url, Request, Addresses, Result, ok, err, Net, Options, Sent, assert_allowed, checked,
  check_addresses, is_allowed_protocol, next_request, is_safe_header, cross_origin_headers,
}

module _ {W : Type 0} (net : Net W) (options : Options) where
  -- Every address that is connected to is public.
  abbrev pub all_public : Option Addresses → Bool
  all_public none = false
  all_public (some addresses) = not (any (is_private_address net.is_ip) addresses)

  -- Connecting to these addresses for this URL is safe: the URL holds no credentials, and either a
  -- platform admin approved its origin, or private egress is allowed, or it is https and every
  -- address is public.
  abbrev pub IsSafe : Url → Option Addresses → Type 0
  IsSafe url addresses =
      (url.has_credentials ≡ false)
      × ((any (str_eq url.origin) options.allowed_origins ≡ true)
          ⊎ (options.allow_private ≡ true)
          ⊎ ((str_eq url.protocol "https:" ≡ true) × (all_public addresses ≡ true)))

  checked-all_public :
      (hostname : String) (o : W × Result Addresses) (w : W) (addresses : Option Addresses)
      → checked net options hostname o ≡ (w, ok addresses)
      → all_public addresses ≡ true
  unfolding checked check_addresses
  checked-all_public hostname (w', err message) w addresses h = cc
  checked-all_public hostname (w', ok []) w addresses h = cc
  checked-all_public hostname (w', ok (a ∷ rest)) w addresses h = ground arith

  -- What the check lets through is safe.
  pub assert_allowed-IsSafe :
      (url : Url) (w w' : W) (addresses : Option Addresses)
      → assert_allowed net options url w ≡ (w', ok addresses)
      → IsSafe url addresses
  unfolding assert_allowed is_allowed_protocol
  assert_allowed-IsSafe url w w' addresses h =
      ground (arith, checked-all_public url.hostname (net.lookup url.hostname w) w' addresses)

  -- A request may follow to another origin only without a body, and with headers that identify
  -- nobody.
  abbrev pub MayCross : (origin : String) → Url → Request → Type 0
  MayCross origin url r =
      (str_eq url.origin origin ≡ false)
      → (r.body ≡ none) × All (λ h. is_safe_header h ≡ true) r.headers

  -- The two guarantees of one send.
  abbrev pub IsGuarded : (origin : String) → Sent → Type 0
  IsGuarded origin s = IsSafe s.url s.addresses × MayCross origin s.url s.request

  next_request_crossing :
      (origin : String) (status : ℕ) (url : Url) (r r' : Request)
      → next_request origin status url r ≡ ok r'
      → str_eq url.origin origin ≡ false
      → (r'.body ≡ none) × (r'.headers ≡ cross_origin_headers r.headers)
  unfolding next_request
  next_request_crossing origin status url r r' h crosses = ground arith

  pub next_request-MayCross :
      (origin : String) (status : ℕ) (url : Url) (r r' : Request)
      → next_request origin status url r ≡ ok r'
      → MayCross origin url r'
  next_request-MayCross origin status url r r' h crosses =
      let (no_body, headers) = next_request_crossing origin status url r r' h crosses in
      (no_body, rw headers (keep-passes is_safe_header r.headers))
