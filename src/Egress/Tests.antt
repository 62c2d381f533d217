-- ===== src/Egress/Tests.antt =====
-- Addresses and a redirect, and the theorems there.
use chatbot_integration.Prelude.{
  ℕ, ◌≡◌, ◌+◌, refl, false, some, [], ◌∷◌, arith, inl, str_eq, if◌then◌else◌,
}
use chatbot_integration.Egress.Address.{is_private_octets, private_groups}
use chatbot_integration.Egress.Address.Embedded.{private_groups_embedded}
use chatbot_integration.Egress.Fetch.{Url, Request, ok, Net, Options, restricted_fetch}
use chatbot_integration.Egress.Fetch.Hops.{EndsWell, restricted_fetch_guarded}

private_groups_embedded_example :
    private_groups (0 ∷ 0 ∷ 0 ∷ 0 ∷ 0 ∷ 0xffff ∷ 0x7f00 ∷ 1 ∷ []) ≡ is_private_octets 127 0
private_groups_embedded_example =
    private_groups_embedded 0 0 0 0 0xffff 0x7f00 1 0
      (inl (refl, refl, refl, refl, inl (refl, refl))) (omega arith)

-- One server that redirects every request to another origin.
abbrev home : Url
home = record {
  href = "https://a.example/";
  origin = "https://a.example";
  protocol = "https:";
  hostname = "a.example";
  has_credentials = false;
}

abbrev elsewhere : Url
elsewhere = record home { origin = "https://b.example"; hostname = "b.example" }

abbrev net : Net ℕ
net = record {
  is_ip = λ h. if str_eq h "9.9.9.9" then 4 else 0;
  resolve = λ location url. ok elsewhere;
  lookup = λ h w. (w, ok ("9.9.9.9" ∷ []));
  transport = λ url r addresses w. (w + 1, ok (record { status = 302; location = some "/" }));
}

abbrev strict : Options
strict = record { allow_private = false; allowed_origins = [] }

abbrev ask : Request
ask = record {
  method = "POST";
  headers = ("x-api-key", "k") ∷ ("accept", "text") ∷ [];
  body = some "b";
}

restricted_fetch_guarded_example :
    EndsWell net strict home.origin 4 (restricted_fetch net strict home ask 0)
restricted_fetch_guarded_example = restricted_fetch_guarded net strict home ask 0
