-- ===== src/Egress/Fetch/Hops.antt =====
-- A whole fetch, with its redirects (packages/infra/src/egress.ts).
use chatbot_integration.Prelude.{
  ℕ, zero, suc, ◌≤◌, ◌≡◌, refl, String, false, Option, none, some, All, length, arith, str_eq, ◌⊎◌,
  inl, inr, Option-cases,
}
use text.Mathlib.TextPositions.{eq_refl}
use chatbot_integration.Egress.Fetch.{
  Url, Request, Response, Addresses, Result, ok, err, Net, Options, FetchEnd, follow, answered,
  round, hops, restricted_fetch, max_redirects, redirect_location, next_request,
}
use chatbot_integration.Egress.Fetch.Checked.{
  IsSafe, MayCross, IsGuarded, assert_allowed-IsSafe, next_request-MayCross,
}

not_self : (s : String) → str_eq s s ≡ false → ⊥
not_self s h = cc (eq_refl s)

Result-cases : {A : Type 0} (r : Result A) → ((a : A) × (r ≡ ok a)) ⊎ ((m : String) × (r ≡ err m))
Result-cases (ok a) = inl (a, refl)
Result-cases (err m) = inr (m, refl)

module _ {W : Type 0} (net : Net W) (options : Options) (origin : String) where
  -- Everything that a fetch sent was guarded, and it sent at most so many requests.
  abbrev pub EndsWell : ℕ → FetchEnd W → Type 0
  EndsWell n e = All (IsGuarded net options origin) e.sent × (length e.sent ≤ n)

  abbrev Continues : ℕ → Option (Url → Request → W → FetchEnd W) → Type 0
  Continues n none = Unit
  Continues n (some next) =
      (url : Url) (r : Request) (w : W)
      → MayCross net options origin url r
      → EndsWell n (next url r w)

  follow-EndsWell :
      (n status : ℕ) (u : Result Url) (r : Request) (w : W) (next : Url → Request → W → FetchEnd W)
      → Continues n (some next)
      → EndsWell n (follow net options origin status u r w next)
  unfolding follow
  follow-EndsWell n status (err message) r w next h = (tt, omega arith)
  follow-EndsWell n status (ok url) r w next h =
      elim (Result-cases (next_request origin status url r)) [
        | inl (r', e) ↦
            rw (e, follow) (h url r' w (next_request-MayCross net options origin status url r r' e))
        | inr (m, e) ↦ rw (e, follow) (tt, omega arith)
      ]

  answered-EndsWell :
      (n : ℕ) (url : Url) (r : Request) (again : Option (Url → Request → W → FetchEnd W))
      (o : W × Result Response)
      → Continues n again
      → EndsWell n (answered net options origin url r again o)
  unfolding answered
  answered-EndsWell n url r again (w, err message) h = (tt, omega arith)
  answered-EndsWell n url r none (w, ok response) h =
      elim (Option-cases (redirect_location response)) [
        | inl e ↦ rw (e, answered) (tt, omega arith)
        | inr (location, e) ↦ rw (e, answered) (tt, omega arith)
      ]
  answered-EndsWell n url r (some next) (w, ok response) h =
      elim (Option-cases (redirect_location response)) [
        | inl e ↦ rw (e, answered) (tt, omega arith)
        | inr (location, e) ↦
            rw (e, answered)
              (follow-EndsWell n response.status (net.resolve location url) r w next h)
      ]

  round-EndsWell :
      (n : ℕ) (url : Url) (r : Request) (again : Option (Url → Request → W → FetchEnd W))
      (o : W × Result (Option Addresses))
      → MayCross net options origin url r
      → ((w : W) (a : Option Addresses) → o ≡ (w, ok a) → IsSafe net options url a)
      → Continues n again
      → EndsWell (suc n) (round net options origin url r again o)
  unfolding round
  round-EndsWell n url r again (w, err message) m safe h = (tt, omega arith)
  round-EndsWell n url r again (w, ok a) m safe h =
      let (guarded, short) = answered-EndsWell n url r again (net.transport url r a w) h in
      (((safe w a refl, m), guarded), omega (arith, short))

  hops-EndsWell :
      (remaining : ℕ) (url : Url) (r : Request) (w : W)
      → MayCross net options origin url r
      → EndsWell (suc remaining) (hops net options origin remaining url r w)
  unfolding hops
  hops-EndsWell zero url r w m =
      round-EndsWell 0 url r none _ m (λ w' a e. assert_allowed-IsSafe net options url w w' a e) tt
  hops-EndsWell (suc n) url r w m =
      round-EndsWell (suc n) url r (some (hops net options origin n)) _ m
        (λ w' a e. assert_allowed-IsSafe net options url w w' a e)
        (λ url' r' w' m'. hops-EndsWell n url' r' w' m')

-- Whatever the resolver and the transport answer, a fetch ends after at most four requests, and
-- each of them, redirects included, goes to a URL without credentials whose addresses were checked
-- (or whose origin is approved, or where private egress is allowed), and carries neither a body
-- nor a header beyond the safe ones to an origin other than the first.
pub restricted_fetch_guarded :
    {W : Type 0} (net : Net W) (options : Options) (url : Url) (r : Request) (w : W)
    → EndsWell net options url.origin 4 (restricted_fetch net options url r w)
unfolding restricted_fetch
restricted_fetch_guarded net options url r w =
    hops-EndsWell net options url.origin max_redirects url r w (λ c. absurd (not_self url.origin c))
