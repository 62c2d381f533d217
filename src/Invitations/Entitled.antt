-- ===== src/Invitations/Entitled.antt =====
-- Whom the accept route of apps/api/src/routes/invitations.ts lets in.
use chatbot_integration.Prelude.{ℕ, ◌≡◌, String, true, false, ◌&&◌, Option, some, ◌⊎◌, str_eq, any}
use chatbot_integration.Invitations.{Invitation, InvitationPurpose}
use chatbot_integration.Invitations.Accept.{Env, Session, World, Response, joined, reset}
use chatbot_integration.Invitations.Authority.{IsIssuedFor, IsWithin}
use chatbot_integration.Invitations.Open.{IsOpen}

module _ (env : Env) where
  -- What a request must have shown, by its answer.
  abbrev pub Entitled : (now : ℕ) (token : String) → Option Session → World → Response → Type 0
  Entitled now token session world (joined ws user) =
      (link : Invitation) × IsOpen env token now world link
      × ((any (λ a. str_eq (env.lower a.email) link.email) world.accounts ≡ false)
          ⊎ ((s : Session) × (session ≡ some s)
              × (s.user_id ≡ user)
              × (str_eq (env.lower s.email) link.email ≡ true)))
  Entitled now token session world (reset ws user) =
      (link : Invitation) × IsOpen env token now world link
      × (link.purpose ≡ InvitationPurpose.password_reset)
      × (any (λ a. str_eq (env.lower a.email) link.email && str_eq a.id user) world.accounts ≡ true)
      × IsIssuedFor user link.user_id
      × IsWithin user link world
  Entitled now token session world _ = Unit
