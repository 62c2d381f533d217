-- ===== src/Invitations/Authority.antt =====
-- What a password reset by a link may reach: apps/api/src/routes/invitations.ts.
use chatbot_integration.Prelude.{
  ◌≡◌, refl, ap, String, true, false, ◌&&◌, Option, none, some, arith, not, inl, inr, ◌⊎◌,
  Bool-cases, str_eq, eq_iff, all, any,
}
use chatbot_integration.Invitations.{
  Invitation, InvitationPurpose, IssuerScope, same_purpose, account_reach,
}
use chatbot_integration.Invitations.Reach.{stays_within, is_member_of, is_covered-lone}
use chatbot_integration.Invitations.Accept.{World, is_covered, is_workspace_scope, is_for_other}

-- The account the link was issued for, if for one.
abbrev pub IsIssuedFor : (user : String) → Option String → Type 0
IsIssuedFor user owner = (owner ≡ none) ⊎ ((owner ≡ some "") ⊎ (owner ≡ some user))

-- The platform issued the link, or the account is a member of its workspace, of no other one, and
-- administers no platform.
abbrev pub IsWithin : (user : String) → Invitation → World → Type 0
IsWithin user invitation world =
    (invitation.issuer_scope ≡ IssuerScope.platform)
    ⊎ ((all (stays_within user invitation.workspace_id) world.members ≡ true)
        × (any (is_member_of user invitation.workspace_id) world.members ≡ true)
        × (any (str_eq user) world.platform_admins ≡ false))

pub owner-IsIssuedFor :
    (user : String) (owner : Option String)
    → is_for_other owner user ≡ false
    → IsIssuedFor user owner
owner-IsIssuedFor user none h = inl refl
owner-IsIssuedFor user (some owner) h = elim (Bool-cases (str_eq owner "")) [
  | inl e ↦ inr (inl (ap some ((eq_iff owner "").0 e)))
  | inr e ↦
      let own : str_eq owner user ≡ true = ground arith in
      inr (inr (ap some ((eq_iff owner user).0 own)))
]

platform_scope :
    (scope : IssuerScope) → is_workspace_scope scope ≡ false → scope ≡ IssuerScope.platform
platform_scope IssuerScope.workspace h = absurd (ground arith)
platform_scope IssuerScope.platform h = refl

pub scope-IsWithin :
    (user : String) (invitation : Invitation) (world : World)
    → (is_workspace_scope invitation.issuer_scope
        && not (is_covered invitation (account_reach world.members world.platform_admins user)))
      ≡ false
    → IsWithin user invitation world
scope-IsWithin user invitation world h =
    elim (Bool-cases (is_workspace_scope invitation.issuer_scope)) [
      | inl e ↦
          let covered : is_covered invitation
                (account_reach world.members world.platform_admins user)
              ≡ true =
            ground arith in
          inr (is_covered-lone invitation world.members world.platform_admins user covered)
      | inr e ↦ inl (platform_scope invitation.issuer_scope e)
    ]

pub reset_purpose :
    (purpose : InvitationPurpose)
    → same_purpose purpose InvitationPurpose.invite ≡ false
    → purpose ≡ InvitationPurpose.password_reset
reset_purpose InvitationPurpose.invite h = absurd (ground arith)
reset_purpose InvitationPurpose.password_reset h = refl
