-- ===== src/Invitations/Accept.antt =====
-- Opening a link: the accept route of apps/api/src/routes/invitations.ts. The authentication
-- library is a parameter; `between` is what other requests do to the links after this one has
-- read its own and before it spends it.
use chatbot_integration.Prelude.{
  ℕ, String, Bool, true, false, ◌&&◌, Option, none, some, get_or, List, [], ◌∷◌, ◌++◌, any, keep,
  not, if◌then◌else◌, str_eq, ◌==◌,
}
use chatbot_integration.Invitations.{
  Invitation, InvitationPurpose, UserRoleName, IssuerScope, Membership, AccountReach,
  find_invitation, consume_invitation, account_reach, same_purpose,
}

pub record Account : Type 0 where
  pub id : String
  pub email : String

pub record Session : Type 0 where
  pub user_id : String
  pub email : String

pub record AcceptBody : Type 0 where
  pub name : Option String
  pub password : Option String

-- `passwords` lists the passwords that were set, the newest first.
pub record World : Type 0 where
  pub invitations : List Invitation
  pub members : List Membership
  pub accounts : List Account
  pub platform_admins : List String
  pub passwords : List (String × String)
  pub sessions : List String
  pub push_subscriptions : List String

pub data Response : Type 0 where
  gone name_and_password_needed password_needed already_used sign_in_required : Response
  another_address reset_requires_platform : Response
  could_not_create : (message : String) → Response
  joined : (workspace_id user_id : String) → Response
  reset : (workspace_id user_id : String) → Response

-- `signUpEmail`: the accounts with the new one and its id, or the message of what was thrown.
pub record Auth : Type 0 where
  pub sign_up :
      (email password name : String) → List Account → List Account × (String × Option String)

abbrev pub non_empty : Option String → Bool
non_empty none = false
non_empty (some s) = not (str_eq s "")

-- What the route is given: the hash, the lower case of an address, the library, the workspaces'
-- names, and what other requests do in between.
pub record Env : Type 0 where
  pub hash_token : String → String
  pub clean : String → String
  pub lower : String → String
  pub auth : Auth
  pub organization_name : String → Option String
  pub between : List Invitation → List Invitation

-- `onConflictDoNothing`: one membership for each person and workspace.
unfoldable pub add_member : Membership → List Membership → List Membership
add_member m members =
    if any
      (λ (n : Membership). str_eq n.organization_id m.organization_id && str_eq n.user_id m.user_id)
      members
    then members
    else members ++ m ∷ []

abbrev pub claimed : (user_id : String) → World × Option Invitation → World × Response
claimed user_id (world, none) = (world, already_used)
claimed user_id (world, some row) = (world, joined row.workspace_id user_id)

-- Whether the issuer's authority is still enough.
unfoldable pub is_covered : Invitation → AccountReach → Bool
is_covered invitation reach =
    (reach.memberships == 1)
    && (not reach.platform_admin
        && elim reach.workspace_ids [ [] ↦ false | ◌∷◌ w ws ↦ str_eq w invitation.workspace_id ])

abbrev pub is_workspace_scope : IssuerScope → Bool
is_workspace_scope IssuerScope.workspace = true
is_workspace_scope IssuerScope.platform = false

unfoldable pub set_password : (user_id password : String) → World → World
set_password user_id password world = record world {
  passwords = (user_id, password) ∷ world.passwords;
  sessions = keep (λ u. not (str_eq u user_id)) world.sessions;
  push_subscriptions = keep (λ u. not (str_eq u user_id)) world.push_subscriptions;
}

abbrev pub is_for_other : Option String → String → Bool
is_for_other none existing = false
is_for_other (some user) existing = not (str_eq user "") && not (str_eq user existing)

module _ (env : Env) where
  -- The transaction: spend the link and add the membership.
  unfoldable pub claim : (token user_id : String) (now : ℕ) → World → World × Option Invitation
  unfolding add_member
  claim token user_id now world =
      let (rows, consumed) =
        consume_invitation env.hash_token env.clean token now world.invitations in
      elim consumed [
        | none ↦ (world, none)
        | some row ↦ (
          record world {
            invitations = rows;
            members =
                add_member
                  (record {
                    organization_id = row.workspace_id;
                    user_id = user_id;
                    role = get_or row.role UserRoleName.agent;
                  })
                  world.members;
          },
          some row,
        )
      ]

  unfoldable pub find_account : (email : String) → List Account → Option String
  find_account email [] = none
  find_account email (a ∷ accounts) =
      if str_eq (env.lower a.email) email then some a.id else find_account email accounts

  abbrev pub interrupted : World → World
  interrupted world = record world { invitations = env.between world.invitations }

  -- An invitation for an address that has no account.
  unfoldable pub join_new :
      Invitation → (token : String) (later : ℕ) → AcceptBody → World → World × Response
  unfolding claim
  join_new invitation token later body world =
      if not (non_empty body.name && non_empty body.password)
      then (world, name_and_password_needed)
      else (let (accounts, (user_id, error)) =
            env.auth.sign_up invitation.email (get_or body.password "") (get_or body.name "")
              world.accounts in
          elim error [
            | some message ↦ (record world { accounts = accounts }, could_not_create message)
            | none ↦
                claimed user_id
                  (claim token user_id later (interrupted (record world { accounts = accounts })))
          ])

  -- An invitation for an address that has an account.
  unfoldable pub join_existing :
      Invitation → (token : String) (later : ℕ) → Option Session → World → World × Response
  unfolding claim
  join_existing invitation token later session world = elim session [
    | none ↦ (world, sign_in_required)
    | some s ↦
        if not (str_eq (env.lower s.email) invitation.email)
        then (world, another_address)
        else claimed s.user_id (claim token s.user_id later (interrupted world))
  ]

  unfoldable pub spend_reset :
      (token : String) (later : ℕ) (existing password : String) → World → World × Response
  unfolding set_password
  spend_reset token later existing password world =
      let (rows, spent) =
        consume_invitation env.hash_token env.clean token later world.invitations in
      elim spent [
        | none ↦ (world, already_used)
        | some row ↦ (
          set_password existing password (record world { invitations = rows }),
          reset row.workspace_id existing,
        )
      ]

  unfoldable pub reset_password :
      Invitation
      → (token : String) (later : ℕ) → AcceptBody
      → (existing : Option String) → World
      → World × Response
  unfolding spend_reset is_covered
  reset_password invitation token later body existing world =
      if not (non_empty body.password) then (world, password_needed) else elim existing [
        | none ↦ (world, gone)
        | some user ↦
            if is_for_other invitation.user_id user
            then (world, gone)
            else if is_workspace_scope invitation.issuer_scope
                && not
                    (is_covered invitation (account_reach world.members world.platform_admins user))
            then (world, reset_requires_platform)
            else spend_reset token later user (get_or body.password "") (interrupted world)
      ]

  unfoldable pub handle :
      (now later : ℕ) (token : String)
      → Invitation
      → AcceptBody
      → Option Session
      → World
      → World × Response
  unfolding find_account join_new join_existing reset_password
  handle now later token invitation body session world =
      let existing = find_account invitation.email world.accounts in
      if same_purpose invitation.purpose InvitationPurpose.invite
      then elim existing [
        | none ↦ join_new invitation token later body world
        | some user ↦ join_existing invitation token later session world
      ]
      else reset_password invitation token later body existing world

  -- The link is read at `now` and spent at `later`.
  unfoldable pub accept :
      (now later : ℕ) (token : String) → AcceptBody → Option Session → World → World × Response
  unfolding handle
  accept now later token body session world =
      elim (find_invitation env.hash_token env.clean env.organization_name token now
        world.invitations) [
          | none ↦ (world, gone)
          | some found ↦ handle now later token found.0 body session world
        ]
