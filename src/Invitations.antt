-- ===== src/Invitations.antt =====
-- Invitation and reset links: packages/infra/src/invitations.ts, with the purposes and roles of
-- packages/shared/src/workspace.ts. The hash of a token, and the lower case of an address, are
-- parameters; a statement reads one clock, `now`.
pub mod Accept
pub mod Spent
pub mod Single
pub mod Race
pub mod Reach
pub mod Guards
pub mod Entry
pub mod Authority
pub mod Open
pub mod Entitled
mod Tests
use Prim.Native.String
use chatbot_integration.Prelude.{
  ℕ, ◌+◌, ◌*◌, String, Bool, true, false, ◌&&◌, ◌||◌, Option, none, some, get_or, List, [], ◌∷◌,
  ◌++◌, any, map, keep, if◌then◌else◌, ltb, leb, str_eq, length, not,
}

pub data InvitationPurpose : Type 0 where
  invite password_reset : InvitationPurpose

pub data UserRoleName : Type 0 where
  viewer agent admin : UserRoleName

pub data IssuerScope : Type 0 where
  workspace platform : IssuerScope

pub record Invitation : Type 0 where
  pub id : String
  pub workspace_id : String
  pub purpose : InvitationPurpose
  pub email : String
  pub role : Option UserRoleName
  pub user_id : Option String
  pub token_hash : String
  pub invited_by_user_id : Option String
  pub issuer_scope : IssuerScope
  pub expires_at : ℕ
  pub used_at : Option ℕ
  pub created_at : ℕ

pub record IssueInput : Type 0 where
  pub workspace_id : String
  pub purpose : InvitationPurpose
  pub email : String
  pub role : Option UserRoleName
  pub user_id : Option String
  pub invited_by_user_id : Option String
  pub issuer_scope : Option IssuerScope
  pub ttl_ms : ℕ

pub record IssuedInvitation : Type 0 where
  pub id : String
  pub token : String
  pub expires_at : ℕ

abbrev pub same_purpose : InvitationPurpose → InvitationPurpose → Bool
same_purpose invite invite = true
same_purpose password_reset password_reset = true
same_purpose _ _ = false

abbrev pub is_unused : Invitation → Bool
is_unused row = elim row.used_at [ none ↦ true | some t ↦ false ]

-- A link for this person and purpose.
abbrev pub is_for :
    (workspace_id : String) → InvitationPurpose → (email : String) → Invitation → Bool
is_for workspace_id purpose email row =
    str_eq row.workspace_id workspace_id
    && (same_purpose row.purpose purpose && str_eq row.email email)

abbrev pub is_live : (hash : String) (now : ℕ) → Invitation → Bool
is_live hash now row = str_eq row.token_hash hash && (is_unused row && ltb now row.expires_at)

-- `update … set used_at = now where …`.
unfoldable pub spend_where : (Invitation → Bool) → (now : ℕ) → List Invitation → List Invitation
spend_where p now [] = []
spend_where p now (row ∷ rows) =
    (if p row then record row { used_at = some now } else row) ∷ spend_where p now rows

pub spend_earlier :
    (now : ℕ) (workspace_id : String)
    → InvitationPurpose
    → (email : String) → List Invitation
    → List Invitation
unfolding spend_where
spend_earlier now workspace_id purpose email rows =
    spend_where (λ row. is_for workspace_id purpose email row && is_unused row) now rows

-- The insert, which the unique index on the hash may refuse.
pub insert_row : Invitation → List Invitation → List Invitation × Bool
insert_row row rows =
    if any (λ r. str_eq r.token_hash row.token_hash) rows
    then (rows, false)
    else (rows ++ row ∷ [], true)

unfoldable pub first_live : (hash : String) (now : ℕ) → List Invitation → Option Invitation
first_live hash now [] = none
first_live hash now (row ∷ rows) =
    if is_live hash now row then some row else first_live hash now rows

module _ (hash_token : String → String) (clean : String → String) where
  abbrev pub new_row : (id token : String) (now : ℕ) → IssueInput → Invitation
  new_row id token now input = record {
    id = id;
    workspace_id = input.workspace_id;
    purpose = input.purpose;
    email = clean input.email;
    role = input.role;
    user_id = input.user_id;
    token_hash = hash_token token;
    invited_by_user_id = input.invited_by_user_id;
    issuer_scope = get_or input.issuer_scope IssuerScope.workspace;
    expires_at = now + input.ttl_ms;
    used_at = none;
    created_at = now;
  }

  -- Two statements, outside any transaction; `none` is the error of the second.
  pub issue_invitation :
      (id token : String) (now : ℕ)
      → IssueInput
      → List Invitation
      → List Invitation × Option IssuedInvitation
  unfolding spend_earlier insert_row
  issue_invitation id token now input rows =
      let spent = spend_earlier now input.workspace_id input.purpose (clean input.email) rows in
      let (rows', inserted) = insert_row (new_row id token now input) spent in
      (
        rows',
        if inserted
            then some (record { id = id; token = token; expires_at = now + input.ttl_ms })
            else none,
      )

  -- The join drops the rows of a workspace that is gone.
  unfoldable pub find_invitation :
      (organization_name : String → Option String) (token : String) (now : ℕ)
      → List Invitation
      → Option (Invitation × String)
  unfolding first_live
  find_invitation organization_name token now rows = elim (first_live (hash_token token) now rows) [
    | none ↦ none
    | some row ↦ elim (organization_name row.workspace_id) [
      | none ↦ none
      | some name ↦ some (row, name)
    ]
  ]

  unfoldable pub consume_invitation :
      (token : String) (now : ℕ) → List Invitation → List Invitation × Option Invitation
  unfolding spend_where first_live
  consume_invitation token now rows = (
    spend_where (is_live (hash_token token) now) now rows,
    first_live (hash_token token) now rows,
  )

abbrev pub is_revoked : (workspace_id id : String) → Invitation → Bool
is_revoked workspace_id id row =
    str_eq row.id id && (str_eq row.workspace_id workspace_id && is_unused row)

pub revoke_invitation :
    (workspace_id id : String) (now : ℕ) → List Invitation → List Invitation × Bool
unfolding spend_where
revoke_invitation workspace_id id now rows =
    (spend_where (is_revoked workspace_id id) now rows, any (is_revoked workspace_id id) rows)

-- `order by created_at desc`.
pub insert_latest : Invitation → List Invitation → List Invitation
insert_latest row [] = row ∷ []
insert_latest row (r ∷ rows) =
    if leb r.created_at row.created_at then row ∷ r ∷ rows else r ∷ insert_latest row rows

pub sort_latest : List Invitation → List Invitation
unfolding insert_latest
sort_latest [] = []
sort_latest (row ∷ rows) = insert_latest row (sort_latest rows)

pub list_pending_invitations : (workspace_id : String) (now : ℕ) → List Invitation → List Invitation
unfolding sort_latest
list_pending_invitations workspace_id now rows = sort_latest (
    keep
      (λ row.
        str_eq row.workspace_id workspace_id
        && (same_purpose row.purpose invite && (is_unused row && ltb now row.expires_at)))
      rows)

-- `replace(/\/$/, '')`.
pub without_slash : String → String
without_slash String.[] = String.[]
without_slash (String.◌∷◌ c s) =
    let rest = without_slash s in
    if str_eq s "" && str_eq (String.◌∷◌ c "") "/" then "" else String.◌∷◌ c rest

pub invite_link : (public_web_url token : String) → String
unfolding without_slash
invite_link public_web_url token =
    String.◌++◌ (without_slash public_web_url) (String.◌++◌ "/invite/" token)

abbrev pub invite_ttl_ms : ℕ
invite_ttl_ms = 7 * 24 * 60 * 60 * 1000

abbrev pub password_reset_ttl_ms : ℕ
password_reset_ttl_ms = 24 * 60 * 60 * 1000

pub record Membership : Type 0 where
  pub organization_id : String
  pub user_id : String
  pub role : UserRoleName

pub record AccountReach : Type 0 where
  pub memberships : ℕ
  pub platform_admin : Bool
  pub workspace_ids : List String

-- `array_agg(distinct …)`, in some order.
pub distinct : List String → List String
distinct [] = []
distinct (x ∷ xs) = let rest = distinct xs in if any (str_eq x) rest then rest else x ∷ rest

unfoldable pub account_reach :
    (members : List Membership) (platform_admins : List String) (user_id : String) → AccountReach
unfolding distinct
account_reach members platform_admins user_id =
    let workspace_ids =
      keep (λ w. not (str_eq w ""))
        (distinct (
          map (λ (m : Membership). m.organization_id)
            (keep (λ m. str_eq m.user_id user_id) members))) in
    record {
      memberships = length workspace_ids;
      platform_admin = any (str_eq user_id) platform_admins;
      workspace_ids = workspace_ids;
    }
