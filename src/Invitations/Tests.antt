-- ===== src/Invitations/Tests.antt =====
-- Links over a small table, and the witnesses.

use chatbot_integration.Prelude.{
  ◌≡◌, ◌≤◌, refl, String, true, Option, none, some, List, [], ◌∷◌, any, arith,
}
use chatbot_integration.Invitations.{
  Invitation, IssueInput, InvitationPurpose, UserRoleName, IssuerScope, is_live, account_reach,
  find_invitation, consume_invitation, first_live, new_row, spend_earlier, insert_row, invite_link,
  without_slash, distinct,
}
use chatbot_integration.Invitations.Spent.{Operation, issue, revoke, operate_all}
use chatbot_integration.Invitations.Single.{open_links, single_link}
use chatbot_integration.Invitations.Race.{two_links_race}
use chatbot_integration.Invitations.Accept.{
  Env, AcceptBody, Session, World, gone, joined, reset, accept, handle, join_existing,
  reset_password, spend_reset, claim, is_covered, find_account, add_member,
}
use chatbot_integration.Invitations.Guards.{is_success}
use chatbot_integration.Invitations.Entry.{accept_once}
use chatbot_integration.Invitations.Entitled.{Entitled}

abbrev same : String → String
same s = s

link_test : invite_link "https://chat.example/" "t" ≡ "https://chat.example/invite/t"
unfolding invite_link without_slash
link_test = refl

abbrev row : (id : String) (purpose : InvitationPurpose) → Invitation
row id purpose = record {
  id = id;
  workspace_id = "w";
  purpose = purpose;
  email = "ann@x.org";
  role = none;
  user_id = none;
  token_hash = id;
  invited_by_user_id = none;
  issuer_scope = IssuerScope.workspace;
  expires_at = 100;
  used_at = none;
  created_at = 0;
}

abbrev input : IssueInput
input = record {
  workspace_id = "w";
  purpose = InvitationPurpose.invite;
  email = "ann@x.org";
  role = some UserRoleName.agent;
  user_id = none;
  invited_by_user_id = none;
  issuer_scope = none;
  ttl_ms = 50;
}

abbrev others : List Operation
others = issue "b" "b" 12 input ∷ revoke "w" "b" 13 ∷ []

abbrev named : String → Option String
named w = some "Works"

single_link_example :
    open_links "w" InvitationPurpose.invite "ann@x.org"
      (operate_all same same others (row "a" InvitationPurpose.invite ∷ []))
    ≤ 1
single_link_example =
    single_link same same "w" InvitationPurpose.invite "ann@x.org" others
      (row "a" InvitationPurpose.invite ∷ []) (omega arith)

abbrev raced : List Invitation
raced =
    (insert_row (new_row same same "2" "second" 5 input)
      (insert_row (new_row same same "1" "first" 5 input) (
        spend_earlier 5 "w" InvitationPurpose.invite "ann@x.org"
          (spend_earlier 5 "w" InvitationPurpose.invite "ann@x.org" []))).0).0

two_links_race_example :
    (open_links "w" InvitationPurpose.invite "ann@x.org" raced ≡ 2)
    × (any (is_live "first" 5) raced ≡ true)
    × (any (is_live "second" 5) raced ≡ true)
two_links_race_example =
    two_links_race same same "1" "2" "first" "second" 5 input [] (omega arith) refl refl refl

abbrev env : Env
env = record {
  hash_token = same;
  clean = same;
  lower = same;
  auth = record {
    sign_up = λ email password name accounts.
        (record { id = "u2"; email = email } ∷ accounts, ("u2", none));
  };
  organization_name = named;
  between = λ rows. rows;
}

abbrev world : InvitationPurpose → World
world purpose = record {
  invitations = row "a" purpose ∷ [];
  members = record { organization_id = "w"; user_id = "u"; role = UserRoleName.agent } ∷ [];
  accounts = record { id = "u"; email = "ann@x.org" } ∷ [];
  platform_admins = [];
  passwords = [];
  sessions = "u" ∷ [];
  push_subscriptions = [];
}

abbrev body : AcceptBody
body = record { name = none; password = some "long enough" }

abbrev session : Session
session = record { user_id = "u"; email = "ann@x.org" }

abbrev after_reset : World
after_reset = (accept env 10 11 "a" body none (world InvitationPurpose.password_reset)).0

accept_once_example : accept env 20 21 "a" body (some session) after_reset ≡ (after_reset, gone)
unfolding accept handle find_account reset_password spend_reset is_covered account_reach distinct
    find_invitation first_live consume_invitation
accept_once_example =
    accept_once env 10 11 20 21 "a" body body none (some session)
      (world InvitationPurpose.password_reset) after_reset [] succeeded (omega arith) tt refl
  where
    succeeded :
        is_success env (accept env 10 11 "a" body none (world InvitationPurpose.password_reset)).1
        ≡ true
    succeeded = refl

-- The member of one workspace is let in by a reset, and by an invitation to their address.
reset_test :
    (accept env 10 11 "a" body none (world InvitationPurpose.password_reset)).1 ≡ reset "w" "u"
unfolding accept handle find_account reset_password spend_reset is_covered account_reach distinct
    find_invitation first_live consume_invitation
reset_test = refl

joined_test :
    (accept env 10 11 "a" body (some session) (world InvitationPurpose.invite)).1 ≡ joined "w" "u"
unfolding accept handle find_account join_existing claim add_member find_invitation first_live
    consume_invitation
joined_test = refl
