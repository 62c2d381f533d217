-- ===== src/Invitations/Entry.antt =====
-- What the accept route of apps/api/src/routes/invitations.ts lets happen.
use chatbot_integration.Prelude.{
  ℕ, ◌≤◌, ◌≡◌, sym, subst, String, true, false, Option, none, List, arith, All,
}
use chatbot_integration.Invitations.{find_invitation, first_live}
use chatbot_integration.Invitations.Accept.{Env, AcceptBody, Session, World, gone, accept}
use chatbot_integration.Invitations.Spent.{
  Operation, issues, operate_all, over_later, operate_all-over, first_live-none,
}
use chatbot_integration.Invitations.Guards.{is_success, accept-spends}

module _ (env : Env) where
  accept_gone :
      (now later : ℕ) (token : String) (body : AcceptBody) (session : Option Session)
      (world : World)
      → first_live (env.hash_token token) now world.invitations ≡ none
      → accept env now later token body session world ≡ (world, gone)
  unfolding accept find_invitation
  accept_gone now later token body session world e = ground arith

  -- Once a link has let somebody in, or reset a password, nobody gets in by it again: after
  -- whatever other links are issued, used and revoked, every later request with its token is
  -- answered as if the link did not exist, and changes nothing.
  pub accept_once :
      (now later now' later' : ℕ) (token : String) (body body' : AcceptBody)
      (session session' : Option Session) (world world' : World) (os : List Operation)
      → is_success env (accept env now later token body session world).1 ≡ true
      → later ≤ now'
      → All (λ o. issues env.hash_token env.clean (env.hash_token token) o ≡ false) os
      → world'.invitations
        ≡ operate_all env.hash_token env.clean os
            (accept env now later token body session world).0.invitations
      → accept env now' later' token body' session' world' ≡ (world', gone)
  accept_once now later now' later' token body body' session session' world world' os h le others
        e =
      let hash = env.hash_token token in
      let rows = (accept env now later token body session world).0.invitations in
      accept_gone now' later' token body' session' world' (
        subst (λ r. first_live hash now' r ≡ none) (sym e)
          (first_live-none hash now' (operate_all env.hash_token env.clean os rows) (
            operate_all-over env.hash_token env.clean hash now' os rows others (
              over_later hash later now' rows le
                (accept-spends env now later token body session world h)))))
