-- ===== src/Invitations/Guards.antt =====
-- Who a link lets in: the accept route of apps/api/src/routes/invitations.ts.
use chatbot_integration.Prelude.{
  ℕ, ◌≡◌, String, Bool, true, false, ◌&&◌, Option, none, some, get_or, any, arith, not, inl, inr,
  Option-cases,
}
use chatbot_integration.Invitations.{
  Invitation, is_live, account_reach, find_invitation, consume_invitation,
}
use chatbot_integration.Invitations.Accept.{
  Env, AcceptBody, Session, World, Response, joined, reset, accept, handle, join_new, join_existing,
  reset_password, spend_reset, claim, claimed, is_covered, find_account, is_workspace_scope,
  is_for_other, interrupted, set_password,
}
use chatbot_integration.Invitations.Spent.{spent_over}

module _ (env : Env) where
  -- Whether the answer lets somebody in.
  abbrev pub is_success : Response → Bool
  is_success (joined workspace_id user_id) = true
  is_success (reset workspace_id user_id) = true
  is_success _ = false

  claim-spends :
      (token user_id : String) (later : ℕ) (world : World)
      → let r = claimed user_id (claim env token user_id later world) in
        is_success r.1 ≡ true → any (is_live (env.hash_token token) later) r.0.invitations ≡ false
  unfolding claim consume_invitation
  claim-spends token user_id later world h =
      ground (arith, spent_over (env.hash_token token) later world.invitations)

  join_new-spends :
      (invitation : Invitation) (token : String) (later : ℕ) (body : AcceptBody) (world : World)
      → let r = join_new env invitation token later body world in
        is_success r.1 ≡ true → any (is_live (env.hash_token token) later) r.0.invitations ≡ false
  unfolding join_new
  join_new-spends invitation token later body world h =
      let (accounts, (user_id, error)) =
        env.auth.sign_up invitation.email (get_or body.password "") (get_or body.name "")
          world.accounts in
      ground (
        arith,
        claim-spends token user_id later (interrupted env (record world { accounts = accounts })),
      )

  join_existing-spends :
      (invitation : Invitation) (token : String) (later : ℕ) (session : Option Session)
      (world : World)
      → let r = join_existing env invitation token later session world in
        is_success r.1 ≡ true → any (is_live (env.hash_token token) later) r.0.invitations ≡ false
  unfolding join_existing
  join_existing-spends invitation token later none world h = cc
  join_existing-spends invitation token later (some s) world h =
      ground (arith, claim-spends token s.user_id later (interrupted env world))

  spend_reset-spends :
      (token : String) (later : ℕ) (existing password : String) (world : World)
      → let r = spend_reset env token later existing password world in
        is_success r.1 ≡ true → any (is_live (env.hash_token token) later) r.0.invitations ≡ false
  unfolding spend_reset set_password consume_invitation
  spend_reset-spends token later existing password world h =
      ground (arith, spent_over (env.hash_token token) later world.invitations)

  reset_password-spends :
      (invitation : Invitation) (token : String) (later : ℕ) (body : AcceptBody)
      (existing : Option String) (world : World)
      → let r = reset_password env invitation token later body existing world in
        is_success r.1 ≡ true → any (is_live (env.hash_token token) later) r.0.invitations ≡ false
  unfolding reset_password
  reset_password-spends invitation token later body none world h = ground arith
  reset_password-spends invitation token later body (some user) world h =
      ground (
        arith,
        spend_reset-spends token later user (get_or body.password "") (interrupted env world),
      )

  handle-spends :
      (now later : ℕ) (token : String) (invitation : Invitation) (body : AcceptBody)
      (session : Option Session) (world : World)
      → let r = handle env now later token invitation body session world in
        is_success r.1 ≡ true → any (is_live (env.hash_token token) later) r.0.invitations ≡ false
  unfolding handle
  handle-spends now later token invitation body session world h = ground (
    arith,
    join_new-spends invitation token later body world,
    join_existing-spends invitation token later session world,
    reset_password-spends invitation token later body
        (find_account env invitation.email world.accounts) world,
  )

  pub accept-spends :
      (now later : ℕ) (token : String) (body : AcceptBody) (session : Option Session)
      (world : World)
      → let r = accept env now later token body session world in
        is_success r.1 ≡ true → any (is_live (env.hash_token token) later) r.0.invitations ≡ false
  unfolding accept
  accept-spends now later token body session world h =
      elim (Option-cases (
        find_invitation env.hash_token env.clean env.organization_name token now
          world.invitations)) [
            | inl e ↦ ground arith
            | inr (found, e) ↦
                ground (arith, handle-spends now later token found.0 body session world)
          ]

  pub reset-guards :
      (invitation : Invitation) (token : String) (later : ℕ) (body : AcceptBody)
      (existing : Option String) (world w' : World) (ws user : String)
      → reset_password env invitation token later body existing world ≡ (w', reset ws user)
      → (existing ≡ some user)
        × (is_for_other invitation.user_id user ≡ false)
        × ((is_workspace_scope invitation.issuer_scope
              && not
                  (is_covered invitation (account_reach world.members world.platform_admins user)))
            ≡ false)
  unfolding reset_password spend_reset
  reset-guards invitation token later body existing world w' ws user h = ground arith
