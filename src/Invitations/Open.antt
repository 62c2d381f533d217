-- ===== src/Invitations/Open.antt =====
-- The row that a token opens: `findInvitation` of packages/infra/src/invitations.ts, and the account
-- that holds an address, of the accept route of apps/api/src/routes/invitations.ts.
use text.Mathlib.TextPositions.{eq_refl}
use mathlib.Core.List.{Memᴰ}
use chatbot_integration.Prelude.{
  ℕ, suc, ◌≤◌, ◌≡◌, refl, String, true, false, ◌&&◌, Option, none, some, List, [], ◌∷◌, any, arith,
  inl, inr, Bool-cases, Option-cases, str_eq, eq_iff,
}
use chatbot_integration.Invitations.{Invitation, first_live, is_live, is_unused, find_invitation}
use chatbot_integration.Invitations.Accept.{Env, Account, World, find_account}

unused : (row : Invitation) (o : Option ℕ) → row.used_at ≡ o → is_unused row ≡ true → o ≡ none
unused row none e h = refl
unused row (some t) e h = absurd (ground arith)

module _ (env : Env) where
  -- A row of the table for this token, not used and not expired.
  abbrev pub IsOpen : (token : String) (now : ℕ) → World → Invitation → Type 0
  IsOpen token now world row =
      Memᴰ row world.invitations
      × (row.token_hash ≡ env.hash_token token)
      × (row.used_at ≡ none)
      × (suc now ≤ row.expires_at)

  first_live-open :
      (hash : String) (now : ℕ) (row : Invitation) (rows : List Invitation)
      → first_live hash now rows ≡ some row
      → Memᴰ row rows × (is_live hash now row ≡ true)
  unfolding first_live
  first_live-open hash now row [] h = absurd (ground arith)
  first_live-open hash now row (r ∷ rows) h = elim (Bool-cases (is_live hash now r)) [
    | inl e ↦ let same : r ≡ row = ground arith in rw (← same) (Memᴰ.head refl, e)
    | inr e ↦
        let (there, live) = first_live-open hash now row rows (ground arith) in
        (Memᴰ.tail there, live)
  ]

  pub find_invitation-IsOpen :
      (token : String) (now : ℕ) (world : World) (found : Invitation × String)
      → find_invitation env.hash_token env.clean env.organization_name token now world.invitations
        ≡ some found
      → IsOpen token now world found.0
  unfolding find_invitation
  find_invitation-IsOpen token now world found h =
      elim (Option-cases (first_live (env.hash_token token) now world.invitations)) [
        | inl e ↦ absurd (ground arith)
        | inr (row, e) ↦ elim (Option-cases (env.organization_name row.workspace_id)) [
          | inl f ↦ absurd (ground arith)
          | inr (name, f) ↦
              let same : found.0 ≡ row = ground arith in
              let (there, live) =
                first_live-open (env.hash_token token) now row world.invitations e in
              rw same (
                there,
                (eq_iff row.token_hash (env.hash_token token)).0 (ground arith),
                unused row row.used_at refl (ground arith),
                ground arith,
              )
        ]
      ]

  pub found_account :
      (email user : String) (accounts : List Account)
      → find_account env email accounts ≡ some user
      → any (λ a. str_eq (env.lower a.email) email && str_eq a.id user) accounts ≡ true
  unfolding find_account
  found_account email user [] h = absurd (ground arith)
  found_account email user (a ∷ accounts) h = elim (Bool-cases (str_eq (env.lower a.email) email)) [
    | inl e ↦
        let same : a.id ≡ user = ground arith in
        let own : str_eq a.id user ≡ true = rw same (eq_refl user) in ground arith
    | inr e ↦ ground (arith, found_account email user accounts)
  ]

  pub no_account :
      (email : String) (accounts : List Account)
      → find_account env email accounts ≡ none
      → any (λ a. str_eq (env.lower a.email) email) accounts ≡ false
  unfolding find_account
  no_account email [] h = refl
  no_account email (a ∷ accounts) h = ground (arith, no_account email accounts)
