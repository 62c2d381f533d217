-- ===== src/Invitations/Single.antt =====
-- At most one link that is not used for each person and purpose:
-- packages/infra/src/invitations.ts.
use chatbot_integration.Prelude.{
  ℕ, ◌+◌, ◌≤◌, ◌≡◌, refl, sym, subst, String, Bool, true, ◌&&◌, List, [], ◌∷◌, ◌++◌, any, keep,
  length, arith, inl, inr, Bool-cases, str_eq, eq_iff, if◌then◌else◌, length-append,
}
use chatbot_integration.Invitations.{
  Invitation, IssueInput, InvitationPurpose, same_purpose, is_live, is_revoked, is_unused, is_for,
  spend_where, spend_earlier, insert_row, issue_invitation, consume_invitation, revoke_invitation,
  new_row,
}
use chatbot_integration.Invitations.Spent.{Operation, issue, consume, revoke, operate, operate_all}

-- The links for a person and purpose that are not used.
abbrev pub open_links :
    (workspace_id : String) → InvitationPurpose → (email : String) → List Invitation → ℕ
open_links workspace_id purpose email rows =
    length (keep (λ row. is_for workspace_id purpose email row && is_unused row) rows)

spend-open_links :
    (w : String) (purpose : InvitationPurpose) (email : String) (p : Invitation → Bool) (now : ℕ)
    (rows : List Invitation)
    → open_links w purpose email (spend_where p now rows) ≤ open_links w purpose email rows
unfolding spend_where
spend-open_links w purpose email p now [] = omega arith
spend-open_links w purpose email p now (row ∷ rows) =
    ground (arith, spend-open_links w purpose email p now rows)

pub spend_earlier-open_links :
    (w : String) (purpose : InvitationPurpose) (email : String) (now : ℕ) (rows : List Invitation)
    → open_links w purpose email (spend_earlier now w purpose email rows) ≡ 0
unfolding spend_earlier spend_where
spend_earlier-open_links w purpose email now [] = refl
spend_earlier-open_links w purpose email now (row ∷ rows) =
    elim (Bool-cases (is_for w purpose email row && is_unused row)) [
      | inl e ↦ rw e (ground (arith, spend_earlier-open_links w purpose email now rows))
      | inr e ↦ rw e (rw e (spend_earlier-open_links w purpose email now rows))
    ]

pub keep-append :
    (p : Invitation → Bool) (xs ys : List Invitation) → keep p (xs ++ ys) ≡ keep p xs ++ keep p ys
keep-append p [] ys = refl
keep-append p (x ∷ xs) ys = ground (arith, keep-append p xs ys)

insert_row-open_links :
    (w : String) (purpose : InvitationPurpose) (email : String) (row : Invitation)
    (rows : List Invitation)
    → open_links w purpose email (insert_row row rows).0
      ≤ open_links w purpose email rows + (if is_for w purpose email row then 1 else 0)
unfolding insert_row
insert_row-open_links w purpose email row rows =
    elim (Bool-cases (any (λ r. str_eq r.token_hash row.token_hash) rows)) [
      | inl e ↦ rw e (omega arith)
      | inr e ↦
          rw (e, keep-append (λ r. is_for w purpose email r && is_unused r) rows (row ∷ []))
            (ground (
              arith,
              length-append (keep (λ r. is_for w purpose email r && is_unused r) rows)
                  (keep (λ r. is_for w purpose email r && is_unused r) (row ∷ [])),
            ))
    ]

same_purpose_eq : (a b : InvitationPurpose) → same_purpose a b ≡ true → a ≡ b
same_purpose_eq InvitationPurpose.invite InvitationPurpose.invite h = refl
same_purpose_eq InvitationPurpose.password_reset InvitationPurpose.password_reset h = refl
same_purpose_eq InvitationPurpose.invite InvitationPurpose.password_reset h = cc
same_purpose_eq InvitationPurpose.password_reset InvitationPurpose.invite h = cc

-- Issuing a link ends the earlier ones of its person and purpose, and adds to no other.
pub spend_earlier-open_links_le :
    (w : String) (purpose : InvitationPurpose) (email w' : String) (purpose' : InvitationPurpose)
    (email' : String) (now : ℕ) (rows : List Invitation)
    → open_links w purpose email (spend_earlier now w' purpose' email' rows)
      ≤ open_links w purpose email rows
unfolding spend_earlier
spend_earlier-open_links_le w purpose email w' purpose' email' now rows =
    spend-open_links w purpose email _ now rows

replaced :
    (w : String) (purpose : InvitationPurpose) (email : String) (row : Invitation) (now : ℕ)
    (rows : List Invitation)
    → is_for w purpose email row ≡ true
    → open_links w purpose email (spend_earlier now row.workspace_id row.purpose row.email rows) ≡ 0
replaced w purpose email row now rows h =
    let a : row.workspace_id ≡ w = (eq_iff row.workspace_id w).0 (ground arith) in
    let b : row.purpose ≡ purpose = same_purpose_eq row.purpose purpose (ground arith) in
    let c : row.email ≡ email = (eq_iff row.email email).0 (ground arith) in
    subst (λ x. open_links w purpose email (spend_earlier now x row.purpose row.email rows) ≡ 0)
      (sym a)
      (subst (λ x. open_links w purpose email (spend_earlier now w x row.email rows) ≡ 0) (sym b)
        (subst (λ x. open_links w purpose email (spend_earlier now w purpose x rows) ≡ 0) (sym c)
          (spend_earlier-open_links w purpose email now rows)))

module _ (hash_token : String → String) (clean : String → String) where
  issue-open_links :
      (w : String) (purpose : InvitationPurpose) (email id token : String) (now : ℕ)
      (input : IssueInput) (rows : List Invitation)
      → open_links w purpose email rows ≤ 1
      → open_links w purpose email (issue_invitation hash_token clean id token now input rows).0 ≤ 1
  unfolding issue_invitation
  issue-open_links w purpose email id token now input rows h =
      let row = new_row hash_token clean id token now input in
      let spent = spend_earlier now input.workspace_id input.purpose (clean input.email) rows in
      elim (Bool-cases (is_for w purpose email row)) [
        | inr other ↦
            let b =
              subst
                (λ x.
                  open_links w purpose email (insert_row row spent).0
                  ≤ open_links w purpose email spent + (if x then 1 else 0))
                other (insert_row-open_links w purpose email row spent) in
            omega (
              arith,
              b,
              spend_earlier-open_links_le w purpose email input.workspace_id input.purpose
                  (clean input.email) now rows,
            )
        | inl mine ↦
            let b =
              subst
                (λ x.
                  open_links w purpose email (insert_row row spent).0
                  ≤ open_links w purpose email spent + (if x then 1 else 0))
                mine (insert_row-open_links w purpose email row spent) in
            omega (arith, b, replaced w purpose email row now rows mine)
      ]

  operate-open_links :
      (w : String) (purpose : InvitationPurpose) (email : String) (o : Operation)
      (rows : List Invitation)
      → open_links w purpose email rows ≤ 1
      → open_links w purpose email (operate hash_token clean o rows) ≤ 1
  unfolding consume_invitation revoke_invitation
  operate-open_links w purpose email (issue id token now input) rows h =
      issue-open_links w purpose email id token now input rows h
  operate-open_links w purpose email (consume token now) rows h =
      omega (arith, spend-open_links w purpose email (is_live (hash_token token) now) now rows)
  operate-open_links w purpose email (revoke workspace_id id now) rows h =
      omega (arith, spend-open_links w purpose email (is_revoked workspace_id id) now rows)

  -- One after another, requests keep at most one link that is not used for each person and
  -- purpose: issuing a second ends the first.
  pub single_link :
      (w : String) (purpose : InvitationPurpose) (email : String) (os : List Operation)
      (rows : List Invitation)
      → open_links w purpose email rows ≤ 1
      → open_links w purpose email (operate_all hash_token clean os rows) ≤ 1
  single_link w purpose email [] rows h = h
  single_link w purpose email (o ∷ os) rows h =
      single_link w purpose email os (operate hash_token clean o rows)
        (operate-open_links w purpose email o rows h)
