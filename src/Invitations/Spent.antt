-- ===== src/Invitations/Spent.antt =====
-- A link that is spent never works again: packages/infra/src/invitations.ts.
use chatbot_integration.Prelude.{
  ℕ, ◌≤◌, ◌≡◌, refl, String, Bool, false, none, List, [], ◌∷◌, any, any-append, All, arith, inl,
  inr, Bool-cases, str_eq,
}
use chatbot_integration.Invitations.{
  Invitation, IssueInput, is_live, spend_where, spend_earlier, insert_row, issue_invitation,
  consume_invitation, first_live, revoke_invitation, new_row,
}

-- What a request does to the table.
pub data Operation : Type 0 where
  issue : (id token : String) (now : ℕ) (input : IssueInput) → Operation
  consume : (token : String) (now : ℕ) → Operation
  revoke : (workspace_id id : String) (now : ℕ) → Operation

module _ (hash_token : String → String) (clean : String → String) where
  abbrev pub operate : Operation → List Invitation → List Invitation
  operate (issue id token now input) rows =
      (issue_invitation hash_token clean id token now input rows).0
  operate (consume token now) rows = (consume_invitation hash_token clean token now rows).0
  operate (revoke workspace_id id now) rows = (revoke_invitation workspace_id id now rows).0

  abbrev pub operate_all : List Operation → List Invitation → List Invitation
  operate_all [] rows = rows
  operate_all (o ∷ os) rows = operate_all os (operate o rows)

  -- Whether the operation issues a link whose token has this hash.
  abbrev pub issues : (hash : String) → Operation → Bool
  issues hash (issue id token now input) = str_eq (hash_token token) hash
  issues hash _ = false

spend-over :
    (hash : String) (t now : ℕ) (p : Invitation → Bool) (rows : List Invitation)
    → any (is_live hash t) rows ≡ false
    → any (is_live hash t) (spend_where p now rows) ≡ false
unfolding spend_where
spend-over hash t now p [] h = refl
spend-over hash t now p (row ∷ rows) h = ground (arith, spend-over hash t now p rows)

-- A link that does not work at `now` does not later, either.
pub over_later :
    (hash : String) (now later : ℕ) (rows : List Invitation)
    → now ≤ later
    → any (is_live hash now) rows ≡ false
    → any (is_live hash later) rows ≡ false
over_later hash now later [] le h = refl
over_later hash now later (row ∷ rows) le h = ground (arith, over_later hash now later rows le)

pub spent_over :
    (hash : String) (now : ℕ) (rows : List Invitation)
    → any (is_live hash now) (spend_where (is_live hash now) now rows) ≡ false
unfolding spend_where
spent_over hash now [] = refl
spent_over hash now (row ∷ rows) = elim (Bool-cases (is_live hash now row)) [
  | inl e ↦ rw e (ground (arith, spent_over hash now rows))
  | inr e ↦ rw e (rw e (spent_over hash now rows))
]

pub first_live-none :
    (hash : String) (now : ℕ) (rows : List Invitation)
    → any (is_live hash now) rows ≡ false
    → first_live hash now rows ≡ none
unfolding first_live
first_live-none hash now [] h = refl
first_live-none hash now (row ∷ rows) h = ground (arith, first_live-none hash now rows)

insert_row-over :
    (hash : String) (t : ℕ) (row : Invitation) (rows : List Invitation)
    → str_eq row.token_hash hash ≡ false
    → any (is_live hash t) rows ≡ false
    → any (is_live hash t) (insert_row row rows).0 ≡ false
unfolding insert_row
insert_row-over hash t row rows other h =
    elim (Bool-cases (any (λ r. str_eq r.token_hash row.token_hash) rows)) [
      | inl e ↦ rw e h
      | inr e ↦ rw (e, any-append (is_live hash t) rows (row ∷ [])) (ground arith)
    ]

module _ (hash_token : String → String) (clean : String → String) where
  issue-over :
      (hash id token : String) (now t : ℕ) (input : IssueInput) (rows : List Invitation)
      → str_eq (hash_token token) hash ≡ false
      → any (is_live hash t) rows ≡ false
      → any (is_live hash t) (issue_invitation hash_token clean id token now input rows).0 ≡ false
  unfolding issue_invitation spend_earlier
  issue-over hash id token now t input rows other h =
      insert_row-over hash t (new_row hash_token clean id token now input) _ other
        (spend-over hash t now _ rows h)

  operate-over :
      (hash : String) (t : ℕ) (o : Operation) (rows : List Invitation)
      → issues hash_token clean hash o ≡ false
      → any (is_live hash t) rows ≡ false
      → any (is_live hash t) (operate hash_token clean o rows) ≡ false
  unfolding consume_invitation revoke_invitation
  operate-over hash t (issue id token now input) rows other h =
      issue-over hash id token now t input rows other h
  operate-over hash t (consume token now) rows other h = spend-over hash t now _ rows h
  operate-over hash t (revoke workspace_id id now) rows other h = spend-over hash t now _ rows h

  pub operate_all-over :
      (hash : String) (t : ℕ) (os : List Operation) (rows : List Invitation)
      → All (λ o. issues hash_token clean hash o ≡ false) os
      → any (is_live hash t) rows ≡ false
      → any (is_live hash t) (operate_all hash_token clean os rows) ≡ false
  operate_all-over hash t [] rows others h = h
  operate_all-over hash t (o ∷ os) rows others h =
      operate_all-over hash t os (operate hash_token clean o rows) others.1
        (operate-over hash t o rows others.0 h)
