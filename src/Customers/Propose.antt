-- ===== src/Customers/Propose.antt =====
-- Proposals to merge two customers, and their rejection: packages/infra/src/merge.ts.
use chatbot_integration.Prelude.{
  ℕ, suc, Bool, false, Option, none, some, List, [], ◌∷◌, ◌++◌, any, ltb, ◌==◌, if◌then◌else◌,
}
use chatbot_integration.Json.{same_units}
use chatbot_integration.Customers.{
  MergeMatchKey, pending, rejected, Customer, MergeSuggestion, CustomerDb, find_customer,
  in_workspace, same_pair, is_undecided,
}
use chatbot_integration.Customers.Match.{value_of}

-- The pair as it is stored, the older record first.
abbrev pub order_pair : (a b : ℕ) → ℕ × ℕ
order_pair a b = if ltb a b then (a, b) else (b, a)

pub record MergeCandidate : Type 0 where
  pub other_customer_id : ℕ
  pub key : MergeMatchKey
  pub value : List ℕ

abbrev pub proposal_of : (id workspace_id customer_id : ℕ) → MergeCandidate → MergeSuggestion
proposal_of id workspace_id customer_id candidate =
    let pair = order_pair customer_id candidate.other_customer_id in
    record {
      id = id;
      workspace_id = workspace_id;
      customer_id = pair.0;
      other_customer_id = pair.1;
      match_key = candidate.key;
      match_value = candidate.value;
      status = pending;
      decided_by_user_id = none;
    }

-- `onConflictDoNothing`, on the unique index of the pair. How many rows were inserted is left out.
unfoldable pub propose_one :
    (workspace_id customer_id : ℕ) → MergeCandidate → CustomerDb → CustomerDb
propose_one workspace_id customer_id candidate db =
    let s = proposal_of db.next_id workspace_id customer_id candidate in
    if any (same_pair s.customer_id s.other_customer_id) db.merge_suggestions
    then db
    else record db { merge_suggestions = db.merge_suggestions ++ s ∷ []; next_id = suc db.next_id }

unfoldable pub propose_merges :
    (workspace_id customer_id : ℕ) → List MergeCandidate → CustomerDb → CustomerDb
propose_merges workspace_id customer_id [] db = db
propose_merges workspace_id customer_id (candidate ∷ candidates) db =
    propose_merges workspace_id customer_id candidates
      (propose_one workspace_id customer_id candidate db)

abbrev pub rejected_by : (user_id : ℕ) → MergeSuggestion → MergeSuggestion
rejected_by user_id s = record s { status = rejected; decided_by_user_id = some user_id }

unfoldable pub reject_rows :
    (workspace_id suggestion_id user_id : ℕ) → List MergeSuggestion → List MergeSuggestion
reject_rows workspace_id suggestion_id user_id [] = []
reject_rows workspace_id suggestion_id user_id (s ∷ rows) =
    (if is_undecided workspace_id suggestion_id s then rejected_by user_id s else s)
    ∷ reject_rows workspace_id suggestion_id user_id rows

unfoldable pub reject_merge_suggestion :
    (workspace_id suggestion_id user_id : ℕ) → CustomerDb → Bool × CustomerDb
reject_merge_suggestion workspace_id suggestion_id user_id db = (
  any (is_undecided workspace_id suggestion_id) db.merge_suggestions,
  record db {
    merge_suggestions = reject_rows workspace_id suggestion_id user_id db.merge_suggestions;
  },
)

module _ (lower : List ℕ → List ℕ) where
  -- `wanted`; a key that comes twice has the same value twice.
  unfoldable pub wanted_of : Customer → List MergeMatchKey → List (MergeMatchKey × List ℕ)
  wanted_of mine [] = []
  wanted_of mine (key ∷ keys) =
      let rest = wanted_of mine keys in
      elim (value_of lower key mine) [ none ↦ rest | some value ↦ (key, value) ∷ rest ]

  abbrev pub holds_value : MergeMatchKey → (value : List ℕ) → Customer → Bool
  holds_value key value row = elim (value_of lower key row) [
    | none ↦ false
    | some other ↦ same_units other value
  ]

  -- The first reason for a pair.
  unfoldable pub reason_for : Customer → List (MergeMatchKey × List ℕ) → Option MergeCandidate
  reason_for row [] = none
  reason_for row ((key, value) ∷ wanted) =
      let rest = reason_for row wanted in
      if holds_value key value row
      then some (record { other_customer_id = row.id; key = key; value = value })
      else rest

  unfoldable pub candidates_among :
      (customer_id : ℕ) → List (MergeMatchKey × List ℕ) → List Customer → List MergeCandidate
  candidates_among customer_id wanted [] = []
  candidates_among customer_id wanted (row ∷ rows) =
      let rest = candidates_among customer_id wanted rows in
      if row.id == customer_id
      then rest
      else elim (reason_for row wanted) [ none ↦ rest | some candidate ↦ candidate ∷ rest ]

  unfoldable pub find_merge_candidates :
      CustomerDb → (workspace_id customer_id : ℕ) → List MergeMatchKey → List MergeCandidate
  find_merge_candidates db workspace_id customer_id keys =
      let rows = in_workspace workspace_id db.customers in
      elim (find_customer customer_id rows) [
        | none ↦ []
        | some mine ↦ candidates_among customer_id (wanted_of mine keys) rows
      ]

  -- A changed key that is no match key plays no part.
  unfoldable pub suggest_merges_for :
      (workspace_id customer_id : ℕ) → (changed_keys : List MergeMatchKey) → CustomerDb → CustomerDb
  suggest_merges_for workspace_id customer_id changed_keys db =
      propose_merges workspace_id customer_id
        (find_merge_candidates db workspace_id customer_id changed_keys) db
