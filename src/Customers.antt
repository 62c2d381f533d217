-- ===== src/Customers.antt =====
-- Customers that may be one person, for packages/infra/src/merge.ts: the keys of
-- packages/shared/src/merge.ts and the tables of packages/db/src/schema/app.ts. Ids are numbers, so
-- that the older of two records has the smaller one, and a text is a list of code units.
pub mod Match
pub mod Propose
pub mod Merge
pub mod Phone
pub mod Grounds
pub mod Fields
pub mod Kept
pub mod History
pub mod Settled
pub mod Rejected
mod Tests
use chatbot_integration.Prelude.{
  ℕ, Bool, true, false, ◌&&◌, Option, none, some, List, [], ◌∷◌, keep, ◌==◌, if◌then◌else◌,
}
use chatbot_integration.Text.{codes}

pub data MergeMatchKey : Type 0 where
  phone email account_id : MergeMatchKey

pub data MergeSuggestionStatus : Type 0 where
  pending rejected : MergeSuggestionStatus

-- A value under a key of `Record<string, string>`.
pub record KnownField : Type 0 where
  pub key : List ℕ
  pub value : List ℕ

pub record Customer : Type 0 where
  pub id : ℕ
  pub workspace_id : ℕ
  pub display_name : Option (List ℕ)
  pub primary_language : Option (List ℕ)
  pub fields : List KnownField
  pub notes : List KnownField
  pub summary : Option (List ℕ)
  pub assignee_user_id : Option ℕ

-- A row of a table that points at a customer, as far as a merge reads and writes it.
pub record OwnedRow : Type 0 where
  pub id : ℕ
  pub workspace_id : ℕ
  pub customer_id : ℕ

pub record MergeSuggestion : Type 0 where
  pub id : ℕ
  pub workspace_id : ℕ
  pub customer_id : ℕ
  pub other_customer_id : ℕ
  pub match_key : MergeMatchKey
  pub match_value : List ℕ
  pub status : MergeSuggestionStatus
  pub decided_by_user_id : Option ℕ

pub record MergeResult : Type 0 where
  pub survivor_id : ℕ
  pub absorbed_id : ℕ
  pub identities : ℕ
  pub conversations : ℕ
  pub embeddings : ℕ
  pub summaries : ℕ

pub record MergeAudit : Type 0 where
  pub workspace_id : ℕ
  pub actor_user_id : Option ℕ
  pub result : MergeResult

pub record CustomerDb : Type 0 where
  pub customers : List Customer
  pub channel_identities : List OwnedRow
  pub conversations : List OwnedRow
  pub conversation_embeddings : List OwnedRow
  pub customer_summaries : List OwnedRow
  pub merge_suggestions : List MergeSuggestion
  pub audit_log : List MergeAudit
  -- The id of the next suggestion.
  pub next_id : ℕ

abbrev pub match_keys : List MergeMatchKey
match_keys = phone ∷ email ∷ account_id ∷ []

abbrev pub key_text : MergeMatchKey → List ℕ
key_text phone = codes "phone"
key_text email = codes "email"
key_text account_id = codes "account_id"

abbrev pub find_customer : (id : ℕ) → List Customer → Option Customer
find_customer id [] = none
find_customer id (row ∷ rows) =
    let rest = find_customer id rows in if row.id == id then some row else rest

abbrev pub in_workspace : (workspace_id : ℕ) → List Customer → List Customer
in_workspace workspace_id = keep (λ row. row.workspace_id == workspace_id)

abbrev pub same_pair : (a b : ℕ) → MergeSuggestion → Bool
same_pair a b s = (s.customer_id == a) && (s.other_customer_id == b)

abbrev pub is_undetermined : MergeSuggestion → Bool
is_undetermined s = elim s.status [ pending ↦ true | rejected ↦ false ]

-- A suggestion that waits for a decision, by its id.
abbrev pub is_undecided : (workspace_id suggestion_id : ℕ) → MergeSuggestion → Bool
is_undecided workspace_id suggestion_id s =
    (s.id == suggestion_id) && ((s.workspace_id == workspace_id) && is_undetermined s)
