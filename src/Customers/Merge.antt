-- ===== src/Customers/Merge.antt =====
-- `mergeCustomers` and `acceptMergeSuggestion` of packages/infra/src/merge.ts. The customers are
-- read before the transaction; `between` is what other requests do meanwhile.
use chatbot_integration.Prelude.{
  ℕ, ◌+◌, Bool, ◌&&◌, ◌||◌, Option, none, some, List, [], ◌∷◌, ◌++◌, length, keep, map, any, ltb,
  ◌==◌, not, if◌then◌else◌,
}
use chatbot_integration.Json.{same_units}
use chatbot_integration.Customers.{
  KnownField, Customer, OwnedRow, MergeSuggestion, MergeResult, CustomerDb, match_keys,
  find_customer, in_workspace, is_undecided,
}
use chatbot_integration.Customers.Propose.{suggest_merges_for}

pub record MergeInput : Type 0 where
  pub workspace_id : ℕ
  pub survivor_id : ℕ
  pub absorbed_id : ℕ
  pub user_id : Option ℕ

-- `refused` is the answer null, and `failed` an error that rolls the transaction back.
pub data MergeOutcome : Type 0 where
  refused failed : MergeOutcome
  joined : MergeResult → CustomerDb → MergeOutcome

unfoldable pub set_field : KnownField → List KnownField → List KnownField
set_field f [] = f ∷ []
set_field f (g ∷ fields) =
    let rest = set_field f fields in if same_units f.key g.key then f ∷ fields else g ∷ rest

-- `{ ...under, ...over }`.
unfoldable pub spread : (under over : List KnownField) → List KnownField
spread under [] = under
spread under (f ∷ over) = spread (set_field f under) over

-- `a ?? b`.
abbrev pub or_else {ℓ} : {A : Type ℓ} → Option A → Option A → Option A
or_else none other = other
or_else (some a) other = some a

abbrev pub is_moved : MergeInput → OwnedRow → Bool
is_moved input row =
    (row.workspace_id == input.workspace_id) && (row.customer_id == input.absorbed_id)

abbrev pub repointed : MergeInput → OwnedRow → OwnedRow
repointed input row =
    if is_moved input row then record row { customer_id = input.survivor_id } else row

unfoldable pub repoint : MergeInput → List OwnedRow → List OwnedRow
repoint input [] = []
repoint input (row ∷ rows) = repointed input row ∷ repoint input rows

abbrev pub count_moved : MergeInput → List OwnedRow → ℕ
count_moved input rows = length (keep (is_moved input) rows)

abbrev pub filled : (survivor absorbed row : Customer) → Customer
filled survivor absorbed row = record row {
  fields = spread absorbed.fields survivor.fields;
  notes = spread absorbed.notes survivor.notes;
  display_name = or_else survivor.display_name absorbed.display_name;
  primary_language = or_else survivor.primary_language absorbed.primary_language;
  summary = or_else survivor.summary absorbed.summary;
  assignee_user_id = or_else survivor.assignee_user_id absorbed.assignee_user_id;
}

abbrev pub fill_in : (survivor absorbed : Customer) → List Customer → List Customer
fill_in survivor absorbed =
    map (λ row. if row.id == survivor.id then filled survivor absorbed row else row)

abbrev pub not_of : (customer_id : ℕ) → OwnedRow → Bool
not_of customer_id row = not (row.customer_id == customer_id)

abbrev pub not_about : (customer_id : ℕ) → MergeSuggestion → Bool
not_about customer_id s =
    not ((s.customer_id == customer_id) || (s.other_customer_id == customer_id))

-- The deletion of a customer, with what cascades.
unfoldable pub delete_customer : (customer_id : ℕ) → CustomerDb → CustomerDb
delete_customer customer_id db = record db {
  customers = keep (λ row. not (row.id == customer_id)) db.customers;
  channel_identities = keep (not_of customer_id) db.channel_identities;
  conversations = keep (not_of customer_id) db.conversations;
  conversation_embeddings = keep (not_of customer_id) db.conversation_embeddings;
  customer_summaries = keep (not_of customer_id) db.customer_summaries;
  merge_suggestions = keep (not_about customer_id) db.merge_suggestions;
}

unfoldable pub repoint_all : MergeInput → CustomerDb → CustomerDb
repoint_all input db = record db {
  channel_identities = repoint input db.channel_identities;
  conversations = repoint input db.conversations;
  conversation_embeddings = repoint input db.conversation_embeddings;
  customer_summaries = repoint input db.customer_summaries;
}

unfoldable pub result_of : MergeInput → CustomerDb → MergeResult
result_of input db = record {
  survivor_id = input.survivor_id;
  absorbed_id = input.absorbed_id;
  identities = count_moved input db.channel_identities;
  conversations = count_moved input db.conversations;
  embeddings = count_moved input db.conversation_embeddings;
  summaries = count_moved input db.customer_summaries;
}

abbrev pub all_moved : MergeResult → ℕ
all_moved result = result.identities + result.conversations + result.embeddings + result.summaries

-- A row cannot point at a customer that is not there.
abbrev pub breaks_reference : MergeInput → CustomerDb → Bool
breaks_reference input db =
    ltb 0 (all_moved (result_of input db))
    && not (any (λ row. row.id == input.survivor_id) db.customers)

abbrev pub audited : MergeInput → MergeResult → CustomerDb → CustomerDb
audited input result db = record db {
  audit_log =
      db.audit_log
      ++ record {
        workspace_id = input.workspace_id;
        actor_user_id = input.user_id;
        result = result;
      }
        ∷ [];
}

abbrev pub update_survivor : (survivor absorbed : Customer) → CustomerDb → CustomerDb
update_survivor survivor absorbed db = record db {
  customers = fill_in survivor absorbed db.customers;
}

unfoldable pub after_merge : MergeInput → (survivor absorbed : Customer) → CustomerDb → CustomerDb
after_merge input survivor absorbed db =
    audited input (result_of input db)
      (delete_customer input.absorbed_id (update_survivor survivor absorbed (repoint_all input db)))

unfoldable pub join_customers :
    MergeInput → (survivor absorbed : Customer) → CustomerDb → MergeOutcome
join_customers input survivor absorbed db =
    if breaks_reference input db
    then failed
    else joined (result_of input db) (after_merge input survivor absorbed db)

abbrev pub find_undecided :
    (workspace_id suggestion_id : ℕ) → List MergeSuggestion → Option MergeSuggestion
find_undecided workspace_id suggestion_id [] = none
find_undecided workspace_id suggestion_id (s ∷ rows) =
    let rest = find_undecided workspace_id suggestion_id rows in
    if is_undecided workspace_id suggestion_id s then some s else rest

abbrev pub merge_of : (workspace_id user_id : ℕ) → MergeSuggestion → MergeInput
merge_of workspace_id user_id s = record {
  workspace_id = workspace_id;
  survivor_id = s.customer_id;
  absorbed_id = s.other_customer_id;
  user_id = some user_id;
}

module _ (lower : List ℕ → List ℕ) (between : CustomerDb → CustomerDb) where
  unfoldable pub merge_customers : MergeInput → CustomerDb → MergeOutcome
  merge_customers input db =
      let rows = in_workspace input.workspace_id db.customers in
      if input.survivor_id == input.absorbed_id
      then refused
      else elim (find_customer input.survivor_id rows) [
        | none ↦ refused
        | some survivor ↦ elim (find_customer input.absorbed_id rows) [
          | none ↦ refused
          | some absorbed ↦ join_customers input survivor absorbed (between db)
        ]
      ]

  -- The survivor may match somebody else now.
  abbrev pub suggest_again : (workspace_id : ℕ) → MergeOutcome → MergeOutcome
  suggest_again workspace_id refused = refused
  suggest_again workspace_id failed = failed
  suggest_again workspace_id (joined result db) =
      joined result (suggest_merges_for lower workspace_id result.survivor_id match_keys db)

  unfoldable pub accept_merge_suggestion :
      (workspace_id suggestion_id user_id : ℕ) → CustomerDb → MergeOutcome
  accept_merge_suggestion workspace_id suggestion_id user_id db =
      elim (find_undecided workspace_id suggestion_id db.merge_suggestions) [
        | none ↦ refused
        | some s ↦ suggest_again workspace_id (merge_customers (merge_of workspace_id user_id s) db)
      ]
