-- ===== src/Customers/History.antt =====
-- Histories of customers: the operations of
-- packages/infra/src/merge.ts, one after another.
use chatbot_integration.Prelude.{ℕ, List, [], ◌∷◌}
use chatbot_integration.Customers.{Customer, CustomerDb, MergeMatchKey}
use chatbot_integration.Customers.Propose.{suggest_merges_for, reject_merge_suggestion}
use chatbot_integration.Customers.Merge.{
  MergeInput, MergeOutcome, refused, failed, joined, merge_customers, accept_merge_suggestion,
}

-- What requests and jobs do to the customers; `edited` is any change of the customers themselves.
pub data CustomerAction : Type 0 where
  suggested : (workspace_id customer_id : ℕ) (changed_keys : List MergeMatchKey) → CustomerAction
  rejection : (workspace_id suggestion_id user_id : ℕ) → CustomerAction
  merging : MergeInput → CustomerAction
  acceptance : (workspace_id suggestion_id user_id : ℕ) → CustomerAction
  edited : (change : List Customer → List Customer) → CustomerAction

abbrev pub outcome_db : CustomerDb → MergeOutcome → CustomerDb
outcome_db db refused = db
outcome_db db failed = db
outcome_db db (joined result after) = after

module _ (lower : List ℕ → List ℕ) where
  unfoldable pub act : CustomerAction → CustomerDb → CustomerDb
  act (suggested workspace_id customer_id changed_keys) db =
      suggest_merges_for lower workspace_id customer_id changed_keys db
  act (rejection workspace_id suggestion_id user_id) db =
      (reject_merge_suggestion workspace_id suggestion_id user_id db).1
  act (merging input) db = outcome_db db (merge_customers lower (λ now. now) input db)
  act (acceptance workspace_id suggestion_id user_id) db =
      outcome_db db
        (accept_merge_suggestion lower (λ now. now) workspace_id suggestion_id user_id db)
  act (edited change) db = record db { customers = change db.customers }

  unfoldable pub act_all : List CustomerAction → CustomerDb → CustomerDb
  act_all [] db = db
  act_all (action ∷ actions) db = act_all actions (act action db)
