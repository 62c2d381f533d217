-- ===== src/Customers/Tests.antt =====
-- Two records of one person.
use chatbot_integration.Prelude.{ℕ, ◌≡◌, refl, true, none, some, List, [], ◌∷◌, inl, inr}
use chatbot_integration.Text.{codes, is_space, trim, trim_start}
use chatbot_integration.Customers.{
  KnownField, Customer, OwnedRow, MergeSuggestion, MergeResult, CustomerDb, phone, email, pending,
}
use chatbot_integration.Customers.Match.{
  value_of, field_or_empty, normalise_phone, normalise_match_value,
}
use chatbot_integration.Customers.Propose.{
  wanted_of, reason_for, candidates_among, find_merge_candidates, propose_one, propose_merges,
  suggest_merges_for, reject_rows, reject_merge_suggestion,
}
use chatbot_integration.Customers.Merge.{MergeInput, joined, merge_customers}
use chatbot_integration.Customers.Phone.{thai_phone_lem}
use chatbot_integration.Customers.Grounds.{Adds, IsOf, suggest_merges_for-Adds}
use chatbot_integration.Customers.Kept.{IsKept, merge_keeps_history}
use chatbot_integration.Customers.History.{suggested, acceptance, act_all}
use chatbot_integration.Customers.Settled.{IsSettled}
use chatbot_integration.Customers.Rejected.{rejected_for_good}

abbrev lower : List ℕ → List ℕ
lower s = s

abbrev customer : (id : ℕ) → (fields : List KnownField) → Customer
customer id fields = record {
  id = id;
  workspace_id = 7;
  display_name = none;
  primary_language = none;
  fields = fields;
  notes = [];
  summary = none;
  assignee_user_id = none;
}

abbrev line_user : Customer
line_user = customer 1 (record { key = codes "phone"; value = codes "081-234-5678" } ∷ [])

abbrev visitor : Customer
visitor = customer 2 (record { key = codes "phone"; value = codes "+66 81 234 5678" } ∷ [])

abbrev row : (id customer_id : ℕ) → OwnedRow
row id customer_id = record { id = id; workspace_id = 7; customer_id = customer_id }

abbrev db : CustomerDb
db = record {
  customers = line_user ∷ visitor ∷ [];
  channel_identities = row 20 1 ∷ row 21 2 ∷ [];
  conversations = row 30 2 ∷ row 31 1 ∷ row 32 2 ∷ [];
  conversation_embeddings = [];
  customer_summaries = row 40 2 ∷ [];
  merge_suggestions = [];
  audit_log = [];
  next_id = 50;
}

abbrev proposal : MergeSuggestion
proposal = record {
  id = 50;
  workspace_id = 7;
  customer_id = 1;
  other_customer_id = 2;
  match_key = phone;
  match_value = codes "0812345678";
  status = pending;
  decided_by_user_id = none;
}

abbrev proposed : CustomerDb
proposed = record db { merge_suggestions = proposal ∷ []; next_id = 51 }

abbrev input : MergeInput
input = record { workspace_id = 7; survivor_id = 1; absorbed_id = 2; user_id = some 9 }

thai_phone_lem_example :
    normalise_match_value lower phone (codes "+66 81-234 5678") ≡ some (codes "0812345678")
thai_phone_lem_example =
    thai_phone_lem lower (codes "+66 81-234 5678") (codes "812345678") refl refl (inr (inl refl))

suggest_merges_for-Adds_example :
    Adds lower
      (IsOf lower 7 db)
      7
      []
      (suggest_merges_for lower 7 2 (phone ∷ []) db).merge_suggestions
suggest_merges_for-Adds_example = suggest_merges_for-Adds lower 7 2 (phone ∷ []) db

-- The proposal that is made.
suggest_test : suggest_merges_for lower 7 2 (phone ∷ email ∷ []) db ≡ proposed
unfolding suggest_merges_for find_merge_candidates wanted_of reason_for candidates_among propose_one
    propose_merges value_of field_or_empty normalise_phone normalise_match_value is_space trim
    trim_start
suggest_test = refl

merge_keeps_history_example :
    (result : MergeResult) × (after : CustomerDb) × (merge_customers lower (λ now. now) input db
      ≡ joined result after)
    × IsKept input line_user visitor db result after
merge_keeps_history_example =
    merge_keeps_history lower (λ now. now) input line_user visitor db refl refl refl (refl, tt) tt
      refl
      ((λ e. refl, (λ e. refl, tt)), (λ e. refl, (λ e. refl, (λ e. refl, tt))), tt, (λ e. refl, tt))

rejected_for_good_example :
    ((reject_merge_suggestion 7 50 9 proposed).0 ≡ true)
    × IsSettled 1 2
        (act_all lower
          (acceptance 7 50 9 ∷ suggested 7 2 (phone ∷ []) ∷ [])
          (reject_merge_suggestion 7 50 9 proposed).1).merge_suggestions
unfolding reject_merge_suggestion reject_rows
rejected_for_good_example =
    rejected_for_good lower 7 50 9 proposed proposal
      (acceptance 7 50 9 ∷ suggested 7 2 (phone ∷ []) ∷ []) refl (λ e. refl, tt) (tt, (tt, tt))
