-- ===== src/Customers/Kept.antt =====
-- What a merge keeps: `mergeCustomers` of packages/infra/src/merge.ts.
use mathlib.Core.Path.{ap₂}
use chatbot_integration.Prelude.{
  ℕ, ◌≡◌, refl, Bool, true, false, ◌||◌, some, List, [], ◌∷◌, length, keep, map, any, All, All-map,
  All-keep, ◌==◌, not, if◌then◌else◌, arith, inl, inr, Bool-cases, ==_iff,
}
use chatbot_integration.Customers.{
  Customer, OwnedRow, MergeResult, CustomerDb, find_customer, in_workspace,
}
use chatbot_integration.Customers.Merge.{
  MergeInput, joined, or_else, is_moved, repointed, repoint, count_moved, fill_in, not_of,
  delete_customer, repoint_all, result_of, after_merge, breaks_reference, join_customers,
  merge_customers,
}
use chatbot_integration.Customers.Fields.{find_field, HasUniqueKeys, find_field-spread}

-- A row after the merge: that of the absorbed customer is the survivor's.
abbrev pub handed_over : MergeInput → OwnedRow → OwnedRow
handed_over input row =
    if row.customer_id == input.absorbed_id
    then record row { customer_id = input.survivor_id }
    else row

-- The rows of a customer are of the customer's workspace.
abbrev pub AreScoped : MergeInput → List OwnedRow → Type 0
AreScoped input =
    All (λ row. row.customer_id ≡ input.absorbed_id → row.workspace_id ≡ input.workspace_id)

row_kept :
    (input : MergeInput) (row : OwnedRow)
    → (input.survivor_id == input.absorbed_id) ≡ false
    → (row.customer_id ≡ input.absorbed_id → row.workspace_id ≡ input.workspace_id)
    → (not_of input.absorbed_id (repointed input row) ≡ true)
      × (repointed input row ≡ handed_over input row)
row_kept input row h s =
    let moved : is_moved input row ≡ (row.customer_id == input.absorbed_id) = ground (arith, s) in
    elim (Bool-cases (row.customer_id == input.absorbed_id)) [
      | inl e ↦ rw (moved, e) (ground arith, refl)
      | inr e ↦ rw (moved, e) (ground arith, refl)
    ]

kept-repoint :
    (input : MergeInput) (rows : List OwnedRow)
    → (input.survivor_id == input.absorbed_id) ≡ false
    → AreScoped input rows
    → keep (not_of input.absorbed_id) (repoint input rows) ≡ map (handed_over input) rows
unfolding repoint
kept-repoint input [] h s = refl
kept-repoint input (row ∷ rows) h s =
    let (stays, same) = row_kept input row h s.0 in
    rw stays (ap₂ (◌∷◌) same (kept-repoint input rows h s.1))

counted :
    (input : MergeInput) (rows : List OwnedRow)
    → AreScoped input rows
    → count_moved input rows ≡ length (keep (λ row. row.customer_id == input.absorbed_id) rows)
counted input [] s = refl
counted input (row ∷ rows) s = ground (arith, s.0, counted input rows s.1)

abbrev pub is_other : MergeInput → Customer → Bool
is_other input row = not ((row.id == input.survivor_id) || (row.id == input.absorbed_id))

abbrev pub owned_by_absorbed : MergeInput → List OwnedRow → List OwnedRow
owned_by_absorbed input = keep (λ row. row.customer_id == input.absorbed_id)

-- What the survivor said stands, and the absorbed fills the gaps.
abbrev pub Knows : (survivor absorbed : Customer) → Customer → Type 0
Knows survivor absorbed row =
    ((key : List ℕ)
      → find_field key row.fields
        ≡ or_else (find_field key survivor.fields) (find_field key absorbed.fields))
    × ((key : List ℕ)
        → find_field key row.notes
          ≡ or_else (find_field key survivor.notes) (find_field key absorbed.notes))

pub record IsKept (input : MergeInput) (survivor absorbed : Customer) (db : CustomerDb)
    (result : MergeResult) (after : CustomerDb) : Type 0 where
  pub identities : after.channel_identities ≡ map (handed_over input) db.channel_identities
  pub conversations : after.conversations ≡ map (handed_over input) db.conversations
  pub embeddings :
      after.conversation_embeddings ≡ map (handed_over input) db.conversation_embeddings
  pub summaries : after.customer_summaries ≡ map (handed_over input) db.customer_summaries
  pub counts :
      (result.identities ≡ length (owned_by_absorbed input db.channel_identities))
      × (result.conversations ≡ length (owned_by_absorbed input db.conversations))
      × (result.embeddings ≡ length (owned_by_absorbed input db.conversation_embeddings))
      × (result.summaries ≡ length (owned_by_absorbed input db.customer_summaries))
  pub gone : any (λ row. row.id == input.absorbed_id) after.customers ≡ false
  pub remains : any (λ row. row.id == input.survivor_id) after.customers ≡ true
  pub others : keep (is_other input) after.customers ≡ keep (is_other input) db.customers
  pub known : All (λ row. row.id ≡ input.survivor_id → Knows survivor absorbed row) after.customers

-- The four tables are of their customers' workspaces.
abbrev pub IsScoped : MergeInput → CustomerDb → Type 0
IsScoped input db =
    AreScoped input db.channel_identities
    × AreScoped input db.conversations
    × AreScoped input db.conversation_embeddings
    × AreScoped input db.customer_summaries

gone-keep :
    (id : ℕ) (rows : List Customer)
    → any (λ row. row.id == id) (keep (λ row. not (row.id == id)) rows) ≡ false
gone-keep id [] = refl
gone-keep id (row ∷ rows) = ground (arith, gone-keep id rows)

remains-keep :
    (id absorbed_id : ℕ) (survivor absorbed : Customer) (rows : List Customer)
    → (id == absorbed_id) ≡ false
    → any (λ row. row.id == id) rows ≡ true
    → any
        (λ row. row.id == id)
        (keep (λ row. not (row.id == absorbed_id)) (fill_in survivor absorbed rows))
      ≡ true
remains-keep id absorbed_id survivor absorbed [] differ h = absurd (ground arith)
remains-keep id absorbed_id survivor absorbed (row ∷ rows) differ h =
    elim (Bool-cases (row.id == survivor.id)) [
      | inl k ↦ rw k (ground (arith, remains-keep id absorbed_id survivor absorbed rows differ))
      | inr k ↦ rw k (ground (arith, remains-keep id absorbed_id survivor absorbed rows differ))
    ]

pub find_customer-id :
    (id : ℕ) (rows : List Customer) (row : Customer)
    → find_customer id rows ≡ some row
    → row.id ≡ id
find_customer-id id [] row h = cc
find_customer-id id (r ∷ rows) row h = elim (Bool-cases (r.id == id)) [
  | inl e ↦
      let same : some r ≡ some row = rw e at h in let own : r.id ≡ id = (==_iff r.id id).0 e in cc
  | inr e ↦ find_customer-id id rows row (rw e at h)
]

others-fill :
    (input : MergeInput) (survivor absorbed : Customer) (rows : List Customer)
    → survivor.id ≡ input.survivor_id
    → keep
        (is_other input)
        (keep (λ row. not (row.id == input.absorbed_id)) (fill_in survivor absorbed rows))
      ≡ keep (is_other input) rows
others-fill input survivor absorbed [] e = refl
others-fill input survivor absorbed (row ∷ rows) e = elim (Bool-cases (row.id == survivor.id)) [
  | inl k ↦ rw k (ground (arith, e, others-fill input survivor absorbed rows e))
  | inr k ↦ rw k (ground (arith, e, others-fill input survivor absorbed rows e))
]

known-fill :
    (id : ℕ) (survivor absorbed : Customer) (rows : List Customer)
    → survivor.id ≡ id
    → HasUniqueKeys survivor.fields
    → HasUniqueKeys survivor.notes
    → All (λ row. row.id ≡ id → Knows survivor absorbed row) (fill_in survivor absorbed rows)
known-fill id survivor absorbed [] own u v = tt
known-fill id survivor absorbed (row ∷ rows) own u v = (
  elim (Bool-cases (row.id == survivor.id)) [
    | inl k ↦ rw k (λ e. (
      λ key. find_field-spread key absorbed.fields survivor.fields u,
      λ key. find_field-spread key absorbed.notes survivor.notes v,
    ))
    | inr k ↦ rw k (λ e. absurd (ground arith))
  ],
  known-fill id survivor absorbed rows own u v,
)

known-kept :
    (id absorbed_id : ℕ) (survivor absorbed : Customer) (rows : List Customer)
    → All (λ row. row.id ≡ id → Knows survivor absorbed row) rows
    → All
        (λ row. row.id ≡ id → Knows survivor absorbed row)
        (keep (λ row. not (row.id == absorbed_id)) rows)
known-kept id absorbed_id survivor absorbed rows h =
    All-map
      (λ row. (row.id ≡ id → Knows survivor absorbed row) × (not (row.id == absorbed_id) ≡ true))
      (λ row. row.id ≡ id → Knows survivor absorbed row) _ (λ row k. k.0)
      (All-keep (λ row. row.id ≡ id → Knows survivor absorbed row)
        (λ row. not (row.id == absorbed_id)) rows h)

holds_reference :
    (input : MergeInput) (db : CustomerDb)
    → any (λ row. row.id == input.survivor_id) db.customers ≡ true
    → breaks_reference input db ≡ false
holds_reference input db there = rw there (ground arith)

module _ (lower : List ℕ → List ℕ) (between : CustomerDb → CustomerDb) where
  -- Two different customers of the workspace can be merged, whatever other requests do after they
  -- are read, as long as the survivor is still there and the rows of the absorbed one are of their
  -- workspace: its identities, conversations, embeddings and summaries then belong to the survivor,
  -- none of them is lost and those of all others stay as they are, and the answer counts them. The
  -- absorbed customer is gone, all others are as they were, and of the fields and notes that were
  -- read the survivor, who remains, keeps its own, where the absorbed one fills the gaps.
  pub merge_keeps_history :
      (input : MergeInput) (survivor absorbed : Customer) (db : CustomerDb)
      → (input.survivor_id == input.absorbed_id) ≡ false
      → find_customer input.survivor_id (in_workspace input.workspace_id db.customers)
        ≡ some survivor
      → find_customer input.absorbed_id (in_workspace input.workspace_id db.customers)
        ≡ some absorbed
      → HasUniqueKeys survivor.fields
      → HasUniqueKeys survivor.notes
      → any (λ row. row.id == input.survivor_id) (between db).customers ≡ true
      → IsScoped input (between db)
      → (result : MergeResult) × (after : CustomerDb) × (merge_customers lower between input db
          ≡ joined result after)
        × IsKept input survivor absorbed (between db) result after
  unfolding merge_customers join_customers result_of after_merge repoint_all delete_customer
  merge_keeps_history input survivor absorbed db differ found found' u v there scoped =
      let now = between db in
      let own = find_customer-id input.survivor_id _ survivor found in
      (
        result_of input now,
        after_merge input survivor absorbed now,
        rw (differ, found, found', holds_reference input now there) refl,
        record {
          identities = kept-repoint input now.channel_identities differ scoped.0;
          conversations = kept-repoint input now.conversations differ scoped.1;
          embeddings = kept-repoint input now.conversation_embeddings differ scoped.2;
          summaries = kept-repoint input now.customer_summaries differ scoped.3;
          counts = (
            counted input now.channel_identities scoped.0,
            counted input now.conversations scoped.1,
            counted input now.conversation_embeddings scoped.2,
            counted input now.customer_summaries scoped.3,
          );
          gone = gone-keep input.absorbed_id _;
          remains =
              remains-keep input.survivor_id input.absorbed_id survivor absorbed now.customers
                differ there;
          others = others-fill input survivor absorbed now.customers own;
          known =
              known-kept input.survivor_id input.absorbed_id survivor absorbed
                (fill_in survivor absorbed now.customers)
                (known-fill input.survivor_id survivor absorbed now.customers own u v);
        },
      )
