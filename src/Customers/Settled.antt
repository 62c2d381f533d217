-- ===== src/Customers/Settled.antt =====
-- What leaves a pair's rejection as it is, of the operations of
-- packages/infra/src/merge.ts.
use mathlib.Core.Path.{ap₂}
use chatbot_integration.Prelude.{
  ℕ, ◌≡◌, refl, sym, ap, subst, ◌∙◌, ◌⊎◌, Bool, true, false, ◌||◌, Option, none, some, List, [],
  ◌∷◌, keep, any, All, All-append, All-map, All-keep, any-append, ◌==◌, arith, inl, inr, Bool-cases,
  Option-either, if-either,
}
use chatbot_integration.Customers.{
  CustomerDb, MergeSuggestion, MergeMatchKey, match_keys, rejected, find_customer, in_workspace,
  same_pair, is_undecided,
}
use chatbot_integration.Customers.Propose.{suggest_merges_for, reject_rows, reject_merge_suggestion}
use chatbot_integration.Customers.Merge.{
  MergeInput, MergeOutcome, refused, failed, joined, not_about, delete_customer, repoint_all,
  after_merge, breaks_reference, join_customers, merge_customers, find_undecided, merge_of,
  suggest_again, accept_merge_suggestion,
}
use chatbot_integration.Customers.Grounds.{IsOf, IsNew, suggest_merges_for-Adds}
use chatbot_integration.Customers.History.{
  CustomerAction, suggested, rejection, merging, acceptance, edited, outcome_db, act, act_all,
}

-- The pair was raised, and every suggestion of it is rejected.
pub record IsSettled (a b : ℕ) (rows : List MergeSuggestion) : Type 0 where
  pub raised : any (same_pair a b) rows ≡ true
  pub decided : All (λ s. same_pair a b s ≡ true → s.status ≡ rejected) rows

-- No customer of the pair is absorbed, unless by the pair's own suggestion.
abbrev pub is_absorbing : (a b absorbed_id : ℕ) → Bool
is_absorbing a b absorbed_id = (absorbed_id == a) || (absorbed_id == b)

abbrev pub SparesPair : (a b : ℕ) → Option MergeSuggestion → Type 0
SparesPair a b none = Unit
SparesPair a b (some s) = (same_pair a b s ≡ true) ⊎ (is_absorbing a b s.other_customer_id ≡ false)

abbrev pub Spares : (a b : ℕ) → CustomerAction → CustomerDb → Type 0
Spares a b (merging input) db = is_absorbing a b input.absorbed_id ≡ false
Spares a b (acceptance workspace_id suggestion_id user_id) db =
    SparesPair a b (find_undecided workspace_id suggestion_id db.merge_suggestions)
Spares a b _ db = Unit

raised-keep :
    (a b id : ℕ) (rows : List MergeSuggestion)
    → is_absorbing a b id ≡ false
    → any (same_pair a b) (keep (not_about id) rows) ≡ any (same_pair a b) rows
raised-keep a b id [] h = refl
raised-keep a b id (s ∷ rows) h = elim (Bool-cases (not_about id s)) [
  | inl e ↦ rw e (ap (λ r. same_pair a b s || r) (raised-keep a b id rows h))
  | inr e ↦
      let other : same_pair a b s ≡ false = ground (arith, e, h) in
      rw (e, other) (raised-keep a b id rows h)
]

keep-IsSettled :
    (a b id : ℕ) (rows : List MergeSuggestion)
    → is_absorbing a b id ≡ false
    → IsSettled a b rows
    → IsSettled a b (keep (not_about id) rows)
keep-IsSettled a b id rows h s = record {
  raised = raised-keep a b id rows h ∙ s.raised;
  decided =
      All-map (λ r. (same_pair a b r ≡ true → r.status ≡ rejected) × (not_about id r ≡ true))
        (λ r. same_pair a b r ≡ true → r.status ≡ rejected) _ (λ r k. k.0)
        (All-keep (λ r. same_pair a b r ≡ true → r.status ≡ rejected) (not_about id) rows
          s.decided);
}

reject_rows-decided :
    (a b workspace_id suggestion_id user_id : ℕ) (rows : List MergeSuggestion)
    → All (λ s. same_pair a b s ≡ true → s.status ≡ rejected) rows
    → All
        (λ s. same_pair a b s ≡ true → s.status ≡ rejected)
        (reject_rows workspace_id suggestion_id user_id rows)
unfolding reject_rows
reject_rows-decided a b workspace_id suggestion_id user_id [] h = tt
reject_rows-decided a b workspace_id suggestion_id user_id (s ∷ rows) h = (
  if-either (λ r. same_pair a b r ≡ true → r.status ≡ rejected)
      (is_undecided workspace_id suggestion_id s) _ _ (λ e k. refl) (λ e. h.0),
  reject_rows-decided a b workspace_id suggestion_id user_id rows h.1,
)

pub reject_rows-raised :
    (a b workspace_id suggestion_id user_id : ℕ) (rows : List MergeSuggestion)
    → any (same_pair a b) (reject_rows workspace_id suggestion_id user_id rows)
      ≡ any (same_pair a b) rows
unfolding reject_rows
reject_rows-raised a b workspace_id suggestion_id user_id [] = refl
reject_rows-raised a b workspace_id suggestion_id user_id (s ∷ rows) =
    ground (arith, reject_rows-raised a b workspace_id suggestion_id user_id rows)

reject_rows-IsSettled :
    (a b workspace_id suggestion_id user_id : ℕ) (rows : List MergeSuggestion)
    → IsSettled a b rows
    → IsSettled a b (reject_rows workspace_id suggestion_id user_id rows)
reject_rows-IsSettled a b workspace_id suggestion_id user_id rows s = record {
  raised = reject_rows-raised a b workspace_id suggestion_id user_id rows ∙ s.raised;
  decided = reject_rows-decided a b workspace_id suggestion_id user_id rows s.decided;
}

abbrev IsElsewhere : (a b : ℕ) → Option MergeSuggestion → Type 0
IsElsewhere a b none = Unit
IsElsewhere a b (some s) = same_pair a b s ≡ false

rejected_elsewhere :
    (a b workspace_id suggestion_id : ℕ) (s : MergeSuggestion)
    → (same_pair a b s ≡ true → s.status ≡ rejected)
    → is_undecided workspace_id suggestion_id s ≡ true
    → same_pair a b s ≡ false
rejected_elsewhere a b workspace_id suggestion_id s h u = elim (Bool-cases (same_pair a b s)) [
  | inl e ↦
      let settled : is_undecided workspace_id suggestion_id s ≡ false = rw (h e) (ground arith) in
      absurd (ground (arith, u, settled))
  | inr e ↦ e
]

-- A suggestion that waits is none of a settled pair.
find_undecided-IsElsewhere :
    (a b workspace_id suggestion_id : ℕ) (rows : List MergeSuggestion)
    → All (λ s. same_pair a b s ≡ true → s.status ≡ rejected) rows
    → IsElsewhere a b (find_undecided workspace_id suggestion_id rows)
find_undecided-IsElsewhere a b workspace_id suggestion_id [] h = tt
find_undecided-IsElsewhere a b workspace_id suggestion_id (s ∷ rows) h =
    if-either (IsElsewhere a b) (is_undecided workspace_id suggestion_id s) _ _
      (λ e. rejected_elsewhere a b workspace_id suggestion_id s h.0 e)
      (λ e. find_undecided-IsElsewhere a b workspace_id suggestion_id rows h.1)

same_pair-ids :
    (a b : ℕ) (s : MergeSuggestion)
    → same_pair a b s ≡ true
    → (s.customer_id ≡ a) × (s.other_customer_id ≡ b)
same_pair-ids a b s h = (ground arith, ground arith)

spared_other :
    (a b : ℕ) (s : MergeSuggestion)
    → same_pair a b s ≡ false
    → SparesPair a b (some s)
    → is_absorbing a b s.other_customer_id ≡ false
spared_other a b s h (inl e) = absurd (ground (arith, h, e))
spared_other a b s h (inr e) = e

abbrev StaysSettled : (a b : ℕ) → CustomerDb → MergeOutcome → Type 0
StaysSettled a b db outcome = IsSettled a b (outcome_db db outcome).merge_suggestions

module _ (lower : List ℕ → List ℕ) where
  suggest_merges_for-IsSettled :
      (a b workspace_id customer_id : ℕ) (changed_keys : List MergeMatchKey) (db : CustomerDb)
      → IsSettled a b db.merge_suggestions
      → IsSettled a b
          (suggest_merges_for lower workspace_id customer_id changed_keys db).merge_suggestions
  suggest_merges_for-IsSettled a b workspace_id customer_id changed_keys db s =
      let (new, e, fresh) =
        suggest_merges_for-Adds lower workspace_id customer_id changed_keys db in
      let rows = db.merge_suggestions in
      subst (IsSettled a b) (sym e) (record {
        raised =
            any-append (same_pair a b) rows new ∙ ap (λ r. r || any (same_pair a b) new) s.raised;
        decided =
            All-append (λ r. same_pair a b r ≡ true → r.status ≡ rejected) rows new s.decided
              (All-map (IsNew lower (IsOf lower workspace_id db) workspace_id rows)
                (λ r. same_pair a b r ≡ true → r.status ≡ rejected) new
                (λ r k q.
                  let (own, other) = same_pair-ids a b r q in
                  let clash = ap₂ (λ x y. any (same_pair x y) rows) (sym own) (sym other) ∙ k.1 in
                  absurd (ground (arith, s.raised, clash)))
                fresh);
      })

  merge_customers-IsSettled :
      (a b : ℕ) (input : MergeInput) (db : CustomerDb)
      → is_absorbing a b input.absorbed_id ≡ false
      → IsSettled a b db.merge_suggestions
      → IsSettled a b
          (outcome_db db (merge_customers lower (λ now. now) input db)).merge_suggestions
  unfolding merge_customers join_customers after_merge delete_customer repoint_all
  merge_customers-IsSettled a b input db h s =
      let rows = in_workspace input.workspace_id db.customers in
      if-either (StaysSettled a b db) (input.survivor_id == input.absorbed_id) _ _ (λ e. s)
        (λ e.
          Option-either (StaysSettled a b db) (find_customer input.survivor_id rows) _ _ (λ n. s)
            (λ survivor n.
              Option-either (StaysSettled a b db) (find_customer input.absorbed_id rows) _ _
                (λ n. s)
                (λ absorbed n.
                  if-either (StaysSettled a b db) (breaks_reference input db) _ _ (λ k. s)
                    (λ k. keep-IsSettled a b input.absorbed_id db.merge_suggestions h s))))

  suggest_again-IsSettled :
      (a b workspace_id : ℕ) (db : CustomerDb) (outcome : MergeOutcome)
      → StaysSettled a b db outcome
      → StaysSettled a b db (suggest_again lower (λ now. now) workspace_id outcome)
  suggest_again-IsSettled a b workspace_id db refused s = s
  suggest_again-IsSettled a b workspace_id db failed s = s
  suggest_again-IsSettled a b workspace_id db (joined result after) s =
      suggest_merges_for-IsSettled a b workspace_id result.survivor_id match_keys after s

  accept_merge_suggestion-IsSettled :
      (a b workspace_id suggestion_id user_id : ℕ) (db : CustomerDb)
      → SparesPair a b (find_undecided workspace_id suggestion_id db.merge_suggestions)
      → IsSettled a b db.merge_suggestions
      → StaysSettled a b db
          (accept_merge_suggestion lower (λ now. now) workspace_id suggestion_id user_id db)
  unfolding accept_merge_suggestion
  accept_merge_suggestion-IsSettled a b workspace_id suggestion_id user_id db h s =
      let found = find_undecided workspace_id suggestion_id db.merge_suggestions in
      Option-either (StaysSettled a b db) found _ _ (λ n. s)
        (λ proposal n.
          let elsewhere = subst (IsElsewhere a b) n (
            find_undecided-IsElsewhere a b workspace_id suggestion_id db.merge_suggestions
              s.decided) in
          suggest_again-IsSettled a b workspace_id db _ (
            merge_customers-IsSettled a b (merge_of workspace_id user_id proposal) db
              (spared_other a b proposal elsewhere (subst (SparesPair a b) n h)) s))

  abbrev pub SparesAll : (a b : ℕ) → List CustomerAction → CustomerDb → Type 0
  SparesAll a b [] db = Unit
  SparesAll a b (action ∷ actions) db =
      Spares a b action db × SparesAll a b actions (act lower action db)

  act-IsSettled :
      (a b : ℕ) (action : CustomerAction) (db : CustomerDb)
      → Spares a b action db
      → IsSettled a b db.merge_suggestions
      → IsSettled a b (act lower action db).merge_suggestions
  unfolding act reject_merge_suggestion
  act-IsSettled a b (suggested workspace_id customer_id changed_keys) db h s =
      suggest_merges_for-IsSettled a b workspace_id customer_id changed_keys db s
  act-IsSettled a b (rejection workspace_id suggestion_id user_id) db h s =
      reject_rows-IsSettled a b workspace_id suggestion_id user_id db.merge_suggestions s
  act-IsSettled a b (merging input) db h s = merge_customers-IsSettled a b input db h s
  act-IsSettled a b (acceptance workspace_id suggestion_id user_id) db h s =
      accept_merge_suggestion-IsSettled a b workspace_id suggestion_id user_id db h s
  act-IsSettled a b (edited change) db h s = s

  pub act_all-IsSettled :
      (a b : ℕ) (actions : List CustomerAction) (db : CustomerDb)
      → SparesAll a b actions db
      → IsSettled a b db.merge_suggestions
      → IsSettled a b (act_all lower actions db).merge_suggestions
  unfolding act_all
  act_all-IsSettled a b [] db h s = s
  act_all-IsSettled a b (action ∷ actions) db h s =
      act_all-IsSettled a b actions (act lower action db) h.1 (act-IsSettled a b action db h.0 s)
