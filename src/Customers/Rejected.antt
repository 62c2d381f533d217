-- ===== src/Customers/Rejected.antt =====
-- What a rejection settles: `rejectMergeSuggestion`, and what comes after it, of
-- packages/infra/src/merge.ts.
use chatbot_integration.Prelude.{
  ℕ, ◌≡◌, refl, ap, subst, ◌∙◌, true, Option, none, some, List, [], ◌∷◌, any, All, arith, if-either,
}
use chatbot_integration.Customers.{CustomerDb, MergeSuggestion, rejected, same_pair, is_undecided}
use chatbot_integration.Customers.Propose.{reject_rows, reject_merge_suggestion}
use chatbot_integration.Customers.Merge.{find_undecided}
use chatbot_integration.Customers.History.{CustomerAction, act_all}
use chatbot_integration.Customers.Settled.{
  IsSettled, SparesAll, reject_rows-raised, act_all-IsSettled,
}

-- What a search for a suggestion that waits finds.
abbrev IsFound :
    (workspace_id suggestion_id : ℕ) → List MergeSuggestion → Option MergeSuggestion → Type 0
IsFound workspace_id suggestion_id rows none = Unit
IsFound workspace_id suggestion_id rows (some s) =
    (is_undecided workspace_id suggestion_id s ≡ true)
    × (any (is_undecided workspace_id suggestion_id) rows ≡ true)
    × (any (same_pair s.customer_id s.other_customer_id) rows ≡ true)

IsFound-earlier :
    (workspace_id suggestion_id : ℕ) (r : MergeSuggestion) (rows : List MergeSuggestion)
    (o : Option MergeSuggestion)
    → IsFound workspace_id suggestion_id rows o
    → IsFound workspace_id suggestion_id (r ∷ rows) o
IsFound-earlier workspace_id suggestion_id r rows none h = tt
IsFound-earlier workspace_id suggestion_id r rows (some s) (h, k, l) =
    (h, ground (arith, k), ground (arith, l))

find_undecided-IsFound :
    (workspace_id suggestion_id : ℕ) (rows : List MergeSuggestion)
    → IsFound workspace_id suggestion_id rows (find_undecided workspace_id suggestion_id rows)
find_undecided-IsFound workspace_id suggestion_id [] = tt
find_undecided-IsFound workspace_id suggestion_id (s ∷ rows) =
    if-either (IsFound workspace_id suggestion_id (s ∷ rows))
      (is_undecided workspace_id suggestion_id s) _ _ (λ e. (e, ground (arith, e), ground arith))
      (λ e.
        IsFound-earlier workspace_id suggestion_id s rows
          (find_undecided workspace_id suggestion_id rows)
          (find_undecided-IsFound workspace_id suggestion_id rows))

-- The unique index of the pair.
abbrev pub IsOnlyOne : MergeSuggestion → List MergeSuggestion → Type 0
IsOnlyOne s = All (λ r. same_pair s.customer_id s.other_customer_id r ≡ true → r ≡ s)

reject_rows-closes :
    (workspace_id suggestion_id user_id : ℕ) (s : MergeSuggestion) (rows : List MergeSuggestion)
    → is_undecided workspace_id suggestion_id s ≡ true
    → IsOnlyOne s rows
    → All
        (λ r. same_pair s.customer_id s.other_customer_id r ≡ true → r.status ≡ rejected)
        (reject_rows workspace_id suggestion_id user_id rows)
unfolding reject_rows
reject_rows-closes workspace_id suggestion_id user_id s [] u h = tt
reject_rows-closes workspace_id suggestion_id user_id s (r ∷ rows) u h = (
  if-either (λ row. same_pair s.customer_id s.other_customer_id row ≡ true → row.status ≡ rejected)
      (is_undecided workspace_id suggestion_id r) _ _ (λ e k. refl)
      (λ e k.
        let u' = ap (is_undecided workspace_id suggestion_id) (h.0 k) ∙ u in
        absurd (ground (arith, e, u'))),
  reject_rows-closes workspace_id suggestion_id user_id s rows u h.1,
)

module _ (lower : List ℕ → List ℕ) where
  -- A rejection of a suggestion that waits, where it is the only one of its pair, is answered with
  -- yes, and is for good: whatever is proposed, rejected, accepted, merged or edited later, the
  -- suggestion of that pair stays there and no suggestion of the pair waits for a decision again, as
  -- long as no merge absorbs one of the two, other than by a suggestion of that pair.
  pub rejected_for_good :
      (workspace_id suggestion_id user_id : ℕ) (db : CustomerDb) (s : MergeSuggestion)
      (actions : List CustomerAction)
      → find_undecided workspace_id suggestion_id db.merge_suggestions ≡ some s
      → IsOnlyOne s db.merge_suggestions
      → SparesAll lower s.customer_id s.other_customer_id actions
          (reject_merge_suggestion workspace_id suggestion_id user_id db).1
      → ((reject_merge_suggestion workspace_id suggestion_id user_id db).0 ≡ true)
        × IsSettled s.customer_id s.other_customer_id
            (act_all lower actions
              (reject_merge_suggestion workspace_id suggestion_id user_id db).1).merge_suggestions
  unfolding reject_merge_suggestion
  rejected_for_good workspace_id suggestion_id user_id db s actions found only spared =
      let rows = db.merge_suggestions in
      let (open_, waits, raised) =
        subst (IsFound workspace_id suggestion_id rows) found
          (find_undecided-IsFound workspace_id suggestion_id rows) in
      (
        waits,
        act_all-IsSettled lower s.customer_id s.other_customer_id actions
            (reject_merge_suggestion workspace_id suggestion_id user_id db).1 spared
            (record {
              raised =
                  reject_rows-raised s.customer_id s.other_customer_id workspace_id suggestion_id
                    user_id rows
                  ∙ raised;
              decided = reject_rows-closes workspace_id suggestion_id user_id s rows open_ only;
            }),
      )
