-- ===== src/Customers/Grounds.antt =====
-- What a proposal rests on: `suggestMergesFor` of packages/infra/src/merge.ts.
use mathlib.Core.List.{Memᴰ, append-nil, append_assoc}
use chatbot_integration.Prelude.{
  ℕ, ◌<◌, ◌≡◌, refl, sym, ap, subst, ◌∙◌, Bool, true, false, Option, none, some, List, [], ◌∷◌,
  ◌++◌, any, All, All-append, All-map, All-keep, All-Memᴰ, any-append, ltb, ◌==◌, arith, inl, inr,
  Bool-cases, Option-either, if-either,
}
use chatbot_integration.Json.{same_units}
use chatbot_integration.Customers.{
  Customer, CustomerDb, MergeSuggestion, MergeMatchKey, pending, find_customer, in_workspace,
  same_pair,
}
use chatbot_integration.Customers.Match.{value_of}
use chatbot_integration.Customers.Propose.{
  MergeCandidate, wanted_of, holds_value, reason_for, candidates_among, find_merge_candidates,
  proposal_of, propose_one, propose_merges, suggest_merges_for,
}
use chatbot_integration.Customers.Fields.{same_units_sound}
use chatbot_integration.Customers.Kept.{find_customer-id}

module _ (lower : List ℕ → List ℕ) where
  -- A reason for two customers to be one: the value both hold under a key.
  abbrev pub Share : (key : MergeMatchKey) (value : List ℕ) (mine other : Customer) → Type 0
  Share key value mine other =
      (value_of lower key mine ≡ some value) × (value_of lower key other ≡ some value)

  holds_value_sound :
      (key : MergeMatchKey) (value : List ℕ) (o : Option (List ℕ))
      → elim o [ none ↦ false | some other ↦ same_units other value ] ≡ true
      → o ≡ some value
  holds_value_sound key value none h = cc
  holds_value_sound key value (some other) h = ap some (same_units_sound other value h)

  abbrev AreHeld : Customer → List (MergeMatchKey × List ℕ) → Type 0
  AreHeld mine = All (λ w. value_of lower w.0 mine ≡ some w.1)

  wanted_of-AreHeld :
      (mine : Customer) (keys : List MergeMatchKey) → AreHeld mine (wanted_of lower mine keys)
  unfolding wanted_of
  wanted_of-AreHeld mine [] = tt
  wanted_of-AreHeld mine (key ∷ keys) =
      let rest = wanted_of-AreHeld mine keys in
      Option-either (AreHeld mine) (value_of lower key mine) _ _ (λ n. rest) (λ value e. (e, rest))

  abbrev Grounds : (mine row : Customer) → Option MergeCandidate → Type 0
  Grounds mine row none = Unit
  Grounds mine row (some c) = (c.other_customer_id ≡ row.id) × Share c.key c.value mine row

  reason_for-Grounds :
      (mine row : Customer) (wanted : List (MergeMatchKey × List ℕ))
      → AreHeld mine wanted
      → Grounds mine row (reason_for lower row wanted)
  unfolding reason_for
  reason_for-Grounds mine row [] w = tt
  reason_for-Grounds mine row ((key, value) ∷ wanted) w =
      if-either (Grounds mine row) (holds_value lower key value row) _ _
        (λ e. (refl, (w.0, holds_value_sound key value (value_of lower key row) e)))
        (λ e. reason_for-Grounds mine row wanted w.1)

  module _ (IsKnown : Customer → Type 0) where
    abbrev IsCandidate : (mine : Customer) → MergeCandidate → Type 0
    IsCandidate mine c =
        (other : Customer) × IsKnown other
        × ((other.id == mine.id) ≡ false)
        × (c.other_customer_id ≡ other.id)
        × Share c.key c.value mine other

    candidates-known :
        (mine : Customer) (wanted : List (MergeMatchKey × List ℕ)) (rows : List Customer)
        → AreHeld mine wanted
        → All IsKnown rows
        → All (IsCandidate mine) (candidates_among lower mine.id wanted rows)
    unfolding candidates_among
    candidates-known mine wanted [] w k = tt
    candidates-known mine wanted (row ∷ rows) w k =
        let rest = candidates-known mine wanted rows w k.1 in
        if-either (All (IsCandidate mine)) (row.id == mine.id) _ _ (λ e. rest)
          (λ e.
            Option-either (All (IsCandidate mine)) (reason_for lower row wanted) _ _ (λ n. rest)
              (λ c n.
                let why = subst (Grounds mine row) n (reason_for-Grounds mine row wanted w) in
                ((row, k.0, e, why.0, why.1), rest)))

    abbrev IsKnownIf : Option Customer → Type 0
    IsKnownIf none = Unit
    IsKnownIf (some row) = IsKnown row

    find_customer-known :
        (id : ℕ) (rows : List Customer) → All IsKnown rows → IsKnownIf (find_customer id rows)
    find_customer-known id [] k = tt
    find_customer-known id (r ∷ rows) k =
        if-either IsKnownIf (r.id == id) _ _ (λ e. k.0) (λ e. find_customer-known id rows k.1)

    -- An open proposal, of the older customer and the newer, which share a value.
    pub record IsGrounded (workspace_id : ℕ) (s : MergeSuggestion) : Type 0 where
      pub older : Customer
      pub newer : Customer
      pub known : IsKnown older × IsKnown newer
      pub named : (s.customer_id ≡ older.id) × (s.other_customer_id ≡ newer.id)
      pub ordered : older.id < newer.id
      pub shared : Share s.match_key s.match_value older newer
      pub open_ : (s.status ≡ pending) × (s.workspace_id ≡ workspace_id)

    proposal-IsGrounded :
        (id workspace_id : ℕ) (mine : Customer) (c : MergeCandidate)
        → IsKnown mine
        → IsCandidate mine c
        → IsGrounded workspace_id (proposal_of id workspace_id mine.id c)
    proposal-IsGrounded id workspace_id mine c k (other, k', differ, e, share) =
        elim (Bool-cases (ltb mine.id other.id)) [
          | inl l ↦ record {
            older = mine;
            newer = other;
            known = (k, k');
            named = (ground (arith, e, l), ground (arith, e, l));
            ordered = ground (arith, l);
            shared = share;
            open_ = (refl, refl);
          }
          | inr l ↦ record {
            older = other;
            newer = mine;
            known = (k', k);
            named = (ground (arith, e, l), ground (arith, e, l));
            ordered = ground (arith, l, differ);
            shared = (share.1, share.0);
            open_ = (refl, refl);
          }
        ]

    abbrev is_raised : MergeSuggestion → List MergeSuggestion → Bool
    is_raised s rows = any (same_pair s.customer_id s.other_customer_id) rows

    -- What is new among the suggestions: grounded proposals, of pairs that were not raised before.
    abbrev pub IsNew : (workspace_id : ℕ) (old : List MergeSuggestion) → MergeSuggestion → Type 0
    IsNew workspace_id old s = IsGrounded workspace_id s × (is_raised s old ≡ false)

    abbrev pub Adds : (workspace_id : ℕ) (old rows : List MergeSuggestion) → Type 0
    Adds workspace_id old rows =
        (new : List MergeSuggestion) × (rows ≡ old ++ new) × All (IsNew workspace_id old) new

    propose_one-Adds :
        (workspace_id : ℕ) (mine : Customer) (c : MergeCandidate) (db : CustomerDb)
        → IsKnown mine
        → IsCandidate mine c
        → Adds workspace_id db.merge_suggestions
            (propose_one workspace_id mine.id c db).merge_suggestions
    unfolding propose_one
    propose_one-Adds workspace_id mine c db k g =
        let s = proposal_of db.next_id workspace_id mine.id c in
        if-either
          (λ after. Adds workspace_id db.merge_suggestions (CustomerDb.merge_suggestions after))
          (is_raised s db.merge_suggestions) _ _
          (λ e. ([], sym (append-nil db.merge_suggestions), tt))
          (λ e. (s ∷ [], refl, ((proposal-IsGrounded db.next_id workspace_id mine c k g, e), tt)))

    IsNew-earlier :
        (workspace_id : ℕ) (old more : List MergeSuggestion) (s : MergeSuggestion)
        → IsNew workspace_id (old ++ more) s
        → IsNew workspace_id old s
    IsNew-earlier workspace_id old more s (g, e) =
        let apart = sym (any-append (same_pair s.customer_id s.other_customer_id) old more) ∙ e in
        (g, ground (arith, apart))

    propose_merges-Adds :
        (workspace_id : ℕ) (mine : Customer) (cs : List MergeCandidate) (db : CustomerDb)
        → IsKnown mine
        → All (IsCandidate mine) cs
        → Adds workspace_id db.merge_suggestions
            (propose_merges workspace_id mine.id cs db).merge_suggestions
    unfolding propose_merges
    propose_merges-Adds workspace_id mine [] db k g =
        ([], sym (append-nil db.merge_suggestions), tt)
    propose_merges-Adds workspace_id mine (c ∷ cs) db k g =
        let (first, e, all_first) = propose_one-Adds workspace_id mine c db k g.0 in
        let (more, e', all_more) =
          propose_merges-Adds workspace_id mine cs (propose_one workspace_id mine.id c db) k g.1 in
        (
          first ++ more,
          e' ∙ ap (λ rows. rows ++ more) e ∙ append_assoc db.merge_suggestions first more,
          All-append (IsNew workspace_id db.merge_suggestions) first more all_first (
              All-map (IsNew workspace_id (propose_one workspace_id mine.id c db).merge_suggestions)
                (IsNew workspace_id db.merge_suggestions) more
                (λ s h.
                  IsNew-earlier workspace_id db.merge_suggestions first s
                    (subst (λ rows. IsNew workspace_id rows s) e h))
                all_more),
        )

  -- A customer of the workspace.
  abbrev pub IsOf : (workspace_id : ℕ) (db : CustomerDb) → Customer → Type 0
  IsOf workspace_id db row = Memᴰ row db.customers × ((row.workspace_id == workspace_id) ≡ true)

  -- Looking for customers that may be the same as this one leaves every suggestion that there is,
  -- and adds only open ones, of pairs that were not raised before: two different customers of
  -- this workspace, the older first, who hold the same value under the key that is named.
  pub suggest_merges_for-Adds :
      (workspace_id customer_id : ℕ) (changed_keys : List MergeMatchKey) (db : CustomerDb)
      → Adds
          (IsOf workspace_id db)
          workspace_id
          db.merge_suggestions
          (suggest_merges_for lower workspace_id customer_id changed_keys db).merge_suggestions
  unfolding suggest_merges_for find_merge_candidates propose_merges
  suggest_merges_for-Adds workspace_id customer_id changed_keys db =
      let rows = in_workspace workspace_id db.customers in
      let IsKnown = IsOf workspace_id db in
      let known =
        All-keep (λ row. Memᴰ row db.customers) (λ row. row.workspace_id == workspace_id)
          db.customers (All-Memᴰ db.customers) in
      Option-either
        (λ candidates.
          Adds IsKnown workspace_id db.merge_suggestions
            (CustomerDb.merge_suggestions (propose_merges workspace_id customer_id candidates db)))
        (find_customer customer_id rows) _ _ (λ n. ([], sym (append-nil db.merge_suggestions), tt))
        (λ mine n.
          let wanted = wanted_of lower mine changed_keys in
          subst
            (λ id. Adds IsKnown workspace_id db.merge_suggestions (
              CustomerDb.merge_suggestions
                (propose_merges workspace_id id (candidates_among lower id wanted rows) db)))
            (find_customer-id customer_id rows mine n)
            (propose_merges-Adds IsKnown workspace_id mine
              (candidates_among lower mine.id wanted rows) db
              (subst (IsKnownIf IsKnown) n (find_customer-known IsKnown customer_id rows known))
              (candidates-known IsKnown mine wanted rows (wanted_of-AreHeld mine changed_keys)
                known)))
