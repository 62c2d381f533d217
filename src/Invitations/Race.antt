-- ===== src/Invitations/Race.antt =====
-- Two links that are issued at once for the same person:
-- packages/infra/src/invitations.ts.
use text.Mathlib.TextPositions.{eq_refl}
use chatbot_integration.Prelude.{
  ℕ, ◌<◌, any-append, ◌≡◌, refl, ◌∙◌, String, true, false, ◌&&◌, List, [], ◌∷◌, ◌++◌, any, keep,
  arith, str_eq, length-append,
}
use chatbot_integration.Invitations.{
  Invitation, IssueInput, InvitationPurpose, same_purpose, is_live, is_unused, is_for, spend_where,
  spend_earlier, insert_row, new_row,
}
use chatbot_integration.Invitations.Single.{open_links, spend_earlier-open_links, keep-append}

-- A hash that no row has is not refused.
insert_row_fresh :
    (row : Invitation) (rows : List Invitation)
    → any (λ r. str_eq r.token_hash row.token_hash) rows ≡ false
    → insert_row row rows ≡ (rows ++ row ∷ [], true)
unfolding insert_row
insert_row_fresh row rows h = rw h refl

spend-hash :
    (hash w : String) (purpose : InvitationPurpose) (email : String) (now : ℕ)
    (rows : List Invitation)
    → any (λ r. str_eq r.token_hash hash) (spend_earlier now w purpose email rows)
      ≡ any (λ r. str_eq r.token_hash hash) rows
unfolding spend_earlier spend_where
spend-hash hash w purpose email now [] = refl
spend-hash hash w purpose email now (row ∷ rows) =
    ground (arith, spend-hash hash w purpose email now rows)

open_links_both :
    (w : String) (purpose : InvitationPurpose) (email : String) (a b : Invitation)
    (rows : List Invitation)
    → open_links w purpose email rows ≡ 0
    → (is_for w purpose email a && is_unused a) ≡ true
    → (is_for w purpose email b && is_unused b) ≡ true
    → open_links w purpose email ((rows ++ a ∷ []) ++ b ∷ []) ≡ 2
open_links_both w purpose email a b rows none_left fa fb =
    rw
      (
        keep-append (λ r. is_for w purpose email r && is_unused r) (rows ++ a ∷ []) (b ∷ []),
        keep-append (λ r. is_for w purpose email r && is_unused r) rows (a ∷ []),
        fa,
        fb,
      )
      (omega (
        arith,
        length-append (keep (λ r. is_for w purpose email r && is_unused r) rows ++ a ∷ []) (b ∷ []),
        length-append (keep (λ r. is_for w purpose email r && is_unused r) rows) (a ∷ []),
        none_left,
      ))

same_purpose_refl : (p : InvitationPurpose) → same_purpose p p ≡ true
same_purpose_refl InvitationPurpose.invite = refl
same_purpose_refl InvitationPurpose.password_reset = refl

both_live :
    (hash hash' : String) (now : ℕ) (a b : Invitation) (rows : List Invitation)
    → is_live hash now a ≡ true
    → is_live hash' now b ≡ true
    → (any (is_live hash now) ((rows ++ a ∷ []) ++ b ∷ []) ≡ true)
      × (any (is_live hash' now) ((rows ++ a ∷ []) ++ b ∷ []) ≡ true)
both_live hash hash' now a b rows la lb = (
  rw
      (
        any-append (is_live hash now) (rows ++ a ∷ []) (b ∷ []),
        any-append (is_live hash now) rows (a ∷ []),
        la,
      )
      (ground arith),
  rw (any-append (is_live hash' now) (rows ++ a ∷ []) (b ∷ []), lb) (ground arith),
)

module _ (hash_token : String → String) (clean : String → String) where
  -- Two requests that issue a link for the same person at once, each spending the earlier ones
  -- before either inserts its own, leave two links that work.
  pub two_links_race :
      (first second : String) (token token' : String) (now : ℕ) (input : IssueInput)
      (rows : List Invitation)
      → 0 < input.ttl_ms
      → any (λ r. str_eq r.token_hash (hash_token token)) rows ≡ false
      → any (λ r. str_eq r.token_hash (hash_token token')) rows ≡ false
      → str_eq (hash_token token) (hash_token token') ≡ false
      → let spend = spend_earlier now input.workspace_id input.purpose (clean input.email) in
        let rows' =
          (insert_row
            (new_row hash_token clean second token' now input)
            (insert_row
              (new_row hash_token clean first token now input)
              (spend (spend rows))).0).0 in
        (open_links input.workspace_id input.purpose (clean input.email) rows' ≡ 2)
        × (any (is_live (hash_token token) now) rows' ≡ true)
        × (any (is_live (hash_token token') now) rows' ≡ true)
  two_links_race first second token token' now input rows pos fresh fresh' differ =
      let row = new_row hash_token clean first token now input in
      let row' = new_row hash_token clean second token' now input in
      let w = input.workspace_id in
      let email = clean input.email in
      let spend = spend_earlier now w input.purpose email in
      let here = insert_row_fresh row (spend (spend rows)) (
        spend-hash (hash_token token) w input.purpose email now (spend rows)
        ∙ spend-hash (hash_token token) w input.purpose email now rows
        ∙ fresh) in
      let there = insert_row_fresh row' (spend (spend rows) ++ row ∷ []) (
        any-append (λ r. str_eq r.token_hash (hash_token token')) (spend (spend rows)) (row ∷ [])
        ∙ rw
            (
              spend-hash (hash_token token') w input.purpose email now (spend rows)
                  ∙ spend-hash (hash_token token') w input.purpose email now rows
                  ∙ fresh',
              differ,
            )
            refl) in
      let none_left = spend_earlier-open_links w input.purpose email now (spend rows) in
      let works =
        both_live (hash_token token) (hash_token token') now row row' (spend (spend rows))
          (ground (arith, eq_refl (hash_token token)))
          (ground (arith, eq_refl (hash_token token'))) in
      rw (here, there)
        (
          open_links_both w input.purpose email row row' (spend (spend rows)) none_left
              (ground (
                arith,
                eq_refl input.workspace_id,
                eq_refl (clean input.email),
                same_purpose_refl input.purpose,
              ))
              (ground (
                arith,
                eq_refl input.workspace_id,
                eq_refl (clean input.email),
                same_purpose_refl input.purpose,
              )),
          works.0,
          works.1,
        )
