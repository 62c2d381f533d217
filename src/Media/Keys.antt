-- ===== src/Media/Keys.antt =====
-- What a storage key names: `isWorkspaceKey` of packages/infra/src/media-serving.ts, against the
-- path that packages/infra/src/blob-fs.ts resolves it to.
use chatbot_integration.Prelude.{
  ℕ, ◌≡◌, refl, sym, ap, ◌∙◌, true, false, ◌||◌, Option, none, some, List, [], ◌∷◌, ◌++◌, all, All,
  ◌==◌, ==_iff, arith, if◌then◌else◌,
}
use mathlib.Core.Path.{ap₂}
use mathlib.Core.List.{reverse, append-nil, append_assoc, reverse-cons}
use chatbot_integration.Tokens.Envelope.Read.{split-part}
use chatbot_integration.Text.{codes, starts_with}
use chatbot_integration.Json.{same_units}
use chatbot_integration.Tokens.Envelope.{split_at_unit}
use chatbot_integration.Media.{slash, is_empty, is_plain_segment, is_workspace_key}

abbrev up_one : List (List ℕ) → Option (List (List ℕ))
up_one [] = none
up_one (last ∷ done) = some done

-- The path of a key below the base, by its segments, where `done` are those so far, backwards: an
-- empty one and `.` stay, and `..` goes up, which at the base is `none`.
unfoldable pub resolve_from :
    (done : List (List ℕ)) (segments : List (List ℕ)) → Option (List (List ℕ))
resolve_from done [] = some (reverse done)
resolve_from done (segment ∷ segments) =
    let stay = resolve_from done segments in
    let down = resolve_from (segment ∷ done) segments in
    if is_empty segment || same_units segment (codes ".")
    then stay
    else if same_units segment (codes "..")
    then elim (up_one done) [ none ↦ none | some above ↦ resolve_from above segments ]
    else down

plain_parts :
    (segment : List ℕ)
    → is_plain_segment segment ≡ true
    → ((is_empty segment || same_units segment (codes ".")) ≡ false)
      × (same_units segment (codes "..") ≡ false)
plain_parts segment h = (ground arith, ground arith)

resolve-plain :
    (done segments : List (List ℕ))
    → all is_plain_segment segments ≡ true
    → resolve_from done segments ≡ some (reverse done ++ segments)
unfolding resolve_from
resolve-plain done [] h = ap some (sym (append-nil (reverse done)))
resolve-plain done (segment ∷ segments) h =
    let (no_dot, no_up) = plain_parts segment (ground arith) in
    rw (no_dot, no_up)
      (resolve-plain (segment ∷ done) segments (ground arith)
        ∙ ap (λ front. some (front ++ segments)) (reverse-cons segment done)
        ∙ ap some (append_assoc (reverse done) (segment ∷ []) segments))

starts_with-append : (s t : List ℕ) → starts_with s t ≡ true → (rest : List ℕ) × (t ≡ s ++ rest)
starts_with-append [] t h = (t, refl)
starts_with-append (c ∷ s) [] h = cc
starts_with-append (c ∷ s) (d ∷ t) h =
    let (rest, e) = starts_with-append s t (ground arith) in
    (rest, ap₂ (◌∷◌) (sym ((==_iff c d).0 (ground arith))) e)

abbrev head_of : List (List ℕ) → List ℕ
head_of [] = []
head_of (segment ∷ segments) = segment

-- What the three tests of a key say.
abbrev IsInside : (workspace_id key : List ℕ) → Type 0
IsInside workspace_id key =
    (starts_with (workspace_id ++ slash ∷ []) key ≡ true)
    × (all is_plain_segment (split_at_unit slash key) ≡ true)

is_workspace_key-IsInside :
    (workspace_id key : List ℕ)
    → is_workspace_key workspace_id key ≡ true
    → IsInside workspace_id key
unfolding is_workspace_key
is_workspace_key-IsInside workspace_id key h = (ground arith, ground arith)

first_segment :
    (workspace_id key : List ℕ)
    → All (λ c. (c == slash) ≡ false) workspace_id
    → starts_with (workspace_id ++ slash ∷ []) key ≡ true
    → (rest : List (List ℕ)) × (split_at_unit slash key ≡ workspace_id ∷ rest)
first_segment workspace_id key plain h =
    let (rest, e) = starts_with-append (workspace_id ++ slash ∷ []) key h in
    (
      split_at_unit slash rest,
      ap (split_at_unit slash) (e ∙ append_assoc workspace_id (slash ∷ []) rest)
          ∙ split-part slash workspace_id rest plain,
    )

-- A key that a workspace may read, where the workspace's id holds no slash, stands for the path
-- that is its own segments, of which the first is that workspace: no `..` and no other spelling
-- leads out of it, and no other workspace may read it.
pub key_of_one_workspace :
    (workspace_id other key : List ℕ)
    → All (λ c. (c == slash) ≡ false) workspace_id
    → All (λ c. (c == slash) ≡ false) other
    → is_workspace_key workspace_id key ≡ true
    → ((rest : List (List ℕ)) × (resolve_from [] (split_at_unit slash key)
          ≡ some (workspace_id ∷ rest)))
      × (is_workspace_key other key ≡ true → other ≡ workspace_id)
key_of_one_workspace workspace_id other key plain plain' h =
    let (inside, segments) = is_workspace_key-IsInside workspace_id key h in
    let (rest, e) = first_segment workspace_id key plain inside in
    (
      (rest, resolve-plain [] (split_at_unit slash key) segments ∙ ap some e),
      λ h'.
          let (rest', e') =
            first_segment other key plain' (is_workspace_key-IsInside other key h').0 in
          ap head_of (sym e' ∙ e),
    )
