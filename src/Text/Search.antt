-- ===== src/Text/Search.antt =====
-- Where a break point can stand (packages/channels/src/text.ts).
use chatbot_integration.Prelude.{
  ℕ, ◌+◌, ◌≤◌, ◌<◌, ◌≡◌, true, some, List, [], ◌∷◌, length, arith, All, inl, inr, Option-cases,
}
use chatbot_integration.Text.{starts_with, last_index_of, break_point, find_break_point, separators}

starts_with-length : (sep s : List ℕ) → starts_with sep s ≡ true → length sep ≤ length s
starts_with-length [] s h = omega arith
starts_with-length (c ∷ sep) [] h = cc
starts_with-length (c ∷ sep) (d ∷ s) h = ground (arith, starts_with-length sep s)

-- A separator that is found lies inside the text.
pub last_index_of-le :
    (sep s : List ℕ) (i : ℕ) → last_index_of sep s ≡ some i → i + length sep ≤ length s
unfolding last_index_of
last_index_of-le sep [] i h = ground (arith, starts_with-length sep [])
last_index_of-le sep (c ∷ s) i h = elim (Option-cases (last_index_of sep s)) [
  | inl e ↦ ground (arith, starts_with-length sep (c ∷ s))
  | inr (j, e) ↦ ground (arith, last_index_of-le sep s j e)
]

break_point_bounds :
    (seps : List (List ℕ)) (window : List ℕ) (max_length : ℕ)
    → All (λ sep. 0 < length sep) seps
    → 0 < max_length
    → length window ≤ max_length
    → (0 < break_point seps window max_length) × (break_point seps window max_length ≤ max_length)
unfolding break_point
break_point_bounds [] window max_length seps_ok pos fits = (pos, omega arith)
break_point_bounds (sep ∷ seps) window max_length seps_ok pos fits =
    let rest = break_point_bounds seps window max_length seps_ok.1 pos fits in
    elim (Option-cases (last_index_of sep window)) [
      | inl e ↦ rw (e, break_point) rest
      | inr (i, e) ↦
          rw (e, break_point) (ground (arith, rest, last_index_of-le sep window i e, seps_ok.0))
    ]

-- A break point lies in the window and moves forward.
pub find_break_point_bounds :
    (window : List ℕ) (max_length : ℕ)
    → 0 < max_length
    → length window ≤ max_length
    → (0 < find_break_point window max_length) × (find_break_point window max_length ≤ max_length)
unfolding find_break_point
find_break_point_bounds window max_length pos fits =
    break_point_bounds separators window max_length (omega arith) pos fits
