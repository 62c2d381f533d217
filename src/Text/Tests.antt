-- ===== src/Text/Tests.antt =====
-- Splitting short texts.
use chatbot_integration.Prelude.{ℕ, ◌≡◌, ◌≤◌, refl, true, some, List, [], ◌∷◌, length, All, arith}
use chatbot_integration.Text.{
  codes, is_space, trim, trim_start, last_index_of, find_break_point, break_point, split_loop,
  split_text, is_nonempty,
}
use chatbot_integration.Text.Trim.{nonspace}
use chatbot_integration.Text.Split.{concat, split_text_lem}

-- The break after a sentence comes before the break after a word.
split_test :
    split_text (codes " One two. Three four ") 12
    ≡ some (codes "One two." ∷ codes "Three four" ∷ [])
unfolding split_text split_loop find_break_point break_point last_index_of trim trim_start is_space
split_test = refl

-- A run with no break is cut at the limit.
hard_split_test : split_text (codes "abcdefg") 3 ≡ some (codes "abc" ∷ codes "def" ∷ codes "g" ∷ [])
unfolding split_text split_loop find_break_point break_point last_index_of trim trim_start is_space
hard_split_test = refl

split_text_lem_example :
    (chunks : List (List ℕ)) × (split_text (codes " One two. Three four ") 12 ≡ some chunks)
    × All (λ c. (is_nonempty c ≡ true) × (length c ≤ 12)) chunks
    × (nonspace (concat chunks) ≡ nonspace (codes " One two. Three four "))
split_text_lem_example = split_text_lem (codes " One two. Three four ") 12 (omega arith)
