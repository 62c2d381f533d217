-- ===== src/Chunking/Tests.antt =====
-- Chunking short texts.
use chatbot_integration.Prelude.{ℕ, ◌+◌, ◌≡◌, ◌≤◌, refl, some, List, [], ◌∷◌, length, All, arith}
use chatbot_integration.Text.{codes, is_space, trim, trim_start, last_index_of}
use chatbot_integration.Text.Trim.{nonspace}
use chatbot_integration.Text.Split.{concat}
use chatbot_integration.Chunking.{
  ChunkOptions, chunk_text, chunk_qa, chunk_loop, find_break, break_after, fold_short_tail,
  unix_lines,
}
use chatbot_integration.Chunking.Cover.{Covers}
use chatbot_integration.Chunking.Loop.{chunk_text-Covers}

abbrev small : ChunkOptions
small = record { size = 10; overlap = 2; min_size = 3 }

abbrev no_overlap : ChunkOptions
no_overlap = record { size = 10; overlap = 0; min_size = 3 }

-- The second chunk repeats two characters of the first, and the tail is folded.
chunk_test :
    chunk_text (codes "One two. Three four") small
    ≡ some (codes "One two." ∷ codes ". Three" ∷ codes "e four" ∷ [])
unfolding chunk_text chunk_loop find_break break_after fold_short_tail unix_lines last_index_of trim
    trim_start is_space
chunk_test = refl

chunk_text-Covers_example :
    (chunks : List (List ℕ)) × (chunk_text (codes "One two. Three four") small ≡ some chunks)
    × All (λ c. length c ≤ 10 + 3) chunks
    × Covers 2 (nonspace (concat chunks)) (trim (unix_lines (codes "One two. Three four")))
chunk_text-Covers_example = chunk_text-Covers (codes "One two. Three four") small (omega arith)

chunk_qa_test :
    chunk_qa (some (codes " Q? ")) (codes "One two. Three four") small
    ≡ some (codes "Q?\nOne" ∷ codes "Q?\ne two." ∷ codes "Q?\n. Three" ∷ codes "Q?\ne four" ∷ [])
unfolding chunk_qa chunk_text chunk_loop find_break break_after fold_short_tail unix_lines
    last_index_of trim trim_start is_space
chunk_qa_test = refl
