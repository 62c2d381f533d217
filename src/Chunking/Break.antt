-- ===== src/Chunking/Break.antt =====
-- Where a break can stand in a window (packages/core/src/rag/chunk.ts).
use chatbot_integration.Prelude.{
  ℕ, ◌≤◌, ◌<◌, min, List, [], ◌∷◌, length, arith, All, inl, inr, Option-cases,
}
use chatbot_integration.Text.{last_index_of}
use chatbot_integration.Text.Search.{last_index_of-le}
use chatbot_integration.Chunking.{break_after, find_break, sentence_breaks}

break_after_bounds :
    (seps : List (List ℕ)) (window : List ℕ) (size : ℕ)
    → All (λ sep. 0 < length sep) seps
    → (min 1 (length window) ≤ break_after seps window size)
      × (break_after seps window size ≤ length window)
unfolding break_after
break_after_bounds [] window size seps_ok = (omega arith, omega arith)
break_after_bounds (sep ∷ seps) window size seps_ok =
    let rest = break_after_bounds seps window size seps_ok.1 in
    elim (Option-cases (last_index_of sep window)) [
      | inl e ↦ rw (e, break_after) rest
      | inr (i, e) ↦
          rw (e, break_after) (ground (arith, rest, last_index_of-le sep window i e, seps_ok.0))
    ]

-- A break lies in the window and moves forward, unless the window is empty.
pub find_break_bounds :
    (window : List ℕ) (size : ℕ)
    → (min 1 (length window) ≤ find_break window size) × (find_break window size ≤ length window)
unfolding find_break
find_break_bounds window size = break_after_bounds sentence_breaks window size (omega arith)
