-- ===== src/Outbox/Table.antt =====
-- Counting the rows of the outbox table (packages/infra/src/outbox.ts) under its updates.
use mathlib.Core.List.{Memᴰ}
use chatbot_integration.Prelude.{
  ap, true, any, ℕ, suc, ◌≤◌, ◌≡◌, refl, Bool, false, List, [], ◌∷◌, keep, length, All, arith, leb,
  Bool-cases, inl, inr,
}
use chatbot_integration.Outbox.{OutboxRow, sort_by_id, insert_by_id, set_where_id}

module _ {P : Type 0} where
  abbrev pub count_rows : (OutboxRow P → Bool) → List (OutboxRow P) → ℕ
  count_rows p rows = length (keep p rows)

  length-insert_by_id :
      (row : OutboxRow P) (rows : List (OutboxRow P))
      → length (insert_by_id row rows) ≡ suc (length rows)
  unfolding insert_by_id
  length-insert_by_id row [] = refl
  length-insert_by_id row (r ∷ rs) = ground (arith, length-insert_by_id row rs)

  pub length-sort_by_id : (rows : List (OutboxRow P)) → length (sort_by_id rows) ≡ length rows
  unfolding sort_by_id
  length-sort_by_id [] = refl
  length-sort_by_id (r ∷ rs) =
      omega (arith, length-insert_by_id r (sort_by_id rs), length-sort_by_id rs)

  pub All-insert_by_id {κ} :
      (Q : OutboxRow P → Type κ) (row : OutboxRow P) (rows : List (OutboxRow P))
      → Q row
      → All Q rows
      → All Q (insert_by_id row rows)
  unfolding insert_by_id
  All-insert_by_id Q row [] h k = (h, k)
  All-insert_by_id Q row (r ∷ rs) h k = elim (Bool-cases (leb row.id r.id)) [
    | inl e ↦ rw e (h, k)
    | inr e ↦ rw e (k.0, All-insert_by_id Q row rs h k.1)
  ]

  pub All-sort_by_id {κ} :
      (Q : OutboxRow P → Type κ) (rows : List (OutboxRow P)) → All Q rows → All Q (sort_by_id rows)
  unfolding sort_by_id
  All-sort_by_id Q [] h = tt
  All-sort_by_id Q (r ∷ rs) h = All-insert_by_id Q r (sort_by_id rs) h.0 (All-sort_by_id Q rs h.1)

  -- An update by which no row changes sides leaves a count alone.
  pub count-set_where_id :
      (p : OutboxRow P → Bool) (f : OutboxRow P → OutboxRow P) (id : ℕ)
      → ((r : OutboxRow P) → p (f r) ≡ p r)
      → (rows : List (OutboxRow P)) → count_rows p (set_where_id id f rows) ≡ count_rows p rows
  unfolding set_where_id
  count-set_where_id p f id same [] = refl
  count-set_where_id p f id same (r ∷ rs) =
      ground (arith, same r, count-set_where_id p f id same rs)

  -- One that leaves no row on the counted side never adds to the count.
  pub count-set_where_id_le :
      (p : OutboxRow P → Bool) (f : OutboxRow P → OutboxRow P) (id : ℕ)
      → ((r : OutboxRow P) → p (f r) ≡ false)
      → (rows : List (OutboxRow P)) → count_rows p (set_where_id id f rows) ≤ count_rows p rows
  unfolding set_where_id
  count-set_where_id_le p f id off [] = omega arith
  count-set_where_id_le p f id off (r ∷ rs) =
      ground (arith, off r, count-set_where_id_le p f id off rs)

  any-insert_by_id :
      (q : OutboxRow P → Bool) (row : OutboxRow P) (rows : List (OutboxRow P))
      → any q (insert_by_id row rows) ≡ any q (row ∷ rows)
  unfolding insert_by_id
  any-insert_by_id q row [] = refl
  any-insert_by_id q row (r ∷ rs) = ground (arith, any-insert_by_id q row rs)

  pub any-sort_by_id :
      (q : OutboxRow P → Bool) (rows : List (OutboxRow P)) → any q (sort_by_id rows) ≡ any q rows
  unfolding sort_by_id
  any-sort_by_id q [] = refl
  any-sort_by_id q (r ∷ rs) =
      ground (arith, any-insert_by_id q r (sort_by_id rs), any-sort_by_id q rs)

  pub any-keep :
      (p q : OutboxRow P → Bool) (rows : List (OutboxRow P)) (r : OutboxRow P)
      → Memᴰ r rows
      → p r ≡ true
      → q r ≡ true
      → any q (keep p rows) ≡ true
  any-keep p q [] r m h k = elim m [ ]
  any-keep p q (x ∷ xs) r (Memᴰ.head e) h k = ground (arith, ap p e, ap q e)
  any-keep p q (x ∷ xs) r (Memᴰ.tail m) h k = ground (arith, any-keep p q xs r m h k)
