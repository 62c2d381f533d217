-- ===== src/Idle/Rows.antt =====
-- Which rows the candidates of a pass close: packages/infra/src/idle-resolve.ts.
use text.Mathlib.TextPositions.{eq_refl}
use mathlib.Core.List.{Memᴰ}
use chatbot_integration.Prelude.{
  ℕ, ◌≡◌, refl, sym, ap, subst, ◌∙◌, String, Bool, true, false, ◌&&◌, none, some, List, [], ◌∷◌,
  any, map, keep, if◌then◌else◌, not, arith, inl, inr, Bool-cases, Option-cases, eq_iff,
}
use chatbot_integration.Idle.{
  IdleMessage, IdleConversation, Candidate, idle_since, is_resolvable, find_among, is_answered,
  closes, closed, first_row,
}

-- The rule in one test: resolvable, our last word old enough, and no other message with it or
-- after it.
abbrev pub is_idle :
    (workspace_id : String) (cutoff : ℕ) → List IdleMessage → IdleConversation → Bool
is_idle workspace_id cutoff messages c =
    is_resolvable workspace_id c && elim (idle_since cutoff workspace_id c.id messages) [
      | none ↦ false
      | some last ↦
          not (is_answered workspace_id (record { id = c.id; last_message_id = last.id }) messages)
    ]

abbrev pub resolved_if : Bool → (now : ℕ) → IdleConversation → IdleConversation
resolved_if b now c = if b then closed now c else c

module _ (workspace_id : String) (now : ℕ) (messages : List IdleMessage) where
  abbrev pub close_row : Candidate → IdleConversation → IdleConversation
  close_row candidate c = resolved_if (closes workspace_id candidate messages c) now c

  -- A candidate after another, over one row.
  unfoldable pub close_rows : List Candidate → IdleConversation → IdleConversation
  close_rows [] c = c
  close_rows (k ∷ ks) c = close_rows ks (close_row k c)

  pub none_closing :
      (k : Candidate) (cs : List IdleConversation)
      → first_row (keep (closes workspace_id k messages) cs) ≡ none
      → map (close_row k) cs ≡ cs
  unfolding first_row
  none_closing k [] h = refl
  none_closing k (c ∷ cs) h = elim (Bool-cases (closes workspace_id k messages c)) [
    | inl e ↦ absurd (ground arith)
    | inr e ↦ rw (e, none_closing k cs (ground arith)) refl
  ]

  close_rows-closed :
      (ks : List Candidate) (c : IdleConversation) → close_rows ks (closed now c) ≡ closed now c
  unfolding close_rows
  close_rows-closed [] c = refl
  close_rows-closed (k ∷ ks) c = elim (Bool-cases (closes workspace_id k messages (closed now c))) [
    | inl e ↦ absurd (ground arith)
    | inr e ↦ rw e (close_rows-closed ks c)
  ]

  close_rows_lem :
      (ks : List Candidate) (c : IdleConversation)
      → close_rows ks c ≡ resolved_if (any (λ k. closes workspace_id k messages c) ks) now c
  unfolding close_rows
  close_rows_lem [] c = refl
  close_rows_lem (k ∷ ks) c = elim (Bool-cases (closes workspace_id k messages c)) [
    | inl e ↦ rw e (close_rows-closed ks c)
    | inr e ↦ rw e (close_rows_lem ks c)
  ]

  -- A candidate that closes a row shows that the row is idle.
  candidate_idle :
      (cutoff : ℕ) (c : IdleConversation) (cs : List IdleConversation)
      → any (λ k. closes workspace_id k messages c) (find_among cutoff workspace_id messages cs)
        ≡ true
      → is_idle workspace_id cutoff messages c ≡ true
  unfolding find_among
  candidate_idle cutoff c [] h = cc
  candidate_idle cutoff c (d ∷ ds) h =
      elim (Option-cases (idle_since cutoff workspace_id d.id messages)) [
        | inl e ↦ candidate_idle cutoff c ds (rw (e, find_among) at h)
        | inr (last, e) ↦ elim (Bool-cases (is_resolvable workspace_id d)) [
          | inr off ↦ candidate_idle cutoff c ds (rw (e, off, find_among) at h)
          | inl on ↦
              let k : Candidate = record { id = d.id; last_message_id = last.id } in
              elim (Bool-cases (closes workspace_id k messages c)) [
                | inr missed ↦
                    candidate_idle cutoff c ds (ground (arith, rw (e, on, find_among) at h))
                | inl hit ↦
                    let same : c.id ≡ d.id = (eq_iff c.id d.id).0 (ground arith) in
                    let found : idle_since cutoff workspace_id c.id messages ≡ some last =
                      subst (λ i. idle_since cutoff workspace_id i messages ≡ some last) (sym same)
                        e in
                    let quiet : is_answered workspace_id
                          (record { id = c.id; last_message_id = last.id }) messages
                        ≡ false =
                      subst
                        (λ i.
                          is_answered workspace_id (record { id = i; last_message_id = last.id })
                            messages
                          ≡ false)
                        (sym same) (ground arith) in
                    rw (found, quiet) (ground arith)
              ]
        ]
      ]

  idle_head :
      (cutoff : ℕ) (c : IdleConversation) (cs : List IdleConversation)
      → is_idle workspace_id cutoff messages c ≡ true
      → any
          (λ k. closes workspace_id k messages c)
          (find_among cutoff workspace_id messages (c ∷ cs))
        ≡ true
  unfolding find_among
  idle_head cutoff c cs h = elim (Option-cases (idle_since cutoff workspace_id c.id messages)) [
    | inl e ↦ absurd (ground arith)
    | inr (last, e) ↦
        let on : is_resolvable workspace_id c ≡ true = ground arith in
        let quiet : is_answered workspace_id (record { id = c.id; last_message_id = last.id })
              messages
            ≡ false =
          ground arith in
        rw (e, on, quiet, eq_refl c.id, find_among) refl
  ]

  -- An idle row of the table has its candidate.
  idle_candidate :
      (cutoff : ℕ) (c : IdleConversation) (cs : List IdleConversation)
      → Memᴰ c cs
      → is_idle workspace_id cutoff messages c ≡ true
      → any (λ k. closes workspace_id k messages c) (find_among cutoff workspace_id messages cs)
        ≡ true
  unfolding find_among
  idle_candidate cutoff c [] m h = elim m [ ]
  idle_candidate cutoff c (d ∷ ds) (Memᴰ.head e) h =
      subst
        (λ x.
          any (λ k. closes workspace_id k messages c)
            (find_among cutoff workspace_id messages (x ∷ ds))
          ≡ true)
        e (idle_head cutoff c ds h)
  idle_candidate cutoff c (d ∷ ds) (Memᴰ.tail m) h =
      let rest = idle_candidate cutoff c ds m h in
      elim (Option-cases (idle_since cutoff workspace_id d.id messages)) [
        | inl e ↦ rw (e, find_among) rest
        | inr (last, e) ↦ elim (Bool-cases (is_resolvable workspace_id d)) [
          | inr off ↦ rw (e, off, find_among) rest
          | inl on ↦ rw (e, on, find_among) (ground (arith, rest))
        ]
      ]

  -- Over the whole table, the candidates close exactly the idle rows.
  pub close_rows-find_among :
      (cutoff : ℕ) (cs : List IdleConversation) (c : IdleConversation)
      → Memᴰ c cs
      → close_rows (find_among cutoff workspace_id messages cs) c
        ≡ resolved_if (is_idle workspace_id cutoff messages c) now c
  close_rows-find_among cutoff cs c m =
      close_rows_lem (find_among cutoff workspace_id messages cs) c
      ∙ ap (λ b. resolved_if b now c)
          (elim (Bool-cases (is_idle workspace_id cutoff messages c)) [
            | inl e ↦ idle_candidate cutoff c cs m e ∙ sym e
            | inr e ↦
                elim (Bool-cases (
                  any (λ k. closes workspace_id k messages c)
                    (find_among cutoff workspace_id messages cs))) [
                      | inr missed ↦ missed ∙ sym e
                      | inl hit ↦ absurd (ground (arith, candidate_idle cutoff c cs hit))
                    ]
          ])
