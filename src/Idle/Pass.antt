-- ===== src/Idle/Pass.antt =====
-- What a pass leaves: packages/infra/src/idle-resolve.ts.
use mathlib.Core.Path.{ap₂}
use mathlib.Core.List.{Memᴰ}
use chatbot_integration.Prelude.{
  ℕ, ◌+◌, ◌≡◌, true, refl, sym, ap, subst, ◌∙◌, String, none, List, [], ◌∷◌, map, keep,
  if◌then◌else◌, arith, inl, inr, Bool-cases, Option-cases,
}
use chatbot_integration.Conversation.{Effect}
use chatbot_integration.Effects.{EffectContext, EffectPorts, Logger, apply_effects}
use chatbot_integration.Idle.{
  IdleMessage, IdleConversation, IdleDb, Candidate, find_among, closes, closed, first_row,
  cutoff_of, resolve_one, resolve_all, resolve_idle_conversations, context, effects_of,
}
use chatbot_integration.Idle.Last.{have_own_ids}
use chatbot_integration.Idle.Left.{is_left, is_idle_lem}
use chatbot_integration.Idle.Rows.{
  is_idle, resolved_if, close_row, close_rows, none_closing, close_rows-find_among,
}

map-Memᴰ :
    (f g : IdleConversation → IdleConversation) (cs : List IdleConversation)
    → ((c : IdleConversation) → Memᴰ c cs → f c ≡ g c)
    → map f cs ≡ map g cs
map-Memᴰ f g [] h = refl
map-Memᴰ f g (c ∷ cs) h = rw (h c (Memᴰ.head refl), map-Memᴰ f g cs (λ d m. h d (Memᴰ.tail m))) refl

map-map :
    (f g : IdleConversation → IdleConversation) (cs : List IdleConversation)
    → map f (map g cs) ≡ map (λ c. f (g c)) cs
map-map f g [] = refl
map-map f g (c ∷ cs) = ap (◌∷◌ (f (g c))) (map-map f g cs)

map-id : (cs : List IdleConversation) → map (λ c. c) cs ≡ cs
map-id [] = refl
map-id (c ∷ cs) = ap (◌∷◌ c) (map-id cs)

settles_at :
    (workspace_id : String) (now cutoff : ℕ) (messages : List IdleMessage) (c : IdleConversation)
    → let rule =
        λ (d : IdleConversation). resolved_if (is_idle workspace_id cutoff messages d) now d in
      rule (rule c) ≡ rule c
settles_at workspace_id now cutoff messages c =
    elim (Bool-cases (is_idle workspace_id cutoff messages c)) [
      | inr e ↦
          let same : resolved_if (is_idle workspace_id cutoff messages c) now c ≡ c =
            ap (λ b. resolved_if b now c) e in
          subst (λ d. resolved_if (is_idle workspace_id cutoff messages d) now d ≡ d) (sym same)
            same
      | inl e ↦
          subst (λ d. resolved_if (is_idle workspace_id cutoff messages d) now d ≡ d)
            (sym (ap (λ b. resolved_if b now c) e))
            (closed_again workspace_id now cutoff messages c)
    ]
  where
    closed_again :
        (w : String) (n t : ℕ) (ms : List IdleMessage) (d : IdleConversation)
        → resolved_if (is_idle w t ms (closed n d)) n (closed n d) ≡ closed n d
    closed_again w n t ms d = ground arith

module _ {W E : Type 0} (ports : EffectPorts W E) (logger : Logger W E) (workspace_id : String)
    (hours now : ℕ)
    (no_throw : (ctx : EffectContext) (effects : List Effect) (w : W)
      → (apply_effects ports logger ctx effects w).1 ≡ none) where
  one_closes :
      (k : Candidate) (db : IdleDb W)
      → let r = resolve_one ports logger workspace_id hours now k db in
        (r.0.conversations ≡ map (close_row workspace_id now db.messages k) db.conversations)
        × (r.0.messages ≡ db.messages)
        × (r.1.1 ≡ none)
  unfolding resolve_one
  one_closes k db =
      elim (Option-cases (first_row (keep (closes workspace_id k db.messages) db.conversations))) [
        | inl e ↦
            rw (e, resolve_one)
              (sym (none_closing workspace_id now db.messages k db.conversations e), refl, refl)
        | inr (row, e) ↦
            rw (e, resolve_one)
              (ground (
                arith,
                no_throw (context ports logger workspace_id hours now k.id)
                    (effects_of ports logger workspace_id hours now row) db.promised,
              ))
      ]

  abbrev pub alone : Candidate → IdleDb W → IdleDb W
  alone k db = db

  all_closes :
      (ks : List Candidate) (count : ℕ) (db : IdleDb W)
      → let r = resolve_all ports logger workspace_id hours now alone ks count db in
        (r.0.conversations ≡ map (close_rows workspace_id now db.messages ks) db.conversations)
        × (r.0.messages ≡ db.messages)
        × (r.1.1 ≡ none)
  unfolding resolve_all close_rows
  all_closes [] count db = (sym (map-id db.conversations), refl, refl)
  all_closes (k ∷ ks) count db =
      let (rows, messages, fine) = one_closes k db in
      let r = resolve_one ports logger workspace_id hours now k db in
      let (rows', messages', fine') = all_closes ks (if r.1.0 then count + 1 else count) r.0 in
      rw (fine, resolve_all)
        (
          rows'
              ∙ ap₂ (λ ms cs. map (close_rows workspace_id now ms ks) cs) messages rows
              ∙ map-map (close_rows workspace_id now db.messages ks)
                  (close_row workspace_id now db.messages k) db.conversations,
          messages' ∙ messages,
          fine',
        )

  once :
      (db : IdleDb W)
      → let r = resolve_idle_conversations ports logger workspace_id hours now alone db in
        (r.1.1 ≡ none)
        × (r.0.messages ≡ db.messages)
        × (r.0.conversations
            ≡ map
                (λ c. resolved_if (is_idle workspace_id (cutoff_of now hours) db.messages c) now c)
                db.conversations)
  unfolding resolve_idle_conversations
  once db =
      let ks = find_among (cutoff_of now hours) workspace_id db.messages db.conversations in
      let (rows, messages, fine) = all_closes ks 0 db in
      (
        fine,
        messages,
        rows
            ∙ map-Memᴰ (close_rows workspace_id now db.messages ks) _ db.conversations (λ c m.
              close_rows-find_among workspace_id now db.messages (cutoff_of now hours)
                db.conversations c m),
      )

  -- With nobody else at work and effects that do not throw, a pass returns, and closes exactly
  -- the conversations of the workspace that are open with the AI answering, supervised or not,
  -- and in which the AI or a person wrote a message before the cutoff, and every other message
  -- earlier than that one, where no two messages have an id. A second pass at the same time
  -- closes nothing more.
  pub pass_closes_idle :
      (db : IdleDb W)
      → have_own_ids db.messages ≡ true
      → let r = resolve_idle_conversations ports logger workspace_id hours now alone db in
        let again = resolve_idle_conversations ports logger workspace_id hours now alone r.0 in
        (r.1.1 ≡ none)
        × (r.0.conversations
            ≡ map
                (λ c. resolved_if (is_left workspace_id (cutoff_of now hours) db.messages c) now c)
                db.conversations)
        × (again.0.conversations ≡ r.0.conversations)
  pass_closes_idle db own =
      let r = resolve_idle_conversations ports logger workspace_id hours now alone db in
      let (fine, messages, rows) = once db in
      let (fine', messages', rows') = once r.0 in
      let rule = λ (ms : List IdleMessage) (c : IdleConversation).
        resolved_if (is_idle workspace_id (cutoff_of now hours) ms c) now c in
      (
        fine,
        rows
            ∙ map-Memᴰ (rule db.messages) _ db.conversations (λ c m.
              ap (λ b. resolved_if b now c)
                (is_idle_lem workspace_id (cutoff_of now hours) db.messages c own)),
        rows'
            ∙ ap₂ (λ ms cs. map (rule ms) cs) messages rows
            ∙ map-map (rule db.messages) (rule db.messages) db.conversations
            ∙ map-Memᴰ (λ c. rule db.messages (rule db.messages c)) (rule db.messages)
                db.conversations
                (λ c m. settles_at workspace_id now (cutoff_of now hours) db.messages c)
            ∙ sym rows,
      )
