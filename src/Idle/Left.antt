-- ===== src/Idle/Left.antt =====
-- When a customer has left a conversation, told without the search and the close of
-- packages/infra/src/idle-resolve.ts.
use mathlib.Core.List.{Memᴰ}
use chatbot_integration.Prelude.{
  ℕ, ◌≡◌, refl, sym, subst, ◌∙◌, String, Bool, true, false, ◌&&◌, ◌||◌, some, List, any, all, All,
  All-keep, All-map, All-Memᴰ, some_of, keep, not, arith, inl, inr, Bool-cases, Option-cases, ltb,
  leb, ◌==◌, str_eq,
}
use chatbot_integration.Conversation.{ConversationMode, ConversationStatus}
use chatbot_integration.Delivery.{SenderType}
use chatbot_integration.Idle.{
  IdleMessage, IdleConversation, in_thread, last_of, is_ours, is_ai_mode, is_open, idle_since,
  is_answered, is_resolvable,
}
use chatbot_integration.Idle.Rows.{is_idle}
use chatbot_integration.Idle.Last.{
  have_own_ids, all-Memᴰ, any-Memᴰ, all_of, kept-Memᴰ, own_id, read_back, last_of-All, IsUpTo,
  last_of-latest,
}

-- The AI answers, with or without supervision.
abbrev pub ai_answers : ConversationMode → Bool
ai_answers ConversationMode.ai = true
ai_answers ConversationMode.ai_supervised = true
ai_answers ConversationMode.waiting_human = false
ai_answers ConversationMode.human = false

-- The message is of our side, not of the customer or the system.
abbrev pub from_us : SenderType → Bool
from_us SenderType.customer = false
from_us SenderType.system = false
from_us SenderType.ai = true
from_us SenderType.human = true

abbrev pub stands_open : ConversationStatus → Bool
stands_open ConversationStatus.«open» = true
stands_open ConversationStatus.snoozed = false
stands_open ConversationStatus.resolved = false

-- A message that is said in the conversation.
abbrev pub is_said : (workspace_id : String) → IdleConversation → IdleMessage → Bool
is_said workspace_id c m =
    str_eq m.conversation_id c.id && (str_eq m.workspace_id workspace_id && not m.is_event)

-- Any other message of the conversation is earlier.
abbrev pub is_earlier : (workspace_id : String) → IdleConversation → (m n : IdleMessage) → Bool
is_earlier workspace_id c m n =
    not (is_said workspace_id c n) || ((n.id == m.id) || ltb n.created_at m.created_at)

-- A message of our side from before the cutoff, before which all others were written.
abbrev pub is_last_word :
    (workspace_id : String) (cutoff : ℕ) → List IdleMessage → IdleConversation → IdleMessage → Bool
is_last_word workspace_id cutoff messages c m =
    is_said workspace_id c m
    && (from_us m.sender_type
        && (ltb m.created_at cutoff && all (is_earlier workspace_id c m) messages))

-- Open, answered by the AI, and with a message of our side from before the cutoff, before which
-- every other message of the conversation was written.
abbrev pub is_left :
    (workspace_id : String) (cutoff : ℕ) → List IdleMessage → IdleConversation → Bool
is_left workspace_id cutoff messages c =
    str_eq c.workspace_id workspace_id
    && (stands_open c.status
        && (ai_answers c.mode && any (is_last_word workspace_id cutoff messages c) messages))

ai_answers_lem : (mode : ConversationMode) → ai_answers mode ≡ is_ai_mode mode
ai_answers_lem ConversationMode.ai = refl
ai_answers_lem ConversationMode.ai_supervised = refl
ai_answers_lem ConversationMode.waiting_human = refl
ai_answers_lem ConversationMode.human = refl

from_us_lem : (sender : SenderType) → from_us sender ≡ is_ours sender
from_us_lem SenderType.customer = refl
from_us_lem SenderType.system = refl
from_us_lem SenderType.ai = refl
from_us_lem SenderType.human = refl

stands_open_lem : (status : ConversationStatus) → stands_open status ≡ is_open status
stands_open_lem ConversationStatus.«open» = refl
stands_open_lem ConversationStatus.snoozed = refl
stands_open_lem ConversationStatus.resolved = refl

and_parts :
    (a b c d : Bool)
    → (a && (b && (c && d))) ≡ true
    → (a ≡ true) × (b ≡ true) × (c ≡ true) × (d ≡ true)
and_parts a b c d h = ground arith

module _ (workspace_id : String) (cutoff : ℕ) (messages : List IdleMessage) (c : IdleConversation)
    (own : have_own_ids messages ≡ true) where
  abbrev thread : List IdleMessage
  thread = keep (in_thread workspace_id c.id) messages

  unanswered :
      (m : IdleMessage)
      → Memᴰ m messages
      → is_said workspace_id c m ≡ true
      → is_answered workspace_id (record { id = c.id; last_message_id = m.id }) messages ≡ false
      → all (is_earlier workspace_id c m) messages ≡ true
  unfolding is_answered
  unanswered m there said h =
      let at = read_back workspace_id m messages own there (ground arith) in
      all_of _ messages (λ n k.
        elim (Bool-cases
          (is_said workspace_id c n && (not (n.id == m.id) && leb m.created_at n.created_at))) [
            | inr e ↦ ground arith
            | inl e ↦ absurd (
                ground (
                  arith,
                  any-Memᴰ
                      (λ n.
                        in_thread workspace_id c.id n
                        && (not (n.id == m.id) && leb m.created_at n.created_at))
                      n messages k e,
                  (rw (at, is_answered) at h),
                ))
          ])

  still_unanswered :
      (m : IdleMessage)
      → Memᴰ m messages
      → is_said workspace_id c m ≡ true
      → all (is_earlier workspace_id c m) messages ≡ true
      → is_answered workspace_id (record { id = c.id; last_message_id = m.id }) messages ≡ false
  unfolding is_answered
  still_unanswered m there said h =
      let at = read_back workspace_id m messages own there (ground arith) in
      let late : IdleMessage → Bool = λ n.
        in_thread workspace_id c.id n && (not (n.id == m.id) && leb m.created_at n.created_at) in
      rw (at, is_answered)
        (elim (Bool-cases (any late messages)) [
          | inr e ↦ e
          | inl e ↦
              let (n, k, f) = some_of late messages e in
              absurd (ground (arith, all-Memᴰ _ n messages k h))
        ])

  idle_since-last :
      (last : IdleMessage)
      → idle_since cutoff workspace_id c.id messages ≡ some last
      → (last_of thread ≡ some last)
        × (is_ours last.sender_type ≡ true)
        × (ltb last.created_at cutoff ≡ true)
  unfolding idle_since
  idle_since-last last h = elim (Option-cases (last_of thread)) [
    | inl e ↦ absurd (ground arith)
    | inr (n, e) ↦ elim (Bool-cases (is_ours n.sender_type && ltb n.created_at cutoff)) [
      | inr f ↦ absurd (ground arith)
      | inl f ↦
          let same : n ≡ last = ground arith in
          subst
            (λ x.
              (last_of thread ≡ some x)
              × (is_ours x.sender_type ≡ true)
              × (ltb x.created_at cutoff ≡ true))
            same (e, ground arith, ground arith)
    ]
  ]

  idle_left :
      is_idle workspace_id cutoff messages c ≡ true → is_left workspace_id cutoff messages c ≡ true
  idle_left h = elim (Option-cases (idle_since cutoff workspace_id c.id messages)) [
    | inl e ↦ absurd (ground arith)
    | inr (last, e) ↦
        let (found, ours, old) = idle_since-last last e in
        let (there, said) =
          last_of-All (λ m. Memᴰ m messages × (in_thread workspace_id c.id m ≡ true)) thread last
            (All-keep (λ m. Memᴰ m messages) (in_thread workspace_id c.id) messages
              (All-Memᴰ messages))
            found in
        let quiet : is_answered workspace_id (record { id = c.id; last_message_id = last.id })
              messages
            ≡ false =
          ground arith in
        let every = unanswered last there said quiet in
        let us : from_us last.sender_type ≡ true = from_us_lem last.sender_type ∙ ours in
        let witness =
          any-Memᴰ (is_last_word workspace_id cutoff messages c) last messages there
            (ground arith) in
        ground (arith, ai_answers_lem c.mode, stands_open_lem c.status)
  ]

  found_by_search :
      (m : IdleMessage)
      → Memᴰ m messages
      → is_said workspace_id c m ≡ true
      → from_us m.sender_type ≡ true
      → ltb m.created_at cutoff ≡ true
      → all (is_earlier workspace_id c m) messages ≡ true
      → idle_since cutoff workspace_id c.id messages ≡ some m
  unfolding idle_since
  found_by_search m there said us old every =
      let ours : is_ours m.sender_type ≡ true = sym (from_us_lem m.sender_type) ∙ us in
      let up_to : All (IsUpTo m) thread =
        All-map (λ n. Memᴰ n messages × (in_thread workspace_id c.id n ≡ true)) (IsUpTo m) thread
          (λ n (k, said_n). elim (Bool-cases (n.id == m.id)) [
            | inl e ↦ inl (own_id m n messages own there k (ground arith))
            | inr e ↦ let before = all-Memᴰ _ n messages k every in inr (ground arith)
          ])
          (All-keep (λ n. Memᴰ n messages) (in_thread workspace_id c.id) messages
            (All-Memᴰ messages)) in
      let last : last_of thread ≡ some m =
        last_of-latest m thread (kept-Memᴰ (in_thread workspace_id c.id) m messages there said)
          up_to in
      rw (last, ours, old, idle_since) refl

  left_idle :
      is_left workspace_id cutoff messages c ≡ true → is_idle workspace_id cutoff messages c ≡ true
  left_idle h =
      let resolvable : (is_resolvable workspace_id c && true) ≡ true =
        ground (arith, ai_answers_lem c.mode, stands_open_lem c.status) in
      let last_word = is_last_word workspace_id cutoff messages c in
      let one : any last_word messages ≡ true = ground arith in
      close_on resolvable (some_of last_word messages one)
    where
      close_on :
          (is_resolvable workspace_id c && true) ≡ true
          → (m : IdleMessage) × Memᴰ m messages
            × (is_last_word workspace_id cutoff messages c m ≡ true)
          → is_idle workspace_id cutoff messages c ≡ true
      close_on resolvable (m, there, k) =
          let (said, us, old, every) =
            and_parts (is_said workspace_id c m) (from_us m.sender_type) (ltb m.created_at cutoff) _
              k in
          rw (found_by_search m there said us old every, still_unanswered m there said every)
            resolvable

  -- The code's rule is this one.
  pub is_idle_lem : is_idle workspace_id cutoff messages c ≡ is_left workspace_id cutoff messages c
  is_idle_lem = elim (Bool-cases (is_idle workspace_id cutoff messages c)) [
    | inl e ↦ e ∙ sym (idle_left e)
    | inr e ↦ elim (Bool-cases (is_left workspace_id cutoff messages c)) [
      | inr f ↦ e ∙ sym f
      | inl f ↦ absurd (ground (arith, left_idle f))
    ]
  ]
