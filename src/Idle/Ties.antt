-- ===== src/Idle/Ties.antt =====
-- Messages that come with, or after, the last one: packages/infra/src/idle-resolve.ts.
use mathlib.Core.List.{Memᴰ}
use chatbot_integration.Prelude.{
  ℕ, ◌≤◌, ◌≡◌, ◌≢◌, refl, String, true, false, none, some, List, [], ◌∷◌, keep, arith,
}
use chatbot_integration.Effects.{EffectPorts, Logger}
use chatbot_integration.Idle.{
  IdleMessage, IdleConversation, IdleDb, Candidate, in_thread, idle_since, is_answered, closes,
  created_at_of, first_row, resolve_one, cutoff_of,
}
use chatbot_integration.Idle.Rows.{is_idle}
use chatbot_integration.Idle.Last.{any-Memᴰ}

answered :
    (workspace_id : String) (k : Candidate) (at : ℕ) (m : IdleMessage) (ms : List IdleMessage)
    → Memᴰ m ms
    → in_thread workspace_id k.id m ≡ true
    → m.id ≢ k.last_message_id
    → created_at_of workspace_id k.last_message_id ms ≡ some at
    → at ≤ m.created_at
    → is_answered workspace_id k ms ≡ true
unfolding is_answered
answered workspace_id k at m ms h thread other found le =
    rw (found, is_answered) (any-Memᴰ _ m ms h (ground arith))

none_open :
    (workspace_id : String) (k : Candidate) (ms : List IdleMessage) (cs : List IdleConversation)
    → is_answered workspace_id k ms ≡ true
    → first_row (keep (closes workspace_id k ms) cs) ≡ none
unfolding first_row
none_open workspace_id k ms [] h = refl
none_open workspace_id k ms (c ∷ cs) h = ground (arith, none_open workspace_id k ms cs h)

-- Whatever happened between the search and the close, a conversation in which another message,
-- from anybody, has come with the one that the search found or after it is left open, with
-- nothing changed.
late_message_keeps_open :
    {W E : Type 0} (ports : EffectPorts W E) (logger : Logger W E) (workspace_id : String)
    (hours now : ℕ) (k : Candidate) (db : IdleDb W) (m : IdleMessage) (at : ℕ)
    → Memᴰ m db.messages
    → in_thread workspace_id k.id m ≡ true
    → m.id ≢ k.last_message_id
    → created_at_of workspace_id k.last_message_id db.messages ≡ some at
    → at ≤ m.created_at
    → resolve_one ports logger workspace_id hours now k db ≡ (db, (false, none))
unfolding resolve_one
late_message_keeps_open ports logger workspace_id hours now k db m at h thread other found le =
    rw
      (
        none_open workspace_id k db.messages db.conversations
            (answered workspace_id k at m db.messages h thread other found le),
        resolve_one,
      )
      refl

-- A conversation whose last two messages were written in the same instant is closed by no pass,
-- however long ago that was.
tied_never_closed :
    (workspace_id : String) (hours now : ℕ) (c : IdleConversation) (ms : List IdleMessage)
    (last m : IdleMessage)
    → idle_since (cutoff_of now hours) workspace_id c.id ms ≡ some last
    → created_at_of workspace_id last.id ms ≡ some last.created_at
    → Memᴰ m ms
    → in_thread workspace_id c.id m ≡ true
    → m.id ≢ last.id
    → m.created_at ≡ last.created_at
    → is_idle workspace_id (cutoff_of now hours) ms c ≡ false
tied_never_closed workspace_id hours now c ms last m found at h thread other tie =
    let k : Candidate = record { id = c.id; last_message_id = last.id } in
    let yes = answered workspace_id k last.created_at m ms h thread other at (omega arith) in
    rw (found, yes) (ground arith)
