-- ===== src/Ports/Keys.antt =====
-- Finding a message by the key of its turn: `findMessageIdByTurnKey` of packages/infra/src/repo.ts.
use text.Mathlib.TextPositions.{eq_refl}
use chatbot_integration.Prelude.{
  ◌≡◌, refl, sym, subst, String, Bool, true, false, ◌&&◌, ◌||◌, none, some, List, [], ◌∷◌, ◌++◌,
  any, str_eq, arith, inl, inr, Bool-cases,
}
use chatbot_integration.Ports.Store.{StoredMessage, find_by_turn_key, conflicts, same_key}

pub find-append :
    (w key id : String) (ms more : List StoredMessage)
    → find_by_turn_key w key ms ≡ some id
    → find_by_turn_key w key (ms ++ more) ≡ some id
unfolding find_by_turn_key
find-append w key id [] more h = cc
find-append w key id (m ∷ ms) more h = ground (arith, find-append w key id ms more)

-- A message that is found by the key of another is in its way.
pub find-conflicts :
    (m : StoredMessage) (key id : String) (ms : List StoredMessage)
    → m.turn_key ≡ some key
    → find_by_turn_key m.workspace_id key ms ≡ some id
    → any (conflicts m) ms ≡ true
unfolding find_by_turn_key
find-conflicts m key id [] e h = cc
find-conflicts m key id (n ∷ ms) e h = ground (arith, find-conflicts m key id ms e)

-- And one in the way that has no platform id is found by the key.
pub conflicts-find :
    (m : StoredMessage) (key : String) (ms : List StoredMessage)
    → m.turn_key ≡ some key
    → m.platform_message_id ≡ none
    → any (conflicts m) ms ≡ true
    → (id : String) × (find_by_turn_key m.workspace_id key ms ≡ some id)
unfolding find_by_turn_key
conflicts-find m key [] e f h = cc
conflicts-find m key (n ∷ ms) e f h =
    elim (Bool-cases (str_eq m.workspace_id n.workspace_id && same_key (some key) n.turn_key)) [
      | inl on ↦ rw on (n.id, refl)
      | inr off ↦ rw off (
          conflicts-find m key ms e f (
            rest h (
              subst (λ k. (str_eq m.workspace_id n.workspace_id && same_key k n.turn_key) ≡ false)
                (sym e) off)))
    ]
  where
    rest :
        any (conflicts m) (n ∷ ms) ≡ true
        → (str_eq m.workspace_id n.workspace_id && same_key m.turn_key n.turn_key) ≡ false
        → any (conflicts m) ms ≡ true
    rest g k = ground (arith, f)

pub find-last :
    (m : StoredMessage) (key : String) (ms : List StoredMessage)
    → m.turn_key ≡ some key
    → any (conflicts m) ms ≡ false
    → find_by_turn_key m.workspace_id key (ms ++ m ∷ []) ≡ some m.id
unfolding find_by_turn_key
find-last m key [] e h = rw (eq_refl m.workspace_id, e, eq_refl key) refl
find-last m key (n ∷ ms) e h =
    let (off, later) =
      apart (str_eq m.workspace_id n.workspace_id && same_key m.turn_key n.turn_key) _
        (any (conflicts m) ms) h in
    rw (subst (λ k. (str_eq m.workspace_id n.workspace_id && same_key k n.turn_key) ≡ false) e off)
      (find-last m key ms e later)
  where
    apart : (a b c : Bool) → ((a || b) || c) ≡ false → (a ≡ false) × (c ≡ false)
    apart a b c h = ground arith
