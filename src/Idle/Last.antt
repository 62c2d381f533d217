-- ===== src/Idle/Last.antt =====
-- The last message of a list, and the message that an id names: packages/infra/src/idle-resolve.ts.
use mathlib.Core.List.{Memᴰ}
use chatbot_integration.Prelude.{
  suc, ◌≤◌, ◌≡◌, refl, sym, ap, subst, ◌∙◌, String, Bool, true, false, ◌&&◌, some, List, [], ◌∷◌,
  any, all, All, keep, if◌then◌else◌, not, arith, inl, inr, ◌⊎◌, Bool-cases, Option-cases, ◌==◌,
  str_eq,
}
use chatbot_integration.Idle.{IdleMessage, is_after, last_of, created_at_of}

-- The primary key: no two messages have an id.
abbrev pub have_own_ids : List IdleMessage → Bool
have_own_ids [] = true
have_own_ids (m ∷ ms) = all (λ n. not (n.id == m.id)) ms && have_own_ids ms

pub all-Memᴰ :
    (p : IdleMessage → Bool) (m : IdleMessage) (ms : List IdleMessage)
    → Memᴰ m ms
    → all p ms ≡ true
    → p m ≡ true
all-Memᴰ p m [] h e = elim h [ ]
all-Memᴰ p m (n ∷ ms) (Memᴰ.head f) e = ap p f ∙ ground arith
all-Memᴰ p m (n ∷ ms) (Memᴰ.tail h) e = all-Memᴰ p m ms h (ground arith)

pub any-Memᴰ :
    (p : IdleMessage → Bool) (m : IdleMessage) (ms : List IdleMessage)
    → Memᴰ m ms
    → p m ≡ true
    → any p ms ≡ true
any-Memᴰ p m [] h e = elim h [ ]
any-Memᴰ p m (n ∷ ms) (Memᴰ.head f) e = ground (arith, ap p f)
any-Memᴰ p m (n ∷ ms) (Memᴰ.tail h) e = ground (arith, any-Memᴰ p m ms h e)

pub all_of :
    (p : IdleMessage → Bool) (ms : List IdleMessage)
    → ((m : IdleMessage) → Memᴰ m ms → p m ≡ true)
    → all p ms ≡ true
all_of p [] h = refl
all_of p (m ∷ ms) h =
    ground (arith, h m (Memᴰ.head refl), all_of p ms (λ n there. h n (Memᴰ.tail there)))

pub kept-Memᴰ :
    (p : IdleMessage → Bool) (m : IdleMessage) (ms : List IdleMessage)
    → Memᴰ m ms
    → p m ≡ true
    → Memᴰ m (keep p ms)
kept-Memᴰ p m [] h e = elim h [ ]
kept-Memᴰ p m (n ∷ ms) (Memᴰ.head f) e = rw (sym (ap p f) ∙ e) (Memᴰ.head f)
kept-Memᴰ p m (n ∷ ms) (Memᴰ.tail h) e = elim (Bool-cases (p n)) [
  | inl f ↦ rw f (Memᴰ.tail (kept-Memᴰ p m ms h e))
  | inr f ↦ rw f (kept-Memᴰ p m ms h e)
]

pub own_id :
    (m n : IdleMessage) (ms : List IdleMessage)
    → have_own_ids ms ≡ true
    → Memᴰ m ms
    → Memᴰ n ms
    → n.id ≡ m.id
    → n ≡ m
own_id m n [] own h k same = elim h [ ]
own_id m n (x ∷ ms) own (Memᴰ.head f) (Memᴰ.head g) same = g ∙ sym f
own_id m n (x ∷ ms) own (Memᴰ.head f) (Memᴰ.tail k) same =
    let other = all-Memᴰ (λ y. not (y.id == x.id)) n ms k (ground arith) in
    absurd (ground (arith, ap (λ (y : IdleMessage). y.id) f))
own_id m n (x ∷ ms) own (Memᴰ.tail h) (Memᴰ.head g) same =
    let other = all-Memᴰ (λ y. not (y.id == x.id)) m ms h (ground arith) in
    absurd (ground (arith, ap (λ (y : IdleMessage). y.id) g))
own_id m n (x ∷ ms) own (Memᴰ.tail h) (Memᴰ.tail k) same = own_id m n ms (ground arith) h k same

pub read_back :
    (workspace_id : String) (m : IdleMessage) (ms : List IdleMessage)
    → have_own_ids ms ≡ true
    → Memᴰ m ms
    → str_eq m.workspace_id workspace_id ≡ true
    → created_at_of workspace_id m.id ms ≡ some m.created_at
unfolding created_at_of
read_back workspace_id m [] own h here = elim h [ ]
read_back workspace_id m (x ∷ ms) own (Memᴰ.head f) here =
    subst (λ x. created_at_of workspace_id m.id (x ∷ ms) ≡ some m.created_at) f (ground arith)
read_back workspace_id m (x ∷ ms) own (Memᴰ.tail h) here =
    let other = all-Memᴰ (λ y. not (y.id == x.id)) m ms h (ground arith) in
    let rest = read_back workspace_id m ms (ground arith) h here in ground arith

pub last_of-All {κ} :
    (P : IdleMessage → Type κ) (ms : List IdleMessage) (n : IdleMessage)
    → All P ms
    → last_of ms ≡ some n
    → P n
unfolding last_of
last_of-All P [] n h e = absurd (ground arith)
last_of-All P (m ∷ ms) n (h, hs) e = elim (Option-cases (last_of ms)) [
  | inl f ↦ subst P ((ground arith)) h
  | inr (k, f) ↦ elim (Bool-cases (is_after m k)) [
    | inl g ↦ subst P (ground arith) h
    | inr g ↦ subst P (ground arith) (last_of-All P ms k hs f)
  ]
]

abbrev pub IsUpTo : (m n : IdleMessage) → Type 0
IsUpTo m n = (n ≡ m) ⊎ (suc n.created_at ≤ m.created_at)

written_at : (m n : IdleMessage) → n ≡ m → n.created_at ≡ m.created_at
written_at m n e = ap (λ (x : IdleMessage). x.created_at) e

later_of :
    (m x n : IdleMessage)
    → IsUpTo m x
    → IsUpTo m n
    → (x ≡ m) ⊎ (n ≡ m)
    → (if is_after x n then x else n) ≡ m
later_of m x n (inl f) (inl g) h = elim (Bool-cases (is_after x n)) [
  | inl e ↦ rw e f
  | inr e ↦ rw e g
]
later_of m x n (inl f) (inr g) h =
    let after : is_after x n ≡ true = ground (arith, written_at m x f) in rw after f
later_of m x n (inr f) (inl g) h =
    let before : is_after x n ≡ false = ground (arith, written_at m n g) in rw before g
later_of m x n (inr f) (inr g) (inl h) = absurd (ground (arith, written_at m x h))
later_of m x n (inr f) (inr g) (inr h) = absurd (ground (arith, written_at m n h))

-- A message of the list before which all others were written is the last one.
pub last_of-latest :
    (m : IdleMessage) (ms : List IdleMessage) → Memᴰ m ms → All (IsUpTo m) ms → last_of ms ≡ some m
unfolding last_of
last_of-latest m [] h k = elim h [ ]
last_of-latest m (x ∷ ms) (Memᴰ.head f) (k, ks) = elim (Option-cases (last_of ms)) [
  | inl e ↦ rw (e, last_of) (ap some (sym f))
  | inr (n, e) ↦
      rw (e, last_of) (ap some (later_of m x n k (last_of-All (IsUpTo m) ms n ks e) (inl (sym f))))
]
last_of-latest m (x ∷ ms) (Memᴰ.tail h) (k, ks) =
    rw (last_of-latest m ms h ks, last_of) (ap some (later_of m x m k (inl refl) (inr refl)))
