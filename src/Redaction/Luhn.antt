-- ===== src/Redaction/Luhn.antt =====
-- What Luhn's check detects (packages/core/src/redaction/redact.ts).
use chatbot_integration.Prelude.{
  ℕ, ◌+◌, ◌-◌, ◌≡◌, ◌≢◌, refl, sym, ◌%◌, Bool, true, false, not, List, [], ◌∷◌, ◌++◌, arith,
  Bool-cases, inl, inr, ◌⊎◌,
}
use mathlib.Core.List.{reverse, reverse-append, reverse-cons, append_assoc}
use chatbot_integration.Text.{is_digit}
use chatbot_integration.Redaction.{luhn_from, luhn_value, is_luhn_valid}

same_rest :
    (m n : ℕ) (double : Bool) (s : List ℕ)
    → luhn_from m double s ≡ true
    → luhn_from n double s ≡ true
    → m % 10 ≡ n % 10
unfolding luhn_from
same_rest m n double [] h k = ground arith
same_rest m n double (c ∷ s) h k = ground (
  arith,
  same_rest (m + luhn_value double (c - b'0')) (n + luhn_value double (c - b'0')) (not double) s,
)

luhn_value-injective :
    (sum c d : ℕ) (double : Bool)
    → is_digit c ≡ true
    → is_digit d ≡ true
    → (sum + luhn_value double (c - b'0')) % 10 ≡ (sum + luhn_value double (d - b'0')) % 10
    → c ≡ d
unfolding luhn_value
luhn_value-injective sum c d true hc hd e = ground arith
luhn_value-injective sum c d false hc hd e = ground arith

luhn_from-head :
    (sum c : ℕ) (double : Bool) (s : List ℕ)
    → luhn_from sum double (c ∷ s) ≡ true
    → (is_digit c ≡ true) × (luhn_from (sum + luhn_value double (c - b'0')) (not double) s ≡ true)
unfolding luhn_from
luhn_from-head sum c double s h = ground arith

one_digit :
    (a b : List ℕ) (c d sum : ℕ) (double : Bool)
    → luhn_from sum double (a ++ c ∷ b) ≡ true
    → luhn_from sum double (a ++ d ∷ b) ≡ true
    → c ≡ d
one_digit [] b c d sum double h k =
    let (hc, rc) = luhn_from-head sum c double b h in
    let (hd, rd) = luhn_from-head sum d double b k in
    luhn_value-injective sum c d double hc hd (same_rest _ _ (not double) b rc rd)
one_digit (x ∷ a) b c d sum double h k =
    one_digit a b c d _ (not double) (luhn_from-head sum x double (a ++ c ∷ b) h).1
      (luhn_from-head sum x double (a ++ d ∷ b) k).1

-- The two digits that the check takes for each other when they stand side by side.
abbrev pub IsZeroNine : (c d : ℕ) → Type 0
IsZeroNine c d = ((c ≡ b'0') × (d ≡ b'9')) ⊎ ((c ≡ b'9') × (d ≡ b'0'))

luhn_value-swap :
    (sum c d : ℕ) (double : Bool)
    → is_digit c ≡ true
    → is_digit d ≡ true
    → (sum + luhn_value double (c - b'0') + luhn_value (not double) (d - b'0')) % 10
      ≡ (sum + luhn_value double (d - b'0') + luhn_value (not double) (c - b'0')) % 10
    → (c ≡ d) ⊎ IsZeroNine c d
unfolding luhn_value
luhn_value-swap sum c d true hc hd e = ground arith
luhn_value-swap sum c d false hc hd e = ground arith

swapped :
    (a b : List ℕ) (c d sum : ℕ) (double : Bool)
    → luhn_from sum double (a ++ c ∷ d ∷ b) ≡ true
    → luhn_from sum double (a ++ d ∷ c ∷ b) ≡ true
    → (c ≡ d) ⊎ IsZeroNine c d
swapped [] b c d sum double h k =
    let (hc, h') = luhn_from-head sum c double (d ∷ b) h in
    let (hd, k') = luhn_from-head sum d double (c ∷ b) k in
    luhn_value-swap sum c d double hc hd (
      same_rest _ _ (not (not double)) b (luhn_from-head _ d (not double) b h').1
        (luhn_from-head _ c (not double) b k').1)
swapped (x ∷ a) b c d sum double h k =
    swapped a b c d _ (not double) (luhn_from-head sum x double (a ++ c ∷ d ∷ b) h).1
      (luhn_from-head sum x double (a ++ d ∷ c ∷ b) k).1

backwards : (a b : List ℕ) (c : ℕ) → reverse (a ++ c ∷ b) ≡ reverse b ++ c ∷ reverse a
backwards a b c =
    rw (reverse-append a (c ∷ b), reverse-cons c b, append_assoc (reverse b) (c ∷ []) (reverse a))
      refl

valid_backwards :
    (digits : List ℕ) → is_luhn_valid digits ≡ true → luhn_from 0 false (reverse digits) ≡ true
unfolding is_luhn_valid
valid_backwards digits h = ground arith

valid_at :
    (a b : List ℕ) (c : ℕ)
    → is_luhn_valid (a ++ c ∷ b) ≡ true
    → luhn_from 0 false (reverse b ++ c ∷ reverse a) ≡ true
valid_at a b c h = rw (backwards a b c) at (valid_backwards (a ++ c ∷ b) h)

valid_at_two :
    (a b : List ℕ) (c d : ℕ)
    → is_luhn_valid (a ++ c ∷ d ∷ b) ≡ true
    → luhn_from 0 false (reverse b ++ d ∷ c ∷ reverse a) ≡ true
valid_at_two a b c d h =
    rw (reverse-cons d b, append_assoc (reverse b) (d ∷ []) (c ∷ reverse a)) at
      (valid_at a (d ∷ b) c h)

luhn_detects_digit :
    (a b : List ℕ) (c d : ℕ)
    → is_luhn_valid (a ++ c ∷ b) ≡ true
    → c ≢ d
    → is_luhn_valid (a ++ d ∷ b) ≡ false
luhn_detects_digit a b c d h differ = elim (Bool-cases (is_luhn_valid (a ++ d ∷ b))) [
  | inr e ↦ e
  | inl e ↦
      absurd (
        differ
          (one_digit (reverse b) (reverse a) c d 0 false (valid_at a b c h) (valid_at a b d e)))
]

luhn_detects_swap :
    (a b : List ℕ) (c d : ℕ)
    → is_luhn_valid (a ++ c ∷ d ∷ b) ≡ true
    → c ≢ d
    → (IsZeroNine c d → ⊥)
    → is_luhn_valid (a ++ d ∷ c ∷ b) ≡ false
luhn_detects_swap a b c d h differ other = elim (Bool-cases (is_luhn_valid (a ++ d ∷ c ∷ b))) [
  | inr e ↦ e
  | inl e ↦
      elim (swapped (reverse b) (reverse a) d c 0 false (valid_at_two a b c d h)
        (valid_at_two a b d c e)) [
          | inl same ↦ absurd (differ (sym same))
          | inr (inl (low, high)) ↦ absurd (other (inr (high, low)))
          | inr (inr (high, low)) ↦ absurd (other (inl (low, high)))
        ]
]

-- A slip of the hand: one digit wrong, or two neighbouring digits swapped that are not 0 and 9.
pub data Slip : List ℕ → List ℕ → Type 0 where
  wrong_digit : (a b : List ℕ) (c d : ℕ) → c ≢ d → Slip (a ++ c ∷ b) (a ++ d ∷ b)
  swapped_digits :
      (a b : List ℕ) (c d : ℕ)
      → c ≢ d
      → (IsZeroNine c d → ⊥)
      → Slip (a ++ c ∷ d ∷ b) (a ++ d ∷ c ∷ b)

-- A number that passes the check fails it after one slip: a digit wrong, wherever and whatever it
-- is, or two neighbouring digits swapped, unless they are 0 and 9.
pub luhn_detects : (s t : List ℕ) → Slip s t → is_luhn_valid s ≡ true → is_luhn_valid t ≡ false
luhn_detects _ _ (Slip.wrong_digit a b c d differ) h = luhn_detects_digit a b c d h differ
luhn_detects _ _ (Slip.swapped_digits a b c d differ other) h =
    luhn_detects_swap a b c d h differ other
