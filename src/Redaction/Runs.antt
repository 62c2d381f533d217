-- ===== src/Redaction/Runs.antt =====
-- Runs of digits, and where they end: packages/core/src/redaction/redact.ts.
use chatbot_integration.Prelude.{
  ℕ, zero, suc, ◌+◌, ◌≡◌, ◌≤◌, refl, ◌∙◌, Bool, true, false, not, List, [], ◌∷◌, ◌++◌, some, arith,
  length, take, all, inl, inr, Bool-cases, ◌&&◌, leb, ◌==◌, dec_lt,
}
use chatbot_integration.Text.{is_digit}
use chatbot_integration.Redaction.{
  digits_of, match_run, longest_middle, is_luhn_valid, is_middle, is_run_char, begins_with_digit,
}

-- A text at which a run of digits breaks off: its end, or what cannot stand in a run.
abbrev pub breaks_run : List ℕ → Bool
breaks_run [] = true
breaks_run (c ∷ s) = not (is_run_char c)

pub digit-run_char : (c : ℕ) → is_digit c ≡ true → is_run_char c ≡ true
digit-run_char c h = rw h refl

pub no_run_char-digit : (c : ℕ) → not (is_run_char c) ≡ true → is_digit c ≡ false
no_run_char-digit c h = elim (Bool-cases (is_digit c)) [
  | inl e ↦ let bad : false ≡ true = rw (digit-run_char c e) at h in cc
  | inr e ↦ e
]

breaks-no_digit : (s : List ℕ) → breaks_run s ≡ true → begins_with_digit s ≡ false
breaks-no_digit [] h = refl
breaks-no_digit (c ∷ s) h = no_run_char-digit c h

pub and_false : (b : Bool) → b && false ≡ false
and_false true = refl
and_false false = refl

leb-suc : (m n : ℕ) → leb (suc m) (suc n) ≡ leb m n
leb-suc m n = ground arith

not-true : (b : Bool) → not b ≡ true → b ≡ false
not-true b h = ground arith

is_middle-nil : (n : ℕ) (s : List ℕ) → breaks_run s ≡ true → is_middle n s ≡ false
unfolding is_middle
is_middle-nil zero [] h = refl
is_middle-nil (suc n) [] h = and_false (leb (suc n) 0)
is_middle-nil zero (c ∷ s) h = rw (no_run_char-digit c h, and_false (leb 0 (suc (length s)))) refl
is_middle-nil (suc n) (c ∷ s) h =
    rw (not-true (is_run_char c) h, and_false (leb (suc n) (suc (length s)))) refl

all-head :
    (d : ℕ) (ds : List ℕ)
    → all is_digit (d ∷ ds) ≡ true
    → (is_digit d ≡ true) × (all is_digit ds ≡ true)
all-head d ds h = ground arith

is_middle-digits :
    (n : ℕ) (ds s : List ℕ)
    → all is_digit ds ≡ true
    → breaks_run s ≡ true
    → is_middle n (ds ++ s) ≡ (suc n == length ds)
unfolding is_middle
is_middle-digits n [] s h b = rw (is_middle-nil n s b) (ground arith)
is_middle-digits zero (d ∷ []) s h b = rw ((all-head d [] h).0, breaks-no_digit s b) (ground arith)
is_middle-digits zero (d ∷ e ∷ ds) s h b =
    let (hd, hs) = all-head d (e ∷ ds) h in rw (hd, (all-head e ds hs).0) (ground arith)
is_middle-digits (suc n) (d ∷ ds) s h b =
    let (hd, hs) = all-head d ds h in
    rw (leb-suc n (length (ds ++ s)), digit-run_char d hd)
      (is_middle-digits n ds s hs b ∙ ground arith)

longest_middle-digits :
    (extra m : ℕ) (ds s : List ℕ)
    → all is_digit ds ≡ true
    → breaks_run s ≡ true
    → length ds ≡ suc m
    → 11 ≤ m
    → m ≤ 11 + extra
    → longest_middle extra (ds ++ s) ≡ some m
unfolding longest_middle
longest_middle-digits zero m ds s h b len low high =
    rw (is_middle-digits 11 ds s h b) (ground arith)
longest_middle-digits (suc extra) m ds s h b len low high = elim (dec_lt m (12 + extra)) [
  | yes small ↦
      let other : (suc (12 + extra) == length ds) ≡ false = ground arith in
      rw (is_middle-digits (12 + extra) ds s h b, other)
        (longest_middle-digits extra m ds s h b len low (omega arith))
  | no big ↦
      let same : (suc (12 + extra) == length ds) ≡ true = ground arith in
      rw (is_middle-digits (12 + extra) ds s h b, same) (ground arith)
]

pub match_run-digits :
    (m d : ℕ) (ds s : List ℕ)
    → all is_digit (d ∷ ds) ≡ true
    → breaks_run s ≡ true
    → length ds ≡ suc m
    → 11 ≤ m
    → m ≤ 23
    → match_run false (d ∷ (ds ++ s)) ≡ some (m + 2)
unfolding match_run
match_run-digits m d ds s h b len low high =
    let (hd, hs) = all-head d ds h in
    rw (hd, longest_middle-digits 12 m ds s hs b len low (omega arith)) refl

pub digits_of-digits : (ds : List ℕ) → all is_digit ds ≡ true → digits_of ds ≡ ds
digits_of-digits [] h = refl
digits_of-digits (d ∷ ds) h = let (hd, hs) = all-head d ds h in rw (hd, digits_of-digits ds hs) refl

pub take-length : (ds s : List ℕ) → take (length ds) (ds ++ s) ≡ ds
take-length [] s = refl
take-length (d ∷ ds) s = rw (take-length ds s) refl

pub luhn_length : (ds : List ℕ) → is_luhn_valid ds ≡ true → (13 ≤ length ds) × (length ds ≤ 19)
unfolding is_luhn_valid
luhn_length ds h = ground arith
