-- ===== src/Tokens/Groups.antt =====
-- Reading back what `base64UrlEncode` writes (packages/channels/src/jwt.ts).
use mathlib.Core.Path.{ap₂}
use mathlib.Core.List.{append-nil, append_assoc}
use chatbot_integration.Prelude.{
  ℕ, zero, suc, ◌+◌, ◌*◌, ◌/◌, ◌%◌, ◌<◌, ◌≡◌, refl, sym, ap, ◌∙◌, Bool, true, false, ◌||◌, ◌⊎◌, inl,
  inr, some, List, [], ◌∷◌, ◌++◌, map, keep, length, length-map, length-append, ◌==◌, not, All,
  arith,
}
use chatbot_integration.Tokens.Base64.{
  sextets, bytes_of, pad, letter, letter_value, missing, pads, padded, btoa, to_url, from_url,
  strip_pads, base64_url_encode, strip_last, values, atob, base64_url_decode,
}

first_byte : (a b : ℕ) → b < 256 → a / 4 * 4 + (a % 4 * 16 + b / 16) / 16 ≡ a
first_byte a b h = omega arith

second_byte :
    (a b c : ℕ)
    → b < 256
    → c < 256
    → (a % 4 * 16 + b / 16) % 16 * 16 + (b % 16 * 4 + c / 64) / 4 ≡ b
second_byte a b c h k = omega arith

third_byte : (b c : ℕ) → c < 256 → (b % 16 * 4 + c / 64) % 4 * 64 + c % 64 ≡ c
third_byte b c h = omega arith

pub bytes_of-sextets :
    (bytes : List ℕ) → All (λ b. b < 256) bytes → bytes_of (sextets bytes) ≡ bytes
unfolding sextets bytes_of
bytes_of-sextets [] h = refl
bytes_of-sextets (a ∷ []) h = ap (λ x. x ∷ []) (omega arith)
bytes_of-sextets (a ∷ b ∷ []) (ha, (hb, _)) =
    ap₂ (λ x y. x ∷ y ∷ []) (first_byte a b hb) (omega arith)
bytes_of-sextets (a ∷ b ∷ c ∷ bytes) (ha, (hb, (hc, hs))) =
    rw (first_byte a b hb, second_byte a b c hb hc, third_byte b c hc, bytes_of-sextets bytes hs)
      refl

sextets-small : (bytes : List ℕ) → All (λ b. b < 256) bytes → All (λ n. n < 64) (sextets bytes)
unfolding sextets
sextets-small [] h = tt
sextets-small (a ∷ []) (ha, _) = (omega arith, (omega arith, tt))
sextets-small (a ∷ b ∷ []) (ha, (hb, _)) = (omega arith, (omega arith, (omega arith, tt)))
sextets-small (a ∷ b ∷ c ∷ bytes) (ha, (hb, (hc, hs))) =
    (omega arith, (omega arith, (omega arith, (omega arith, sextets-small bytes hs))))

-- No encoding has one letter after the last full group.
sextets-length : (bytes : List ℕ) → (length (sextets bytes) % 4 == 1) ≡ false
unfolding sextets
sextets-length [] = refl
sextets-length (a ∷ []) = refl
sextets-length (a ∷ b ∷ []) = refl
sextets-length (a ∷ b ∷ c ∷ bytes) = ground (arith, sextets-length bytes)

letter_value-letter : (n : ℕ) → n < 64 → letter_value (letter n) ≡ some n
unfolding letter letter_value
letter_value-letter n h = ground arith

from_url-to_url : (n : ℕ) → n < 64 → from_url (to_url (letter n)) ≡ letter n
unfolding letter to_url from_url
from_url-to_url n h = ground arith

-- A letter of the encoding, as it stands in a token.
abbrev IsPlain : ℕ → Type 0
IsPlain c = ((c == pad) ≡ false) × ((c == b'.') ≡ false) × ((c == b'/') ≡ false)

to_url-IsPlain : (n : ℕ) → n < 64 → IsPlain (to_url (letter n))
unfolding letter to_url
to_url-IsPlain n h = (ground arith, ground arith, ground arith)

letter-not_pad : (n : ℕ) → n < 64 → (letter n == pad) ≡ false
unfolding letter
letter-not_pad n h = ground arith

abbrev is_solid : ℕ → Bool
is_solid c = not ((c == 9) || ((c == 10) || ((c == 12) || ((c == 13) || (c == 32)))))

letter-is_solid : (n : ℕ) → n < 64 → is_solid (letter n) ≡ true
unfolding letter
letter-is_solid n h = ground arith

to_url-pads : (n : ℕ) → map to_url (pads n) ≡ pads n
unfolding to_url
to_url-pads zero = refl
to_url-pads (suc n) = rw (to_url-pads n) refl

strip_pads-pads : (n : ℕ) → strip_pads (pads n) ≡ []
unfolding strip_pads
strip_pads-pads zero = refl
strip_pads-pads (suc n) = rw (strip_pads-pads n) refl

-- The letters of a token.
abbrev pub letters : List ℕ → List ℕ
letters ns = map (λ n. to_url (letter n)) ns

strip_pads-letters :
    (ns : List ℕ) (k : ℕ)
    → All (λ n. n < 64) ns
    → strip_pads (map to_url (map letter ns ++ pads k)) ≡ letters ns
unfolding strip_pads
strip_pads-letters [] k h = rw (to_url-pads k) (strip_pads-pads k)
strip_pads-letters (n ∷ ns) k (h, hs) = rw (strip_pads-letters ns k hs, (to_url-IsPlain n h).0) refl

from_url-letters : (ns : List ℕ) → All (λ n. n < 64) ns → map from_url (letters ns) ≡ map letter ns
from_url-letters [] h = refl
from_url-letters (n ∷ ns) (h, hs) = rw (from_url-to_url n h, from_url-letters ns hs) refl

keep-pads : (k : ℕ) → keep is_solid (pads k) ≡ pads k
keep-pads zero = refl
keep-pads (suc k) = rw (keep-pads k) refl

keep-letters :
    (ns : List ℕ) (k : ℕ)
    → All (λ n. n < 64) ns
    → keep is_solid (map letter ns ++ pads k) ≡ map letter ns ++ pads k
keep-letters [] k h = keep-pads k
keep-letters (n ∷ ns) k (h, hs) = rw (letter-is_solid n h, keep-letters ns k hs) refl

strip_last-pad : (s : List ℕ) → strip_last (s ++ pad ∷ []) ≡ s
unfolding strip_last
strip_last-pad [] = refl
strip_last-pad (c ∷ []) = refl
strip_last-pad (c ∷ d ∷ s) = rw (strip_last-pad (d ∷ s)) refl

strip_last-letters :
    (ns : List ℕ) → All (λ n. n < 64) ns → strip_last (map letter ns) ≡ map letter ns
unfolding strip_last
strip_last-letters [] h = refl
strip_last-letters (n ∷ []) (h, hs) = rw (letter-not_pad n h) refl
strip_last-letters (n ∷ m ∷ ns) (h, hs) = rw (strip_last-letters (m ∷ ns) hs) refl

values-letters : (ns : List ℕ) → All (λ n. n < 64) ns → values (map letter ns) ≡ some ns
unfolding values
values-letters [] h = refl
values-letters (n ∷ ns) (h, hs) = rw (letter_value-letter n h, values, values-letters ns hs) refl

length-pads : (k : ℕ) → length (pads k) ≡ k
length-pads zero = refl
length-pads (suc k) = ap suc (length-pads k)

padded_whole : (ns : List ℕ) → (length (padded (map letter ns)) % 4 == 0) ≡ true
padded_whole ns =
    rw
      (
        length-append (map letter ns) (pads (missing (length (map letter ns)))),
        length-pads (missing (length (map letter ns))),
      )
      (ground arith)

missing-cases :
    (n : ℕ) → (n % 4 == 1) ≡ false → (missing n ≡ 0) ⊎ ((missing n ≡ 1) ⊎ (missing n ≡ 2))
missing-cases n h = ground arith

strip_two :
    (ns : List ℕ)
    → All (λ n. n < 64) ns
    → (length ns % 4 == 1) ≡ false
    → strip_last (strip_last (padded (map letter ns))) ≡ map letter ns
strip_two ns h len =
    let s = map letter ns in
    let plain = strip_last-letters ns h in
    rw (length-map ns letter) (elim (missing-cases (length ns) len) [
      | inl e ↦ rw (e, append-nil s, plain) plain
      | inr (inl e) ↦ rw (e, strip_last-pad s) plain
      | inr (inr e) ↦ rw e (
          ap strip_last (ap strip_last (sym (append_assoc s (pad ∷ []) (pad ∷ []))))
          ∙ ap strip_last (strip_last-pad (s ++ pad ∷ []))
          ∙ strip_last-pad s)
    ])

base64_url_encode_lem :
    (bytes : List ℕ) → All (λ b. b < 256) bytes → base64_url_encode bytes ≡ letters (sextets bytes)
unfolding base64_url_encode btoa
base64_url_encode_lem bytes h = strip_pads-letters (sextets bytes) _ (sextets-small bytes h)

-- What was encoded is read back.
pub base64_url_decode-encode :
    (bytes : List ℕ)
    → All (λ b. b < 256) bytes
    → base64_url_decode (base64_url_encode bytes) ≡ some bytes
unfolding base64_url_decode atob
base64_url_decode-encode bytes h =
    let ns = sextets bytes in
    let small = sextets-small bytes h in
    rw
      (
        base64_url_encode_lem bytes h,
        from_url-letters ns small,
        keep-letters ns (missing (length (map letter ns))) small,
        padded_whole ns,
        strip_two ns small (sextets-length bytes),
        values-letters ns small,
        sextets-length bytes,
        bytes_of-sextets bytes h,
      )
      refl

-- Neither a dot, which joins the parts of a token, nor a slash, which ends it in a path.
abbrev pub IsUnbroken : List ℕ → Type 0
IsUnbroken s = All (λ c. (c == b'.') ≡ false) s × All (λ c. (c == b'/') ≡ false) s

letters-IsUnbroken : (ns : List ℕ) → All (λ n. n < 64) ns → IsUnbroken (letters ns)
letters-IsUnbroken [] h = (tt, tt)
letters-IsUnbroken (n ∷ ns) (h, hs) =
    let (pad_free, dot_free, slash_free) = to_url-IsPlain n h in
    let (dots, slashes) = letters-IsUnbroken ns hs in ((dot_free, dots), (slash_free, slashes))

pub base64_url_encode-IsUnbroken :
    (bytes : List ℕ) → All (λ b. b < 256) bytes → IsUnbroken (base64_url_encode bytes)
base64_url_encode-IsUnbroken bytes h =
    rw (base64_url_encode_lem bytes h) (letters-IsUnbroken (sextets bytes) (sextets-small bytes h))
