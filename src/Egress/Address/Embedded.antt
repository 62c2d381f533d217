-- ===== src/Egress/Address/Embedded.antt =====
-- An IPv4 address inside an IPv6 one (packages/infra/src/egress.ts).
use chatbot_integration.Prelude.{
  ℕ, ◌+◌, ◌/◌, ◌%◌, ◌<◌, ◌≡◌, ◌≢◌, refl, List, [], ◌∷◌, ◌++◌, some, arith, false, ◌⊎◌, ◌==◌, All,
}
use chatbot_integration.Egress.Address.{
  split_at, number, decimal, embedded_v4, is_private_v4, is_private_octets, private_groups,
}

abbrev Avoids : ℕ → List ℕ → Type 0
Avoids sep = All (λ c. (c == sep) ≡ false)

split_at-append :
    (sep : ℕ) (s t : List ℕ) → Avoids sep s → split_at sep (s ++ sep ∷ t) ≡ s ∷ split_at sep t
unfolding split_at
split_at-append sep [] t h = ground arith
split_at-append sep (c ∷ s) t h = rw (h.0, split_at-append sep s t h.1) refl

split_at_one : (sep : ℕ) (s : List ℕ) → Avoids sep s → split_at sep s ≡ s ∷ []
unfolding split_at
split_at_one sep [] h = refl
split_at_one sep (c ∷ s) h = rw (h.0, split_at_one sep s h.1) refl

number-decimal : (n : ℕ) → n < 256 → number (decimal n) ≡ some n
unfolding number
number-decimal n h = ground arith

decimal-Avoids : (n : ℕ) → n < 256 → Avoids b'.' (decimal n)
decimal-Avoids n h = ground arith

-- Printed and read back, the embedded address is judged by its own octets.
pub is_private_v4-embedded_v4 :
    (g6 g7 : ℕ) → is_private_v4 (embedded_v4 g6 g7) ≡ is_private_octets (g6 / 256 % 256) (g6 % 256)
unfolding is_private_v4 split_at is_private_octets embedded_v4
is_private_v4-embedded_v4 g6 g7 =
    rw
      (
        split_at-append b'.' (decimal (g6 / 256 % 256)) _
            (decimal-Avoids (g6 / 256 % 256) (omega arith)),
        split_at-append b'.' (decimal (g6 % 256)) _ (decimal-Avoids (g6 % 256) (omega arith)),
        split_at-append b'.' (decimal (g7 / 256 % 256)) _
            (decimal-Avoids (g7 / 256 % 256) (omega arith)),
        split_at_one b'.' (decimal (g7 % 256)) (decimal-Avoids (g7 % 256) (omega arith)),
        number-decimal (g6 / 256 % 256) (omega arith),
        number-decimal (g6 % 256) (omega arith),
        number-decimal (g7 / 256 % 256) (omega arith),
        number-decimal (g7 % 256) (omega arith),
      )
      refl

-- An IPv4 address in any of the four forms that wrap one, `::ffff:a.b.c.d`, `::ffff:0:a.b.c.d`,
-- `::a.b.c.d` and `64:ff9b::a.b.c.d`, is refused exactly when the address itself is, where some
-- group before the last is not 0.
pub private_groups_embedded :
    (g1 g2 g3 g4 g5 g6 g7 g0 : ℕ)
    → ((g0 ≡ 0)
        × (g1 ≡ 0)
        × (g2 ≡ 0)
        × (g3 ≡ 0)
        × ((g4 ≡ 0) × (g5 ≡ 0xffff) ⊎ (g4 ≡ 0xffff) × (g5 ≡ 0) ⊎ (g4 ≡ 0) × (g5 ≡ 0)))
      ⊎ ((g0 ≡ 0x64) × (g1 ≡ 0xff9b))
    → (g0 + g1 + g2 + g3 + g4 + g5 + g6 ≢ 0)
    → private_groups (g0 ∷ g1 ∷ g2 ∷ g3 ∷ g4 ∷ g5 ∷ g6 ∷ g7 ∷ [])
      ≡ is_private_octets (g6 / 256 % 256) (g6 % 256)
unfolding private_groups
private_groups_embedded g1 g2 g3 g4 g5 g6 g7 g0 shape big =
    ground (arith, is_private_v4-embedded_v4 g6 g7)
