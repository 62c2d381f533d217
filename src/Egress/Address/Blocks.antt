-- ===== src/Egress/Address/Blocks.antt =====
-- The private IPv4 ranges as blocks of addresses (packages/infra/src/egress.ts).
use chatbot_integration.Prelude.{
  ℕ, ◌+◌, ◌-◌, ◌*◌, ◌/◌, ◌^◌, ◌<◌, ◌≡◌, Bool, List, [], ◌∷◌, any, arith, ◌==◌,
}
use chatbot_integration.Egress.Address.{is_private_octets}

-- A block in CIDR notation: the address of its first octets and the length of its prefix.
abbrev pub block : (a b length : ℕ) → ℕ × ℕ
block a b length = ((a * 256 + b) * 65536, length)

-- This network, the private networks, loopback, link-local, shared address space, and all of
-- multicast and the reserved space above it.
abbrev pub blocks : List (ℕ × ℕ)
blocks =
    block 0 0 8
    ∷ block 10 0 8
    ∷ block 127 0 8
    ∷ block 169 254 16
    ∷ block 172 16 12
    ∷ block 192 168 16
    ∷ block 100 64 10
    ∷ block 224 0 3
    ∷ []

abbrev pub in_block : ℕ → ℕ × ℕ → Bool
in_block address (base, length) = (address / 2 ^ (32 - length)) == (base / 2 ^ (32 - length))

-- The ladder of tests on the first two octets says `private` for exactly the addresses of the
-- blocks that the code's comments name.
is_private_octets_iff_block :
    (a b c d : ℕ)
    → a < 256
    → b < 256
    → c < 256
    → d < 256
    → is_private_octets a b ≡ any (in_block (((a * 256 + b) * 256 + c) * 256 + d)) blocks
unfolding is_private_octets
is_private_octets_iff_block a b c d ha hb hc hd = ground arith
