-- ===== src/Egress/Address/Tests.antt =====
-- Addresses in several spellings (packages/infra/src/egress.ts).
use chatbot_integration.Prelude.{◌≡◌, refl, true, false, some, none, [], ◌∷◌}
use chatbot_integration.Text.{codes}
use chatbot_integration.Egress.Address.{
  is_private_v4, is_private_v6, expand_v6, split_at, number, split_tail, cut_double, group,
  parse_part, groups, fill, private_groups, is_private_octets, embedded_v4, unbracket, is_quad,
}

-- One host, written with a dotted quad and in hexadecimal.
spellings :
    (expand_v6 (codes "::ffff:127.0.0.1") ≡ some (0 ∷ 0 ∷ 0 ∷ 0 ∷ 0 ∷ 0xffff ∷ 0x7f00 ∷ 1 ∷ []))
    × (expand_v6 (codes "::ffff:7f00:1") ≡ some (0 ∷ 0 ∷ 0 ∷ 0 ∷ 0 ∷ 0xffff ∷ 0x7f00 ∷ 1 ∷ []))
    × (expand_v6 (codes "1::2::3") ≡ none)
    × (expand_v6 (codes "1:2:3:4:5:6:7") ≡ none)
unfolding expand_v6 split_tail split_at number cut_double parse_part groups group fill is_quad
spellings = (refl, refl, refl, refl)

judged :
    (is_private_v4 (codes "172.31.0.1") ≡ true)
    × (is_private_v4 (codes "172.32.0.1") ≡ false)
    × (is_private_v6 (codes "[FE80::1%eth0]") ≡ true)
    × (is_private_v6 (codes "::ffff:9.9.9.9") ≡ false)
    × (is_private_v6 (codes "2606:4700::1111") ≡ false)
unfolding is_private_v4 is_private_v6 expand_v6 split_tail split_at number cut_double parse_part
    groups group fill is_quad private_groups is_private_octets embedded_v4 unbracket
judged = (refl, refl, refl, refl, refl)
