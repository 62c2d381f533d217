-- ===== src/Outbox/Pump/Served.antt =====
-- No ring is lost, and no two passes overlap (packages/infra/src/outbox.ts).
use chatbot_integration.Prelude.{
  ℕ, suc, ◌+◌, ◌≡◌, refl, ap, ◌∙◌, Bool, true, false, List, [], ◌∷◌, arith, all, if◌then◌else◌,
}
use chatbot_integration.Outbox.Pump.{RelayState, RelayEvent, rung, stop_called, ended, relay_step}

abbrev pub relay_run : RelayState → List RelayEvent → RelayState
relay_run r [] = r
relay_run r (e ∷ es) = relay_run (relay_step r e).0 es

-- How many passes a history starts, and how many of them end in it.
abbrev pub starts : RelayState → List RelayEvent → ℕ
starts r [] = 0
starts r (e ∷ es) =
    let rest = starts (relay_step r e).0 es in if (relay_step r e).1 then suc rest else rest

abbrev pub is_end : RelayState → RelayEvent → Bool
is_end r (ended threw) = r.running
is_end r _ = false

abbrev pub ends : RelayState → List RelayEvent → ℕ
ends r [] = 0
ends r (e ∷ es) = let rest = ends (relay_step r e).0 es in if is_end r e then suc rest else rest

abbrev pub as_number : Bool → ℕ
as_number true = 1
as_number false = 0

one_step :
    (r : RelayState) (e : RelayEvent)
    → as_number r.running + as_number (relay_step r e).1
      ≡ as_number (relay_step r e).0.running + as_number (is_end r e)
unfolding relay_step
one_step r rung = ground arith
one_step r stop_called = ground arith
one_step r (ended threw) = ground arith

-- After any history the passes that were started and have not ended are one while the relay is
-- marked as running and none otherwise, so no two passes overlap.
one_pass :
    (r : RelayState) (es : List RelayEvent)
    → as_number r.running + starts r es ≡ as_number (relay_run r es).running + ends r es
one_pass r [] = ground arith
one_pass r (e ∷ es) = ground (arith, one_step r e, one_pass (relay_step r e).0 es)

abbrev pub is_rung : RelayEvent → Bool
is_rung rung = true
is_rung _ = false

abbrev busy : RelayState
busy = record { running = true; again = true; stopped = false }

busy_rings :
    (es : List RelayEvent)
    → all is_rung es ≡ true
    → (starts busy es ≡ 0) × (relay_run busy es ≡ busy)
unfolding relay_step
busy_rings [] a = (refl, refl)
busy_rings (rung ∷ es) a = busy_rings es a
busy_rings (stop_called ∷ es) a = cc
busy_rings (ended threw ∷ es) a = cc

first_ring :
    (r : RelayState) → r.running ≡ true → r.stopped ≡ false → relay_step r rung ≡ (busy, false)
unfolding relay_step
first_ring r h k = rw (h, k) refl

busy-ended :
    relay_step busy (ended false)
    ≡ (record { running = true; again = false; stopped = false }, true)
unfolding relay_step
busy-ended = refl

-- However often the relay is rung while a pass runs, no pass starts meanwhile, and one that then
-- ends without throwing is followed by exactly one more, unless the relay was stopped.
ring_served :
    (r : RelayState) (es : List RelayEvent)
    → r.running ≡ true
    → r.stopped ≡ false
    → all is_rung es ≡ true
    → (starts r (rung ∷ es) ≡ 0)
      × (relay_step (relay_run r (rung ∷ es)) (ended false)
          ≡ (record { running = true; again = false; stopped = false }, true))
ring_served r es h k a =
    let (none_yet, still) = busy_rings es a in
    let first = first_ring r h k in
    (
      rw first none_yet,
      ap (λ q. relay_step q (ended false))
            (ap (λ (o : RelayState × Bool). relay_run o.0 es) first ∙ still)
          ∙ busy-ended,
    )
