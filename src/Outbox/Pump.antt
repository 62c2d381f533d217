-- ===== src/Outbox/Pump.antt =====
-- When passes of the relay run: `startRelay` and `pruneOutbox` of packages/infra/src/outbox.ts. A
-- pass is asynchronous, so a ring (a notification or the timer) can come while one runs.
pub mod Served
pub mod Prune
mod Tests
use chatbot_integration.Prelude.{
  ℕ, Bool, true, false, ◌&&◌, not, List, [], ◌∷◌, ◌++◌, if◌then◌else◌, ◌-◌, ltb, keep, none, some,
}
use chatbot_integration.Outbox.{OutboxRow}

-- The three flags.
pub record RelayState : Type 0 where
  pub running : Bool
  pub again : Bool
  pub stopped : Bool

-- A state, and whether a pass starts there.
abbrev pub Started : Type 0
Started = RelayState × Bool

-- `drain`, up to the first `await`.
pub ring : RelayState → Started
ring r =
    if r.stopped
    then (r, false)
    else if r.running
    then (record r { again = true }, false)
    else (record r { running = true; again = false }, true)

-- What follows a pass: the `while`, the `catch` and the `finally`.
pub pass_ended : (threw : Bool) → RelayState → Started
pass_ended threw r =
    if not threw && (r.again && not r.stopped)
    then (record r { again = false }, true)
    else (record r { running = false }, false)

pub stop : RelayState → Started
stop r = (record r { stopped = true }, false)

pub data RelayEvent : Type 0 where
  rung stop_called : RelayEvent
  ended : (threw : Bool) → RelayEvent

-- A pass can end only while one runs.
unfoldable pub relay_step : RelayState → RelayEvent → Started
unfolding ring pass_ended stop
relay_step r rung = ring r
relay_step r stop_called = stop r
relay_step r (ended threw) = if r.running then pass_ended threw r else (r, false)

-- What the deletion leaves: a row that is pending, or was relayed no longer ago than a limit.
pub survives : {P : Type 0} → (now older_than : ℕ) → OutboxRow P → Bool
survives now older_than r = elim r.relayed_at [
  | none ↦ true
  | some time ↦ not (ltb time (now - older_than))
]

-- `pruneOutbox`.
pub prune : {P : Type 0} → (now older_than : ℕ) → List (OutboxRow P) → List (OutboxRow P)
prune now older_than rows = keep (survives now older_than) rows
