-- ===== src/Outbox/Tests.antt =====
-- The outbox over a broker that holds job ids, and the theorems there.
use chatbot_integration.Prelude.{
  ℕ, zero, suc, ◌≡◌, refl, String, Bool, false, none, some, List, [], ◌∷◌, any, str_eq, eq_iff,
  arith, if◌then◌else◌, ◌&&◌, map,
}
use mathlib.Core.Option
use chatbot_integration.Outbox.{
  OutboxRow, OutboxRequest, Broker, Pass, add, enqueue, relay_once, relay_rows, relay_row, claim,
  queue_exists, hand_over, settle, set_where_id, sort_by_id, insert_by_id,
}
use chatbot_integration.Outbox.Retaken.{
  HoldsAll, HoldsJobs, add_all, relayed_if_of, relay_rows_again,
}
use chatbot_integration.Outbox.Relay.{IsDown, IsUp, relay_once_livelock, waiting}
use chatbot_integration.Outbox.Drain.{relay_once_drains}

-- A payload is a text; the broker is the list of the jobs that it holds.
abbrev Held : Type 0
Held = List (String × String)

abbrev holds : String → String → Held → Bool
holds queue job_id held = any (λ h. str_eq h.0 queue && str_eq h.1 job_id) held

abbrev redis : Broker String
redis = record {
  State = Held;
  add_job =
      λ row s. ((if holds row.queue row.job_id s then s else (row.queue, row.job_id) ∷ s), none);
  remove_job = λ queue job_id s. (s, none);
}

abbrev away : Broker String
away = record {
  State = Held;
  add_job = λ row s. (s, some "connection refused");
  remove_job = λ queue job_id s. (s, some "connection refused");
}

abbrev ask : String → OutboxRequest String
ask job_id = record {
  queue = "outbound";
  name = "send";
  payload = "p";
  job_id = some job_id;
  delay_ms = none;
  options = none;
  workspace_id = none;
}

abbrev row : ℕ → String → OutboxRow String
row id job_id = record {
  id = id;
  workspace_id = none;
  op = add;
  queue = "outbound";
  name = "send";
  payload = "p";
  job_id = job_id;
  delay_ms = none;
  options = none;
  attempts = 0;
  last_error = none;
  relayed_at = none;
}

enqueue_test : enqueue 4 "u4" (ask "a") (row 1 "b" ∷ []) ≡ (row 1 "b" ∷ row 4 "a" ∷ [], (4, "a"))
unfolding enqueue
enqueue_test = refl

abbrev unlocked : ℕ → Bool
unlocked id = false

abbrev pass : {S : Type 0} → List (OutboxRow String) → S → Pass String S
pass rows s = record { rows = rows; broker = s; relayed = 0; failed = 0 }

abbrev two_rows : List (OutboxRow String)
two_rows = row 7 "b" ∷ row 3 "a" ∷ []

-- Rows go in the order of their ids.
relay_test :
    Option.map
      (λ (q : Pass String Held). q.broker)
      (relay_once redis 9 unlocked 1 (pass two_rows []))
    ≡ some (("outbound", "b") ∷ ("outbound", "a") ∷ [])
unfolding relay_once relay_rows relay_row claim queue_exists hand_over settle set_where_id
    sort_by_id insert_by_id
relay_test = refl

redis-HoldsJobs : HoldsJobs redis 9 unlocked holds
redis-HoldsJobs = record {
  add_again = λ r s h. rw h;
  add_held = λ r s s' h. ground (arith, eq_iff r.queue r.queue, eq_iff r.job_id r.job_id);
  held_on = λ queue job_id r s h. ground arith;
}

abbrev taken : Pass String Held
taken = relay_rows redis 9 unlocked two_rows (pass two_rows [])

abbrev meanwhile : List (OutboxRow String)
meanwhile = row 8 "c" ∷ row 9 "a" ∷ []

relay_rows_again_example :
    let s = add_all redis 9 unlocked meanwhile taken.broker in
    let again = relay_rows redis 9 unlocked two_rows (pass two_rows s) in
    (again.broker ≡ s)
    × (again.rows ≡ map (relayed_if_of redis 9 unlocked two_rows) two_rows)
    × (again.relayed ≡ 2)
    × (again.failed ≡ 0)
    × HoldsAll redis 9 unlocked holds redis-HoldsJobs two_rows again.broker
unfolding relay_rows relay_row hand_over settle queue_exists
relay_rows_again_example =
    relay_rows_again redis 9 unlocked holds redis-HoldsJobs two_rows meanwhile (pass two_rows [])
      ((refl, refl), ((refl, refl), tt)) refl

-- The queues hold each job once.
taken_test :
    add_all redis 9 unlocked meanwhile taken.broker
    ≡ ("outbound", "c") ∷ ("outbound", "a") ∷ ("outbound", "b") ∷ []
unfolding relay_rows relay_row hand_over settle queue_exists add_all set_where_id
taken_test = refl

away-IsDown : IsDown away 9 unlocked
away-IsDown = record {
  add_fails = λ r s. (s, "connection refused", refl);
  remove_fails = λ queue job_id s. (s, "connection refused", refl);
}

abbrev many : ℕ → List (OutboxRow String)
many zero = []
many (suc n) = row n "a" ∷ many n

relay_once_livelock_example : relay_once away 9 unlocked 50 (pass (many 100) []) ≡ none
relay_once_livelock_example =
    relay_once_livelock away 9 unlocked 50 (pass (many 100) []) away-IsDown (omega arith)

redis-IsUp : IsUp redis 9 unlocked
redis-IsUp = record { add_works = λ r s. (_, refl); remove_works = λ queue job_id s. (s, refl) }

relay_once_drains_example :
    (q : Pass String Held) × (relay_once redis 9 unlocked 5 (pass two_rows []) ≡ some q)
    × (waiting redis 9 unlocked q.rows ≡ 0)
relay_once_drains_example =
    relay_once_drains redis 9 unlocked redis-IsUp 5 (pass two_rows [])
      (unfold queue_exists in (refl, (refl, tt))) (omega arith)
