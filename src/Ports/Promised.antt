-- ===== src/Ports/Promised.antt =====
-- What stands in the outbox for good: the jobs that packages/infra/src/effect-ports.ts and
-- apps/worker/src/processors/ai-turn.ts write there.
use Prim.Native.String
use text.Mathlib.TextPositions.{eq_refl}
use mathlib.Core.List.Memᴰ
use mathlib.Core.List.{Memᴰ}
use chatbot_integration.Prelude.{
  ℕ, ◌≡◌, refl, ap, String, true, false, ◌&&◌, none, some, get_or, List, [], ◌∷◌, str_eq, arith,
  subst,
}
use chatbot_integration.Outbox.{OutboxRow, OutboxRequest, add, is_add, enqueue}
use chatbot_integration.Ports.Store.{Database, JobPayload, enqueue_job}
use chatbot_integration.Ports.Grows.{Grows, has_job, asked_id}

-- A row that waits to be relayed asks for this job with this payload.
unfoldable pub IsPromised :
    (queue job_id : String) → JobPayload → List (OutboxRow JobPayload) → Type 0
IsPromised queue job_id payload rows =
    (r : OutboxRow JobPayload) × Memᴰ r rows
    × (r.op ≡ add)
    × (r.relayed_at ≡ none)
    × (r.queue ≡ queue)
    × (r.job_id ≡ job_id)
    × (r.payload ≡ payload)

pub IsPromised-Grows :
    (queue job_id : String) (payload : JobPayload) (db db' : Database)
    → str_eq queue "waiting_human" ≡ false
    → Grows db db'
    → IsPromised queue job_id payload db.rows
    → IsPromised queue job_id payload db'.rows
unfolding IsPromised
IsPromised-Grows queue job_id payload db db' other g (r, m, op, pending, q, j, p) =
    (r, g.kept r (rw q other) m, op, pending, q, j, p)

pub IsPromised-has_job :
    (queue job_id : String) (payload : JobPayload) (rows : List (OutboxRow JobPayload))
    → IsPromised queue job_id payload rows
    → has_job queue job_id rows ≡ true
unfolding IsPromised
IsPromised-has_job queue job_id payload rows (r, m, op, pending, q, j, p) = asked rows m
  where
    asked : (rows : List (OutboxRow JobPayload)) → Memᴰ r rows → has_job queue job_id rows ≡ true
    asked [] m = elim m [ ]
    asked (x ∷ rows) (Memᴰ.head e) =
        let mine : (is_add x.op && (str_eq x.queue queue && str_eq x.job_id job_id)) ≡ true =
          subst
            (λ (y : OutboxRow JobPayload).
              (is_add y.op && (str_eq y.queue queue && str_eq y.job_id job_id)) ≡ true)
            e (rw (op, q, j) (ground (arith, eq_refl queue, eq_refl job_id))) in
        ground arith
    asked (x ∷ rows) (Memᴰ.tail m) = ground (arith, asked rows m)

-- What was enqueued waits there, under the id that it asked for or was given.
pub enqueue-asked :
    (id_text : ℕ → String) (request : OutboxRequest JobPayload) (db : Database)
    → IsPromised request.queue
        (asked_id id_text request db)
        request.payload
        (enqueue_job id_text request db).rows
unfolding IsPromised enqueue_job enqueue
enqueue-asked id_text request db =
    (_, Memᴰ.append_right db.rows (Memᴰ.head refl), refl, refl, refl, refl, refl)

pub enqueue-IsPromised :
    (id_text : ℕ → String) (request : OutboxRequest JobPayload) (id : String) (db : Database)
    → request.job_id ≡ some id
    → IsPromised request.queue id request.payload (enqueue_job id_text request db).rows
enqueue-IsPromised id_text request id db e =
    subst (λ i. IsPromised request.queue i request.payload (enqueue_job id_text request db).rows)
      (ap (λ o. get_or o (String.◌++◌ "outbox-" (id_text db.next_id))) e)
      (enqueue-asked id_text request db)
