-- ===== src/Ports/Grows.antt =====
-- What the ports never take back: messages, handoffs and the jobs that are promised.
use Prim.Native.String
use text.Mathlib.TextPositions.{eq_refl}
use mathlib.Core.List.Memᴰ
use mathlib.Core.List.{append_assoc, append-nil, Memᴰ}
use chatbot_integration.Prelude.{
  ℕ, ◌+◌, ◌≡◌, refl, sym, ap, ◌∙◌, String, Bool, true, false, ◌&&◌, ◌||◌, some, get_or, List, [],
  ◌∷◌, ◌++◌, any, any-append, str_eq, map, arith, eq_iff, subst, inl, inr, Bool-cases,
}
use chatbot_integration.Outbox.{OutboxRow, OutboxRequest, is_add, withdraw, enqueue, cancel}
use chatbot_integration.Ports.Store.{
  Database, JobPayload, StoredMessage, HandoffEvent, enqueue_job, cancel_job,
}

-- Whether a row, relayed or not, asks for a job of this id.
abbrev pub has_job : (queue job_id : String) → List (OutboxRow JobPayload) → Bool
has_job queue job_id rows =
    any (λ r. is_add r.op && (str_eq r.queue queue && str_eq r.job_id job_id)) rows

-- The rows stay as they are, but those of the timers, which may be withdrawn.
abbrev pub KeepsRows : (db db' : Database) → Type 0
KeepsRows db db' =
    (r : OutboxRow JobPayload)
    → str_eq r.queue "waiting_human" ≡ false
    → Memᴰ r db.rows
    → Memᴰ r db'.rows

pub record Grows (db db' : Database) : Type 0 where
  pub messages : (more : List StoredMessage) × (db'.messages ≡ db.messages ++ more)
  pub handoffs : (more : List HandoffEvent) × (db'.handoffs ≡ db.handoffs ++ more)
  pub jobs :
      (queue job_id : String)
      → has_job queue job_id db.rows ≡ true
      → has_job queue job_id db'.rows ≡ true
  pub kept : KeepsRows db db'

-- The same messages, the same handoffs and the same jobs.
pub record NoNews (db db' : Database) : Type 0 where
  pub messages : db'.messages ≡ db.messages
  pub handoffs : db'.handoffs ≡ db.handoffs
  pub jobs : (queue job_id : String) → has_job queue job_id db'.rows ≡ has_job queue job_id db.rows
  pub kept : KeepsRows db db'

pub NoNews-refl : (db : Database) → NoNews db db
NoNews-refl db = record {
  messages = refl;
  handoffs = refl;
  jobs = λ queue job_id. refl;
  kept = λ r other m. m;
}

pub NoNews-trans : (a b c : Database) → NoNews a b → NoNews b c → NoNews a c
NoNews-trans a b c h k = record {
  messages = k.messages ∙ h.messages;
  handoffs = k.handoffs ∙ h.handoffs;
  jobs = λ queue job_id. k.jobs queue job_id ∙ h.jobs queue job_id;
  kept = λ r other m. k.kept r other (h.kept r other m);
}

pub Grows-trans : (a b c : Database) → Grows a b → Grows b c → Grows a c
Grows-trans a b c h k = record {
  messages = (
    h.messages.0 ++ k.messages.0,
    k.messages.1
        ∙ ap (λ l. l ++ k.messages.0) h.messages.1
        ∙ append_assoc a.messages h.messages.0 k.messages.0,
  );
  handoffs = (
    h.handoffs.0 ++ k.handoffs.0,
    k.handoffs.1
        ∙ ap (λ l. l ++ k.handoffs.0) h.handoffs.1
        ∙ append_assoc a.handoffs h.handoffs.0 k.handoffs.0,
  );
  jobs = λ queue job_id e. k.jobs queue job_id (h.jobs queue job_id e);
  kept = λ r other m. k.kept r other (h.kept r other m);
}

module _ (id_text : ℕ → String) where
  -- The id of the job that a request promises.
  abbrev pub asked_id : OutboxRequest JobPayload → Database → String
  asked_id request db = get_or request.job_id (String.◌++◌ "outbox-" (id_text db.next_id))

  pub enqueue-jobs :
      (request : OutboxRequest JobPayload) (db : Database) (queue job_id : String)
      → has_job queue job_id (enqueue_job id_text request db).rows ≡ (
          has_job queue job_id db.rows
          || (str_eq request.queue queue && str_eq (asked_id request db) job_id))
  unfolding enqueue_job enqueue
  enqueue-jobs request db queue job_id =
      rw
        (any-append (λ r. is_add r.op && (str_eq r.queue queue && str_eq r.job_id job_id)) db.rows
          _)
        (ground arith)

  pub enqueue-Grows :
      (request : OutboxRequest JobPayload) (db : Database)
      → Grows db (enqueue_job id_text request db)
  unfolding enqueue_job enqueue
  enqueue-Grows request db = record {
    messages = ([], sym (append-nil db.messages));
    handoffs = ([], sym (append-nil db.handoffs));
    jobs = λ queue job_id e. rw (enqueue-jobs request db queue job_id) (ground arith);
    kept = λ r other m. Memᴰ.append_left _ m;
  }

  -- What was enqueued is promised.
  pub enqueue-promises :
      (request : OutboxRequest JobPayload) (db : Database)
      → has_job request.queue (asked_id request db) (enqueue_job id_text request db).rows ≡ true
  enqueue-promises request db =
      rw (enqueue-jobs request db request.queue (asked_id request db))
        (ground (arith, eq_refl request.queue, eq_refl (asked_id request db)))

  -- A job that was promised already is no news.
  pub enqueue-NoNews :
      (request : OutboxRequest JobPayload) (db : Database) (id : String)
      → request.job_id ≡ some id
      → has_job request.queue id db.rows ≡ true
      → NoNews db (enqueue_job id_text request db)
  unfolding enqueue_job enqueue
  enqueue-NoNews request db id e h = record {
    messages = refl;
    handoffs = refl;
    jobs = λ queue job_id. enqueue-jobs request db queue job_id ∙ held queue job_id;
    kept = λ r other m. Memᴰ.append_left _ m;
  }
    where
      held :
          (queue job_id : String)
          → (has_job queue job_id db.rows
              || (str_eq request.queue queue && str_eq (asked_id request db) job_id))
            ≡ has_job queue job_id db.rows
      held queue job_id =
          elim (Bool-cases (str_eq request.queue queue && str_eq (asked_id request db) job_id)) [
            | inr off ↦ ground arith
            | inl on ↦
                let q : request.queue ≡ queue = (eq_iff request.queue queue).0 (ground arith) in
                let j : id ≡ job_id = (eq_iff id job_id).0 (ground arith) in
                let there : has_job queue job_id db.rows ≡ true =
                  subst (λ i. has_job queue i db.rows ≡ true) j
                    (subst (λ k. has_job k id db.rows ≡ true) q h) in
                ground arith
          ]

withdraw-jobs :
    (now : ℕ) (q j queue job_id : String) (rows : List (OutboxRow JobPayload))
    → has_job queue job_id (map (withdraw now q j) rows) ≡ has_job queue job_id rows
unfolding withdraw
withdraw-jobs now q j queue job_id [] = refl
withdraw-jobs now q j queue job_id (r ∷ rs) = ground (arith, withdraw-jobs now q j queue job_id rs)

-- A row of another queue is not withdrawn.
withdraw-other :
    (now : ℕ) (job_id : String) (r : OutboxRow JobPayload) (rows : List (OutboxRow JobPayload))
    → str_eq r.queue "waiting_human" ≡ false
    → Memᴰ r rows
    → Memᴰ r (map (withdraw now "waiting_human" job_id) rows)
unfolding withdraw
withdraw-other now job_id r [] other m = elim m [ ]
withdraw-other now job_id r (x ∷ rows) other (Memᴰ.head e) =
    let off : str_eq x.queue "waiting_human" ≡ false =
      subst (λ (y : OutboxRow JobPayload). str_eq y.queue "waiting_human" ≡ false) e other in
    Memᴰ.head (rw off e)
withdraw-other now job_id r (x ∷ rows) other (Memᴰ.tail m) =
    Memᴰ.tail (withdraw-other now job_id r rows other m)

pub cancel-NoNews :
    (now : ℕ) (job_id : String) (db : Database)
    → NoNews db (cancel_job now "waiting_human" job_id db)
unfolding cancel_job cancel
cancel-NoNews now j db = record {
  messages = refl;
  handoffs = refl;
  jobs = λ queue job_id.
      rw
        (any-append (λ r. is_add r.op && (str_eq r.queue queue && str_eq r.job_id job_id))
          (map (withdraw now "waiting_human" j) db.rows) _)
        (ground (arith, withdraw-jobs now "waiting_human" j queue job_id db.rows));
  kept = λ r other m. Memᴰ.append_left _ (withdraw-other now j r db.rows other m);
}

pub NoNews-Grows : (a b : Database) → NoNews a b → Grows a b
NoNews-Grows a b h = record {
  messages = ([], h.messages ∙ sym (append-nil a.messages));
  handoffs = ([], h.handoffs ∙ sym (append-nil a.handoffs));
  jobs = λ queue job_id e. h.jobs queue job_id ∙ e;
  kept = h.kept;
}

-- A new id changes nothing else.
abbrev pub drawn : Database → Database
drawn db = record db { next_id = db.next_id + 1 }

pub from_drawn-NoNews : (db db' : Database) → NoNews (drawn db) db' → NoNews db db'
from_drawn-NoNews db db' h = record {
  messages = h.messages;
  handoffs = h.handoffs;
  jobs = h.jobs;
  kept = h.kept;
}

pub from_drawn-Grows : (db db' : Database) → Grows (drawn db) db' → Grows db db'
from_drawn-Grows db db' h = record {
  messages = h.messages;
  handoffs = h.handoffs;
  jobs = h.jobs;
  kept = h.kept;
}

pub drawn-Grows : (db : Database) → Grows db (drawn db)
drawn-Grows db =
    from_drawn-Grows db (drawn db) (NoNews-Grows (drawn db) (drawn db) (NoNews-refl (drawn db)))
