-- ===== src/Jobs.antt =====
-- server/src/queue: the job queue, its poller and the backoff (poller.js, enqueue.js,
-- utils/backoff.js). The table stands alone: no service of the program enqueues a job yet.
pub mod Backoff
pub mod Claims
pub mod Counts
pub mod Cycle
use ticket_booking_system.Common.{
  ℕ, ◌+◌, ◌*◌, ◌/◌, ◌^◌, min, Bool, true, false, ◌&&◌, Option, none, some, List, [], ◌∷◌, map, ltb,
  leb, ◌==◌, if◌then◌else◌, contains, length, zero, suc,
}
use ticket_booking_system.Sql.{select, update_where}
use ticket_booking_system.Db.{Env, make_interval}

-- The texts of the column `status`; nothing writes FAILED.
pub data JobStatus : Type 0 where
  pending running done failed dead : JobStatus

-- A row of job_queue (migration 007); the type, the payload and an error are only passed on.
pub record Job : Type 0 where
  pub id : ℕ
  pub type : ℕ
  pub payload : ℕ
  pub run_at : ℕ
  pub status : JobStatus
  pub attempts : ℕ
  pub last_error : Option ℕ

abbrev pub is_pending : JobStatus → Bool
is_pending JobStatus.pending = true
is_pending _ = false

abbrev pub new_job : ℕ → ℕ → ℕ → ℕ → Job
new_job id type payload run_at = record {
  id = id;
  type = type;
  payload = payload;
  run_at = run_at;
  status = JobStatus.pending;
  attempts = 0;
  last_error = none;
}

-- `enqueueJob`; `id` is the key that the column's default draws.
unfoldable pub enqueue_job : ℕ → ℕ → ℕ → ℕ → List Job → List Job
enqueue_job id type payload run_at jobs = new_job id type payload run_at ∷ jobs

-- `2 ** (attempts - 1)` times the base of 1000 ms; half the base where no attempt was made.
abbrev pub exponential : ℕ → ℕ
exponential zero = 500
exponential (suc n) = 1000 * 2 ^ n

abbrev pub capped_exponential : ℕ → ℕ
capped_exponential attempts = min 60000 (exponential attempts)

-- `nextBackoffMs` with its default options; `Math.random()` is `draw / 2 ^ 53`.
unfoldable pub next_backoff_ms : ℕ → ℕ → ℕ
next_backoff_ms draw attempts = draw * capped_exponential attempts / 2 ^ 53

-- What may be claimed: the rows that the predicate selects and no other transaction has locked.
abbrev pub is_due : ℕ → (ℕ → Bool) → Job → Bool
is_due now locked j =
    is_pending j.status && leb j.run_at now && (if locked j.id then false else true)

-- `ORDER BY run_at`, by insertion.
unfoldable pub insert_by_run_at : Job → List Job → List Job
insert_by_run_at j [] = j ∷ []
insert_by_run_at j (k ∷ ks) =
    let rest = insert_by_run_at j ks in if ltb k.run_at j.run_at then k ∷ rest else j ∷ k ∷ ks

unfoldable pub by_run_at : List Job → List Job
unfolding insert_by_run_at
by_run_at [] = []
by_run_at (j ∷ js) = insert_by_run_at j (by_run_at js)

-- `LIMIT n`
unfoldable pub take : ℕ → List Job → List Job
take n [] = []
take zero (j ∷ js) = []
take (suc n) (j ∷ js) = j ∷ take n js

-- The subquery of the claim.
unfoldable pub due_ids : ℕ → (ℕ → Bool) → ℕ → List Job → List ℕ
unfolding select by_run_at take
due_ids now locked limit jobs =
    map (λ j. j.id) (take limit (by_run_at (select (is_due now locked) jobs)))

abbrev pub started_row : Job → Job
started_row j = record j { status = JobStatus.running; attempts = j.attempts + 1 }

-- `claimJobs`: the claimed rows, and the table after it.
unfoldable pub claim_jobs : ℕ → (ℕ → Bool) → ℕ → List Job → List Job × List Job
unfolding due_ids select update_where
claim_jobs now locked limit jobs =
    let ids = due_ids now locked limit jobs in
    (
      map started_row (select (λ j. contains ids j.id) jobs),
      update_where (λ j. contains ids j.id) started_row jobs,
    )

-- `completeJob`
unfoldable pub complete_job : ℕ → List Job → List Job
unfolding update_where
complete_job id jobs =
    update_where (λ j. j.id == id) (λ j. record j { status = JobStatus.done }) jobs

-- `failJob`: given up after the last attempt, and otherwise due again after the backoff.
unfoldable pub fail_job : Env → ℕ → ℕ → Job → ℕ → List Job → List Job
unfolding update_where next_backoff_ms
fail_job env now draw job message jobs =
    if leb env.job_max_attempts job.attempts
    then update_where (λ j. j.id == job.id)
        (λ j. record j { status = JobStatus.dead; last_error = some message }) jobs
    else update_where (λ j. j.id == job.id)
        (λ j. record j {
          status = JobStatus.pending;
          run_at = now + next_backoff_ms draw job.attempts * 1000;
          last_error = some message;
        })
        jobs

-- What the process supplies while a batch runs: the registered handlers, each of which returns the
-- message of the error that it throws, the message where none is registered, and for each job the
-- instant at which it ends and the number that is drawn.
pub record Runtime : Type 0 where
  pub handler : ℕ → Option (ℕ → Option ℕ)
  pub no_handler : ℕ → ℕ
  pub ended_at : ℕ → ℕ
  pub draw : ℕ → ℕ

-- The error that a job ends with.
unfoldable pub run_job : Runtime → Job → Option ℕ
run_job runtime job = elim (runtime.handler job.type) [
  | none ↦ some (runtime.no_handler job.type)
  | some handle ↦ handle job.payload
]

unfoldable pub settle_job : Env → Runtime → Job → List Job → List Job
unfolding run_job complete_job fail_job
settle_job env runtime job jobs = elim (run_job runtime job) [
  | none ↦ complete_job job.id jobs
  | some message ↦ fail_job env (runtime.ended_at job.id) (runtime.draw job.id) job message jobs
]

-- The batch in the order in which its jobs end; they run at the same time.
unfoldable pub settle_jobs : Env → Runtime → List Job → List Job → List Job
unfolding settle_job
settle_jobs env runtime [] jobs = jobs
settle_jobs env runtime (j ∷ js) jobs = settle_jobs env runtime js (settle_job env runtime j jobs)

-- `runPollCycle`: how many jobs it claimed, and the table after it.
unfoldable pub run_poll_cycle : Env → Runtime → ℕ → (ℕ → Bool) → ℕ → List Job → ℕ × List Job
unfolding claim_jobs settle_jobs
run_poll_cycle env runtime now locked limit jobs =
    let (claimed, after) = claim_jobs now locked limit jobs in
    (length claimed, settle_jobs env runtime claimed after)
