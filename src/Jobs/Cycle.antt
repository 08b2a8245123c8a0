-- ===== src/Jobs/Cycle.antt =====
-- What a whole poll cycle does to each job.
use mathlib.Core.Path.{subst}
use ticket_booking_system.Common.{
  ℕ, ◌+◌, ◌*◌, ◌≡◌, refl, ◌∙◌, ap, inl, inr, Bool, true, false, none, some, List, [], ◌∷◌, map,
  arith, length, length-map, leb, ◌==◌, if◌then◌else◌, ==→eq, ==_refl, contains, IsDistinct,
  Bool-cases, Option-cases, All, All-mono, All-unit,
}
use ticket_booking_system.Sql.{select, update_where}
use ticket_booking_system.Sql.Laws.{Rows, Rows-refl, Rows-trans, Rows-mono, Rows-update_where}
use ticket_booking_system.Sql.Keys.{IsUnique, select-IsDistinct}
use ticket_booking_system.Db.{Env}
use ticket_booking_system.Jobs.{
  Job, JobStatus, Runtime, run_job, next_backoff_ms, settle_job, settle_jobs, is_due, due_ids,
  started_row, claim_jobs, run_poll_cycle,
}
use ticket_booking_system.Jobs.Counts.{length-claim_jobs}
use ticket_booking_system.Jobs.Claims.{same_job, IsClaimedRow, claim_jobs_due, started-Within}

module _ (env : Env) (runtime : Runtime) where
  -- What becomes of a job that was started: done if its handler succeeds, given up after the last
  -- attempt, and otherwise due again after the backoff.
  abbrev pub settled_row : Job → Job → Job
  settled_row j = elim (run_job runtime j) [
    | none ↦ λ r. record r { status = JobStatus.done }
    | some message ↦
        if leb env.job_max_attempts j.attempts
        then (λ r. record r { status = JobStatus.dead; last_error = some message })
        else (λ r. record r {
          status = JobStatus.pending;
          run_at = runtime.ended_at j.id + next_backoff_ms (runtime.draw j.id) j.attempts * 1000;
          last_error = some message;
        })
  ]

  abbrev IsSettledBy : Job → Job → Job → Type 0
  IsSettledBy j r t =
      ((r.id == j.id) ≡ true → t ≡ settled_row j r) × ((r.id == j.id) ≡ false → t ≡ r)

  settle_job-update_where :
      (j : Job) (jobs : List Job)
      → settle_job env runtime j jobs ≡ update_where (λ r. r.id == j.id) (settled_row j) jobs
  unfolding settle_job
  settle_job-update_where j jobs = elim (Option-cases (run_job runtime j)) [
    | inl succeeded ↦ rw (succeeded, settle_job, settled_row) refl
    | inr (message, failed) ↦ elim (Bool-cases (leb env.job_max_attempts j.attempts)) [
      | inl last ↦ rw (failed, settle_job, settled_row) (rw (last, settle_job, settled_row) refl)
      | inr more ↦ rw (failed, settle_job, settled_row) (rw (more, settle_job, settled_row) refl)
    ]
  ]

  settle_job-Rows :
      (j : Job) (jobs : List Job) → Rows (IsSettledBy j) jobs (settle_job env runtime j jobs)
  settle_job-Rows j jobs = rw (settle_job-update_where j jobs) (
      Rows-update_where (λ r. Unit {0}) (IsSettledBy j) (λ r. r.id == j.id) (settled_row j) jobs
        (λ r _ e. (λ _. refl, λ f. absurd (cc))) (λ r _ e. (λ f. absurd (cc), λ _. refl))
        (All-unit jobs))

  -- A batch: a row of one of its jobs is settled by that job, any other row stays.
  abbrev IsSettled : List Job → Job → Job → Type 0
  IsSettled js r t =
      (contains (map (λ j. j.id) js) r.id ≡ false → t ≡ r)
      × All (λ j. (r.id == j.id) ≡ true → t ≡ settled_row j r) js

  pub settled_row-id : (j r : Job) → (settled_row j r).id ≡ r.id
  settled_row-id j r = elim (Option-cases (run_job runtime j)) [
    | inl succeeded ↦ rw (succeeded, settled_row) refl
    | inr (message, failed) ↦ elim (Bool-cases (leb env.job_max_attempts j.attempts)) [
      | inl last ↦ rw (failed, settled_row) (rw (last, settled_row) refl)
      | inr more ↦ rw (failed, settled_row) (rw (more, settled_row) refl)
    ]
  ]

  others :
      (js : List Job) (a : ℕ)
      → contains (map (λ j. j.id) js) a ≡ false
      → All (λ j. (a == j.id) ≡ false) js
  others [] a h = tt
  others (j ∷ js) a h = (ground arith, others js a (ground arith))

  IsSettled-cons :
      (j : Job) (js : List Job) (r s t : Job)
      → contains (map (λ j. j.id) js) j.id ≡ false
      → IsSettledBy j r s
      → IsSettled js s t
      → IsSettled (j ∷ js) r t
  IsSettled-cons j js r s t once h k = elim (Bool-cases (r.id == j.id)) [
    | inl hit ↦
        let same : r.id ≡ j.id = ==→eq r.id j.id hit in
        let past : contains (map (λ j. j.id) js) r.id ≡ false = rw same once in
        let settled : s ≡ settled_row j r = h.0 hit in
        let kept : t ≡ s = k.0 (rw (ap (λ x. x.id) settled ∙ settled_row-id j r) past) in
        (
          λ outside. absurd (ground arith),
          (
            λ _. kept ∙ settled,
            All-mono (λ i. (r.id == i.id) ≡ false)
                (λ i. (r.id == i.id) ≡ true → t ≡ settled_row i r) js (λ i miss e. absurd (cc))
                (others js r.id past),
          ),
        )
    | inr miss ↦
        let k' = subst (λ s. IsSettled js s t) (h.1 miss) k in
        (λ outside. k'.0 (ground arith), (λ hit. absurd (cc), k'.1))
  ]

  settle_jobs-Rows :
      (js jobs : List Job)
      → IsDistinct (map (λ j. j.id) js)
      → Rows (IsSettled js) jobs (settle_jobs env runtime js jobs)
  unfolding settle_jobs
  settle_jobs-Rows [] jobs d = Rows-refl (IsSettled []) jobs (λ r. (λ _. refl, tt))
  settle_jobs-Rows (j ∷ js) jobs d =
      Rows-trans (IsSettledBy j) (IsSettled js) (IsSettled (j ∷ js)) jobs
        (settle_job env runtime j jobs) (settle_jobs env runtime js (settle_job env runtime j jobs))
        (λ r s t. IsSettled-cons j js r s t d.0) (settle_job-Rows j jobs)
        (settle_jobs-Rows js (settle_job env runtime j jobs) d.1)

  -- A row of the batch is among the jobs that the claim reports, as it was started.
  started-All :
      (ids : List ℕ) (jobs : List Job)
      → All
          (λ r.
            contains ids r.id ≡ true
            → (Q : Job → Type 0) → All Q (map started_row (select (λ j. contains ids j.id) jobs))
            → Q (started_row r))
          jobs
  unfolding select
  started-All ids [] = tt
  started-All ids (j ∷ js) = elim (Bool-cases (contains ids j.id)) [
    | inl m ↦ (
      λ _ Q all. (rw m at all).0,
      All-mono _ _ js (λ r pick n Q all. pick n Q (rw m at all).1) (started-All ids js),
    )
    | inr m ↦ (
      λ n. absurd (cc),
      All-mono _ _ js (λ r pick n Q all. pick n Q (rw m at all)) (started-All ids js),
    )
  ]

  ids-started : (js : List Job) → map (λ j. j.id) (map started_row js) ≡ map (λ (j : Job). j.id) js
  ids-started [] = refl
  ids-started (j ∷ js) = ap (λ ids. j.id ∷ ids) (ids-started js)

  module _ (now : ℕ) (locked : ℕ → Bool) (limit : ℕ) (jobs : List Job) where
    abbrev claimed : List Job
    claimed = map started_row (select (λ j. contains (due_ids now locked limit jobs) j.id) jobs)

    -- A job on one more attempt.
    abbrev pub tried : Job → Job
    tried r = record r { status = JobStatus.running; attempts = r.attempts + 1 }

    -- What a cycle does to a row: a job that it claims was due and is settled on one more attempt,
    -- any other job stays.
    abbrev pub IsCycled : Job → Job → Type 0
    IsCycled r t =
        (contains (due_ids now locked limit jobs) r.id ≡ true
          → (is_due now locked r ≡ true) × (t ≡ settled_row (tried r) (tried r)))
        × (contains (due_ids now locked limit jobs) r.id ≡ false → t ≡ r)

    abbrev Via : Job → Job → Type 0
    Via r t = (s : Job) × IsClaimedRow now locked limit jobs r s × IsSettled claimed s t

    Via-IsCycled :
        (r t : Job)
        → (contains (due_ids now locked limit jobs) r.id ≡ true
            → (Q : Job → Type 0) → All Q claimed
            → Q (started_row r))
        → Via r t
        → IsCycled r t
    Via-IsCycled r t pick (s, c, k) = (
      λ hit.
          let started = (c.0 hit).1 in
          let k' = subst (λ s. IsSettled claimed s t) started k in
          (
            (c.0 hit).0,
            pick hit (λ j. (r.id == j.id) ≡ true → t ≡ settled_row j (started_row r)) k'.1
                (==_refl r.id),
          ),
      λ miss.
          let k' = subst (λ s. IsSettled claimed s t) (c.1 miss) k in
          k'.0 (ground (arith, started-Within (due_ids now locked limit jobs) jobs r.id)) ∙ refl,
    )

    -- Where the keys of the jobs are distinct, a poll cycle reports how many jobs it claimed: as many
    -- as are due, but no more than the limit. Each of them was due; it is now done if its handler succeeded, dead if
    -- it failed on its last attempt, and otherwise pending again after its backoff, with one more
    -- attempt counted. Every other job is as it was.
    pub run_poll_cycle_settles :
        IsUnique same_job jobs
        → let (count, after) = run_poll_cycle env runtime now locked limit jobs in
          (count ≡ length (select (λ j. contains (due_ids now locked limit jobs) j.id) jobs))
          × (let due = length (select (is_due now locked) jobs) in
              count ≡ (if leb limit due then limit else due))
          × Rows IsCycled jobs after
    unfolding run_poll_cycle claim_jobs
    run_poll_cycle_settles unique =
        let rows = (claim_jobs_due now locked limit jobs unique).1 in
        (
          length-map started_row (select (λ j. contains (due_ids now locked limit jobs) j.id) jobs),
          length-claim_jobs now locked limit jobs unique,
          Rows-mono
              (λ r.
                contains (due_ids now locked limit jobs) r.id ≡ true
                → (Q : Job → Type 0) → All Q claimed
                → Q (started_row r))
              Via IsCycled jobs _ (λ r t pick v. Via-IsCycled r t pick v)
              (started-All (due_ids now locked limit jobs) jobs)
              (Rows-trans (IsClaimedRow now locked limit jobs) (IsSettled claimed) Via jobs _ _
                (λ r s t c k. (s, c, k)) rows
                (settle_jobs-Rows claimed (claim_jobs now locked limit jobs).1 distinct)),
        )
      where
        distinct : IsDistinct (map (λ j. j.id) claimed)
        distinct =
            rw (ids-started (select (λ j. contains (due_ids now locked limit jobs) j.id) jobs)) (
              select-IsDistinct (λ j. j.id) (λ j. contains (due_ids now locked limit jobs) j.id)
                same_job jobs (λ r t p q. ground arith) unique)
