-- ===== src/Witnesses/Jobs.antt =====
-- The theorems about the job queue and about reserved seats at small inputs.
use ticket_booking_system.Common.{
  if◌then◌else◌, ◌==◌, some, none, ◌≡◌, refl, true, false, [], ◌∷◌, List, map, arith,
}
use ticket_booking_system.Sql.{exists, select}
use ticket_booking_system.Sql.Laws.{Rows}
use ticket_booking_system.Sql.Keys.{IsUnique}
use ticket_booking_system.SeatStates.{offer_reserved}
use ticket_booking_system.Seatmap.{effective_state}
use ticket_booking_system.Holds.{is_acquirable}
use ticket_booking_system.Offers.{reserved_row, reserved_until_seconds, is_claimable, is_expired}
use ticket_booking_system.Offers.Exclusive.{reserved_row_exclusive}
use ticket_booking_system.Jobs.{
  Runtime, JobStatus, run_poll_cycle, Job, new_job, due_ids, claim_jobs,
}
use ticket_booking_system.Jobs.Cycle.{IsCycled, run_poll_cycle_settles}
use ticket_booking_system.Jobs.Claims.{same_job}
use ticket_booking_system.Fixtures.{free_seat, env}
use ticket_booking_system.Scenarios.{unlocked}

abbrev three_jobs : List Job
three_jobs = new_job 1 4 10 900 ∷ new_job 2 4 11 800 ∷ new_job 3 5 12 5000 ∷ []

three_jobs-IsUnique : IsUnique same_job three_jobs
unfolding exists
three_jobs-IsUnique = (refl, (refl, (refl, tt)))

-- With a limit of one the job that has waited longest is claimed.
first_claim : map (λ (j : Job). j.id) (claim_jobs 1000 unlocked 1 three_jobs).0 ≡ 2 ∷ []
unfolding claim_jobs
first_claim = refl

reserved_row_exclusive_example :
    let t = reserved_row 3000 900 (reserved_until_seconds 900 5) (free_seat 102 12 7) in
    (is_acquirable 4000 t ≡ false)
    × (effective_state 4000 t ≡ offer_reserved)
    × (is_claimable 4000 (102 ∷ []) t ≡ true)
unfolding is_expired
reserved_row_exclusive_example =
    reserved_row_exclusive 3000 4000 900 5 77 50 85 (102 ∷ []) (free_seat 102 12 7) (omega arith)
      refl refl

-- One type of job has a handler, which succeeds; the other has none.
abbrev runtime : Runtime
runtime = record {
  handler = λ type. if type == 4 then some (λ payload. none) else none;
  no_handler = λ type. 404;
  ended_at = λ id. 7000;
  draw = λ id. 4503599627370496;
}

abbrev statuses : List Job → List JobStatus
statuses jobs = map (λ j. j.status) jobs

cycle_statuses :
    statuses (run_poll_cycle env runtime 6000 unlocked 10 three_jobs).1
    ≡ JobStatus.done ∷ JobStatus.done ∷ JobStatus.pending ∷ []
unfolding run_poll_cycle
cycle_statuses = refl

run_poll_cycle_settles_example :
    let (count, after) = run_poll_cycle env runtime 6000 unlocked 10 three_jobs in
    (count ≡ 3)
    × (count ≡ 3)
    × Rows (IsCycled env runtime 6000 unlocked 10 three_jobs) three_jobs after
unfolding select due_ids
run_poll_cycle_settles_example =
    run_poll_cycle_settles env runtime 6000 unlocked 10 three_jobs three_jobs-IsUnique
