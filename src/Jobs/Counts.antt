-- ===== src/Jobs/Counts.antt =====
-- How many jobs a poll cycle claims: all that are due, up to its limit.
use ticket_booking_system.Common.{
  ℕ, zero, suc, ◌≤◌, ◌≡◌, ◌∙◌, inl, inr, Bool, true, false, ◌&&◌, List, [], ◌∷◌, arith, ltb, leb,
  ◌==◌, ==→eq, contains, Bool-cases, length, length-map, length-Within, IsDistinct, if◌then◌else◌,
}
use ticket_booking_system.Sql.{select, exists}
use ticket_booking_system.Sql.Keys.{IsUnique, select-IsDistinct, length-select-Within}
use ticket_booking_system.Jobs.{
  Job, is_due, insert_by_run_at, by_run_at, take, due_ids, started_row, claim_jobs,
}
use ticket_booking_system.Jobs.Claims.{
  ids_of, same_job, contains-insert_by_run_at, contains-by_run_at, contains-take, due_ids-exists,
}

length-insert_by_run_at :
    (j : Job) (ks : List Job) → length (insert_by_run_at j ks) ≡ suc (length ks)
unfolding insert_by_run_at
length-insert_by_run_at j [] = omega arith
length-insert_by_run_at j (k ∷ ks) = ground (arith, length-insert_by_run_at j ks)

length-by_run_at : (jobs : List Job) → length (by_run_at jobs) ≡ length jobs
unfolding by_run_at
length-by_run_at [] = omega arith
length-by_run_at (j ∷ js) =
    omega (arith, length-insert_by_run_at j (by_run_at js), length-by_run_at js)

length-take_all : (n : ℕ) (jobs : List Job) → length jobs ≤ n → length (take n jobs) ≡ length jobs
unfolding take
length-take_all n [] h = omega arith
length-take_all zero (j ∷ js) h = absurd (omega arith)
length-take_all (suc n) (j ∷ js) h = omega (arith, length-take_all n js (omega arith))

length-take_some : (n : ℕ) (jobs : List Job) → n ≤ length jobs → length (take n jobs) ≡ n
unfolding take
length-take_some zero [] h = omega arith
length-take_some (suc n) [] h = absurd (omega arith)
length-take_some zero (j ∷ js) h = omega arith
length-take_some (suc n) (j ∷ js) h = omega (arith, length-take_some n js (omega arith))

insert_by_run_at-IsDistinct :
    (j : Job) (ks : List Job)
    → contains (ids_of ks) j.id ≡ false
    → IsDistinct (ids_of ks)
    → IsDistinct (ids_of (insert_by_run_at j ks))
unfolding insert_by_run_at
insert_by_run_at-IsDistinct j [] h d = (h, tt)
insert_by_run_at-IsDistinct j (k ∷ ks) h d = elim (Bool-cases (ltb k.run_at j.run_at)) [
  | inr before ↦ rw before (h, d)
  | inl behind ↦ rw behind (
    contains-insert_by_run_at j ks k.id ∙ ground (arith, h, d.0, ==→eq k.id j.id, ==→eq j.id k.id),
    insert_by_run_at-IsDistinct j ks (ground (arith, h)) d.1,
  )
]

by_run_at-IsDistinct :
    (jobs : List Job) → IsDistinct (ids_of jobs) → IsDistinct (ids_of (by_run_at jobs))
unfolding by_run_at
by_run_at-IsDistinct [] d = tt
by_run_at-IsDistinct (j ∷ js) d =
    insert_by_run_at-IsDistinct j (by_run_at js) (contains-by_run_at js j.id ∙ d.0)
      (by_run_at-IsDistinct js d.1)

take-IsDistinct :
    (n : ℕ) (jobs : List Job) → IsDistinct (ids_of jobs) → IsDistinct (ids_of (take n jobs))
unfolding take
take-IsDistinct n [] d = tt
take-IsDistinct zero (j ∷ js) d = tt
take-IsDistinct (suc n) (j ∷ js) d =
    (ground (arith, d.0, contains-take n js j.id), take-IsDistinct n js d.1)

-- A row that is there and whose id is claimed is among those reported.
contains-claimed :
    (q : Job → Bool) (ids : List ℕ) (jobs : List Job) (a : ℕ)
    → contains ids a ≡ true
    → exists (λ j. q j && j.id == a) jobs ≡ true
    → contains (ids_of (select (λ j. contains ids j.id) jobs)) a ≡ true
unfolding select exists
contains-claimed q ids [] a m h = absurd (cc)
contains-claimed q ids (j ∷ js) a m h = elim (Bool-cases (j.id == a)) [
  | inl same ↦ rw (==→eq j.id a same) (rw m (ground arith))
  | inr other ↦ ground (arith, contains-claimed q ids js a m (ground arith))
]

-- Where the keys of the jobs are distinct, a claim reports every job that is due, up to its limit.
pub length-claim_jobs :
    (now : ℕ) (locked : ℕ → Bool) (limit : ℕ) (jobs : List Job)
    → IsUnique same_job jobs
    → let due = length (select (is_due now locked) jobs) in
      length (claim_jobs now locked limit jobs).0 ≡ (if leb limit due then limit else due)
unfolding claim_jobs due_ids
length-claim_jobs now locked limit jobs unique = ground (
  arith,
  length-map started_row (select (λ j. contains ids j.id) jobs),
  length-select-Within (λ j. j.id) same_job ids jobs (λ r t e. ground arith) unique,
  length-Within ids (ids_of (select (λ j. contains ids j.id) jobs)) distinct (λ a m.
      contains-claimed (is_due now locked) ids jobs a m (due_ids-exists now locked limit jobs a m)),
  length-map (λ (j : Job). j.id) (select (λ j. contains ids j.id) jobs),
  length-map (λ (j : Job). j.id) (take limit sorted),
  length-take_all limit sorted,
  length-take_some limit sorted,
  length-by_run_at (select (is_due now locked) jobs),
)
  where
    ids : List ℕ
    ids = due_ids now locked limit jobs

    sorted : List Job
    sorted = by_run_at (select (is_due now locked) jobs)

    distinct : IsDistinct (due_ids now locked limit jobs)
    distinct = take-IsDistinct limit sorted (
        by_run_at-IsDistinct (select (is_due now locked) jobs) (
          select-IsDistinct (λ j. j.id) (is_due now locked) same_job jobs (λ r t p q. ground arith)
            unique))
