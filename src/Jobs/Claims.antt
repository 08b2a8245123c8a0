-- ===== src/Jobs/Claims.antt =====
-- A job is claimed by one poll cycle at a time, and a cycle claims no more jobs than its limit.
use ticket_booking_system.Common.{
  ℕ, zero, suc, ◌≤◌, ◌≡◌, refl, ◌∙◌, inl, inr, Bool, true, false, ◌&&◌, List, [], ◌∷◌, map, arith,
  ◌==◌, ==→eq, contains, Bool-cases, length, length-map, All, All-mono, All-at, All-unit, ==_refl,
  Within,
}
use ticket_booking_system.Sql.{select, exists, update_where}
use ticket_booking_system.Sql.Laws.{Rows, Rows-update_where}
use ticket_booking_system.Sql.Keys.{contains-select, IsUnique, IsUnique-All, length-select-Within}
use ticket_booking_system.Jobs.{
  Job, is_due, insert_by_run_at, by_run_at, take, due_ids, started_row, claim_jobs,
}

abbrev pub ids_of : List Job → List ℕ
ids_of jobs = map (λ j. j.id) jobs

pub contains-insert_by_run_at :
    (j : Job) (ks : List Job) (a : ℕ)
    → contains (ids_of (insert_by_run_at j ks)) a ≡ contains (ids_of (j ∷ ks)) a
unfolding insert_by_run_at
contains-insert_by_run_at j [] a = refl
contains-insert_by_run_at j (k ∷ ks) a = ground (arith, contains-insert_by_run_at j ks a)

pub contains-by_run_at :
    (jobs : List Job) (a : ℕ) → contains (ids_of (by_run_at jobs)) a ≡ contains (ids_of jobs) a
unfolding by_run_at
contains-by_run_at [] a = refl
contains-by_run_at (j ∷ js) a =
    contains-insert_by_run_at j (by_run_at js) a ∙ ground (arith, contains-by_run_at js a)

pub contains-take :
    (n : ℕ) (jobs : List Job) (a : ℕ)
    → contains (ids_of (take n jobs)) a ≡ true
    → contains (ids_of jobs) a ≡ true
unfolding take
contains-take n [] a h = h
contains-take zero (j ∷ js) a h = absurd (cc)
contains-take (suc n) (j ∷ js) a h = ground (arith, h, contains-take n js a)

length-take-le : (n : ℕ) (jobs : List Job) → length (take n jobs) ≤ n
unfolding take
length-take-le n [] = omega arith
length-take-le zero (j ∷ js) = omega arith
length-take-le (suc n) (j ∷ js) = omega (arith, length-take-le n js)

-- Each id of the subquery is that of a row that is due.
pub due_ids-exists :
    (now : ℕ) (locked : ℕ → Bool) (limit : ℕ) (jobs : List Job) (a : ℕ)
    → contains (due_ids now locked limit jobs) a ≡ true
    → exists (λ j. is_due now locked j && j.id == a) jobs ≡ true
unfolding due_ids
due_ids-exists now locked limit jobs a h = ground (
  arith,
  contains-take limit (by_run_at (select (is_due now locked) jobs)) a h,
  contains-by_run_at (select (is_due now locked) jobs) a,
  contains-select (λ j. j.id) (is_due now locked) jobs a,
)

-- A row that was started is not due.
exists-started_row :
    (later : ℕ) (locked : ℕ → Bool) (ids : List ℕ) (jobs : List Job) (a : ℕ)
    → contains ids a ≡ true
    → exists
        (λ j. is_due later locked j && j.id == a)
        (update_where (λ j. contains ids j.id) started_row jobs)
      ≡ false
unfolding exists update_where
exists-started_row later locked ids [] a h = refl
exists-started_row later locked ids (j ∷ js) a h = elim (Bool-cases (contains ids j.id)) [
  | inl claimed ↦ rw claimed (exists-started_row later locked ids js a h)
  | inr other ↦
      rw other (ground (arith, h, ==→eq j.id a, exists-started_row later locked ids js a h))
]

-- The reported jobs are those with the ids.
pub started-Within :
    (ids : List ℕ) (jobs : List Job)
    → Within (ids_of (map started_row (select (λ j. contains ids j.id) jobs))) ids
unfolding select
started-Within ids [] a m = absurd (cc)
started-Within ids (j ∷ js) a m = ground (arith, started-Within ids js a, ==→eq j.id a)

All-started :
    (ids : List ℕ) (jobs : List Job)
    → All (λ j. contains ids j.id ≡ true) (map started_row (select (λ j. contains ids j.id) jobs))
unfolding select
All-started ids [] = tt
All-started ids (j ∷ js) = elim (Bool-cases (contains ids j.id)) [
  | inl m ↦ rw m (m, All-started ids js)
  | inr m ↦ rw m (All-started ids js)
]

-- The primary key of job_queue.
abbrev pub same_job : Job → Job → Bool
same_job a b = a.id == b.id

module _ (now : ℕ) (locked : ℕ → Bool) (limit : ℕ) (jobs : List Job) where
  abbrev ids : List ℕ
  ids = due_ids now locked limit jobs

  -- Under the primary key a row whose id is claimed is one that is due.
  due_rows :
      IsUnique same_job jobs → All (λ r. contains ids r.id ≡ true → is_due now locked r ≡ true) jobs
  due_rows unique =
      All-mono
        (λ r.
          contains ids r.id ≡ true
          → (r.id == r.id) ≡ true
          → (is_due now locked r && r.id == r.id) ≡ true)
        (λ r. contains ids r.id ≡ true → is_due now locked r ≡ true) jobs
        (λ r h m. ground (arith, h m, ==_refl r.id))
        (All-at
          (λ a r.
            contains ids a ≡ true → (r.id == a) ≡ true → (is_due now locked r && r.id == a) ≡ true)
          (λ r. r.id) jobs each)
    where
      each :
          (a : ℕ)
          → All
              (λ r.
                contains ids a ≡ true
                → (r.id == a) ≡ true
                → (is_due now locked r && r.id == a) ≡ true)
              jobs
      each a = elim (Bool-cases (contains ids a)) [
        | inl m ↦
            All-mono (λ r. (r.id == a) ≡ true → (is_due now locked r && r.id == a) ≡ true) _ jobs
              (λ r h _. h)
              (IsUnique-All same_job (λ r. r.id == a) (λ r. is_due now locked r && r.id == a) jobs
                (λ r t p q. ground arith) (λ r p. ground arith) unique
                (due_ids-exists now locked limit jobs a m))
        | inr m ↦ All-mono (λ r. Unit {0}) _ jobs (λ r _ n. absurd (cc)) (All-unit jobs)
      ]

  -- What a claim does to a row: one that it takes was due and is now running, any other row stays.
  abbrev pub IsClaimedRow : Job → Job → Type 0
  IsClaimedRow r t =
      (contains ids r.id ≡ true → (is_due now locked r ≡ true) × (t ≡ started_row r))
      × (contains ids r.id ≡ false → t ≡ r)

  -- Where the keys of the jobs are distinct, a claim reports no more jobs than its limit; each row
  -- that it takes was pending, due and not locked, and is now running with one more attempt; every
  -- other row is as it was.
  pub claim_jobs_due :
      IsUnique same_job jobs
      → let (claimed, after) = claim_jobs now locked limit jobs in
        (length claimed ≤ limit) × Rows IsClaimedRow jobs after
  unfolding claim_jobs
  claim_jobs_due unique = (
    omega (
      arith,
      length-map started_row (select (λ j. contains ids j.id) jobs),
      length-select-Within (λ j. j.id) same_job ids jobs (λ r t e. ground arith) unique,
      length-map (λ (j : Job). j.id) (take limit (by_run_at (select (is_due now locked) jobs))),
      length-take-le limit (by_run_at (select (is_due now locked) jobs)),
    ),
    Rows-update_where (λ r. contains ids r.id ≡ true → is_due now locked r ≡ true) IsClaimedRow
        (λ j. contains ids j.id) started_row jobs (λ r p e. (λ _. (p e, refl), λ f. absurd (cc)))
        (λ r p e. (λ f. absurd (cc), λ _. refl)) (due_rows unique),
  )

  -- No job is claimed twice: what a later claim reports, whatever its limit and locks, is none of
  -- the jobs of the first, as long as nothing else has written the table.
  pub claim_twice :
      (later : ℕ) (locked' : ℕ → Bool) (limit' : ℕ)
      → let (first, after) = claim_jobs now locked limit jobs in
        let (second, after') = claim_jobs later locked' limit' after in
        All (λ j. contains (map (λ k. k.id) first) j.id ≡ false) second
  unfolding claim_jobs
  claim_twice later locked' limit' =
      All-mono (λ j. contains ids' j.id ≡ true)
        (λ j.
          contains (ids_of (map started_row (select (λ j. contains ids j.id) jobs))) j.id ≡ false)
        _ disjoint (All-started ids' after)
    where
      after : List Job
      after = update_where (λ j. contains ids j.id) started_row jobs

      ids' : List ℕ
      ids' = due_ids later locked' limit' after

      disjoint :
          (j : Job)
          → contains ids' j.id ≡ true
          → contains (ids_of (map started_row (select (λ j. contains ids j.id) jobs))) j.id ≡ false
      disjoint j m =
          elim (Bool-cases
            (contains (ids_of (map started_row (select (λ j. contains ids j.id) jobs))) j.id)) [
              | inr e ↦ e
              | inl e ↦ absurd (
                  cc (
                    due_ids-exists later locked' limit' after j.id m,
                    exists-started_row later locked' ids jobs j.id (started-Within ids jobs j.id e),
                  ))
            ]
