-- ===== src/Migrations/Reset.antt =====
-- `reset` ends, and leaves every migration applied.
use mathlib.Core.List.{append_assoc}
use ticket_booking_system.Common.{
  ℕ, zero, suc, ◌<◌, none, some, List, [], ◌∷◌, ◌++◌, map, ◌≡◌, ◌∙◌, arith, length,
}
use ticket_booking_system.Errors.{ok}
use ticket_booking_system.Migrations.{
  up, down, Ledger, Runner, Line, reverted, nothing_to, report, mode_reset, run_migration,
  exit_after, reset_loop, migrate,
}

-- The elements of the first list, one after the other, put before the second.
abbrev pub push_all : List ℕ → List ℕ → List ℕ
push_all [] ms = ms
push_all (n ∷ ns) ms = push_all ns (n ∷ ms)

-- What node-pg-migrate documents of a run in which no migration fails.
pub record IsRunner (runner : Runner) : Type 0 where
  pub up_all :
      (l : Ledger)
      → runner up none l
        ≡ ok (l.pending, record { applied = push_all l.pending l.applied; pending = [] })
  pub down_one :
      (m : ℕ) (ms p : List ℕ)
      → runner down (some 1) (record { applied = m ∷ ms; pending = p })
        ≡ ok (m ∷ [], record { applied = ms; pending = m ∷ p })
  pub down_none :
      (p : List ℕ)
      → runner down (some 1) (record { applied = []; pending = p })
        ≡ ok ([], record { applied = []; pending = p })

-- The lines of a reset that finds these migrations.
abbrev pub reset_lines : List ℕ → List ℕ → List Line
reset_lines ms p = map reverted ms ++ (nothing_to down ∷ report up (push_all ms p))

module _ (runner : Runner) (r : IsRunner runner) where
  reset_loop_ends :
      (fuel : ℕ) (lines : List Line) (ms p : List ℕ)
      → length ms < fuel
      → reset_loop runner fuel lines (record { applied = ms; pending = p })
        ≡ some (record {
          status = 0;
          lines = lines ++ reset_lines ms p;
          ledger = record { applied = push_all p ms; pending = [] };
        })
  unfolding reset_loop run_migration exit_after
  reset_loop_ends zero lines ms p h = absurd (omega arith)
  reset_loop_ends (suc fuel) lines [] p h =
      rw (r.down_none p, reset_loop)
        (rw (r.up_all (record { applied = []; pending = p }), exit_after) (simp append_assoc))
  reset_loop_ends (suc fuel) lines (m ∷ ms) p h =
      rw (r.down_one m ms p, reset_loop)
        (reset_loop_ends fuel (lines ++ (reverted m ∷ [])) ms (m ∷ p) (omega arith)
          ∙ simp append_assoc)

  -- Where no migration fails, `migrate reset` ends, whatever has been applied: fuel above the number
  -- of applied migrations is enough. It takes each down, the last one first, reports that nothing is
  -- left, brings all of them up in their order, and exits with status 0; and every migration is
  -- applied after it, those that were and then those that were pending.
  pub migrate_reset_ends :
      (fuel : ℕ) (l : Ledger)
      → length l.applied < fuel
      → migrate runner fuel mode_reset l
        ≡ some (record {
          status = 0;
          lines = reset_lines l.applied l.pending;
          ledger = record { applied = push_all l.pending l.applied; pending = [] };
        })
  unfolding migrate
  migrate_reset_ends fuel l h = reset_loop_ends fuel [] l.applied l.pending h
