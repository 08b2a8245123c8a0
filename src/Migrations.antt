-- ===== src/Migrations.antt =====
-- server/src/db/migrate.js: the command that brings the schema of the database up, takes one
-- migration down, or resets it. node-pg-migrate is the parameter `runner`; a migration is known by
-- the number that stands for its name.
pub mod Reset
use ticket_booking_system.Common.{
  ℕ, zero, suc, Bool, true, false, Option, none, some, List, [], ◌∷◌, ◌++◌, map, ltb, length,
}
use ticket_booking_system.Errors.{Result, ok, err, Error}

pub data Direction : Type 0 where
  up down : Direction

-- The table `pgmigrations`, the last one first, and the files that are not in it, in order.
pub record Ledger : Type 0 where
  pub applied : List ℕ
  pub pending : List ℕ

-- `runner({ direction, count })`: the migrations that it ran; no count means all.
abbrev pub Runner : Type 0
Runner = Direction → Option ℕ → Ledger → Result (List ℕ × Ledger)

-- What is printed.
pub data Line : Type 0 where
  applied reverted : ℕ → Line
  nothing_to : Direction → Line
  usage : Line

abbrev pub line_of : Direction → ℕ → Line
line_of up m = applied m
line_of down m = reverted m

abbrev pub report : Direction → List ℕ → List Line
report d [] = nothing_to d ∷ []
report d (m ∷ ms) = map (line_of d) (m ∷ ms)

-- `process.argv[2]`
pub data Mode : Type 0 where
  mode_up mode_down mode_reset : Mode
  other : Mode

-- How the process ends: its status, the lines that it has printed, and the ledger.
pub record Exit : Type 0 where
  pub status : ℕ
  pub lines : List Line
  pub ledger : Ledger

module _ (runner : Runner) where
  -- `runMigration`, with the lines before it.
  unfoldable pub run_migration :
      Direction → Option ℕ → List Line → Ledger → Result (List ℕ × (List Line × Ledger))
  run_migration d count lines l = elim (runner d count l) [
    | err e ↦ err e
    | ok (results, l') ↦ ok (results, (lines ++ report d results, l'))
  ]

  -- The end of the process after a last call; an error that is not caught ends it with status 1.
  unfoldable pub exit_after : List Line → Ledger → Result (List ℕ × (List Line × Ledger)) → Exit
  exit_after lines l (ok (results, (lines', l'))) = record {
    status = 0;
    lines = lines';
    ledger = l';
  }
  exit_after lines l (err e) = record { status = 1; lines = lines; ledger = l }

  -- The `do … while` of `reset` and what follows it, on fuel; `none` means that the fuel ran out.
  unfoldable pub reset_loop : ℕ → List Line → Ledger → Option Exit
  unfolding run_migration exit_after
  reset_loop zero lines l = none
  reset_loop (suc fuel) lines l = elim (run_migration down (some 1) lines l) [
    | err e ↦ some (record { status = 1; lines = lines; ledger = l })
    | ok ([], (lines', l')) ↦ some (exit_after lines' l' (run_migration up none lines' l'))
    | ok (m ∷ ms, (lines', l')) ↦ reset_loop fuel lines' l'
  ]

  -- The command.
  unfoldable pub migrate : ℕ → Mode → Ledger → Option Exit
  unfolding reset_loop
  migrate fuel mode_up l = some (exit_after [] l (run_migration up none [] l))
  migrate fuel mode_down l = some (exit_after [] l (run_migration down (some 1) [] l))
  migrate fuel mode_reset l = reset_loop fuel [] l
  migrate fuel other l = some (record { status = 1; lines = usage ∷ []; ledger = l })
