-- ===== src/Witnesses/Holds.antt =====
-- The theorems about holds at the small database.
use ticket_booking_system.Common.{ℕ, ◌≡◌, refl, ◌↔◌, true, false, [], ◌∷◌, arith, contains}
use ticket_booking_system.Errors.{ok, is_ok}
use ticket_booking_system.Sql.{select, exists}
use ticket_booking_system.Sql.Laws.{Rows}
use ticket_booking_system.Seatmap.{find_show_by_id}
use ticket_booking_system.Holds.{create_hold, release_hold, manual}
use ticket_booking_system.Holds.Acquire.{is_free}
use ticket_booking_system.Holds.AllOrNothing.{create_hold_succeeds_iff}
use ticket_booking_system.Holds.Effect.{IsTaken, create_hold_all_or_nothing}
use ticket_booking_system.Holds.Release.{IsFreed, release_hold_frees}
use ticket_booking_system.Fixtures.{env, fresh_db, show}
use ticket_booking_system.Scenarios.{held_db, runs}

create_hold_succeeds_iff_example :
    (is_ok (create_hold env 1000 21 1 (12 ∷ 13 ∷ []) 5 fresh_db).0 ≡ true)
    ↔ ((a : ℕ) → contains (12 ∷ 13 ∷ []) a ≡ true → is_free 1000 1 a fresh_db ≡ true)
unfolding find_show_by_id exists
create_hold_succeeds_iff_example =
    create_hold_succeeds_iff env 1000 21 1 (12 ∷ 13 ∷ []) 5 fresh_db show refl (omega arith) refl
      (refl, (refl, tt)) (refl, (refl, (refl, tt)))

create_hold_all_or_nothing_example :
    let (result, db') = create_hold env 1000 21 1 (12 ∷ 13 ∷ []) 5 fresh_db in
    (is_ok result ≡ true
      → Rows (IsTaken 1000 1 (12 ∷ 13 ∷ []) 21 5 600) fresh_db.show_seats db'.show_seats)
    × (is_ok result ≡ false → db' ≡ fresh_db)
unfolding find_show_by_id exists
create_hold_all_or_nothing_example =
    create_hold_all_or_nothing env 1000 21 1 (12 ∷ 13 ∷ []) 5 fresh_db show refl
      (refl, (refl, (refl, tt)))

release_hold_frees_example :
    let (result, db') = release_hold 1500 21 manual held_db in
    (result ≡ ok 2) × Rows (IsFreed 1500 21) held_db.show_seats db'.show_seats
unfolding held_db runs select
release_hold_frees_example = release_hold_frees 1500 21 manual held_db
