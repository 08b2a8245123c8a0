-- ===== src/Witnesses/Lifecycle.antt =====
-- A step of the services at the small database.
use ticket_booking_system.Sql.Laws.{Rows}
use ticket_booking_system.Lifecycle.{IsTransition, confirms, Step-IsTransition}
use ticket_booking_system.Fixtures.{env, mint}
use ticket_booking_system.Scenarios.{runs, crypto, held_db, booked_db}

Step-IsTransition_example : Rows (IsTransition 2000) held_db.show_seats booked_db.show_seats
unfolding held_db booked_db runs
Step-IsTransition_example =
    Step-IsTransition env crypto 2000 held_db booked_db (confirms 2000 (mint 31) 21 5)
