-- ===== src/Witnesses/Http.antt =====
-- The rules of access at the small database, and answers of the routes.
use ticket_booking_system.Common.{ℕ, ◌≡◌, refl, false, Option, none, some, ◌==◌}
use ticket_booking_system.Sql.{Collation}
use ticket_booking_system.Errors.{status, code, ErrorCode}
use ticket_booking_system.Accounts.{Principal}
use ticket_booking_system.Holds.{release_hold, load_hold_for_ownership, find_seat_hold_by_id}
use ticket_booking_system.Http.{
  Request, Reply, error_handler, require_auth, require_ownership, answer, respond,
}
use ticket_booking_system.Http.Guards.{Guarded, Presents}
use ticket_booking_system.Http.Routes.{Route, delete_hold, delete_hold_route, serve, behind_auth}
use ticket_booking_system.Http.Controllers.{release_hold_controller}
use ticket_booking_system.Http.Access.{Permits, serve-Permits}
use ticket_booking_system.Http.Reach.{service, serve-service}
use ticket_booking_system.Db.{SeatHold, HoldStatus, customer}
use ticket_booking_system.Fixtures.{env, auth}
use ticket_booking_system.Scenarios.{runs, crypto, held_db}

abbrev text : Collation
text = record { ilike = λ a b. a == b; around = λ a. a; before = λ a b. false }

-- A request that bears a token; the token of a user is the user's id.
abbrev bearing : Option ℕ → Request
bearing token = record { access_token = token; user = none }

abbrev answered : Route → Option ℕ → Reply
answered route token = (serve auth crypto text env 0 1500 route (bearing token) held_db).0

-- The hold belongs to user 5.
owner_releases : answered (delete_hold 21) (some 5) ≡ record { status = 200; code = none }
unfolding serve behind_auth delete_hold_route release_hold_controller require_auth require_ownership
    answer respond load_hold_for_ownership find_seat_hold_by_id release_hold held_db runs
owner_releases = refl

other_is_forbidden :
    answered (delete_hold 21) (some 6) ≡ record { status = 403; code = some ErrorCode.forbidden }
unfolding serve behind_auth delete_hold_route release_hold_controller require_auth require_ownership
    answer respond load_hold_for_ownership find_seat_hold_by_id release_hold held_db runs
    error_handler status code
other_is_forbidden = refl

anonymous_is_refused :
    answered (delete_hold 21) none ≡ record { status = 401; code = some ErrorCode.unauthenticated }
unfolding serve behind_auth require_auth error_handler status code
anonymous_is_refused = refl

serve-Permits_example :
    Guarded
      ((p : Principal) × Presents auth 0 (bearing (some 5)) p × Permits (delete_hold 21) p held_db)
      (serve auth crypto text env 0 1500 (delete_hold 21) (bearing (some 5)) held_db)
      held_db
unfolding held_db runs
serve-Permits_example =
    serve-Permits auth crypto text env 0 1500 (delete_hold 21) (bearing (some 5)) held_db

abbrev owner : Principal
owner = record { id = 5; role = customer }

abbrev hold : SeatHold
hold = record {
  id = 21;
  show_id = 1;
  user_id = 5;
  status = HoldStatus.active;
  expires_at = 600001000;
}

serve-service_example :
    serve auth crypto text env 0 1500 (delete_hold 21) (bearing (some 5)) held_db
    ≡ service crypto text env 1500
        (delete_hold 21)
        (record (bearing (some 5)) { user = some owner })
        held_db
unfolding held_db runs find_seat_hold_by_id
serve-service_example =
    serve-service auth crypto text env 0 1500 (delete_hold 21) (bearing (some 5)) owner held_db
      (5, refl, refl) (hold, refl, refl)
