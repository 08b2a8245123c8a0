-- ===== src/Venues/Layout.antt =====
-- `getVenueLayout` and its statements.
use ticket_booking_system.Common.{ℕ, Bool, true, false, ◌&&◌, List, ltb, ◌==◌, if◌then◌else◌}
use ticket_booking_system.Errors.{Result, ok, err}
use ticket_booking_system.Sql.{select, order_by, Collation}
use ticket_booking_system.Db.{ℤ, pos, negsuc, Db, Venue, SeatCategory, Seat}
use ticket_booking_system.Venues.{get_venue}

abbrev pub less : ℤ → ℤ → Bool
less (pos a) (pos b) = ltb a b
less (pos a) (negsuc b) = false
less (negsuc a) (pos b) = true
less (negsuc a) (negsuc b) = ltb b a

abbrev pub equal : ℤ → ℤ → Bool
equal (pos a) (pos b) = a == b
equal (negsuc a) (negsuc b) = a == b
equal _ _ = false

-- `ORDER BY sort_order, name`
abbrev pub category_before : Collation → SeatCategory → SeatCategory → Bool
category_before text a b =
    if less a.sort_order b.sort_order
    then true
    else equal a.sort_order b.sort_order && text.before a.name b.name

-- `listCategoriesByVenue`
unfoldable pub list_categories_by_venue : Collation → ℕ → Db → List SeatCategory
unfolding select order_by
list_categories_by_venue text venue_id db =
    order_by (category_before text) (select (λ c. c.venue_id == venue_id) db.seat_categories)

-- `ORDER BY grid_row, grid_col`
abbrev pub seat_before : Seat → Seat → Bool
seat_before a b =
    if ltb a.grid_row b.grid_row
    then true
    else a.grid_row == b.grid_row && ltb a.grid_col b.grid_col

-- `listSeatsByVenue`
unfoldable pub list_seats_by_venue : ℕ → Db → List Seat
unfolding select order_by
list_seats_by_venue venue_id db =
    order_by seat_before (select (λ s. s.venue_id == venue_id && s.is_active) db.seats)

pub record Layout : Type 0 where
  pub venue : Venue
  pub categories : List SeatCategory
  pub seats : List Seat

-- `getVenueLayout`
unfoldable pub get_venue_layout : Collation → ℕ → Db → Result Layout
unfolding get_venue list_categories_by_venue list_seats_by_venue
get_venue_layout text venue_id db = elim (get_venue venue_id db) [
  | err e ↦ err e
  | ok venue ↦ ok (record {
    venue = venue;
    categories = list_categories_by_venue text venue_id db;
    seats = list_seats_by_venue venue_id db;
  })
]
