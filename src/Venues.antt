-- ===== src/Venues.antt =====
-- server/src/modules/venues: venues, their seat categories and their seats (venues.queries.js,
-- venues.service.js).
pub mod Layout
pub mod Bulk
use ticket_booking_system.Common.{
  ℕ, zero, suc, ◌+◌, Bool, true, false, not, ◌&&◌, ◌||◌, Option, none, some, List, [], ◌∷◌, ◌++◌,
  map, ltb, ◌==◌, if◌then◌else◌,
}
use ticket_booking_system.Errors.{
  Result, ok, err, not_found, conflict, sql, unique_violation, foreign_key_violation,
  numeric_value_out_of_range,
}
use ticket_booking_system.Sql.{select, first, exists, order_by, insert_rows}
use ticket_booking_system.Db.{ℤ, pos, negsuc, Db, Venue, SeatCategory, Seat, fits_int}
use ticket_booking_system.Db.Tx.{Tx, Call, with_transaction}

pub record NewVenue : Type 0 where
  pub name : ℕ
  pub address : ℕ
  pub city : ℕ
  pub layout_meta : ℕ

-- `insertVenue`
unfoldable pub insert_venue : ℕ → ℕ → NewVenue → Tx Venue
unfolding exists
insert_venue now id v db =
    let venue : Venue = record {
      id = id;
      name = v.name;
      address = v.address;
      city = v.city;
      layout_meta = v.layout_meta;
      created_at = now;
    } in
    if exists (λ r. r.id == id) db.venues
    then err (sql unique_violation)
    else ok (venue, record db { venues = venue ∷ db.venues })

-- `createVenue`: one statement, which commits by itself.
unfoldable pub create_venue : ℕ → ℕ → NewVenue → Call Venue
unfolding with_transaction
create_venue now id v = with_transaction (insert_venue now id v)

-- `listVenues`
unfoldable pub list_venues : Db → List Venue
unfolding order_by
list_venues db = order_by (λ a b. ltb b.created_at a.created_at) db.venues

-- `findVenueById`
unfoldable pub find_venue_by_id : ℕ → Db → Option Venue
unfolding first
find_venue_by_id id db = first (λ v. v.id == id) db.venues

-- `getVenue`
unfoldable pub get_venue : ℕ → Db → Result Venue
unfolding find_venue_by_id
get_venue id db = elim (find_venue_by_id id db) [ none ↦ err not_found | some venue ↦ ok venue ]

-- The number that stands for '#6366f1'.
abbrev pub default_color : ℕ
default_color = 6514417

-- The range of a Postgres `int` column.
abbrev pub fits_signed : ℤ → Bool
fits_signed (pos n) = fits_int n
fits_signed (negsuc n) = fits_int n

pub record NewCategory : Type 0 where
  pub name : ℕ
  pub color_hex : Option ℕ
  pub sort_order : ℤ

abbrev pub color_or_default : Option ℕ → ℕ
color_or_default none = default_color
color_or_default (some color) = color

-- `insertCategory`: the range of int, the primary key, UNIQUE (venue_id, name), and the foreign key.
unfoldable pub insert_category : ℕ → ℕ → NewCategory → Tx SeatCategory
unfolding exists
insert_category id venue_id c db =
    let category : SeatCategory = record {
      id = id;
      venue_id = venue_id;
      name = c.name;
      color_hex = color_or_default c.color_hex;
      sort_order = c.sort_order;
    } in
    if not (fits_signed c.sort_order)
    then err (sql numeric_value_out_of_range)
    else if exists (λ r. r.id == id || r.venue_id == venue_id && r.name == c.name)
        db.seat_categories
    then err (sql unique_violation)
    else if exists (λ v. v.id == venue_id) db.venues
    then ok (category, record db { seat_categories = category ∷ db.seat_categories })
    else err (sql foreign_key_violation)

-- The catch of `createCategory` and of `bulkCreateSeats`.
unfoldable pub or_conflict : {A : Type 0} → Result A → Result A
or_conflict (err (sql unique_violation)) = err conflict
or_conflict r = r

-- `createCategory`
unfoldable pub create_category : ℕ → ℕ → NewCategory → Call SeatCategory
unfolding with_transaction or_conflict get_venue
create_category id venue_id c db = elim (get_venue venue_id db) [
  | err e ↦ (err e, db)
  | ok venue ↦
      let (result, db') = with_transaction (insert_category id venue_id c) db in
      (or_conflict result, db')
]

-- A seat of a bulk insert.
pub record NewSeat : Type 0 where
  pub category_id : ℕ
  pub row_label : ℕ
  pub seat_number : ℕ
  pub grid_row : ℕ
  pub grid_col : ℕ
  pub is_accessible : Bool

-- `{ rowLabel, count, categoryId, gridRow, startSeatNumber, startGridCol, isAccessible }`
pub record RowSpec : Type 0 where
  pub row_label : ℕ
  pub count : ℕ
  pub category_id : ℕ
  pub grid_row : ℕ
  pub start_seat_number : ℕ
  pub start_grid_col : ℕ
  pub is_accessible : Bool

abbrev pub seat_of_spec : RowSpec → ℕ → NewSeat
seat_of_spec spec i = record {
  category_id = spec.category_id;
  row_label = spec.row_label;
  seat_number = spec.start_seat_number + i;
  grid_row = spec.grid_row;
  grid_col = spec.start_grid_col + i;
  is_accessible = spec.is_accessible;
}

-- `Array.from({ length: n }, …)`, from the index `i` on.
unfoldable pub seats_from : RowSpec → ℕ → ℕ → List NewSeat
seats_from spec i zero = []
seats_from spec i (suc n) = seat_of_spec spec i ∷ seats_from spec (suc i) n

-- `rowSpecs.flatMap(…)`
unfoldable pub expand : List RowSpec → List NewSeat
unfolding seats_from
expand [] = []
expand (spec ∷ specs) = seats_from spec 0 spec.count ++ expand specs

abbrev pub placed : ℕ → ℕ → NewSeat → Seat
placed id venue_id s = record {
  id = id;
  venue_id = venue_id;
  category_id = s.category_id;
  row_label = s.row_label;
  seat_number = s.seat_number;
  grid_row = s.grid_row;
  grid_col = s.grid_col;
  is_accessible = s.is_accessible;
  is_active = true;
}

-- The rows to insert; the key of the i-th is the i-th draw.
unfoldable pub place : (ℕ → ℕ) → ℕ → ℕ → List NewSeat → List Seat
place draw venue_id i [] = []
place draw venue_id i (s ∷ ss) = placed (draw i) venue_id s ∷ place draw venue_id (suc i) ss

-- The primary key, UNIQUE (venue_id, row_label, seat_number) and UNIQUE (venue_id, grid_row,
-- grid_col).
abbrev pub seats_clash : Seat → Seat → Bool
seats_clash r t =
    r.id == t.id
    || r.venue_id == t.venue_id && r.row_label == t.row_label && r.seat_number == t.seat_number
    || r.venue_id == t.venue_id && r.grid_row == t.grid_row && r.grid_col == t.grid_col

unfoldable pub seats_fit : List NewSeat → Bool
seats_fit [] = true
seats_fit (s ∷ ss) =
    fits_int s.seat_number && fits_int s.grid_row && fits_int s.grid_col && seats_fit ss

-- The foreign keys of the new rows.
unfoldable pub refer : ℕ → List NewSeat → Db → Bool
unfolding exists
refer venue_id [] db = true
refer venue_id (s ∷ ss) db =
    exists (λ v. v.id == venue_id) db.venues
    && exists (λ c. c.id == s.category_id) db.seat_categories
    && refer venue_id ss db

-- `insertSeatsBulk`
unfoldable pub insert_seats_bulk : (ℕ → ℕ) → ℕ → List NewSeat → Tx (List Seat)
unfolding place seats_fit refer insert_rows
insert_seats_bulk draw venue_id seats db =
    let rows = place draw venue_id 0 seats in
    if not (seats_fit seats)
    then err (sql numeric_value_out_of_range)
    else elim (insert_rows seats_clash rows db.seats) [
      | none ↦ err (sql unique_violation)
      | some after ↦
          if refer venue_id seats db
          then ok (rows, record db { seats = after })
          else err (sql foreign_key_violation)
    ]

-- `bulkCreateSeats`
unfoldable pub bulk_create_seats : (ℕ → ℕ) → ℕ → List RowSpec → Call (List Seat)
unfolding with_transaction or_conflict get_venue insert_seats_bulk expand
bulk_create_seats draw venue_id specs db = elim (get_venue venue_id db) [
  | err e ↦ (err e, db)
  | ok venue ↦
      let (result, db') = with_transaction (insert_seats_bulk draw venue_id (expand specs)) db in
      (or_conflict result, db')
]
