-- ===== src/Events/Summary.antt =====
-- `getEventSummary` and its statement: what an event has sold, by category and in all.
use ticket_booking_system.Common.{
  ℕ, zero, ◌+◌, ◌*◌, ◌/◌, Bool, true, false, ◌&&◌, none, some, List, [], ◌∷◌, map, ◌==◌,
  if◌then◌else◌, length, sum,
}
use ticket_booking_system.Errors.{Result, ok, err, not_found, sql, numeric_value_out_of_range}
use ticket_booking_system.Sql.{select, exists, order_by, Collation}
use ticket_booking_system.Db.{
  Db, Event, ShowSeat, SeatCategory, BookingSeat, BookingStatus, fits_int,
}
use ticket_booking_system.Events.{find_event_by_id}

abbrev pub is_confirmed : BookingStatus → Bool
is_confirmed BookingStatus.confirmed = true
is_confirmed _ = false

-- A row of `getEventSummaryByCategory`.
pub record CategorySummary : Type 0 where
  pub category_id : ℕ
  pub category_name : ℕ
  pub total_seats : ℕ
  pub sold : ℕ
  pub revenue_cents : ℕ

-- The show seats that the join with the shows of the event keeps.
unfoldable pub event_seats : ℕ → Db → List ShowSeat
unfolding select exists
event_seats event_id db =
    select (λ ss. exists (λ s. s.id == ss.show_id && s.event_id == event_id) db.shows) db.show_seats

-- The rows that the left join finds for a show seat.
unfoldable pub sales : Db → ShowSeat → List BookingSeat
unfolding select exists
sales db ss =
    select
      (λ bs.
        bs.show_seat_id == ss.id
        && exists (λ b. b.id == bs.booking_id && is_confirmed b.status) db.bookings)
      db.booking_seats

abbrev pub seat_revenue : Db → ShowSeat → ℕ
seat_revenue db ss = sum (map (λ bs. bs.price_cents) (sales db ss))

-- The rows of a group.
abbrev pub of_category : SeatCategory → List ShowSeat → List ShowSeat
of_category c = select (λ ss. ss.category_id == c.id)

abbrev pub summarise : Db → List ShowSeat → SeatCategory → CategorySummary
summarise db seats c = record {
  category_id = c.id;
  category_name = c.name;
  total_seats = length (of_category c seats);
  sold = sum (map (λ ss. length (sales db ss)) (of_category c seats));
  revenue_cents = sum (map (seat_revenue db) (of_category c seats));
}

-- A category without a seat forms no group.
unfoldable pub groups : List ShowSeat → List SeatCategory → List SeatCategory
unfolding select exists
groups seats = select (λ c. exists (λ ss. ss.category_id == c.id) seats)

unfoldable pub all_fit : List CategorySummary → Bool
all_fit [] = true
all_fit (r ∷ rs) = fits_int r.revenue_cents && all_fit rs

-- `getEventSummaryByCategory`; the cast of a sum to int can fail.
unfoldable pub get_event_summary_by_category : Collation → ℕ → Db → Result (List CategorySummary)
unfolding event_seats groups order_by all_fit sales
get_event_summary_by_category text event_id db =
    let seats = event_seats event_id db in
    let rows =
      map (summarise db seats)
        (order_by (λ a b. text.before a.name b.name) (groups seats db.seat_categories)) in
    if all_fit rows then ok rows else err (sql numeric_value_out_of_range)

-- `Math.round((sold / totalSeats) * 1000)` at the exact quotient: tenths of a percent.
unfoldable pub occupancy : ℕ → ℕ → ℕ
occupancy sold zero = 0
occupancy sold total_seats = (sold * 2000 + total_seats) / (total_seats * 2)

pub record Totals : Type 0 where
  pub total_seats : ℕ
  pub sold : ℕ
  pub revenue_cents : ℕ
  pub occupancy_tenths : ℕ

pub record EventSummary : Type 0 where
  pub event : Event
  pub categories : List (CategorySummary × ℕ)
  pub totals : Totals

unfoldable pub totals_of : List CategorySummary → Totals
unfolding occupancy
totals_of rows =
    let total_seats = sum (map (λ r. r.total_seats) rows) in
    let sold = sum (map (λ r. r.sold) rows) in
    record {
      total_seats = total_seats;
      sold = sold;
      revenue_cents = sum (map (λ r. r.revenue_cents) rows);
      occupancy_tenths = occupancy sold total_seats;
    }

-- `getEventSummary`
unfoldable pub get_event_summary : Collation → ℕ → Db → Result EventSummary
unfolding find_event_by_id get_event_summary_by_category totals_of occupancy
get_event_summary text event_id db = elim (find_event_by_id event_id db) [
  | none ↦ err not_found
  | some event ↦ elim (get_event_summary_by_category text event_id db) [
    | err e ↦ err e
    | ok rows ↦ ok (record {
      event = event;
      categories = map (λ r. (r, occupancy r.sold r.total_seats)) rows;
      totals = totals_of rows;
    })
  ]
]
