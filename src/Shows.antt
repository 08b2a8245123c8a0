-- ===== src/Shows.antt =====
-- server/src/modules/shows: a show with its prices, and the publication that makes its seat map
-- (shows.queries.js, shows.service.js). The lookup of a show is in Seatmap.
pub mod Publish
pub mod Opening
pub mod Details
use ticket_booking_system.Common.{
  ℕ, zero, suc, ◌+◌, Bool, true, false, not, ◌&&◌, ◌||◌, Option, none, some, List, [], ◌∷◌, map,
  ltb, leb, ◌==◌, if◌then◌else◌, length,
}
use ticket_booking_system.SeatStates.{available}
use ticket_booking_system.Errors.{
  Result, ok, err, not_found, conflict, sql, unique_violation, foreign_key_violation,
  numeric_value_out_of_range,
}
use ticket_booking_system.Sql.{select, first, exists, insert_rows, order_by}
use ticket_booking_system.Db.{
  Db, Show, ShowPrice, ShowStatus, ShowSeat, Seat, Event, Venue, fits_int,
}
use ticket_booking_system.Db.Tx.{Tx, Call, with_transaction, pure, ◌>>=◌}
use ticket_booking_system.Seatmap.{find_show_by_id}
use ticket_booking_system.Venues.{or_conflict}

pub record NewPrice : Type 0 where
  pub category_id : ℕ
  pub price_cents : ℕ

-- The body of a creation after its schema.
pub record NewShow : Type 0 where
  pub venue_id : ℕ
  pub starts_at : ℕ
  pub ends_at : ℕ
  pub hold_ttl_seconds : Option ℕ
  pub offer_ttl_seconds : Option ℕ
  pub prices : List NewPrice

-- `COALESCE($n, literal)`
abbrev pub coalesce : Option ℕ → ℕ → ℕ
coalesce none literal = literal
coalesce (some n) literal = n

abbrev pub new_show : ℕ → ℕ → NewShow → Show
new_show id event_id s = record {
  id = id;
  event_id = event_id;
  venue_id = s.venue_id;
  starts_at = s.starts_at;
  ends_at = s.ends_at;
  status = ShowStatus.scheduled;
  hold_ttl_seconds = coalesce s.hold_ttl_seconds 600;
  offer_ttl_seconds = coalesce s.offer_ttl_seconds 900;
}

-- `insertShow`: the range of int, the primary key, and the foreign keys.
unfoldable pub insert_show : ℕ → ℕ → NewShow → Tx Show
unfolding exists
insert_show id event_id s db =
    let show = new_show id event_id s in
    if not (fits_int show.hold_ttl_seconds && fits_int show.offer_ttl_seconds)
    then err (sql numeric_value_out_of_range)
    else if exists (λ r. r.id == id) db.shows
    then err (sql unique_violation)
    else if exists (λ e. e.id == event_id) db.events && exists (λ v. v.id == s.venue_id) db.venues
    then ok (show, record db { shows = show ∷ db.shows })
    else err (sql foreign_key_violation)

abbrev pub price_row : ℕ → NewPrice → ShowPrice
price_row show_id p = record {
  show_id = show_id;
  category_id = p.category_id;
  price_cents = p.price_cents;
}

-- PRIMARY KEY (show_id, category_id)
abbrev pub prices_clash : ShowPrice → ShowPrice → Bool
prices_clash r t = r.show_id == t.show_id && r.category_id == t.category_id

unfoldable pub prices_fit : List NewPrice → Bool
prices_fit [] = true
prices_fit (p ∷ ps) = fits_int p.price_cents && prices_fit ps

-- The foreign keys of the new rows.
unfoldable pub prices_refer : ℕ → List NewPrice → Db → Bool
unfolding exists
prices_refer show_id [] db = true
prices_refer show_id (p ∷ ps) db =
    exists (λ s. s.id == show_id) db.shows
    && exists (λ c. c.id == p.category_id) db.seat_categories
    && prices_refer show_id ps db

-- `insertShowPrices`
unfoldable pub insert_show_prices : ℕ → List NewPrice → Tx (List ShowPrice)
unfolding insert_rows prices_fit prices_refer
insert_show_prices show_id prices db =
    let rows = map (price_row show_id) prices in
    if not (prices_fit prices)
    then err (sql numeric_value_out_of_range)
    else elim (insert_rows prices_clash rows db.show_prices) [
      | none ↦ err (sql unique_violation)
      | some after ↦
          if prices_refer show_id prices db
          then ok (rows, record db { show_prices = after })
          else err (sql foreign_key_violation)
    ]

-- The transaction of `createShow`.
unfoldable pub create_show_transaction : ℕ → ℕ → NewShow → Tx (Show × List ShowPrice)
create_show_transaction id event_id input = do
  show ← insert_show id event_id input
  prices ← insert_show_prices show.id input.prices
  pure (show, prices)

-- The catch of `createShow`.
unfoldable pub or_unknown : {A : Type 0} → Result A → Result A
or_unknown (err (sql foreign_key_violation)) = err not_found
or_unknown r = r

-- `createShow`
unfoldable pub create_show : ℕ → ℕ → NewShow → Call (Show × List ShowPrice)
unfolding with_transaction or_unknown
create_show id event_id input db =
    let (result, db') = with_transaction (create_show_transaction id event_id input) db in
    (or_unknown result, db')

-- `countShowSeats`
unfoldable pub count_show_seats : ℕ → Db → ℕ
unfolding select
count_show_seats show_id db = length (select (λ ss. ss.show_id == show_id) db.show_seats)

-- The row of a seat when its show is published; its key is the draw for the seat.
abbrev pub published_row : ℕ → (ℕ → ℕ) → ℕ → Seat → ShowSeat
published_row now draw show_id s = record {
  id = draw s.id;
  show_id = show_id;
  seat_id = s.id;
  category_id = s.category_id;
  state = available;
  hold_id = none;
  held_by_user_id = none;
  expires_at = none;
  reserved_until = none;
  booking_id = none;
  version = 0;
  updated_at = now;
}

-- The primary key, and UNIQUE (show_id, seat_id).
abbrev pub show_seats_clash : ShowSeat → ShowSeat → Bool
show_seats_clash r t = r.id == t.id || r.show_id == t.show_id && r.seat_id == t.seat_id

-- The rows that the SELECT of `materialiseShowSeats` reads.
unfoldable pub active_seats : ℕ → Db → List Seat
unfolding select
active_seats venue_id db = select (λ s. s.venue_id == venue_id && s.is_active) db.seats

-- `materialiseShowSeats`; the show has been found before, and a row of `seats` refers to a category.
unfoldable pub materialise_show_seats : ℕ → (ℕ → ℕ) → ℕ → ℕ → Tx ℕ
unfolding active_seats insert_rows
materialise_show_seats now draw show_id venue_id db =
    let rows = map (published_row now draw show_id) (active_seats venue_id db) in
    elim (insert_rows show_seats_clash rows db.show_seats) [
      | none ↦ err (sql unique_violation)
      | some after ↦ ok (length rows, record db { show_seats = after })
    ]

pub record Published : Type 0 where
  pub show : Show
  pub seat_count : ℕ

unfoldable pub published : Show → Result ℕ → Result Published
published show (ok n) = ok (record { show = show; seat_count = n })
published show (err e) = err e

-- `publishShow` once its two reads have let it through; both run outside the transaction.
unfoldable pub publish_checked_show : ℕ → (ℕ → ℕ) → Show → Call Published
unfolding with_transaction or_conflict published materialise_show_seats
publish_checked_show now draw show db =
    let (result, db') =
      with_transaction (materialise_show_seats now draw show.id show.venue_id) db in
    (published show (or_conflict result), db')

-- `publishShow`
unfoldable pub publish_show : ℕ → (ℕ → ℕ) → ℕ → Call Published
unfolding find_show_by_id count_show_seats publish_checked_show
publish_show now draw show_id db = elim (find_show_by_id show_id db) [
  | none ↦ (err not_found, db)
  | some show ↦
      if ltb 0 (count_show_seats show_id db)
      then (err conflict, db)
      else publish_checked_show now draw show db
]
