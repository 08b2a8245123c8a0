-- ===== src/Seatmap.antt =====
-- server/src/modules/seatmap: the effective state of a seat (seatmap.queries.js), the seat map of a
-- show and its legend (seatmap.service.js); with the lookup of a show (shows.queries.js) and of the
-- rows that the map joins.
pub mod Legends
use ticket_booking_system.Common.{
  ℕ, Bool, true, false, Option, none, some, List, [], ◌∷◌, ◌++◌, ◌&&◌, ltb, ◌==◌, if◌then◌else◌,
}
use ticket_booking_system.SeatStates.{SeatState, available, held, offer_reserved, state_eq}
use ticket_booking_system.Errors.{Result, ok, err, not_found}
use ticket_booking_system.Sql.{select, first, le_null}
use ticket_booking_system.Db.{Db, ShowSeat, Show, ShowPrice}

-- `findShowById`
unfoldable pub find_show_by_id : ℕ → Db → Option Show
unfolding first
find_show_by_id id db = first (λ s. s.id == id) db.shows

-- `EFFECTIVE_STATE_CASE`
unfoldable pub effective_state : ℕ → ShowSeat → SeatState
effective_state now ss =
    if state_eq ss.state held && le_null ss.expires_at now
    then available
    else if state_eq ss.state offer_reserved && le_null ss.reserved_until now
    then available
    else ss.state

-- A row of `mapSeatMapRow`.
pub record SeatMapRow : Type 0 where
  pub show_seat_id : ℕ
  pub seat_id : ℕ
  pub category_id : ℕ
  pub row_label : ℕ
  pub seat_number : ℕ
  pub grid_row : ℕ
  pub grid_col : ℕ
  pub is_accessible : Bool
  pub state : SeatState
  pub category_name : ℕ
  pub category_color_hex : ℕ
  pub price_cents : Option ℕ

unfoldable pub find_price : ℕ → ℕ → List ShowPrice → Option ℕ
find_price show_id category_id [] = none
find_price show_id category_id (p ∷ ps) =
    if p.show_id == show_id && p.category_id == category_id
    then some p.price_cents
    else find_price show_id category_id ps

-- The joins of one row: none where an inner join finds no partner.
unfoldable pub seat_map_row : ℕ → Db → ShowSeat → Option SeatMapRow
unfolding effective_state find_price
seat_map_row now db ss = elim (first (λ s. s.id == ss.seat_id) db.seats) [
  | none ↦ none
  | some s ↦ elim (first (λ c. c.id == ss.category_id) db.seat_categories) [
    | none ↦ none
    | some sc ↦ some (record {
      show_seat_id = ss.id;
      seat_id = ss.seat_id;
      category_id = ss.category_id;
      row_label = s.row_label;
      seat_number = s.seat_number;
      grid_row = s.grid_row;
      grid_col = s.grid_col;
      is_accessible = s.is_accessible;
      state = effective_state now ss;
      category_name = sc.name;
      category_color_hex = sc.color_hex;
      price_cents = find_price ss.show_id ss.category_id db.show_prices;
    })
  ]
]

abbrev row_before : SeatMapRow → SeatMapRow → Bool
row_before a b =
    if ltb a.grid_row b.grid_row
    then true
    else a.grid_row == b.grid_row && ltb a.grid_col b.grid_col

-- `ORDER BY s.grid_row, s.grid_col`, by insertion.
unfoldable pub insert_ordered : SeatMapRow → List SeatMapRow → List SeatMapRow
insert_ordered r [] = r ∷ []
insert_ordered r (t ∷ ts) = if row_before t r then t ∷ insert_ordered r ts else r ∷ t ∷ ts

unfoldable pub ordered_rows : ℕ → Db → List ShowSeat → List SeatMapRow
unfolding insert_ordered seat_map_row
ordered_rows now db [] = []
ordered_rows now db (ss ∷ rest) =
    let rows = ordered_rows now db rest in
    elim (seat_map_row now db ss) [ none ↦ rows | some r ↦ insert_ordered r rows ]

unfoldable pub get_effective_seat_map : ℕ → ℕ → Db → List SeatMapRow
unfolding ordered_rows select
get_effective_seat_map now show_id db =
    ordered_rows now db (select (λ ss. ss.show_id == show_id) db.show_seats)

-- An entry of the legend.
pub record Legend : Type 0 where
  pub category_id : ℕ
  pub name : ℕ
  pub color_hex : ℕ
  pub price_cents : Option ℕ

-- `legendByCategory.has(categoryId)`
unfoldable pub has_category : ℕ → List Legend → Bool
has_category c [] = false
has_category c (l ∷ ls) = if l.category_id == c then true else has_category c ls

-- The body of the loop over the seats; the Map keeps the order of insertion.
unfoldable pub add_legend : List Legend → SeatMapRow → List Legend
unfolding has_category
add_legend legend seat =
    if has_category seat.category_id legend
    then legend
    else legend
      ++ record {
        category_id = seat.category_id;
        name = seat.category_name;
        color_hex = seat.category_color_hex;
        price_cents = seat.price_cents;
      }
        ∷ []

unfoldable pub legend_from : List Legend → List SeatMapRow → List Legend
unfolding add_legend
legend_from legend [] = legend
legend_from legend (seat ∷ seats) = legend_from (add_legend legend seat) seats

pub record SeatMap : Type 0 where
  pub show_id : ℕ
  pub seats : List SeatMapRow
  pub legend : List Legend

-- `getSeatMap`
unfoldable pub get_seat_map : ℕ → ℕ → Db → Result SeatMap
unfolding find_show_by_id get_effective_seat_map legend_from
get_seat_map now show_id db = elim (find_show_by_id show_id db) [
  | none ↦ err not_found
  | some show ↦
      let rows = get_effective_seat_map now show_id db in
      ok (record { show_id = show_id; seats = rows; legend = legend_from [] rows })
]
