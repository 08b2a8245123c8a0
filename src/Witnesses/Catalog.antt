-- ===== src/Witnesses/Catalog.antt =====
-- The theorems about venues and events, at the small database with a venue and two events.
use ticket_booking_system.Common.{
  ℕ, zero, suc, ltb, ◌≡◌, ◌≤◌, ◌⊎◌, ◌+◌, refl, Bool, true, false, ◌==◌, none, some, [], ◌∷◌, ◌++◌,
  map, length, sum, arith,
}
use ticket_booking_system.Errors.{ok, err, conflict}
use ticket_booking_system.Sql.{exists, select, Collation, Ties}
use ticket_booking_system.Sql.Keys.{IsUnique}
use ticket_booking_system.Db.{Db, Event, EventType, Venue}
use ticket_booking_system.Venues.{
  RowSpec, bulk_create_seats, seats_clash, place, expand, seats_fit, refer, find_venue_by_id,
}
use ticket_booking_system.Venues.Bulk.{bulk_create_seats_cases, created_db, new_seats}
use ticket_booking_system.Events.{Filters, matching_events, event_matches, show_matches, page_size}
use ticket_booking_system.Events.Pages.{pages, page_of, list_published_events-pages}
use ticket_booking_system.Events.{find_event_by_id}
use ticket_booking_system.Events.Summary.{
  CategorySummary, EventSummary, get_event_summary, get_event_summary_by_category, event_seats,
  groups, sales, seat_revenue, totals_of, occupancy, all_fit,
}
use ticket_booking_system.Events.Totals.{get_event_summary_totals}
use ticket_booking_system.Scenarios.{booked_db, held_db, runs}
use ticket_booking_system.Fixtures.{fresh_db}

-- What the conditions on a request compute through.
unfoldable catalog_runs : Unit {0}
unfolding matching_events event_matches show_matches place expand seats_fit refer find_venue_by_id
    exists select
catalog_runs = tt

abbrev text : Collation
text = record { ilike = λ a b. a == b; around = λ a. a; before = λ a b. false }

abbrev venue : Venue
venue = record { id = 4; name = 1; address = 2; city = 3; layout_meta = 0; created_at = 0 }

abbrev event : ℕ → Bool → Event
event id is_published = record {
  id = id;
  organiser_id = 2;
  title = 5;
  type = EventType.movie;
  description = 0;
  poster_url = none;
  language = none;
  genre = none;
  duration_min = 120;
  is_published = is_published;
  created_at = id;
}

abbrev catalog_db : Db
catalog_db = record fresh_db {
  venues = venue ∷ [];
  events = event 3 true ∷ event 6 true ∷ event 7 false ∷ [];
}

abbrev filters : Filters
filters = record {
  type = none;
  city = none;
  date_from = none;
  date_to = none;
  q = some 5;
  page = 1;
}

-- Two seats in a new row, of category 7.
abbrev spec : RowSpec
spec = record {
  row_label = 66;
  count = 2;
  category_id = 7;
  grid_row = 1;
  start_seat_number = 1;
  start_grid_col = 0;
  is_accessible = false;
}

-- Ties go by the key, on every second page the other way.
abbrev by_key : ℕ → Ties
by_key zero a b = ltb a b
by_key (suc zero) a b = ltb b a
by_key (suc (suc n)) a b = by_key n a b

list_published_events-pages_example :
    (pages text by_key filters catalog_db 1 ≡ matching_events text (by_key 0) filters catalog_db)
    × ((k : ℕ) → length (page_of text by_key filters catalog_db k) ≤ page_size)
unfolding catalog_runs
list_published_events-pages_example =
    list_published_events-pages text by_key filters catalog_db 1 (refl, (refl, tt)) (omega arith)

bulk_create_seats_cases_example :
    (IsUnique seats_clash (new_seats (λ i. i + 30) 4 (spec ∷ []) catalog_db ++ catalog_db.seats))
      × (length (new_seats (λ i. i + 30) 4 (spec ∷ []) catalog_db)
          ≡ sum (map (λ spec. spec.count) (spec ∷ [])))
      × (bulk_create_seats (λ i. i + 30) 4 (spec ∷ []) catalog_db ≡ (
        ok (new_seats (λ i. i + 30) 4 (spec ∷ []) catalog_db),
        created_db (λ i. i + 30) 4 (spec ∷ []) catalog_db,
      ))
    ⊎ (¬ IsUnique seats_clash
        (new_seats (λ i. i + 30) 4 (spec ∷ []) catalog_db ++ catalog_db.seats))
      × (bulk_create_seats (λ i. i + 30) 4 (spec ∷ []) catalog_db ≡ (err conflict, catalog_db))
unfolding catalog_runs
bulk_create_seats_cases_example =
    bulk_create_seats_cases (λ i. i + 30) 4 (spec ∷ []) catalog_db venue refl refl refl
      (refl, (refl, (refl, tt)))

-- The event of the booked seats.
unfoldable sold_db : Db
unfolding booked_db held_db runs
sold_db = record booked_db { events = event 3 true ∷ [] }

abbrev row : ℕ → ℕ → ℕ → ℕ → ℕ → CategorySummary
row id name total_seats sold revenue_cents = record {
  category_id = id;
  category_name = name;
  total_seats = total_seats;
  sold = sold;
  revenue_cents = revenue_cents;
}

abbrev summary : EventSummary
summary = record {
  event = event 3 true;
  categories = (row 7 1 2 1 1000, 500) ∷ (row 8 2 1 1 510, 1000) ∷ [];
  totals = record { total_seats = 3; sold = 2; revenue_cents = 1510; occupancy_tenths = 667 };
}

summarised : get_event_summary text 3 sold_db ≡ ok summary
unfolding sold_db booked_db held_db runs get_event_summary get_event_summary_by_category
    find_event_by_id event_seats groups sales totals_of occupancy all_fit
summarised = refl

get_event_summary_totals_example :
    (3 ≡ length (event_seats 3 sold_db))
    × (2 ≡ sum (map (λ s. length (sales sold_db s)) (event_seats 3 sold_db)))
    × (1510 ≡ sum (map (seat_revenue sold_db) (event_seats 3 sold_db)))
unfolding sold_db booked_db held_db runs event_seats exists select
get_event_summary_totals_example =
    get_event_summary_totals text 3 sold_db (refl, (refl, tt)) (refl, (refl, (refl, tt))) summary
      summarised
