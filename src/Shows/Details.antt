-- ===== src/Shows/Details.antt =====
-- The reads of shows.queries.js and shows.service.js.
use ticket_booking_system.Common.{ℕ, Option, none, some, List, [], ◌∷◌, ltb, ◌==◌}
use ticket_booking_system.Errors.{Result, ok, err, not_found}
use ticket_booking_system.Sql.{select, first, order_by}
use ticket_booking_system.Db.{Db, Show, ShowPrice, EventType}

-- The flattened row of `findShowDetailById`.
pub record ShowDetail : Type 0 where
  pub show : Show
  pub event_title : ℕ
  pub event_type : EventType
  pub event_poster_url : Option ℕ
  pub venue_name : ℕ
  pub venue_city : ℕ
  pub venue_address : ℕ

-- `findShowDetailById`; none where a join finds no partner.
unfoldable pub find_show_detail_by_id : ℕ → Db → Option ShowDetail
unfolding first
find_show_detail_by_id id db = elim (first (λ s. s.id == id) db.shows) [
  | none ↦ none
  | some s ↦ elim (first (λ e. e.id == s.event_id) db.events) [
    | none ↦ none
    | some e ↦ elim (first (λ v. v.id == s.venue_id) db.venues) [
      | none ↦ none
      | some v ↦ some (record {
        show = s;
        event_title = e.title;
        event_type = e.type;
        event_poster_url = e.poster_url;
        venue_name = v.name;
        venue_city = v.city;
        venue_address = v.address;
      })
    ]
  ]
]

-- `listShowPrices`
unfoldable pub list_show_prices : ℕ → Db → List ShowPrice
unfolding select
list_show_prices show_id db = select (λ p. p.show_id == show_id) db.show_prices

-- `getShow`
unfoldable pub get_show : ℕ → Db → Result (ShowDetail × List ShowPrice)
unfolding find_show_detail_by_id list_show_prices
get_show id db = elim (find_show_detail_by_id id db) [
  | none ↦ err not_found
  | some show ↦ ok (show, list_show_prices id db)
]

-- The organiser that `findShowWithEventOwner` joins, which `loadShowForOwnership` reports.
unfoldable pub load_show_for_ownership : ℕ → Db → Option ℕ
unfolding first
load_show_for_ownership show_id db = elim (first (λ s. s.id == show_id) db.shows) [
  | none ↦ none
  | some s ↦ elim (first (λ e. e.id == s.event_id) db.events) [
    | none ↦ none
    | some e ↦ some e.organiser_id
  ]
]

-- A row of `listShowsByEvent`.
pub record Listing : Type 0 where
  pub show : Show
  pub venue_name : ℕ
  pub venue_city : ℕ

unfoldable pub with_venues : Db → List Show → List Listing
unfolding first
with_venues db [] = []
with_venues db (s ∷ ss) =
    let rest = with_venues db ss in
    elim (first (λ v. v.id == s.venue_id) db.venues) [
      | none ↦ rest
      | some v ↦ record { show = s; venue_name = v.name; venue_city = v.city } ∷ rest
    ]

-- `listShowsByEvent`
unfoldable pub list_shows_by_event : ℕ → Db → List Listing
unfolding select order_by with_venues
list_shows_by_event event_id db =
    with_venues db (
      order_by (λ a b. ltb a.starts_at b.starts_at) (select (λ s. s.event_id == event_id) db.shows))
