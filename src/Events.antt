-- ===== src/Events.antt =====
-- server/src/modules/events: creating, updating, reading and browsing events, and the summary of
-- what an event has sold (events.queries.js, events.service.js).
pub mod Summary
pub mod Totals
pub mod Pages
pub mod Update
use ticket_booking_system.Common.{
  ℕ, ◌+◌, ◌-◌, ◌*◌, ◌/◌, Bool, true, false, not, ◌&&◌, ◌||◌, Option, none, some, List, [], ◌∷◌, map,
  leb, ltb, ◌==◌, if◌then◌else◌, length, is_some, sum,
}
use ticket_booking_system.SeatStates.{SeatState}
use ticket_booking_system.Errors.{
  Result, ok, err, not_found, sql, unique_violation, foreign_key_violation,
  numeric_value_out_of_range,
}
use ticket_booking_system.Sql.{
  select, update_where, first, exists, order_by, drop, take, Collation, Ties,
}
use ticket_booking_system.Db.{
  Db, Event, EventType, movie, concert, Show, ShowStatus, ShowSeat, SeatCategory, Booking,
  BookingStatus, BookingSeat, Venue, fits_int,
}
use ticket_booking_system.Db.Tx.{Tx, Call, with_transaction}

abbrev pub page_size : ℕ
page_size = 20

-- The body of a creation after its schema.
pub record NewEvent : Type 0 where
  pub title : ℕ
  pub type : EventType
  pub description : ℕ
  pub poster_url : Option ℕ
  pub language : Option ℕ
  pub genre : Option ℕ
  pub duration_min : ℕ

abbrev pub new_event : ℕ → ℕ → ℕ → NewEvent → Event
new_event now id organiser_id e = record {
  id = id;
  organiser_id = organiser_id;
  title = e.title;
  type = e.type;
  description = e.description;
  poster_url = e.poster_url;
  language = e.language;
  genre = e.genre;
  duration_min = e.duration_min;
  is_published = false;
  created_at = now;
}

-- `insertEvent`: the range of int, the primary key, and the foreign key of the organiser.
unfoldable pub insert_event : ℕ → ℕ → ℕ → NewEvent → Tx Event
unfolding exists
insert_event now id organiser_id e db =
    if not (fits_int e.duration_min)
    then err (sql numeric_value_out_of_range)
    else if exists (λ r. r.id == id) db.events
    then err (sql unique_violation)
    else if exists (λ u. u.id == organiser_id) db.users
    then ok (
      new_event now id organiser_id e,
      record db { events = new_event now id organiser_id e ∷ db.events },
    )
    else err (sql foreign_key_violation)

-- `createEvent`: one statement, which commits by itself.
unfoldable pub create_event : ℕ → ℕ → ℕ → NewEvent → Call Event
unfolding with_transaction
create_event now id organiser_id e = with_transaction (insert_event now id organiser_id e)

-- `findEventById`
unfoldable pub find_event_by_id : ℕ → Db → Option Event
unfolding first
find_event_by_id id db = first (λ e. e.id == id) db.events

-- `getEvent`
unfoldable pub get_event : ℕ → Db → Result Event
unfolding find_event_by_id
get_event id db = elim (find_event_by_id id db) [ none ↦ err not_found | some event ↦ ok event ]

-- The keys that a patch carries; an absent key is `none`.
pub record Patch : Type 0 where
  pub title : Option ℕ
  pub type : Option EventType
  pub description : Option ℕ
  pub poster_url : Option ℕ
  pub language : Option ℕ
  pub genre : Option ℕ
  pub duration_min : Option ℕ
  pub is_published : Option Bool

abbrev pub or_else {ℓ} : {A : Type ℓ} → Option A → A → A
or_else none a = a
or_else (some b) a = b

-- A nullable column.
abbrev pub or_keep {ℓ} : {A : Type ℓ} → Option A → Option A → Option A
or_keep none a = a
or_keep (some b) a = some b

-- `entries.length === 0`
unfoldable pub is_empty : Patch → Bool
is_empty p = not (
    is_some p.title
    || is_some p.type
    || is_some p.description
    || is_some p.poster_url
    || is_some p.language
    || is_some p.genre
    || is_some p.duration_min
    || is_some p.is_published)

-- The SET clause that the keys build.
abbrev pub patched_row : Patch → Event → Event
patched_row p e = record e {
  title = or_else p.title e.title;
  type = or_else p.type e.type;
  description = or_else p.description e.description;
  poster_url = or_keep p.poster_url e.poster_url;
  language = or_keep p.language e.language;
  genre = or_keep p.genre e.genre;
  duration_min = or_else p.duration_min e.duration_min;
  is_published = or_else p.is_published e.is_published;
}

abbrev pub fits_patch : Patch → Bool
fits_patch p = fits_int (or_else p.duration_min 0)

-- The query `updateEvent`; a duration beyond the range of int is refused before a row is looked for.
unfoldable pub update_event_row : ℕ → Patch → Tx (Option Event)
unfolding is_empty find_event_by_id first update_where exists
update_event_row id p db =
    if is_empty p
    then ok (find_event_by_id id db, db)
    else if fits_patch p
    then (let events = update_where (λ e. e.id == id) (patched_row p) db.events in
        ok (first (λ e. e.id == id) events, record db { events = events }))
    else err (sql numeric_value_out_of_range)

unfoldable pub found_or_not_found : Result (Option Event) → Result Event
found_or_not_found (ok none) = err not_found
found_or_not_found (ok (some event)) = ok event
found_or_not_found (err e) = err e

-- The service `updateEvent`
unfoldable pub update_event : ℕ → Patch → Call Event
unfolding with_transaction found_or_not_found
update_event id p db =
    let (result, db') = with_transaction (update_event_row id p) db in
    (found_or_not_found result, db')

-- The filters of a browse after their schema; `page` is positive.
pub record Filters : Type 0 where
  pub type : Option EventType
  pub city : Option ℕ
  pub date_from : Option ℕ
  pub date_to : Option ℕ
  pub q : Option ℕ
  pub page : ℕ

pub record Page : Type 0 where
  pub events : List Event
  pub total : ℕ
  pub page : ℕ
  pub page_size : ℕ

abbrev pub type_eq : EventType → EventType → Bool
type_eq movie movie = true
type_eq concert concert = true
type_eq _ _ = false

abbrev pub is_scheduled : ShowStatus → Bool
is_scheduled ShowStatus.scheduled = true
is_scheduled _ = false

-- `$n IS NULL OR test`
abbrev pub unset_or {ℓ} : {A : Type ℓ} → Option A → (A → Bool) → Bool
unset_or none test = true
unset_or (some a) test = test a

-- `ORDER BY created_at DESC`
abbrev pub newer : Ties → Event → Event → Bool
newer ties a b =
    if ltb b.created_at a.created_at then true else a.created_at == b.created_at && ties a.id b.id

module _ (text : Collation) where
  -- A show of the event that the filters accept.
  unfoldable pub show_matches : Filters → Db → Event → Show → Bool
  unfolding exists
  show_matches f db e s =
      s.event_id == e.id
      && is_scheduled s.status
      && exists (λ v. v.id == s.venue_id && unset_or f.city (λ city. text.ilike v.city city))
          db.venues
      && unset_or f.date_from (λ from. leb from s.starts_at)
      && unset_or f.date_to (λ to. leb s.starts_at to)

  abbrev pub no_show_filter : Filters → Bool
  no_show_filter f = not (is_some f.city || is_some f.date_from || is_some f.date_to)

  -- The WHERE clause of `listPublishedEvents`.
  unfoldable pub event_matches : Filters → Db → Event → Bool
  unfolding exists show_matches
  event_matches f db e =
      e.is_published
      && unset_or f.type (λ type. type_eq e.type type)
      && unset_or f.q (λ q. text.ilike e.title (text.around q))
      && (no_show_filter f || exists (show_matches f db e) db.shows)

  -- The rows before LIMIT and OFFSET.
  unfoldable pub matching_events : Ties → Filters → Db → List Event
  unfolding select order_by event_matches
  matching_events ties f db = order_by (newer ties) (select (event_matches f db) db.events)

  -- `listPublishedEvents`; the total is read off the first row of the page.
  unfoldable pub list_published_events : Ties → Filters → Db → Page
  unfolding matching_events drop take
  list_published_events ties f db =
      let rows = matching_events ties f db in
      let events = take page_size (drop ((f.page - 1) * page_size) rows) in
      record {
        events = events;
        total = elim events [ [] ↦ 0 | e ∷ es ↦ length rows ];
        page = f.page;
        page_size = page_size;
      }

-- The organiser that `loadEventForOwnership` reports.
unfoldable pub load_event_for_ownership : ℕ → Db → Option ℕ
unfolding find_event_by_id
load_event_for_ownership id db = elim (find_event_by_id id db) [
  | none ↦ none
  | some event ↦ some event.organiser_id
]
