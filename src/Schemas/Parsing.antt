-- ===== src/Schemas/Parsing.antt =====
-- The requests that have a schema, each with its schema and the body that is read off it.
use ticket_booking_system.Common.{ℕ, Option, none, some, List}
use ticket_booking_system.Accounts.{Registration}
use ticket_booking_system.Venues.{RowSpec, NewVenue, NewCategory}
use ticket_booking_system.Events.{NewEvent, Patch, Filters}
use ticket_booking_system.Shows.{NewShow}
use ticket_booking_system.Http.Controllers.{HoldBody, WaitlistBody}
use ticket_booking_system.Schemas.{Value, Props, Texts, Zod, Schema}
use ticket_booking_system.Schemas.Requests.{
  create_hold_schema, confirm_booking_schema, join_waitlist_schema, waitlist_me_query_schema,
  register_schema, login_schema, update_event_schema, browse_events_schema, create_show_schema,
  bulk_create_seats_schema, create_venue_schema, create_event_schema, create_category_schema,
}
use ticket_booking_system.Schemas.Bodies.{
  read_object, registration_body, credentials_body, filters_query, event_body, patch_body,
  show_body, venue_body, rows_body, hold_body, hold_id_body, waitlist_body, category_id_query,
  category_body,
}

-- The requests, by what their schema parses.
pub data Kind : Type 0 where
  register login browse event patch show venue seats hold confirm waitlist waitlist_me category :
      Kind

abbrev pub Body : Kind → Type 0
Body register = Registration
Body login = ℕ × ℕ
Body browse = Filters
Body event = NewEvent
Body patch = Patch
Body show = NewShow
Body venue = NewVenue
Body seats = List RowSpec
Body hold = HoldBody
Body confirm = ℕ
Body waitlist = WaitlistBody
Body waitlist_me = ℕ
Body category = NewCategory

module _ (t : Texts) where
  unfoldable pub schema_of : Kind → Schema
  schema_of register = register_schema
  schema_of login = login_schema
  schema_of browse = browse_events_schema
  schema_of event = create_event_schema t
  schema_of patch = update_event_schema
  schema_of show = create_show_schema
  schema_of venue = create_venue_schema t
  schema_of seats = bulk_create_seats_schema
  schema_of hold = create_hold_schema
  schema_of confirm = confirm_booking_schema
  schema_of waitlist = join_waitlist_schema
  schema_of waitlist_me = waitlist_me_query_schema
  schema_of category = create_category_schema

  unfoldable pub read : (k : Kind) → Props → Option (Body k)
  read register b = registration_body t b
  read login b = credentials_body b
  read browse b = filters_query t b
  read event b = event_body t b
  read patch b = patch_body t b
  read show b = show_body b
  read venue b = venue_body t b
  read seats b = rows_body b
  read hold b = hold_body b
  read confirm b = hold_id_body b
  read waitlist b = waitlist_body b
  read waitlist_me b = category_id_query b
  read category b = category_body b

abbrev pub read_parsed : {A : Type 0} → (Props → Option A) → Option Value → Option A
read_parsed read none = none
read_parsed read (some v) = read_object read v

-- The body that a controller gets, where the schema accepts the request: what `validate` is given.
unfoldable pub parse : Zod → (k : Kind) → Value → Option (Body k)
unfolding read schema_of
parse z k v = read_parsed (read z.texts k) (z.safe_parse (schema_of z.texts k) v)
