-- ===== src/Schemas/Accepted.antt =====
-- A request that its schema accepts is one that its controller can read.
mod Accounts
mod Catalog
use Prim.Native.String.{String}
use ticket_booking_system.Common.{
  Bool, true, false, Option, none, some, [], ◌∷◌, ◌≡◌, refl, sym, ◌∙◌, arith, is_some,
}
use ticket_booking_system.Schemas.{
  Value, number, boolean, Props, get, Schema, email, url, uuid, bool, string, int_from, int_in,
  coerce_date, coerce_int_from, array_of, optional, default, one_of, text, object_of, Fields, done,
  Texts, Zod, IsDocumented, documented, documented_fields, object?,
}
use ticket_booking_system.Schemas.Requests.{
  show_price_schema, bulk_seat_row_schema, event_type_schema, role_schema, create_hold_schema,
  confirm_booking_schema, join_waitlist_schema, waitlist_me_query_schema, register_schema,
  login_schema, update_event_schema, browse_events_schema, create_show_schema,
  bulk_create_seats_schema, create_venue_schema, create_event_schema, create_category_schema,
}
use ticket_booking_system.Schemas.Parsing.{
  Kind, register, login, browse, event, patch, show, venue, seats, hold, confirm, waitlist,
  waitlist_me, category, schema_of, read, read_parsed, parse,
}
use ticket_booking_system.Schemas.Bodies.{
  read_text, read_number, read_date, read_bool, read_optional, read_array, read_object, read_role,
  read_event_type, price_body, row_body, registration_body, credentials_body, filters_query,
  event_body, patch_body, show_body, venue_body, rows_body, hold_body, hold_id_body, waitlist_body,
  category_id_query,
}
use ticket_booking_system.Schemas.Reading.{
  Reads, Reads-at, fields_of, uuid-Reads, email-Reads, url-Reads, string-Reads, bool-Reads,
  coerce_date-Reads, int_from-Reads, coerce_int_from-Reads, default-optional-Reads, int_in-Reads,
  event_type-Reads, role-Reads, optional-Reads, default-Reads, array-Reads, object-Reads, bind-some,
}
use Accounts.{register-read, login-read, hold-read, confirm-read, waitlist-read, waitlist_me-read}
use Catalog.{browse-read, event-read, patch-read, show-read, venue-read, seats-read, category-read}

module _ (t : Texts) (ps rs : Props) where
  read-some :
      (k : Kind)
      → documented_fields t (fields_of (schema_of t k)) ps ≡ some rs
      → is_some (read t k rs) ≡ true
  unfolding schema_of read
  read-some register h = register-read t ps rs h
  read-some login h = login-read t ps rs h
  read-some browse h = browse-read t ps rs h
  read-some event h = event-read t ps rs h
  read-some patch h = patch-read t ps rs h
  read-some show h = show-read t ps rs h
  read-some venue h = venue-read t ps rs h
  read-some seats h = seats-read t ps rs h
  read-some hold h = hold-read t ps rs h
  read-some confirm h = confirm-read t ps rs h
  read-some waitlist h = waitlist-read t ps rs h
  read-some waitlist_me h = waitlist_me-read t ps rs h
  read-some category h = category-read t ps rs h

schema_of-object : (t : Texts) (k : Kind) → schema_of t k ≡ object_of (fields_of (schema_of t k))
unfolding schema_of
schema_of-object t register = refl
schema_of-object t login = refl
schema_of-object t browse = refl
schema_of-object t event = refl
schema_of-object t patch = refl
schema_of-object t show = refl
schema_of-object t venue = refl
schema_of-object t seats = refl
schema_of-object t hold = refl
schema_of-object t confirm = refl
schema_of-object t waitlist = refl
schema_of-object t waitlist_me = refl
schema_of-object t category = refl

read_parsed-some :
    {A : Type 0} (read : Props → Option A) (o : Option Value)
    → ((w : Value) → o ≡ some w → is_some (read_object read w) ≡ true)
    → is_some (read_parsed read o) ≡ is_some o
read_parsed-some read none r = refl
read_parsed-some read (some w) r = r w refl

-- Where zod does what it documents, a controller can read every request that its schema accepts: no
-- accepted request lacks a field or has one of another type, and none that is refused is read.
pub parse-accepted :
    (z : Zod)
    → IsDocumented z
    → (k : Kind) (v : Value)
    → is_some (parse z k v) ≡ is_some (z.safe_parse (schema_of z.texts k) v)
unfolding parse
parse-accepted z doc k v =
    read_parsed-some (read z.texts k) (z.safe_parse (schema_of z.texts k) v) λ w e.
      object-Reads z.texts (fields_of (schema_of z.texts k)) (read z.texts k)
        (λ ps rs h. read-some z.texts ps rs k h) v w
        (rw (← schema_of-object z.texts k) (sym (doc (schema_of z.texts k) v) ∙ e))
