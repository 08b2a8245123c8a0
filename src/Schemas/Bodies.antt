-- ===== src/Schemas/Bodies.antt =====
-- What the controllers and services read off a request that its schema has parsed: `req.body.…` and
-- `req.query.…` as the bodies of the services. A value of another type than the one that is read
-- reads as `none`.
use ticket_booking_system.Common.{ℕ, Bool, Option, none, some, List, [], ◌∷◌, ◌==◌, if◌then◌else◌}
use ticket_booking_system.Db.{
  ℤ, pos, negsuc, Role, admin, organiser, customer, EventType, movie, concert,
}
use ticket_booking_system.Accounts.{Registration}
use ticket_booking_system.Venues.{RowSpec, NewVenue, NewCategory}
use ticket_booking_system.Events.{NewEvent, Patch, Filters}
use ticket_booking_system.Shows.{NewShow, NewPrice}
use ticket_booking_system.Http.Controllers.{HoldBody, WaitlistBody}
use ticket_booking_system.Schemas.{
  Value, undefined, boolean, text, number, negative, date, array, object, Props, get, items, Texts,
}

infixl 5 ◌>>=◌
abbrev pub ◌>>=◌ : {A B : Type 0} → Option A → (A → Option B) → Option B
none >>= f = none
some a >>= f = f a

abbrev pub read_text : Value → Option ℕ
read_text (text n) = some n
read_text _ = none

abbrev pub read_number : Value → Option ℕ
read_number (number n) = some n
read_number _ = none

-- A whole number.
abbrev pub read_int : Value → Option ℤ
read_int (number n) = some (pos n)
read_int (negative n) = some (negsuc n)
read_int _ = none

abbrev pub read_date : Value → Option ℕ
read_date (date d) = some d
read_date _ = none

abbrev pub read_bool : Value → Option Bool
read_bool (boolean b) = some b
read_bool _ = none

module _ {A : Type 0} where
  abbrev pub some_of : Option A → Option (Option A)
  some_of none = none
  some_of (some a) = some (some a)

  abbrev pub read_optional : (Value → Option A) → Value → Option (Option A)
  read_optional read undefined = some none
  read_optional read v = some_of (read v)

  abbrev pub cons_read : Option A → Option (List A) → Option (List A)
  cons_read (some a) (some as') = some (a ∷ as')
  cons_read _ _ = none

  unfoldable pub read_each : (Value → Option A) → List Value → Option (List A)
  read_each read [] = some []
  read_each read (v ∷ vs) = cons_read (read v) (read_each read vs)

  abbrev pub read_array : (Value → Option A) → Value → Option (List A)
  read_array read (array vs) = read_each read (items vs)
  read_array read _ = none

  abbrev pub read_object : (Props → Option A) → Value → Option A
  read_object read (object ps) = read ps
  read_object read _ = none

abbrev pub hold_body : Props → Option HoldBody
hold_body b = do
  show_id ← read_text (get "showId" b)
  seat_ids ← read_array read_text (get "seatIds" b)
  some (record { show_id = show_id; seat_ids = seat_ids })

abbrev pub hold_id_body : Props → Option ℕ
hold_id_body b = read_text (get "holdId" b)

abbrev pub waitlist_body : Props → Option WaitlistBody
waitlist_body b = do
  category_id ← read_text (get "categoryId" b)
  quantity ← read_number (get "quantity" b)
  some (record { category_id = category_id; quantity = quantity })

abbrev pub category_id_query : Props → Option ℕ
category_id_query b = read_text (get "categoryId" b)

abbrev pub category_body : Props → Option NewCategory
category_body b = do
  name ← read_text (get "name" b)
  color ← read_optional read_text (get "colorHex" b)
  sort_order ← read_int (get "sortOrder" b)
  some (record { name = name; color_hex = color; sort_order = sort_order })

abbrev pub price_body : Props → Option NewPrice
price_body b = do
  category_id ← read_text (get "categoryId" b)
  price_cents ← read_number (get "priceCents" b)
  some (record { category_id = category_id; price_cents = price_cents })

abbrev pub show_body : Props → Option NewShow
show_body b = do
  venue_id ← read_text (get "venueId" b)
  starts_at ← read_date (get "startsAt" b)
  ends_at ← read_date (get "endsAt" b)
  hold_ttl ← read_optional read_number (get "holdTtlSeconds" b)
  offer_ttl ← read_optional read_number (get "offerTtlSeconds" b)
  prices ← read_array (read_object price_body) (get "prices" b)
  some (record {
    venue_id = venue_id;
    starts_at = starts_at;
    ends_at = ends_at;
    hold_ttl_seconds = hold_ttl;
    offer_ttl_seconds = offer_ttl;
    prices = prices;
  })

abbrev pub row_body : Props → Option RowSpec
row_body b = do
  row_label ← read_text (get "rowLabel" b)
  count ← read_number (get "count" b)
  category_id ← read_text (get "categoryId" b)
  grid_row ← read_number (get "gridRow" b)
  start_seat_number ← read_number (get "startSeatNumber" b)
  start_grid_col ← read_number (get "startGridCol" b)
  is_accessible ← read_bool (get "isAccessible" b)
  some (record {
    row_label = row_label;
    count = count;
    category_id = category_id;
    grid_row = grid_row;
    start_seat_number = start_seat_number;
    start_grid_col = start_grid_col;
    is_accessible = is_accessible;
  })

abbrev pub rows_body : Props → Option (List RowSpec)
rows_body b = read_array (read_object row_body) (get "rows" b)

module _ (t : Texts) where
  -- The values of the two enumerations, as Postgres stores them.
  abbrev pub read_role : Value → Option Role
  read_role (text n) =
      if t.literal "ADMIN" == n
      then some admin
      else if t.literal "ORGANISER" == n
      then some organiser
      else if t.literal "CUSTOMER" == n
      then some customer
      else none
  read_role _ = none

  abbrev pub read_event_type : Value → Option EventType
  read_event_type (text n) =
      if t.literal "MOVIE" == n
      then some movie
      else if t.literal "CONCERT" == n
      then some concert
      else none
  read_event_type _ = none

  abbrev pub registration_body : Props → Option Registration
  registration_body b = do
    email ← read_text (get "email" b)
    password ← read_text (get "password" b)
    name ← read_text (get "name" b)
    phone ← read_optional read_text (get "phone" b)
    role ← read_optional read_role (get "role" b)
    some (record { email = email; password = password; name = name; phone = phone; role = role })

  abbrev pub patch_body : Props → Option Patch
  patch_body b = do
    title ← read_optional read_text (get "title" b)
    type ← read_optional read_event_type (get "type" b)
    description ← read_optional read_text (get "description" b)
    poster_url ← read_optional read_text (get "posterUrl" b)
    language ← read_optional read_text (get "language" b)
    genre ← read_optional read_text (get "genre" b)
    duration_min ← read_optional read_number (get "durationMin" b)
    is_published ← read_optional read_bool (get "isPublished" b)
    some (record {
      title = title;
      type = type;
      description = description;
      poster_url = poster_url;
      language = language;
      genre = genre;
      duration_min = duration_min;
      is_published = is_published;
    })

  abbrev pub filters_query : Props → Option Filters
  filters_query b = do
    type ← read_optional read_event_type (get "type" b)
    city ← read_optional read_text (get "city" b)
    date_from ← read_optional read_date (get "dateFrom" b)
    date_to ← read_optional read_date (get "dateTo" b)
    q ← read_optional read_text (get "q" b)
    page ← read_number (get "page" b)
    some (record {
      type = type;
      city = city;
      date_from = date_from;
      date_to = date_to;
      q = q;
      page = page;
    })

  abbrev pub event_body : Props → Option NewEvent
  event_body b = do
    title ← read_text (get "title" b)
    type ← read_event_type (get "type" b)
    description ← read_text (get "description" b)
    poster_url ← read_optional read_text (get "posterUrl" b)
    language ← read_optional read_text (get "language" b)
    genre ← read_optional read_text (get "genre" b)
    duration_min ← read_number (get "durationMin" b)
    some (record {
      title = title;
      type = type;
      description = description;
      poster_url = poster_url;
      language = language;
      genre = genre;
      duration_min = duration_min;
    })

  abbrev pub venue_body : Props → Option NewVenue
  venue_body b = do
    name ← read_text (get "name" b)
    address ← read_text (get "address" b)
    city ← read_text (get "city" b)
    some (record {
      name = name;
      address = address;
      city = city;
      layout_meta = t.stringify (get "layoutMeta" b);
    })

abbrev pub credentials_body : Props → Option (ℕ × ℕ)
credentials_body b = do
  email ← read_text (get "email" b)
  password ← read_text (get "password" b)
  some (email, password)
