-- ===== src/Schemas/Requests.antt =====
-- shared/schemas/*.schema.js: the schemas of the requests, with their checks and defaults.
use ticket_booking_system.Common.{[], ◌∷◌, false}
use ticket_booking_system.Schemas.{
  Schema, email, url, uuid, bool, string, regex, one_of, int, int_from, int_in, coerce_int_from,
  coerce_date, array_of, optional, default, object_of, done, field, hex_color, Texts, boolean, text,
  number, array, object, nil, end,
}

-- `createHoldSchema`
abbrev pub create_hold_schema : Schema
create_hold_schema = object_of (field "showId" uuid (field "seatIds" (array_of uuid 1) done))

-- `confirmBookingSchema`
abbrev pub confirm_booking_schema : Schema
confirm_booking_schema = object_of (field "holdId" uuid done)

-- `joinWaitlistSchema`
abbrev pub join_waitlist_schema : Schema
join_waitlist_schema =
    object_of (field "categoryId" uuid (field "quantity" (default (int_from 1) (number 1)) done))

-- `waitlistMeQuerySchema`
abbrev pub waitlist_me_query_schema : Schema
waitlist_me_query_schema = object_of (field "categoryId" uuid done)

abbrev pub role_schema : Schema
role_schema = one_of ("ADMIN" ∷ "ORGANISER" ∷ "CUSTOMER" ∷ [])

-- `registerSchema`
abbrev pub register_schema : Schema
register_schema = object_of (
    field "email" email (
      field "password" (string 8) (
        field "name" (string 1)
          (field "phone" (optional (string 0)) (field "role" (optional role_schema) done)))))

-- `loginSchema`
abbrev pub login_schema : Schema
login_schema = object_of (field "email" email (field "password" (string 1) done))

abbrev pub event_type_schema : Schema
event_type_schema = one_of ("MOVIE" ∷ "CONCERT" ∷ [])

-- `updateEventSchema`
abbrev pub update_event_schema : Schema
update_event_schema = object_of (
    field "title" (optional (string 1)) (
      field "type" (optional event_type_schema) (
        field "description" (optional (string 0)) (
          field "posterUrl" (optional url) (
            field "language" (optional (string 0)) (
              field "genre" (optional (string 0)) (
                field "durationMin" (optional (int_from 1))
                  (field "isPublished" (optional bool) done))))))))

-- `browseEventsSchema`
abbrev pub browse_events_schema : Schema
browse_events_schema = object_of (
    field "type" (optional event_type_schema) (
      field "city" (optional (string 0)) (
        field "dateFrom" (optional coerce_date) (
          field "dateTo" (optional coerce_date) (
            field "q" (optional (string 0))
              (field "page" (default (coerce_int_from 1) (number 1)) done))))))

-- `showPriceSchema`
abbrev pub show_price_schema : Schema
show_price_schema = object_of (field "categoryId" uuid (field "priceCents" (int_from 0) done))

-- `createShowSchema`
abbrev pub create_show_schema : Schema
create_show_schema = object_of (
    field "venueId" uuid (
      field "startsAt" coerce_date (
        field "endsAt" coerce_date (
          field "holdTtlSeconds" (optional (int_from 1)) (
            field "offerTtlSeconds" (optional (int_from 1))
              (field "prices" (array_of show_price_schema 1) done))))))

-- `bulkSeatRowSchema`
abbrev pub bulk_seat_row_schema : Schema
bulk_seat_row_schema = object_of (
    field "rowLabel" (string 1) (
      field "count" (int_in 1 50) (
        field "categoryId" uuid (
          field "gridRow" (int_from 0) (
            field "startSeatNumber" (default (int_from 1) (number 1)) (
              field "startGridCol" (default (int_from 0) (number 0))
                (field "isAccessible" (default bool (boolean false)) done)))))))

-- `bulkCreateSeatsSchema`
abbrev pub bulk_create_seats_schema : Schema
bulk_create_seats_schema = object_of (field "rows" (array_of bulk_seat_row_schema 1) done)

-- `createCategorySchema`
abbrev pub create_category_schema : Schema
create_category_schema = object_of (
    field "name" (string 1) (
      field "colorHex" (optional (regex hex_color))
        (field "sortOrder" (default int (number 0)) done)))

-- `layoutMetaSchema`; the number that stands for 'TOP' is looked up.
abbrev pub layout_meta_schema : Texts → Schema
layout_meta_schema t = object_of (
    field "rows" (optional (int_from 1)) (
      field "cols" (optional (int_from 1)) (
        field "aisleAfterCols" (default (array_of (int_from 0) 0) (array nil)) (
          field "stagePosition"
            (default (one_of ("TOP" ∷ "BOTTOM" ∷ "LEFT" ∷ "RIGHT" ∷ [])) (text (t.literal "TOP")))
            done))))

-- `createVenueSchema`
abbrev pub create_venue_schema : Texts → Schema
create_venue_schema t = object_of (
    field "name" (string 1) (
      field "address" (string 1) (
        field "city" (string 1)
          (field "layoutMeta" (default (optional (layout_meta_schema t)) (object end)) done))))

-- `createEventSchema`
abbrev pub create_event_schema : Texts → Schema
create_event_schema t = object_of (
    field "title" (string 1) (
      field "type" event_type_schema (
        field "description" (default (optional (string 0)) (text (t.literal ""))) (
          field "posterUrl" (optional url) (
            field "language" (optional (string 0))
              (field "genre" (optional (string 0)) (field "durationMin" (int_from 1) done)))))))
