-- ===== src/Schemas/Accepted/Catalog.antt =====
-- The bodies of events, shows and venues: what is accepted can be read.

use ticket_booking_system.Common.{true, false, some, ◌≡◌, refl, is_some}
use ticket_booking_system.Schemas.{
  hex_color, number, boolean, Props, text, Texts, documented_fields,
}
use ticket_booking_system.Schemas.Requests.{
  show_price_schema, bulk_seat_row_schema, update_event_schema, browse_events_schema,
  create_show_schema, bulk_create_seats_schema, create_venue_schema, create_event_schema,
  create_category_schema,
}
use ticket_booking_system.Schemas.Bodies.{
  price_body, row_body, filters_query, event_body, patch_body, show_body, venue_body, rows_body,
  category_body,
}
use ticket_booking_system.Schemas.Reading.{
  regex-Reads, int-Reads, Reads-at, fields_of, uuid-Reads, url-Reads, string-Reads, bool-Reads,
  coerce_date-Reads, int_from-Reads, coerce_int_from-Reads, default-optional-Reads, int_in-Reads,
  event_type-Reads, optional-Reads, default-Reads, array-Reads, object-Reads, bind-some,
}

module _ (t : Texts) (ps rs : Props) where
  pub browse-read :
      documented_fields t (fields_of browse_events_schema) ps ≡ some rs
      → is_some (filters_query t rs) ≡ true
  browse-read h =
      bind-some _ _
        (Reads-at t _ ps _ h "type" refl refl (optional-Reads t _ _ (event_type-Reads t)))
        λ _.
          bind-some _ _
            (Reads-at t _ ps _ h "city" refl refl (optional-Reads t _ _ (string-Reads t 0)))
            λ _.
              bind-some _ _
                (Reads-at t _ ps _ h "dateFrom" refl refl
                  (optional-Reads t _ _ (coerce_date-Reads t)))
                λ _.
                  bind-some _ _
                    (Reads-at t _ ps _ h "dateTo" refl refl
                      (optional-Reads t _ _ (coerce_date-Reads t)))
                    λ _.
                      bind-some _ _
                        (Reads-at t _ ps _ h "q" refl refl
                          (optional-Reads t _ _ (string-Reads t 0)))
                        λ _.
                          bind-some _ _
                            (Reads-at t _ ps _ h "page" refl refl
                              (default-Reads t _ _ (number 1) refl (coerce_int_from-Reads t 1)))
                            λ _. refl

  pub event-read :
      documented_fields t (fields_of (create_event_schema t)) ps ≡ some rs
      → is_some (event_body t rs) ≡ true
  event-read h = bind-some _ _ (Reads-at t _ ps _ h "title" refl refl (string-Reads t 1)) λ _.
      bind-some _ _ (Reads-at t _ ps _ h "type" refl refl (event_type-Reads t)) λ _.
        bind-some _ _
          (Reads-at t _ ps _ h "description" refl refl
            (default-optional-Reads t _ _ (text (t.literal "")) refl (string-Reads t 0)))
          λ _.
            bind-some _ _
              (Reads-at t _ ps _ h "posterUrl" refl refl (optional-Reads t _ _ (url-Reads t)))
              λ _.
                bind-some _ _
                  (Reads-at t _ ps _ h "language" refl refl
                    (optional-Reads t _ _ (string-Reads t 0)))
                  λ _.
                    bind-some _ _
                      (Reads-at t _ ps _ h "genre" refl refl
                        (optional-Reads t _ _ (string-Reads t 0)))
                      λ _.
                        bind-some _ _
                          (Reads-at t _ ps _ h "durationMin" refl refl (int_from-Reads t 1))
                          λ _. refl

  pub patch-read :
      documented_fields t (fields_of update_event_schema) ps ≡ some rs
      → is_some (patch_body t rs) ≡ true
  patch-read h =
      bind-some _ _
        (Reads-at t _ ps _ h "title" refl refl (optional-Reads t _ _ (string-Reads t 1)))
        λ _.
          bind-some _ _
            (Reads-at t _ ps _ h "type" refl refl (optional-Reads t _ _ (event_type-Reads t)))
            λ _.
              bind-some _ _
                (Reads-at t _ ps _ h "description" refl refl
                  (optional-Reads t _ _ (string-Reads t 0)))
                λ _.
                  bind-some _ _
                    (Reads-at t _ ps _ h "posterUrl" refl refl (optional-Reads t _ _ (url-Reads t)))
                    λ _.
                      bind-some _ _
                        (Reads-at t _ ps _ h "language" refl refl
                          (optional-Reads t _ _ (string-Reads t 0)))
                        λ _.
                          bind-some _ _
                            (Reads-at t _ ps _ h "genre" refl refl
                              (optional-Reads t _ _ (string-Reads t 0)))
                            λ _.
                              bind-some _ _
                                (Reads-at t _ ps _ h "durationMin" refl refl
                                  (optional-Reads t _ _ (int_from-Reads t 1)))
                                λ _.
                                  bind-some _ _
                                    (Reads-at t _ ps _ h "isPublished" refl refl
                                      (optional-Reads t _ _ (bool-Reads t)))
                                    λ _. refl

  pub price-read :
      documented_fields t (fields_of show_price_schema) ps ≡ some rs
      → is_some (price_body rs) ≡ true
  price-read h =
      bind-some _ _ (Reads-at t _ ps _ h "categoryId" refl refl (uuid-Reads t)) λ _.
        bind-some _ _ (Reads-at t _ ps _ h "priceCents" refl refl (int_from-Reads t 0)) λ _. refl

module _ (t : Texts) (ps rs : Props) where
  pub show-read :
      documented_fields t (fields_of create_show_schema) ps ≡ some rs
      → is_some (show_body rs) ≡ true
  show-read h = bind-some _ _ (Reads-at t _ ps _ h "venueId" refl refl (uuid-Reads t)) λ _.
      bind-some _ _ (Reads-at t _ ps _ h "startsAt" refl refl (coerce_date-Reads t)) λ _.
        bind-some _ _ (Reads-at t _ ps _ h "endsAt" refl refl (coerce_date-Reads t)) λ _.
          bind-some _ _
            (Reads-at t _ ps _ h "holdTtlSeconds" refl refl
              (optional-Reads t _ _ (int_from-Reads t 1)))
            λ _.
              bind-some _ _
                (Reads-at t _ ps _ h "offerTtlSeconds" refl refl
                  (optional-Reads t _ _ (int_from-Reads t 1)))
                λ _.
                  bind-some _ _
                    (Reads-at t _ ps _ h "prices" refl refl
                      (array-Reads t _ _ 1 (object-Reads t _ _ (λ qs ss e. price-read t qs ss e))))
                    λ _. refl

  pub venue-read :
      documented_fields t (fields_of (create_venue_schema t)) ps ≡ some rs
      → is_some (venue_body t rs) ≡ true
  venue-read h = bind-some _ _ (Reads-at t _ ps _ h "name" refl refl (string-Reads t 1)) λ _.
      bind-some _ _ (Reads-at t _ ps _ h "address" refl refl (string-Reads t 1))
        λ _. bind-some _ _ (Reads-at t _ ps _ h "city" refl refl (string-Reads t 1)) λ _. refl

  pub row-read :
      documented_fields t (fields_of bulk_seat_row_schema) ps ≡ some rs
      → is_some (row_body rs) ≡ true
  row-read h = bind-some _ _ (Reads-at t _ ps _ h "rowLabel" refl refl (string-Reads t 1)) λ _.
      bind-some _ _ (Reads-at t _ ps _ h "count" refl refl (int_in-Reads t 1 50)) λ _.
        bind-some _ _ (Reads-at t _ ps _ h "categoryId" refl refl (uuid-Reads t)) λ _.
          bind-some _ _ (Reads-at t _ ps _ h "gridRow" refl refl (int_from-Reads t 0)) λ _.
            bind-some _ _
              (Reads-at t _ ps _ h "startSeatNumber" refl refl
                (default-Reads t _ _ (number 1) refl (int_from-Reads t 1)))
              λ _.
                bind-some _ _
                  (Reads-at t _ ps _ h "startGridCol" refl refl
                    (default-Reads t _ _ (number 0) refl (int_from-Reads t 0)))
                  λ _.
                    bind-some _ _
                      (Reads-at t _ ps _ h "isAccessible" refl refl
                        (default-Reads t _ _ (boolean false) refl (bool-Reads t)))
                      λ _. refl

module _ (t : Texts) (ps rs : Props) where
  pub seats-read :
      documented_fields t (fields_of bulk_create_seats_schema) ps ≡ some rs
      → is_some (rows_body rs) ≡ true
  seats-read h =
      Reads-at t _ ps _ h "rows" refl refl
        (array-Reads t _ _ 1 (object-Reads t _ _ (λ qs ss e. row-read t qs ss e)))

  pub category-read :
      documented_fields t (fields_of create_category_schema) ps ≡ some rs
      → is_some (category_body rs) ≡ true
  category-read h = bind-some _ _ (Reads-at t _ ps _ h "name" refl refl (string-Reads t 1)) λ _.
      bind-some _ _
        (Reads-at t _ ps _ h "colorHex" refl refl (optional-Reads t _ _ (regex-Reads t hex_color)))
        λ _.
          bind-some _ _
            (Reads-at t _ ps _ h "sortOrder" refl refl
              (default-Reads t _ _ (number 0) refl (int-Reads t)))
            λ _. refl
