-- ===== src/Http/Controllers.antt =====
-- The controllers of the routes behind `requireAuth` (*.controller.js): each calls its service with
-- what the guards have passed on, and answers with its status. Mail, which is sent after the answer
-- of the service and whose failure is only logged, is left out.
use ticket_booking_system.Common.{ℕ, Bool, List}
use ticket_booking_system.Errors.{Result, ok}
use ticket_booking_system.Db.{Env}
use ticket_booking_system.Sql.{Collation, Ties}
use ticket_booking_system.Holds.{create_hold, release_hold, manual}
use ticket_booking_system.Bookings.{Mint, confirm_booking, get_booking_qr_png}
use ticket_booking_system.Offers.{Crypto, OfferMint}
use ticket_booking_system.Cancellation.{cancel_booking}
use ticket_booking_system.Waitlist.{join_waitlist, get_my_waitlist_status}
use ticket_booking_system.Venues.{
  NewVenue, NewCategory, RowSpec, create_venue, list_venues, get_venue, create_category,
  bulk_create_seats,
}
use ticket_booking_system.Venues.Layout.{get_venue_layout}
use ticket_booking_system.Events.{NewEvent, Patch, create_event, update_event}
use ticket_booking_system.Events.Summary.{get_event_summary}
use ticket_booking_system.Shows.{NewShow, create_show, publish_show}
use ticket_booking_system.Http.{Next, answer, controller, reading}

pub record HoldBody : Type 0 where
  pub show_id : ℕ
  pub seat_ids : List ℕ

pub record WaitlistBody : Type 0 where
  pub category_id : ℕ
  pub quantity : ℕ

-- `createHold`
unfoldable pub create_hold_controller : Env → ℕ → ℕ → HoldBody → Next
create_hold_controller env now fresh_id b =
    controller 201 (λ user_id. create_hold env now fresh_id b.show_id b.seat_ids user_id)

-- `releaseHold`
unfoldable pub release_hold_controller : ℕ → ℕ → Next
release_hold_controller now hold_id = answer 200 (release_hold now hold_id manual)

-- `confirmBooking`
unfoldable pub confirm_booking_controller : Env → ℕ → Mint → ℕ → Next
confirm_booking_controller env now mint hold_id =
    controller 201 (λ user_id. confirm_booking env now mint hold_id user_id)

-- `cancelBooking`
unfoldable pub cancel_booking_controller :
    Crypto → Env → ℕ → (ℕ → Bool) → (ℕ → OfferMint) → ℕ → Next
cancel_booking_controller crypto env now locked mint booking_id =
    answer 200 (cancel_booking crypto env now booking_id locked mint)

-- `getTicketQr`
unfoldable pub get_ticket_controller : (ℕ → Result ℕ) → ℕ → Next
get_ticket_controller to_buffer booking_id =
    answer 200 (reading (get_booking_qr_png to_buffer booking_id))

-- `joinWaitlist`
unfoldable pub join_waitlist_controller : Env → Ties → ℕ → ℕ → ℕ → WaitlistBody → Next
join_waitlist_controller env ties now fresh_id show_id b =
    controller 201
      (λ user_id. join_waitlist env ties now fresh_id show_id b.category_id user_id b.quantity)

-- `getMyWaitlistStatus`
unfoldable pub get_my_waitlist_status_controller : Ties → ℕ → ℕ → Next
get_my_waitlist_status_controller ties show_id category_id =
    controller 200 (λ user_id. reading (get_my_waitlist_status ties show_id category_id user_id))

-- `createEvent`
unfoldable pub create_event_controller : ℕ → ℕ → NewEvent → Next
create_event_controller now id e = controller 201 (λ user_id. create_event now id user_id e)

-- `updateEvent`
unfoldable pub update_event_controller : ℕ → Patch → Next
update_event_controller event_id patch = answer 200 (update_event event_id patch)

-- `getEventSummary`
unfoldable pub get_event_summary_controller : Collation → ℕ → Next
get_event_summary_controller text event_id = answer 200 (reading (get_event_summary text event_id))

-- `createShow`
unfoldable pub create_show_controller : ℕ → ℕ → NewShow → Next
create_show_controller id event_id show = answer 201 (create_show id event_id show)

-- `publishShow`
unfoldable pub publish_show_controller : ℕ → (ℕ → ℕ) → ℕ → Next
publish_show_controller now draw show_id = answer 200 (publish_show now draw show_id)

-- `createVenue`
unfoldable pub create_venue_controller : ℕ → ℕ → NewVenue → Next
create_venue_controller now id v = answer 201 (create_venue now id v)

-- `listVenues`
unfoldable pub list_venues_controller : Next
list_venues_controller = answer 200 (reading (λ db. ok (list_venues db)))

-- `getVenue`
unfoldable pub get_venue_controller : ℕ → Next
get_venue_controller venue_id = answer 200 (reading (get_venue venue_id))

-- `createCategory`
unfoldable pub create_category_controller : ℕ → ℕ → NewCategory → Next
create_category_controller id venue_id c = answer 201 (create_category id venue_id c)

-- `bulkCreateSeats`
unfoldable pub bulk_create_seats_controller : (ℕ → ℕ) → ℕ → List RowSpec → Next
bulk_create_seats_controller draw venue_id rows = answer 201 (bulk_create_seats draw venue_id rows)

-- `getVenueLayout`
unfoldable pub get_venue_layout_controller : Collation → ℕ → Next
get_venue_layout_controller text venue_id = answer 200 (reading (get_venue_layout text venue_id))
