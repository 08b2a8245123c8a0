-- ===== src/Http/Public.antt =====
-- The public routes and their controllers: reading what is on offer, and the offers of the waitlist,
-- whose token is the authorization.
use ticket_booking_system.Common.{ℕ, Option}
use ticket_booking_system.Errors.{ok}
use ticket_booking_system.Sql.{Collation, Ties}
use ticket_booking_system.Db.{Env}
use ticket_booking_system.Seatmap.{get_seat_map}
use ticket_booking_system.Bookings.{Mint}
use ticket_booking_system.Offers.{Crypto, get_offer_by_token, accept_offer}
use ticket_booking_system.Events.{Filters, list_published_events, get_event}
use ticket_booking_system.Shows.Details.{list_shows_by_event, get_show}
use ticket_booking_system.Http.{Next, validate, answer, reading}

-- `getSeatMap`
unfoldable pub get_seat_map_controller : ℕ → ℕ → Next
get_seat_map_controller now show_id = answer 200 (reading (get_seat_map now show_id))

-- `getOffer`
unfoldable pub get_offer_controller : Crypto → Env → ℕ → ℕ → Next
get_offer_controller crypto env now token =
    answer 200 (reading (get_offer_by_token crypto env now token))

-- `acceptOffer`
unfoldable pub accept_offer_controller : Crypto → Env → ℕ → Mint → ℕ → Next
accept_offer_controller crypto env now mint token =
    answer 200 (accept_offer crypto env now mint token)

-- `browseEvents`
unfoldable pub browse_events_controller : Collation → Ties → Filters → Next
browse_events_controller text ties filters =
    answer 200 (reading (λ db. ok (list_published_events text ties filters db)))

-- The route of `browseEvents`.
unfoldable pub browse_events_route : Collation → Ties → Option Filters → Next
browse_events_route text ties query =
    validate query λ filters. browse_events_controller text ties filters

-- `getEvent`
unfoldable pub get_event_controller : ℕ → Next
get_event_controller event_id = answer 200 (reading (get_event event_id))

-- `listShowsByEvent`
unfoldable pub list_shows_by_event_controller : ℕ → Next
list_shows_by_event_controller event_id =
    answer 200 (reading (λ db. ok (list_shows_by_event event_id db)))

-- `getShow`
unfoldable pub get_show_controller : ℕ → Next
get_show_controller show_id = answer 200 (reading (get_show show_id))
