-- ===== src/Http/Routes.antt =====
-- The routes behind `requireAuth` (*.routes.js): the guards that follow it, in their order, and the
-- controller behind them.
use ticket_booking_system.Common.{ℕ, Bool, Option, List, [], ◌∷◌}
use ticket_booking_system.Db.{Env, admin, organiser}
use ticket_booking_system.Sql.{Collation, Ties}
use ticket_booking_system.Accounts.{Auth}
use ticket_booking_system.Holds.{load_hold_for_ownership}
use ticket_booking_system.Bookings.{Mint, load_booking_for_ownership}
use ticket_booking_system.Offers.{Crypto, OfferMint}
use ticket_booking_system.Venues.{NewVenue, NewCategory, RowSpec}
use ticket_booking_system.Events.{NewEvent, Patch, load_event_for_ownership}
use ticket_booking_system.Shows.{NewShow}
use ticket_booking_system.Shows.Details.{load_show_for_ownership}
use ticket_booking_system.Http.{Next, require_auth, require_role, require_ownership, validate}
use ticket_booking_system.Errors.{Result}
use ticket_booking_system.Http.Sessions.{me_controller}
use ticket_booking_system.Http.Controllers.{
  HoldBody, WaitlistBody, create_hold_controller, release_hold_controller, get_ticket_controller,
  confirm_booking_controller, cancel_booking_controller, join_waitlist_controller,
  get_my_waitlist_status_controller, create_event_controller, update_event_controller,
  get_event_summary_controller, create_show_controller, publish_show_controller,
  create_venue_controller, list_venues_controller, get_venue_controller, create_category_controller,
  bulk_create_seats_controller, get_venue_layout_controller,
}

unfoldable pub post_hold_route : Env → ℕ → ℕ → Option HoldBody → Next
post_hold_route env now fresh_id body = validate body λ b. create_hold_controller env now fresh_id b

unfoldable pub delete_hold_route : ℕ → ℕ → Next
delete_hold_route now hold_id =
    require_ownership (load_hold_for_ownership hold_id) (release_hold_controller now hold_id)

unfoldable pub post_confirm_route : Env → ℕ → Mint → Option ℕ → Next
post_confirm_route env now mint body = validate body λ hold_id.
    require_ownership (load_hold_for_ownership hold_id)
      (confirm_booking_controller env now mint hold_id)

unfoldable pub post_cancel_route : Crypto → Env → ℕ → (ℕ → Bool) → (ℕ → OfferMint) → ℕ → Next
post_cancel_route crypto env now locked mint booking_id =
    require_ownership (load_booking_for_ownership booking_id)
      (cancel_booking_controller crypto env now locked mint booking_id)

-- `/:id/ticket`; qrcode is the parameter `to_buffer`.
unfoldable pub get_ticket_route : (ℕ → Result ℕ) → ℕ → Next
get_ticket_route to_buffer booking_id =
    require_ownership (load_booking_for_ownership booking_id)
      (get_ticket_controller to_buffer booking_id)

unfoldable pub post_waitlist_route : Env → Ties → ℕ → ℕ → ℕ → Option WaitlistBody → Next
post_waitlist_route env ties now fresh_id show_id body =
    validate body λ b. join_waitlist_controller env ties now fresh_id show_id b

unfoldable pub get_waitlist_me_route : Ties → ℕ → Option ℕ → Next
get_waitlist_me_route ties show_id query =
    validate query λ category_id. get_my_waitlist_status_controller ties show_id category_id

unfoldable pub post_event_route : ℕ → ℕ → Option NewEvent → Next
post_event_route now id body =
    require_role (organiser ∷ []) (validate body λ e. create_event_controller now id e)

unfoldable pub patch_event_route : ℕ → Option Patch → Next
patch_event_route event_id body = require_role (organiser ∷ []) (
    require_ownership (load_event_for_ownership event_id)
      (validate body λ patch. update_event_controller event_id patch))

unfoldable pub get_summary_route : Collation → ℕ → Next
get_summary_route text event_id = require_role (organiser ∷ []) (
    require_ownership (load_event_for_ownership event_id)
      (get_event_summary_controller text event_id))

unfoldable pub post_show_route : ℕ → ℕ → Option NewShow → Next
post_show_route id event_id body = require_role (organiser ∷ []) (
    require_ownership (load_event_for_ownership event_id)
      (validate body λ show. create_show_controller id event_id show))

unfoldable pub post_publish_route : ℕ → (ℕ → ℕ) → ℕ → Next
post_publish_route now draw show_id =
    require_role (organiser ∷ []) (
      require_ownership (load_show_for_ownership show_id)
        (publish_show_controller now draw show_id))

unfoldable pub post_venue_route : ℕ → ℕ → Option NewVenue → Next
post_venue_route now id body =
    require_role (admin ∷ []) (validate body λ v. create_venue_controller now id v)

unfoldable pub get_venues_route : Next
get_venues_route = require_role (admin ∷ organiser ∷ []) list_venues_controller

unfoldable pub get_venue_by_id_route : ℕ → Next
get_venue_by_id_route venue_id =
    require_role (admin ∷ organiser ∷ []) (get_venue_controller venue_id)

unfoldable pub post_category_route : ℕ → ℕ → Option NewCategory → Next
post_category_route id venue_id body =
    require_role (admin ∷ []) (validate body λ c. create_category_controller id venue_id c)

unfoldable pub post_seats_route : (ℕ → ℕ) → ℕ → Option (List RowSpec) → Next
post_seats_route draw venue_id body =
    require_role (admin ∷ [])
      (validate body λ rows. bulk_create_seats_controller draw venue_id rows)

unfoldable pub get_layout_route : Collation → ℕ → Next
get_layout_route text venue_id =
    require_role (admin ∷ organiser ∷ []) (get_venue_layout_controller text venue_id)

-- A request by its route: the parameters of the path, the part that the schema has parsed, and what
-- the call draws.
pub data Route : Type 0 where
  post_hold : ℕ → Option HoldBody → Route
  delete_hold : ℕ → Route
  post_confirm : Mint → Option ℕ → Route
  post_cancel : (ℕ → Bool) → (ℕ → OfferMint) → ℕ → Route
  post_waitlist : Ties → ℕ → ℕ → Option WaitlistBody → Route
  get_waitlist_me : Ties → ℕ → Option ℕ → Route
  post_event : ℕ → Option NewEvent → Route
  patch_event : ℕ → Option Patch → Route
  get_summary : ℕ → Route
  post_show : ℕ → ℕ → Option NewShow → Route
  post_publish : (ℕ → ℕ) → ℕ → Route
  post_venue : ℕ → Option NewVenue → Route
  get_venues : Route
  get_venue_by_id : ℕ → Route
  post_category : ℕ → ℕ → Option NewCategory → Route
  post_seats : (ℕ → ℕ) → ℕ → Option (List RowSpec) → Route
  get_layout : ℕ → Route
  get_ticket : (ℕ → Result ℕ) → ℕ → Route
  get_me : Route

module _ (crypto : Crypto) (text : Collation) (env : Env) (now : ℕ) where
  -- What follows `requireAuth` on each route.
  unfoldable pub behind_auth : Route → Next
  behind_auth (post_hold fresh_id body) = post_hold_route env now fresh_id body
  behind_auth (delete_hold hold_id) = delete_hold_route now hold_id
  behind_auth (post_confirm mint body) = post_confirm_route env now mint body
  behind_auth (post_cancel locked mint booking_id) =
      post_cancel_route crypto env now locked mint booking_id
  behind_auth (post_waitlist ties fresh_id show_id body) =
      post_waitlist_route env ties now fresh_id show_id body
  behind_auth (get_waitlist_me ties show_id query) = get_waitlist_me_route ties show_id query
  behind_auth (post_event id body) = post_event_route now id body
  behind_auth (patch_event event_id body) = patch_event_route event_id body
  behind_auth (get_summary event_id) = get_summary_route text event_id
  behind_auth (post_show id event_id body) = post_show_route id event_id body
  behind_auth (post_publish draw show_id) = post_publish_route now draw show_id
  behind_auth (post_venue id body) = post_venue_route now id body
  behind_auth get_venues = get_venues_route
  behind_auth (get_venue_by_id venue_id) = get_venue_by_id_route venue_id
  behind_auth (post_category id venue_id body) = post_category_route id venue_id body
  behind_auth (post_seats draw venue_id body) = post_seats_route draw venue_id body
  behind_auth (get_layout venue_id) = get_layout_route text venue_id
  behind_auth (get_ticket to_buffer booking_id) = get_ticket_route to_buffer booking_id
  behind_auth get_me = me_controller

-- Every one of these routes has `requireAuth` first.
unfoldable pub serve : Auth → Crypto → Collation → Env → ℕ → ℕ → Route → Next
serve auth crypto text env clock now route =
    require_auth auth clock (behind_auth crypto text env now route)
