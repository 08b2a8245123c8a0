-- ===== src/Application/Routers.antt =====
-- The routers of *.routes.js, by the paths of their routes, and their mounts in app.js.
use ticket_booking_system.Common.{List, [], ◌∷◌, ◌++◌}
use ticket_booking_system.Application.{
  get, post, patch, delete, Segment, lit, param, Row, row, mount, health, register, login, refresh,
  logout, me, post_venue, get_venues, get_venue_by_id, post_category, post_seats, get_layout,
  post_event, browse_events, get_event, get_summary, patch_event, post_show, list_shows, get_show,
  post_publish, get_seat_map, post_hold, delete_hold, post_confirm, post_cancel, get_ticket,
  post_waitlist, get_waitlist_me, get_offer, accept_offer, claim_page,
}

unfoldable pub health_router : List Row
health_router = row get [] health ∷ []

unfoldable pub auth_router : List Row
auth_router =
    row post (lit "register" ∷ []) register
    ∷ row post (lit "login" ∷ []) login
    ∷ row post (lit "refresh" ∷ []) refresh
    ∷ row post (lit "logout" ∷ []) logout
    ∷ row get (lit "me" ∷ []) me
    ∷ []

unfoldable pub venues_router : List Row
venues_router =
    row post [] post_venue
    ∷ row get [] get_venues
    ∷ row get (param "id" ∷ []) get_venue_by_id
    ∷ row post (param "id" ∷ lit "categories" ∷ []) post_category
    ∷ row post (param "id" ∷ lit "seats" ∷ lit "bulk" ∷ []) post_seats
    ∷ row get (param "id" ∷ lit "layout" ∷ []) get_layout
    ∷ []

unfoldable pub events_router : List Row
events_router =
    row post [] post_event
    ∷ row get [] browse_events
    ∷ row get (param "id" ∷ []) get_event
    ∷ row get (param "id" ∷ lit "summary" ∷ []) get_summary
    ∷ row patch (param "id" ∷ []) patch_event
    ∷ []

unfoldable pub event_shows_router : List Row
event_shows_router = row post [] post_show ∷ row get [] list_shows ∷ []

unfoldable pub shows_router : List Row
shows_router =
    row get (param "id" ∷ []) get_show
    ∷ row post (param "id" ∷ lit "publish" ∷ []) post_publish
    ∷ []

unfoldable pub seatmap_router : List Row
seatmap_router = row get (param "id" ∷ lit "seatmap" ∷ []) get_seat_map ∷ []

unfoldable pub holds_router : List Row
holds_router = row post [] post_hold ∷ row delete (param "id" ∷ []) delete_hold ∷ []

unfoldable pub bookings_router : List Row
bookings_router =
    row post (lit "confirm" ∷ []) post_confirm
    ∷ row post (param "id" ∷ lit "cancel" ∷ []) post_cancel
    ∷ row get (param "id" ∷ lit "ticket" ∷ []) get_ticket
    ∷ []

unfoldable pub show_waitlist_router : List Row
show_waitlist_router = row post [] post_waitlist ∷ row get (lit "me" ∷ []) get_waitlist_me ∷ []

unfoldable pub offers_router : List Row
offers_router =
    row get (param "token" ∷ []) get_offer
    ∷ row post (param "token" ∷ lit "accept" ∷ []) accept_offer
    ∷ []

-- `/api/v1/…`
abbrev pub api : List Segment → List Segment
api rest = lit "api" ∷ lit "v1" ∷ rest

-- The application, in the order of its mounts.
unfoldable pub app : List Row
unfolding mount health_router auth_router venues_router events_router event_shows_router
    shows_router seatmap_router holds_router bookings_router show_waitlist_router offers_router
app =
    mount (lit "health" ∷ []) health_router
    ++ (mount (api (lit "auth" ∷ [])) auth_router
        ++ (mount (api (lit "venues" ∷ [])) venues_router
            ++ (mount (api (lit "events" ∷ [])) events_router
                ++ (mount (api (lit "events" ∷ param "eventId" ∷ lit "shows" ∷ []))
                      event_shows_router
                    ++ (mount (api (lit "shows" ∷ [])) shows_router
                        ++ (mount (api (lit "shows" ∷ [])) seatmap_router
                            ++ (mount (api (lit "holds" ∷ [])) holds_router
                                ++ (mount (api (lit "bookings" ∷ [])) bookings_router
                                    ++ (mount
                                          (api (lit "shows" ∷ param "showId" ∷ lit "waitlist" ∷ []))
                                          show_waitlist_router
                                        ++ (mount (api (lit "waitlist" ∷ lit "offers" ∷ []))
                                              offers_router
                                            ++ (row get
                                                  (lit "waitlist"
                                                    ∷ lit "claim"
                                                    ∷ param "token"
                                                    ∷ [])
                                                  claim_page
                                                ∷ [])))))))))))
