-- ===== src/Http/Reach.antt =====
-- A caller whom the rules of access permit a route reaches its service: no guard turns the request
-- away.
use ticket_booking_system.Common.{ℕ, ◌≡◌, refl, ◌∙◌, true, Option, some, List, [], ◌∷◌, ==_refl}
use ticket_booking_system.Db.{Db, Env, Role, admin, organiser}
use ticket_booking_system.Sql.{Collation}
use ticket_booking_system.Accounts.{Auth, Principal}
use ticket_booking_system.Holds.{load_hold_for_ownership}
use ticket_booking_system.Bookings.{load_booking_for_ownership}
use ticket_booking_system.Offers.{Crypto}
use ticket_booking_system.Events.{load_event_for_ownership}
use ticket_booking_system.Shows.Details.{load_show_for_ownership}
use ticket_booking_system.Http.{
  Request, Reply, Next, includes_role, require_auth, require_role, require_ownership, validate,
}
use ticket_booking_system.Http.Controllers.{
  create_hold_controller, release_hold_controller, confirm_booking_controller,
  cancel_booking_controller, join_waitlist_controller, get_my_waitlist_status_controller,
  create_event_controller, update_event_controller, get_event_summary_controller,
  create_show_controller, publish_show_controller, create_venue_controller, list_venues_controller,
  get_venue_controller, create_category_controller, bulk_create_seats_controller,
  get_venue_layout_controller, get_ticket_controller,
}
use ticket_booking_system.Http.Sessions.{me_controller}
use ticket_booking_system.Http.Routes.{
  Route, post_hold, delete_hold, post_confirm, post_cancel, post_waitlist, get_waitlist_me,
  post_event, patch_event, get_summary, post_show, post_publish, post_venue, get_venues,
  get_venue_by_id, post_category, post_seats, get_layout, get_ticket, get_me, get_ticket_route,
  serve, behind_auth, post_hold_route, delete_hold_route, post_confirm_route, post_cancel_route,
  post_waitlist_route, get_waitlist_me_route, post_event_route, patch_event_route,
  get_summary_route, post_show_route, post_publish_route, post_venue_route, get_venues_route,
  get_venue_by_id_route, post_category_route, post_seats_route, get_layout_route,
}
use ticket_booking_system.Http.Guards.{Presents}
use ticket_booking_system.Http.Access.{OwnsEvent, Permits}
use ticket_booking_system.Http.Passes.{
  loads_hold, loads_booking, loads_event, loads_show, organiser_included, admin_included,
  staff_included, validate_same,
}

-- What a route is for a caller who may take it: the schema, and the service.
abbrev pub service : Crypto → Collation → Env → ℕ → Route → Next
service crypto text env now (post_hold fresh_id body) =
    validate body λ b. create_hold_controller env now fresh_id b
service crypto text env now (delete_hold hold_id) = release_hold_controller now hold_id
service crypto text env now (post_confirm mint body) =
    validate body λ hold_id. confirm_booking_controller env now mint hold_id
service crypto text env now (post_cancel locked mint booking_id) =
    cancel_booking_controller crypto env now locked mint booking_id
service crypto text env now (post_waitlist ties fresh_id show_id body) =
    validate body λ b. join_waitlist_controller env ties now fresh_id show_id b
service crypto text env now (get_waitlist_me ties show_id query) =
    validate query λ category_id. get_my_waitlist_status_controller ties show_id category_id
service crypto text env now (post_event id body) =
    validate body λ e. create_event_controller now id e
service crypto text env now (patch_event event_id body) =
    validate body λ patch. update_event_controller event_id patch
service crypto text env now (get_summary event_id) = get_event_summary_controller text event_id
service crypto text env now (post_show id event_id body) =
    validate body λ show. create_show_controller id event_id show
service crypto text env now (post_publish draw show_id) = publish_show_controller now draw show_id
service crypto text env now (post_venue id body) =
    validate body λ v. create_venue_controller now id v
service crypto text env now get_venues = list_venues_controller
service crypto text env now (get_venue_by_id venue_id) = get_venue_controller venue_id
service crypto text env now (post_category id venue_id body) =
    validate body λ c. create_category_controller id venue_id c
service crypto text env now (post_seats draw venue_id body) =
    validate body λ rows. bulk_create_seats_controller draw venue_id rows
service crypto text env now (get_layout venue_id) = get_venue_layout_controller text venue_id
service crypto text env now (get_ticket to_buffer booking_id) =
    get_ticket_controller to_buffer booking_id
service crypto text env now get_me = me_controller

module _ (crypto : Crypto) (text : Collation) (env : Env) (now : ℕ) (req : Request) (p : Principal)
    (db : Db) where
  abbrev authenticated : Request
  authenticated = record req { user = some p }

  role_passes :
      (roles : List Role) (next : Next)
      → includes_role roles p.role ≡ true
      → require_role roles next authenticated db ≡ next authenticated db
  unfolding require_role
  role_passes roles next allowed = rw (allowed, require_role) refl

  owner_passes :
      (load : Db → Option ℕ) (next : Next)
      → load db ≡ some p.id
      → require_ownership load next authenticated db ≡ next authenticated db
  unfolding require_ownership
  owner_passes load next found = rw (found, ==_refl p.id, require_ownership) refl

  organiser_passes :
      (event_id : ℕ) (next : Next)
      → (p.role ≡ organiser) × OwnsEvent event_id p db
      → require_role
          (organiser ∷ [])
          (require_ownership (load_event_for_ownership event_id) next)
          authenticated
          db
        ≡ next authenticated db
  organiser_passes event_id next (is, owns) =
      role_passes (organiser ∷ []) (require_ownership (load_event_for_ownership event_id) next)
        (organiser_included p.role is)
      ∙ owner_passes (load_event_for_ownership event_id) next (loads_event event_id p db owns)

  behind_auth-service :
      (route : Route)
      → Permits route p db
      → behind_auth crypto text env now route authenticated db
        ≡ service crypto text env now route authenticated db
  unfolding behind_auth post_hold_route delete_hold_route post_confirm_route post_cancel_route
      post_waitlist_route get_waitlist_me_route post_event_route patch_event_route get_summary_route
      post_show_route post_publish_route post_venue_route get_venues_route get_venue_by_id_route
      post_category_route post_seats_route get_layout_route get_ticket_route
  behind_auth-service (post_hold fresh_id body) h = refl
  behind_auth-service (delete_hold hold_id) h =
      owner_passes (load_hold_for_ownership hold_id) _ (loads_hold hold_id p db h)
  behind_auth-service (post_confirm mint body) (hold_id, parsed, owns) =
      validate_same body hold_id _ _ authenticated db parsed
        (owner_passes (load_hold_for_ownership hold_id) _ (loads_hold hold_id p db owns))
  behind_auth-service (post_cancel locked mint booking_id) h =
      owner_passes (load_booking_for_ownership booking_id) _ (loads_booking booking_id p db h)
  behind_auth-service (get_ticket to_buffer booking_id) h =
      owner_passes (load_booking_for_ownership booking_id) _ (loads_booking booking_id p db h)
  behind_auth-service get_me h = refl
  behind_auth-service (post_waitlist ties fresh_id show_id body) h = refl
  behind_auth-service (get_waitlist_me ties show_id query) h = refl
  behind_auth-service (post_event id body) h =
      role_passes (organiser ∷ []) _ (organiser_included p.role h)
  behind_auth-service (patch_event event_id body) h = organiser_passes event_id _ h
  behind_auth-service (get_summary event_id) h = organiser_passes event_id _ h
  behind_auth-service (post_show id event_id body) h = organiser_passes event_id _ h
  behind_auth-service (post_publish draw show_id) (is, owns) =
      role_passes (organiser ∷ []) _ (organiser_included p.role is)
      ∙ owner_passes (load_show_for_ownership show_id) (publish_show_controller now draw show_id)
          (loads_show show_id p db owns)
  behind_auth-service (post_venue id body) h = role_passes (admin ∷ []) _ (admin_included p.role h)
  behind_auth-service get_venues h =
      role_passes (admin ∷ organiser ∷ []) _ (staff_included p.role h)
  behind_auth-service (get_venue_by_id venue_id) h =
      role_passes (admin ∷ organiser ∷ []) _ (staff_included p.role h)
  behind_auth-service (post_category id venue_id body) h =
      role_passes (admin ∷ []) _ (admin_included p.role h)
  behind_auth-service (post_seats draw venue_id body) h =
      role_passes (admin ∷ []) _ (admin_included p.role h)
  behind_auth-service (get_layout venue_id) h =
      role_passes (admin ∷ organiser ∷ []) _ (staff_included p.role h)

auth_passes :
    (auth : Auth) (clock : ℕ) (next : Next) (req : Request) (p : Principal) (db : Db)
    (answer : Reply × Db)
    → Presents auth clock req p
    → next (record req { user = some p }) db ≡ answer
    → require_auth auth clock next req db ≡ answer
unfolding require_auth
auth_passes auth clock next req p db answer (token, present, genuine) same =
    rw (present, genuine, require_auth) same

-- Where the cookie of the request verifies and the rules of access permit a route behind
-- requireAuth to its principal, no guard turns the request away: the answer is that of the schema
-- and the service, called for the principal.
pub serve-service :
    (auth : Auth) (crypto : Crypto) (text : Collation) (env : Env) (clock now : ℕ) (route : Route)
    (req : Request) (p : Principal) (db : Db)
    → Presents auth clock req p
    → Permits route p db
    → serve auth crypto text env clock now route req db
      ≡ service crypto text env now route (record req { user = some p }) db
unfolding serve
serve-service auth crypto text env clock now route req p db presented h =
    auth_passes auth clock (behind_auth crypto text env now route) req p db
      (service crypto text env now route (record req { user = some p }) db) presented
      (behind_auth-service crypto text env now req p db route h)
