-- ===== src/Http/Access.antt =====
-- Who may do what through the routes: every route answers with an error and leaves the database as
-- it is, or its caller is one whom the rules of access permit.
use ticket_booking_system.Common.{
  ℕ, ◌≡◌, refl, ◌⊎◌, inl, inr, true, some, [], ◌∷◌, ◌==◌, Option-cases, some-injective,
}
use ticket_booking_system.Db.{
  Db, Env, Role, admin, organiser, customer, SeatHold, Booking, Event, Show,
}
use ticket_booking_system.Sql.{Collation, first}
use ticket_booking_system.Accounts.{Auth, Principal}
use ticket_booking_system.Holds.{find_seat_hold_by_id, load_hold_for_ownership}
use ticket_booking_system.Bookings.{find_booking_by_id, load_booking_for_ownership}
use ticket_booking_system.Offers.{Crypto}
use ticket_booking_system.Seatmap.{find_show_by_id}
use ticket_booking_system.Events.{find_event_by_id, load_event_for_ownership}
use ticket_booking_system.Shows.Details.{load_show_for_ownership}
use ticket_booking_system.Http.{Request, Next, includes_role, require_role, require_ownership}
use ticket_booking_system.Http.Routes.{
  Route, post_hold, delete_hold, post_confirm, post_cancel, post_waitlist, get_waitlist_me,
  post_event, patch_event, get_summary, post_show, post_publish, post_venue, get_venues,
  get_venue_by_id, post_category, post_seats, get_layout, get_ticket, get_me, get_ticket_route,
  serve, behind_auth, post_hold_route, delete_hold_route, post_confirm_route, post_cancel_route,
  post_waitlist_route, get_waitlist_me_route, post_event_route, patch_event_route,
  get_summary_route, post_show_route, post_publish_route, post_venue_route, get_venues_route,
  get_venue_by_id_route, post_category_route, post_seats_route, get_layout_route,
}
use ticket_booking_system.Http.Guards.{Guarded, Presents, auth_then, role_then, own_then, body_then}

abbrev pub OwnsHold : ℕ → Principal → Db → Type 0
OwnsHold hold_id p db =
    (h : SeatHold) × (find_seat_hold_by_id hold_id db ≡ some h) × (h.user_id ≡ p.id)

abbrev pub OwnsBooking : ℕ → Principal → Db → Type 0
OwnsBooking booking_id p db =
    (b : Booking) × (find_booking_by_id booking_id db ≡ some b) × (b.user_id ≡ p.id)

abbrev pub OwnsEvent : ℕ → Principal → Db → Type 0
OwnsEvent event_id p db =
    (e : Event) × (find_event_by_id event_id db ≡ some e) × (e.organiser_id ≡ p.id)

-- A show belongs to the organiser of its event.
abbrev pub OwnsShow : ℕ → Principal → Db → Type 0
OwnsShow show_id p db =
    (s : Show) × (find_show_by_id show_id db ≡ some s) × OwnsEvent s.event_id p db

abbrev pub IsStaff : Principal → Type 0
IsStaff p = (p.role ≡ admin) ⊎ (p.role ≡ organiser)

-- The rules of access.
abbrev pub Permits : Route → Principal → Db → Type 0
Permits (post_hold fresh_id body) p db = Unit
Permits (delete_hold hold_id) p db = OwnsHold hold_id p db
Permits (post_confirm mint body) p db =
    (hold_id : ℕ) × (body ≡ some hold_id) × OwnsHold hold_id p db
Permits (post_cancel locked mint booking_id) p db = OwnsBooking booking_id p db
Permits (post_waitlist ties fresh_id show_id body) p db = Unit
Permits (get_waitlist_me ties show_id query) p db = Unit
Permits (post_event id body) p db = p.role ≡ organiser
Permits (patch_event event_id body) p db = (p.role ≡ organiser) × OwnsEvent event_id p db
Permits (get_summary event_id) p db = (p.role ≡ organiser) × OwnsEvent event_id p db
Permits (post_show id event_id body) p db = (p.role ≡ organiser) × OwnsEvent event_id p db
Permits (post_publish draw show_id) p db = (p.role ≡ organiser) × OwnsShow show_id p db
Permits (post_venue id body) p db = p.role ≡ admin
Permits get_venues p db = IsStaff p
Permits (get_venue_by_id venue_id) p db = IsStaff p
Permits (post_category id venue_id body) p db = p.role ≡ admin
Permits (post_seats draw venue_id body) p db = p.role ≡ admin
Permits (get_layout venue_id) p db = IsStaff p
Permits (get_ticket to_buffer booking_id) p db = OwnsBooking booking_id p db
Permits get_me p db = Unit

owns_hold :
    (hold_id : ℕ) (p : Principal) (db : Db)
    → load_hold_for_ownership hold_id db ≡ some p.id
    → OwnsHold hold_id p db
unfolding load_hold_for_ownership
owns_hold hold_id p db h = elim (Option-cases (find_seat_hold_by_id hold_id db)) [
  | inl missing ↦ absurd (cc (rw (missing, load_hold_for_ownership) at h))
  | inr (hold, found) ↦ (hold, found, some-injective (rw (found, load_hold_for_ownership) at h))
]

owns_booking :
    (booking_id : ℕ) (p : Principal) (db : Db)
    → load_booking_for_ownership booking_id db ≡ some p.id
    → OwnsBooking booking_id p db
unfolding load_booking_for_ownership
owns_booking booking_id p db h = elim (Option-cases (find_booking_by_id booking_id db)) [
  | inl missing ↦ absurd (cc (rw (missing, load_booking_for_ownership) at h))
  | inr (b, found) ↦ (b, found, some-injective (rw (found, load_booking_for_ownership) at h))
]

owns_event :
    (event_id : ℕ) (p : Principal) (db : Db)
    → load_event_for_ownership event_id db ≡ some p.id
    → OwnsEvent event_id p db
unfolding load_event_for_ownership
owns_event event_id p db h = elim (Option-cases (find_event_by_id event_id db)) [
  | inl missing ↦ absurd (cc (rw (missing, load_event_for_ownership) at h))
  | inr (e, found) ↦ (e, found, some-injective (rw (found, load_event_for_ownership) at h))
]

owns_show :
    (show_id : ℕ) (p : Principal) (db : Db)
    → load_show_for_ownership show_id db ≡ some p.id
    → OwnsShow show_id p db
unfolding load_show_for_ownership find_show_by_id find_event_by_id
owns_show show_id p db h = elim (Option-cases (first (λ s. s.id == show_id) db.shows)) [
  | inl missing ↦ absurd (cc (rw (missing, load_show_for_ownership) at h))
  | inr (s, found) ↦ elim (Option-cases (first (λ e. e.id == s.event_id) db.events)) [
    | inl orphan ↦ absurd (cc (rw (found, orphan, load_show_for_ownership) at h))
    | inr (e, known) ↦
        (s, found, (e, known, some-injective (rw (found, known, load_show_for_ownership) at h)))
  ]
]

only_organiser : (role : Role) → includes_role (organiser ∷ []) role ≡ true → role ≡ organiser
unfolding includes_role
only_organiser admin h = absurd (cc)
only_organiser organiser h = refl
only_organiser customer h = absurd (cc)

only_admin : (role : Role) → includes_role (admin ∷ []) role ≡ true → role ≡ admin
unfolding includes_role
only_admin admin h = refl
only_admin organiser h = absurd (cc)
only_admin customer h = absurd (cc)

only_staff :
    (role : Role)
    → includes_role (admin ∷ organiser ∷ []) role ≡ true
    → (role ≡ admin) ⊎ (role ≡ organiser)
unfolding includes_role
only_staff admin h = inl refl
only_staff organiser h = inr refl
only_staff customer h = absurd (cc)

module _ (crypto : Crypto) (text : Collation) (env : Env) (now : ℕ) (req : Request) (p : Principal)
    (db : Db) where
  abbrev authenticated : Request
  authenticated = record req { user = some p }

  -- A route that an organiser may take who owns an event.
  of_organiser :
      (event_id : ℕ) (next : Next)
      → Guarded
          ((p.role ≡ organiser) × OwnsEvent event_id p db)
          (require_role
            (organiser ∷ [])
            (require_ownership (load_event_for_ownership event_id) next)
            authenticated
            db)
          db
  of_organiser event_id next =
      role_then ((p.role ≡ organiser) × OwnsEvent event_id p db) req p db (organiser ∷ []) _ λ r.
        own_then ((p.role ≡ organiser) × OwnsEvent event_id p db) req p db
          (load_event_for_ownership event_id) next
          λ o. inr (only_organiser p.role r, owns_event event_id p db o)

  -- What the guards behind `requireAuth` let through.
  behind_auth-Permits :
      (route : Route)
      → Guarded (Permits route p db) (behind_auth crypto text env now route authenticated db) db
  unfolding behind_auth post_hold_route delete_hold_route post_confirm_route post_cancel_route
      post_waitlist_route get_waitlist_me_route post_event_route patch_event_route get_summary_route
      post_show_route post_publish_route post_venue_route get_venues_route get_venue_by_id_route
      post_category_route post_seats_route get_layout_route get_ticket_route
  behind_auth-Permits (post_hold fresh_id body) = inr tt
  behind_auth-Permits (delete_hold hold_id) =
      own_then (OwnsHold hold_id p db) req p db (load_hold_for_ownership hold_id) _
        λ o. inr (owns_hold hold_id p db o)
  behind_auth-Permits (post_confirm mint body) =
      body_then (Permits (post_confirm mint body) p db) body _ authenticated db λ hold_id parsed.
        own_then (Permits (post_confirm mint body) p db) req p db (load_hold_for_ownership hold_id)
          _ λ o. inr (hold_id, parsed, owns_hold hold_id p db o)
  behind_auth-Permits (post_cancel locked mint booking_id) =
      own_then (OwnsBooking booking_id p db) req p db (load_booking_for_ownership booking_id) _
        λ o. inr (owns_booking booking_id p db o)
  behind_auth-Permits (post_waitlist ties fresh_id show_id body) = inr tt
  behind_auth-Permits (get_waitlist_me ties show_id query) = inr tt
  behind_auth-Permits (post_event id body) =
      role_then (p.role ≡ organiser) req p db (organiser ∷ []) _ λ r. inr (only_organiser p.role r)
  behind_auth-Permits (patch_event event_id body) = of_organiser event_id _
  behind_auth-Permits (get_summary event_id) = of_organiser event_id _
  behind_auth-Permits (post_show id event_id body) = of_organiser event_id _
  behind_auth-Permits (post_publish draw show_id) =
      role_then ((p.role ≡ organiser) × OwnsShow show_id p db) req p db (organiser ∷ []) _ λ r.
        own_then ((p.role ≡ organiser) × OwnsShow show_id p db) req p db
          (load_show_for_ownership show_id) _
          λ o. inr (only_organiser p.role r, owns_show show_id p db o)
  behind_auth-Permits (post_venue id body) =
      role_then (p.role ≡ admin) req p db (admin ∷ []) _ λ r. inr (only_admin p.role r)
  behind_auth-Permits get_venues =
      role_then (IsStaff p) req p db (admin ∷ organiser ∷ []) _ λ r. inr (only_staff p.role r)
  behind_auth-Permits (get_venue_by_id venue_id) =
      role_then (IsStaff p) req p db (admin ∷ organiser ∷ []) _ λ r. inr (only_staff p.role r)
  behind_auth-Permits (post_category id venue_id body) =
      role_then (p.role ≡ admin) req p db (admin ∷ []) _ λ r. inr (only_admin p.role r)
  behind_auth-Permits (post_seats draw venue_id body) =
      role_then (p.role ≡ admin) req p db (admin ∷ []) _ λ r. inr (only_admin p.role r)
  behind_auth-Permits (get_layout venue_id) =
      role_then (IsStaff p) req p db (admin ∷ organiser ∷ []) _ λ r. inr (only_staff p.role r)
  behind_auth-Permits (get_ticket to_buffer booking_id) =
      own_then (OwnsBooking booking_id p db) req p db (load_booking_for_ownership booking_id) _
        λ o. inr (owns_booking booking_id p db o)
  behind_auth-Permits get_me = inr tt

-- Every route behind `requireAuth` answers with an error and leaves the database as it is, or the
-- cookie of the request verifies and the rules of access permit the route to its principal.
pub serve-Permits :
    (auth : Auth) (crypto : Crypto) (text : Collation) (env : Env) (clock now : ℕ) (route : Route)
    (req : Request) (db : Db)
    → Guarded
        ((p : Principal) × Presents auth clock req p × Permits route p db)
        (serve auth crypto text env clock now route req db)
        db
unfolding serve
serve-Permits auth crypto text env clock now route req db =
    auth_then (λ p. Permits route p db) auth clock (behind_auth crypto text env now route) req db
      λ p. behind_auth-Permits crypto text env now req p db route
