-- ===== src/Http/Passes.antt =====
-- What the rules of access say is what the loaders and the roles of the guards ask for.
use mathlib.Core.Path.{subst}
use ticket_booking_system.Common.{ℕ, ◌≡◌, refl, sym, ap, ◌⊎◌, inl, inr, true, Option, some, [], ◌∷◌}
use ticket_booking_system.Db.{Db, Role, admin, organiser}
use ticket_booking_system.Accounts.{Principal}
use ticket_booking_system.Holds.{load_hold_for_ownership}
use ticket_booking_system.Bookings.{load_booking_for_ownership}
use ticket_booking_system.Seatmap.{find_show_by_id}
use ticket_booking_system.Events.{find_event_by_id, load_event_for_ownership}
use ticket_booking_system.Shows.Details.{load_show_for_ownership}
use ticket_booking_system.Http.{Request, Next, includes_role, validate}
use ticket_booking_system.Http.Access.{OwnsHold, OwnsBooking, OwnsEvent, OwnsShow}

pub loads_hold :
    (hold_id : ℕ) (p : Principal) (db : Db)
    → OwnsHold hold_id p db
    → load_hold_for_ownership hold_id db ≡ some p.id
unfolding load_hold_for_ownership
loads_hold hold_id p db (h, found, owner) = rw (found, load_hold_for_ownership) (ap some owner)

pub loads_booking :
    (booking_id : ℕ) (p : Principal) (db : Db)
    → OwnsBooking booking_id p db
    → load_booking_for_ownership booking_id db ≡ some p.id
unfolding load_booking_for_ownership
loads_booking booking_id p db (b, found, owner) =
    rw (found, load_booking_for_ownership) (ap some owner)

pub loads_event :
    (event_id : ℕ) (p : Principal) (db : Db)
    → OwnsEvent event_id p db
    → load_event_for_ownership event_id db ≡ some p.id
unfolding load_event_for_ownership
loads_event event_id p db (e, found, owner) = rw (found, load_event_for_ownership) (ap some owner)

pub loads_show :
    (show_id : ℕ) (p : Principal) (db : Db)
    → OwnsShow show_id p db
    → load_show_for_ownership show_id db ≡ some p.id
unfolding load_show_for_ownership find_show_by_id find_event_by_id
loads_show show_id p db (s, found, (e, known, owner)) =
    rw (found, known, load_show_for_ownership) (ap some owner)

pub organiser_included :
    (role : Role) → role ≡ organiser → includes_role (organiser ∷ []) role ≡ true
unfolding includes_role
organiser_included role is = subst (λ r. includes_role (organiser ∷ []) r ≡ true) (sym is) refl

pub admin_included : (role : Role) → role ≡ admin → includes_role (admin ∷ []) role ≡ true
unfolding includes_role
admin_included role is = subst (λ r. includes_role (admin ∷ []) r ≡ true) (sym is) refl

pub staff_included :
    (role : Role)
    → (role ≡ admin) ⊎ (role ≡ organiser)
    → includes_role (admin ∷ organiser ∷ []) role ≡ true
unfolding includes_role
staff_included role (inl is) =
    subst (λ r. includes_role (admin ∷ organiser ∷ []) r ≡ true) (sym is) refl
staff_included role (inr is) =
    subst (λ r. includes_role (admin ∷ organiser ∷ []) r ≡ true) (sym is) refl

pub validate_same :
    {B : Type 0} (body : Option B) (b : B) (next next' : B → Next) (req : Request) (db : Db)
    → body ≡ some b
    → next b req db ≡ next' b req db
    → validate body next req db ≡ validate body next' req db
unfolding validate
validate_same body b next next' req db parsed same = rw parsed same
