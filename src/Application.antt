-- ===== src/Application.antt =====
-- server/src/app.js: which handler a request reaches, by its method and the segments of its path; and
-- the routers that are mounted there (*.routes.js). Express is a parameter: a theorem that needs it
-- assumes that it dispatches as `documented` says. The segments of a path are those after decoding;
-- `lower` is `toLowerCase`. The Swagger page and the files of client/ are left out.
pub mod Routers
pub mod Unique
use Prim.Native.String.{String}
use text.Mathlib.Text.{◌==◌ as str_eq}
use ticket_booking_system.Common.{
  ℕ, Bool, true, false, Option, none, some, List, [], ◌∷◌, ◌++◌, map, ◌≡◌, if◌then◌else◌,
}
use ticket_booking_system.Errors.{ErrorCode, not_found}
use ticket_booking_system.Http.{Reply}

pub data Method : Type 0 where
  get post patch delete : Method

-- A segment of a path: a literal, or a parameter with its name.
pub data Segment : Type 0 where
  lit param : String → Segment

-- The handlers, each by the route that leads to it.
pub data Endpoint : Type 0 where
  health register login refresh logout me : Endpoint
  post_venue get_venues get_venue_by_id post_category post_seats get_layout : Endpoint
  post_event browse_events get_event get_summary patch_event : Endpoint
  post_show list_shows get_show post_publish get_seat_map : Endpoint
  post_hold delete_hold post_confirm post_cancel get_ticket : Endpoint
  post_waitlist get_waitlist_me get_offer accept_offer claim_page : Endpoint

-- `router.get(path, …)` and the like.
pub record Row : Type 0 where
  pub method : Method
  pub path : List Segment
  pub endpoint : Endpoint

abbrev pub row : Method → List Segment → Endpoint → Row
row m p e = record { method = m; path = p; endpoint = e }

-- `app.use(prefix, router)`: the rows of the router under the prefix, `mergeParams` included.
unfoldable pub mount : List Segment → List Row → List Row
mount prefix [] = []
mount prefix (r ∷ rs) = record r { path = prefix ++ r.path } ∷ mount prefix rs

abbrev pub method_eq : Method → Method → Bool
method_eq get get = true
method_eq post post = true
method_eq patch patch = true
method_eq delete delete = true
method_eq _ _ = false

-- `req.params`, with the values of the parameters in their order.
abbrev pub cons_param : String → Option (List String) → Option (List String)
cons_param s none = none
cons_param s (some ss) = some (s ∷ ss)

-- The paths of the routers are in lower case. Express ignores the case of a literal and a slash at
-- the end, which leaves an empty segment; a parameter is never empty.
unfoldable pub matches : (String → String) → List Segment → List String → Option (List String)
matches lower [] [] = some []
matches lower [] (s ∷ []) = if str_eq s "" then some [] else none
matches lower [] (s ∷ u ∷ ss) = none
matches lower (p ∷ ps) [] = none
matches lower (lit l ∷ ps) (s ∷ ss) =
    let rest = matches lower ps ss in if str_eq l (lower s) then rest else none
matches lower (param x ∷ ps) (s ∷ ss) =
    let rest = cons_param s (matches lower ps ss) in if str_eq s "" then none else rest

abbrev pub match_row : (String → String) → Row → Method → List String → Option (List String)
match_row lower r m path = if method_eq r.method m then matches lower r.path path else none

abbrev pub found_or :
    Endpoint
    → Option (List String)
    → Option (Endpoint × List String)
    → Option (Endpoint × List String)
found_or e (some params) rest = some (e, params)
found_or e none rest = rest

-- The first row, in the order of registration, that fits the method and the whole path.
unfoldable pub documented :
    (String → String) → List Row → Method → List String → Option (Endpoint × List String)
unfolding matches
documented lower [] m path = none
documented lower (r ∷ rs) m path =
    found_or r.endpoint (match_row lower r m path) (documented lower rs m path)

-- The handler behind all routes: a request that none of them takes.
unfoldable pub route_not_found : Reply
route_not_found = record { status = 404; code = some not_found }
