-- ===== src/Http.antt =====
-- server/src/middleware: the guards in front of the routes, each of which passes the request on or
-- answers it, and the last-resort error handler. A guard calls `next` with the request; what it
-- passes to `next(err)` goes to the error handler. Of the envelope the status and the error's code
-- are kept.
pub mod Controllers
pub mod Routes
pub mod Guards
pub mod Access
pub mod Passes
pub mod Reach
pub mod Sessions
pub mod Public
use ticket_booking_system.Common.{
  ℕ, Bool, true, false, ◌||◌, Option, none, some, List, [], ◌∷◌, ◌==◌, if◌then◌else◌,
}
use ticket_booking_system.Errors.{
  Error, ErrorCode, Result, ok, err, status, code, unauthenticated, forbidden, not_found,
  validation, internal,
}
use ticket_booking_system.Db.{Db, Role, admin, organiser, customer}
use ticket_booking_system.Db.Tx.{Call}
use ticket_booking_system.Accounts.{Auth, Principal}

-- The cookie `accessToken`, and `req.user`.
pub record Request : Type 0 where
  pub access_token : Option ℕ
  pub user : Option Principal

pub record Reply : Type 0 where
  pub status : ℕ
  pub code : Option ErrorCode

-- `errorHandler`
unfoldable pub error_handler : Error → Reply
unfolding status code
error_handler e = record { status = status e; code = some (code e) }

-- What is left of a route, from a request on.
abbrev pub Next : Type 0
Next = Request → Db → Reply × Db

abbrev pub refuse : Error → Db → Reply × Db
refuse e db = (error_handler e, db)

-- `requireAuth`, at a time of the clock.
unfoldable pub require_auth : Auth → ℕ → Next → Next
require_auth auth clock next req db = elim req.access_token [
  | none ↦ refuse unauthenticated db
  | some token ↦ elim (auth.verify_access clock token) [
    | none ↦ refuse unauthenticated db
    | some payload ↦ next (record req { user = some payload }) db
  ]
]

abbrev pub role_eq : Role → Role → Bool
role_eq admin admin = true
role_eq organiser organiser = true
role_eq customer customer = true
role_eq _ _ = false

-- `allowedRoles.includes(role)`
unfoldable pub includes_role : List Role → Role → Bool
includes_role [] role = false
includes_role (r ∷ rs) role = role_eq r role || includes_role rs role

-- `requireRole`
unfoldable pub require_role : List Role → Next → Next
unfolding includes_role
require_role allowed next req db = elim req.user [
  | none ↦ refuse forbidden db
  | some user ↦ if includes_role allowed user.role then next req db else refuse forbidden db
]

-- `resource.ownerId !== req.user?.id`, turned round.
abbrev pub is_owner : ℕ → Option Principal → Bool
is_owner owner_id none = false
is_owner owner_id (some user) = owner_id == user.id

-- `requireOwnership`; the loader reports the owner of the resource.
unfoldable pub require_ownership : (Db → Option ℕ) → Next → Next
require_ownership load next req db = elim (load db) [
  | none ↦ refuse not_found db
  | some owner_id ↦ if is_owner owner_id req.user then next req db else refuse forbidden db
]

-- `validate`; the schema has parsed the part of the request, or refused it.
unfoldable pub validate : {B : Type 0} → Option B → (B → Next) → Next
validate none next req db = refuse validation db
validate (some body) next req db = next body req db

-- The end of a controller: the status of success, or `next(err)`.
unfoldable pub respond : {A : Type 0} → ℕ → Result A × Db → Reply × Db
respond success (ok a, db) = (record { status = success; code = none }, db)
respond success (err e, db) = refuse e db

-- A controller that reads nothing of the user.
unfoldable pub answer : {A : Type 0} → ℕ → Call A → Next
unfolding respond
answer success service req db = respond success (service db)

-- A controller that reads `req.user.id`; on a request without a user that is a TypeError.
unfoldable pub controller : {A : Type 0} → ℕ → (ℕ → Call A) → Next
unfolding respond
controller success service req db = elim req.user [
  | none ↦ refuse internal db
  | some user ↦ respond success (service user.id db)
]

-- A service that only reads.
abbrev pub reading : {A : Type 0} → (Db → Result A) → Call A
reading f db = (f db, db)
