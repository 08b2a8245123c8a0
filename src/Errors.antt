-- ===== src/Errors.antt =====
-- server/src/utils/errors.js and shared/errors.js: the domain errors that services throw, with the
-- HTTP status and the stable code of each; and the errors that reach the last-resort handler.
use ticket_booking_system.Common.{ℕ, Bool, true, false, List, ◌≡◌, ◌≢◌, refl, ◌⊎◌, inl, inr}

-- `{ seatId, rowLabel, seatNumber }`; a row label is only passed on, so a number stands for it.
pub record SeatLabel : Type 0 where
  pub seat_id : ℕ
  pub row_label : ℕ
  pub seat_number : ℕ

-- The SQLSTATEs of the constraints in the migrations.
pub data SqlState : Type 0 where
  unique_violation foreign_key_violation not_null_violation : SqlState
  numeric_value_out_of_range : SqlState

-- A domain error carries what the client sees. `sql` is an error that the database raises, and
-- `internal` a plain `Error`; neither is a `DomainError`.
pub data Error : Type 0 where
  invalid_credentials email_taken validation unauthenticated forbidden refresh_invalid : Error
  not_found conflict illegal_seat_transition : Error
  seats_unavailable : List SeatLabel → Error
  hold_expired already_waitlisted offer_invalid offer_expired : Error
  sql : SqlState → Error
  internal : Error

pub data ErrorCode : Type 0 where
  internal_error not_found validation_error unauthenticated forbidden invalid_credentials :
      ErrorCode
  email_taken refresh_invalid conflict illegal_seat_transition seats_unavailable : ErrorCode
  hold_expired already_waitlisted offer_invalid offer_expired : ErrorCode

pub data Result {ℓ} (A : Type ℓ) : Type ℓ where
  ok : A → Result A
  err : Error → Result A

abbrev pub is_ok {ℓ} : {A : Type ℓ} → Result A → Bool
is_ok (ok a) = true
is_ok (err e) = false

pub ok-injective {ℓ} : {A : Type ℓ} {a b : A} → ok a ≡ ok b → a ≡ b
ok-injective h = cc

pub Result-cases {ℓ} :
    {A : Type ℓ} (r : Result A) → ((e : Error) × (r ≡ err e)) ⊎ ((a : A) × (r ≡ ok a))
Result-cases (ok a) = inr (a, refl)
Result-cases (err e) = inl (e, refl)

-- What does not succeed with any result fails.
pub not_ok {ℓ} : {A : Type ℓ} (r : Result A) → ((a : A) → r ≢ ok a) → is_ok r ≡ false
not_ok (ok a) never = absurd (never a refl)
not_ok (err e) never = refl

-- `status` in the constructor of each class; what is no `DomainError` is answered with 500.
unfoldable pub status : Error → ℕ
status Error.invalid_credentials = 401
status Error.email_taken = 409
status validation = 422
status Error.unauthenticated = 401
status Error.forbidden = 403
status Error.refresh_invalid = 401
status Error.not_found = 404
status Error.conflict = 409
status Error.illegal_seat_transition = 409
status (Error.seats_unavailable labels) = 409
status Error.hold_expired = 410
status Error.already_waitlisted = 409
status Error.offer_invalid = 410
status Error.offer_expired = 410
status (sql s) = 500
status internal = 500

-- `code` in the constructor of each class.
unfoldable pub code : Error → ErrorCode
code Error.invalid_credentials = ErrorCode.invalid_credentials
code Error.email_taken = ErrorCode.email_taken
code validation = validation_error
code Error.unauthenticated = ErrorCode.unauthenticated
code Error.forbidden = ErrorCode.forbidden
code Error.refresh_invalid = ErrorCode.refresh_invalid
code Error.not_found = ErrorCode.not_found
code Error.conflict = ErrorCode.conflict
code Error.illegal_seat_transition = ErrorCode.illegal_seat_transition
code (Error.seats_unavailable labels) = ErrorCode.seats_unavailable
code Error.hold_expired = ErrorCode.hold_expired
code Error.already_waitlisted = ErrorCode.already_waitlisted
code Error.offer_invalid = ErrorCode.offer_invalid
code Error.offer_expired = ErrorCode.offer_expired
code (sql s) = internal_error
code internal = internal_error
