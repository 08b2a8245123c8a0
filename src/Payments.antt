-- ===== src/Payments.antt =====
-- server/src/modules/payments: the mock gateway, one payment to a booking.
pub mod Capture
use ticket_booking_system.Common.{
  ℕ, Bool, true, false, ◌&&◌, ◌||◌, Option, none, some, ◌∷◌, ◌==◌, if◌then◌else◌,
}
use ticket_booking_system.Errors.{
  ok, err, internal, sql, unique_violation, numeric_value_out_of_range,
}
use ticket_booking_system.Sql.{update_where, first, exists}
use ticket_booking_system.Db.{Db, Payment, PaymentStatus, fits_int}
use ticket_booking_system.Db.Tx.{Tx, or_throw, ◌>>=◌}

abbrev pub is_authorized : PaymentStatus → Bool
is_authorized PaymentStatus.authorized = true
is_authorized _ = false

abbrev pub is_captured : PaymentStatus → Bool
is_captured PaymentStatus.captured = true
is_captured _ = false

-- What the two unique columns compare.
abbrev pub is_payment_key : ℕ → ℕ → Payment → Bool
is_payment_key id booking_id p = p.id == id || p.booking_id == booking_id

-- `insertAuthorizedPayment`; `id` is a primary key and `booking_id` is unique, `txn_ref` is random.
unfoldable pub insert_authorized_payment : ℕ → ℕ → ℕ → ℕ → ℕ → Tx Payment
unfolding exists
insert_authorized_payment now id txn_ref booking_id amount_cents db =
    let payment : Payment = record {
      id = id;
      booking_id = booking_id;
      status = PaymentStatus.authorized;
      amount_cents = amount_cents;
      txn_ref = txn_ref;
      created_at = now;
    } in
    if exists (is_payment_key id booking_id) db.payments
    then err (sql unique_violation)
    else if fits_int amount_cents
    then ok (payment, record db { payments = payment ∷ db.payments })
    else err (sql numeric_value_out_of_range)

abbrev pub is_authorized_payment : ℕ → Payment → Bool
is_authorized_payment payment_id p = p.id == payment_id && is_authorized p.status

abbrev pub capture : Payment → Payment
capture p = record p { status = PaymentStatus.captured }

-- `markPaymentCaptured`
unfoldable pub mark_payment_captured : ℕ → Tx (Option Payment)
unfolding first update_where
mark_payment_captured payment_id db = ok (
  elim (first (is_authorized_payment payment_id) db.payments) [
    | none ↦ none
    | some p ↦ some (capture p)
  ],
  record db { payments = update_where (is_authorized_payment payment_id) capture db.payments },
)

abbrev pub refund_row : Payment → Payment
refund_row p = record p { status = PaymentStatus.refunded }

abbrev pub is_captured_for : ℕ → Payment → Bool
is_captured_for booking_id p = p.booking_id == booking_id && is_captured p.status

-- `markPaymentRefunded`, which is all of `refund`
unfoldable pub mark_payment_refunded : ℕ → Tx (Option Payment)
unfolding first update_where
mark_payment_refunded booking_id db = ok (
  elim (first (is_captured_for booking_id) db.payments) [
    | none ↦ none
    | some p ↦ some (refund_row p)
  ],
  record db { payments = update_where (is_captured_for booking_id) refund_row db.payments },
)

-- `findPaymentByBookingId`
unfoldable pub find_payment_by_booking_id : ℕ → Db → Option Payment
unfolding first
find_payment_by_booking_id booking_id db = first (λ p. p.booking_id == booking_id) db.payments

-- `authorizeAndCapture`
unfoldable pub authorize_and_capture : ℕ → ℕ → ℕ → ℕ → ℕ → Tx Payment
unfolding insert_authorized_payment mark_payment_captured
authorize_and_capture now id txn_ref booking_id amount_cents = do
  authorized ← insert_authorized_payment now id txn_ref booking_id amount_cents
  captured ← mark_payment_captured authorized.id
  or_throw captured internal
