-- ===== src/Bookings.antt =====
-- server/src/modules/bookings: the statements that turn a hold into a booking and a booking back
-- (bookings.queries.js), and `confirmBooking` (bookings.service.js). `cancelBooking` is in
-- Cancellation, since it dispatches offers.
pub mod Records
pub mod Confirm
pub mod Outcome
pub mod Charges
pub mod Races
pub mod Success
use ticket_booking_system.Common.{
  ℕ, ◌+◌, Bool, ◌&&◌, ◌||◌, Option, none, some, List, [], ◌∷◌, map, ltb, ◌==◌, if◌then◌else◌,
  length,
}
use ticket_booking_system.SeatStates.{held, booked, assert_transition}
use ticket_booking_system.Errors.{
  Result, not_found, ok, err, hold_expired, internal, sql, unique_violation, not_null_violation,
  numeric_value_out_of_range,
}
use ticket_booking_system.Sql.{select, update_where, first, exists, gt_null}
use ticket_booking_system.Db.{Db, ShowSeat, Booking, BookingStatus, HoldStatus, Env, fits_int}
use ticket_booking_system.Db.Tx.{
  Tx, Call, pure, throw_if, query, lift, ◌>>=◌, ◌>>◌, with_transaction,
}
use ticket_booking_system.Pricing.{
  PricedSeat, priced_seats, Amounts, price_booking, has_unpriced, first_show_id,
}
use ticket_booking_system.Holds.{is_held_under, mark_seat_hold_released}
use ticket_booking_system.Payments.{authorize_and_capture}

-- `findHoldSeats`
unfoldable pub find_hold_seats : ℕ → Db → List PricedSeat
unfolding priced_seats select
find_hold_seats hold_id db = priced_seats db (select (is_held_under hold_id) db.show_seats)

-- What is drawn at random while a booking is minted: the keys, the placeholder reference and QR
-- token, and the payment's transaction reference.
pub record Mint : Type 0 where
  pub booking_id : ℕ
  pub reference : ℕ
  pub qr_token : ℕ
  pub payment_id : ℕ
  pub txn_ref : ℕ

-- What the primary key and the unique reference compare.
abbrev pub is_booking_key : Mint → Booking → Bool
is_booking_key mint b = b.id == mint.booking_id || b.reference == mint.reference

abbrev pub new_booking : ℕ → Mint → ℕ → ℕ → Amounts → Booking
new_booking now mint show_id user_id amounts = record {
  id = mint.booking_id;
  reference = mint.reference;
  show_id = show_id;
  user_id = user_id;
  status = BookingStatus.confirmed;
  subtotal_cents = amounts.subtotal_cents;
  fees_cents = amounts.fees_cents;
  total_cents = amounts.total_cents;
  qr_token = mint.qr_token;
  cancelled_at = none;
  created_at = now;
}

-- `insertBooking`
unfoldable pub insert_booking : ℕ → Mint → ℕ → ℕ → Amounts → Tx Booking
unfolding exists
insert_booking now mint show_id user_id amounts db =
    let booking = new_booking now mint show_id user_id amounts in
    if exists (is_booking_key mint) db.bookings
    then err (sql unique_violation)
    else if fits_int amounts.total_cents
    then ok (booking, record db { bookings = booking ∷ db.bookings })
    else err (sql numeric_value_out_of_range)

-- One row of `insertBookingSeats`: `price_cents` is NOT NULL, the pair of keys is the primary key.
unfoldable pub insert_booking_seat : ℕ → PricedSeat → Tx (Unit {0})
unfolding exists
insert_booking_seat booking_id seat db = elim seat.price_cents [
  | none ↦ err (sql not_null_violation)
  | some cents ↦
      if exists (λ b. b.booking_id == booking_id && b.show_seat_id == seat.show_seat_id)
        db.booking_seats
      then err (sql unique_violation)
      else ok (
        tt,
        record db {
          booking_seats =
              record {
                booking_id = booking_id;
                show_seat_id = seat.show_seat_id;
                price_cents = cents;
              }
              ∷ db.booking_seats;
        },
      )
]

-- `insertBookingSeats`
unfoldable pub insert_booking_seats : ℕ → List PricedSeat → Tx (Unit {0})
unfolding insert_booking_seat
insert_booking_seats booking_id [] = pure tt
insert_booking_seats booking_id (seat ∷ seats) =
    insert_booking_seat booking_id seat >> insert_booking_seats booking_id seats

abbrev pub is_confirmable : ℕ → ℕ → ShowSeat → Bool
is_confirmable now hold_id s = is_held_under hold_id s && gt_null s.expires_at now

abbrev pub booked_row : ℕ → ℕ → ShowSeat → ShowSeat
booked_row now booking_id s = record s {
  state = booked;
  booking_id = some booking_id;
  expires_at = none;
  hold_id = none;
  version = s.version + 1;
  updated_at = now;
}

-- `confirmHeldSeats`
unfoldable pub confirm_held_seats : ℕ → ℕ → ℕ → Tx (List ℕ)
unfolding select update_where
confirm_held_seats now hold_id booking_id db = ok (
  map (λ s. s.id) (select (is_confirmable now hold_id) db.show_seats),
  record db {
    show_seats =
        update_where (is_confirmable now hold_id) (booked_row now booking_id) db.show_seats;
  },
)

-- `findBookingById`
unfoldable pub find_booking_by_id : ℕ → Db → Option Booking
unfolding first
find_booking_by_id booking_id db = first (λ b. b.id == booking_id) db.bookings

pub record Confirmed : Type 0 where
  pub booking : Booking
  pub seats : List PricedSeat

-- `confirmBooking` from the pricing on, with the seats that its first statement has read: other
-- transactions may have committed in between.
unfoldable pub confirm_read_seats : Env → ℕ → Mint → ℕ → ℕ → List PricedSeat → Tx Confirmed
unfolding assert_transition confirm_held_seats mark_seat_hold_released
confirm_read_seats env now mint hold_id user_id seats = do
  throw_if (has_unpriced seats) internal
  let amounts = price_booking env seats
  booking ← insert_booking now mint (first_show_id seats) user_id amounts
  authorize_and_capture now mint.payment_id mint.txn_ref booking.id amounts.total_cents
  lift (assert_transition held booked)
  ids ← confirm_held_seats now hold_id booking.id
  throw_if (ltb (length ids) (length seats)) hold_expired
  insert_booking_seats booking.id seats
  mark_seat_hold_released hold_id HoldStatus.converted
  pure (record { booking = booking; seats = seats })

-- `confirmBooking`
unfoldable pub confirm_booking : Env → ℕ → Mint → ℕ → ℕ → Call Confirmed
unfolding with_transaction
confirm_booking env now mint hold_id user_id = with_transaction do
  seats ← query (find_hold_seats hold_id)
  throw_if (length seats == 0) hold_expired
  confirm_read_seats env now mint hold_id user_id seats

-- `loadBookingForOwnership`
unfoldable pub load_booking_for_ownership : ℕ → Db → Option ℕ
unfolding find_booking_by_id
load_booking_for_ownership booking_id db = elim (find_booking_by_id booking_id db) [
  | none ↦ none
  | some b ↦ some b.user_id
]

-- `getBookingQrPng`; qrcode is the parameter `to_buffer`.
unfoldable pub get_booking_qr_png : (ℕ → Result ℕ) → ℕ → Db → Result ℕ
unfolding find_booking_by_id
get_booking_qr_png to_buffer booking_id db = elim (find_booking_by_id booking_id db) [
  | none ↦ err not_found
  | some b ↦ to_buffer b.qr_token
]
