-- ===== src/Cancellation.antt =====
-- `cancelBooking` (server/src/modules/bookings/bookings.service.js): the refund, and the dispatch of
-- each category of freed seats to the head of its waitlist or back to the public.
pub mod Dispatch
pub mod Outcome
pub mod Sent
use ticket_booking_system.Common.{
  ℕ, ◌+◌, Bool, true, false, ◌&&◌, Option, none, some, List, [], ◌∷◌, map, ◌==◌, if◌then◌else◌,
  contains, is_some,
}
use ticket_booking_system.SeatStates.{
  SeatState, available, booked, offer_reserved, state_eq, assert_transition,
}
use ticket_booking_system.Errors.{ok, internal}
use ticket_booking_system.Sql.{select, update_where, first, eq_null}
use ticket_booking_system.Db.{Db, ShowSeat, Show, Booking, BookingStatus, WaitlistOffer, Env}
use ticket_booking_system.Db.Tx.{
  Tx, Call, pure, or_throw, query, lift, ◌>>=◌, ◌>>◌, with_transaction,
}
use ticket_booking_system.Seatmap.{find_show_by_id}
use ticket_booking_system.Payments.{mark_payment_refunded}
use ticket_booking_system.Waitlist.{claim_next_waiting_entry}
use ticket_booking_system.Offers.{Crypto, OfferMint, is_booked_in, create_initial_offer}

abbrev pub is_confirmed : BookingStatus → Bool
is_confirmed BookingStatus.confirmed = true
is_confirmed _ = false

abbrev pub is_confirmed_booking : ℕ → Booking → Bool
is_confirmed_booking booking_id b = b.id == booking_id && is_confirmed b.status

abbrev pub cancelled_row : ℕ → Booking → Booking
cancelled_row now b = record b { status = BookingStatus.cancelled; cancelled_at = some now }

-- `markBookingCancelled`
unfoldable pub mark_booking_cancelled : ℕ → ℕ → Tx (Option Booking)
unfolding first update_where
mark_booking_cancelled now booking_id db = ok (
  elim (first (is_confirmed_booking booking_id) db.bookings) [
    | none ↦ none
    | some b ↦ some (cancelled_row now b)
  ],
  record db {
    bookings = update_where (is_confirmed_booking booking_id) (cancelled_row now) db.bookings;
  },
)

abbrev pub is_booked_under : ℕ → ShowSeat → Bool
is_booked_under booking_id s = eq_null s.booking_id booking_id && state_eq s.state booked

-- `findBookedSeatsByBooking`
unfoldable pub find_booked_seats_by_booking : ℕ → Db → List ShowSeat
unfolding select
find_booked_seats_by_booking booking_id db = select (is_booked_under booking_id) db.show_seats

abbrev pub released_row : ℕ → ShowSeat → ShowSeat
released_row now s = record s {
  state = available;
  booking_id = none;
  version = s.version + 1;
  updated_at = now;
}

-- `releaseBookedSeatsForCategory`, with the keys of the seats that it moved.
unfoldable pub release_booked_seats_for_category : ℕ → ℕ → ℕ → Tx (List ℕ)
unfolding select update_where
release_booked_seats_for_category now booking_id category_id db = ok (
  map (λ s. s.id) (select (is_booked_in booking_id category_id) db.show_seats),
  record db {
    show_seats =
        update_where (is_booked_in booking_id category_id) (released_row now) db.show_seats;
  },
)

-- `[...new Set(bookedSeats.map((seat) => seat.categoryId))]`, after those of `seen`.
unfoldable pub category_ids : List ℕ → List ShowSeat → List ℕ
category_ids seen [] = []
category_ids seen (s ∷ ss) =
    let skipped = category_ids seen ss in
    let kept = s.category_id ∷ category_ids (s.category_id ∷ seen) ss in
    if contains seen s.category_id then skipped else kept

-- An entry of `offersCreated`.
pub record OfferSent : Type 0 where
  pub user_id : ℕ
  pub offer : WaitlistOffer
  pub raw_token : ℕ

-- An entry of `releasedSeatsByCategory`, and of `offersCreated` where an offer was made.
pub record Released : Type 0 where
  pub category_id : ℕ
  pub show_seat_ids : List ℕ
  pub state : SeatState
  pub offer : Option OfferSent

-- `bookedSeats[0]?.showId`, and the show that it names.
unfoldable pub show_of_seats : List ShowSeat → Db → Option Show
unfolding find_show_by_id
show_of_seats [] db = none
show_of_seats (s ∷ ss) db = find_show_by_id s.show_id db

abbrev pub seats_show_id : List ShowSeat → ℕ
seats_show_id [] = 0
seats_show_id (s ∷ ss) = s.show_id

pub record Cancelled : Type 0 where
  pub cancelled : Bool
  pub released : List Released

module _ (crypto : Crypto) (env : Env) (now : ℕ) (booking_id : ℕ) where
  -- The rows that other open transactions have locked, and what is drawn for each category's offer.
  module _ (locked : ℕ → Bool) (mint : ℕ → OfferMint) where
    -- The body of the loop. Reading the time to live of a missing show is a TypeError.
    unfoldable pub dispatch_category : ℕ → Option Show → ℕ → Tx Released
    unfolding assert_transition release_booked_seats_for_category
    dispatch_category show_id show? category_id = do
      claimed ← query (claim_next_waiting_entry locked show_id category_id)
      elim claimed [
        | some entry ↦ do
          show ← or_throw show? internal
          made ←
              create_initial_offer crypto now (mint category_id) booking_id category_id entry.id
                show.offer_ttl_seconds env.waitlist_max_cascade_attempts
          pure (record {
            category_id = category_id;
            show_seat_ids = made.show_seat_ids;
            state = offer_reserved;
            offer = some (record {
              user_id = entry.user_id;
              offer = made.offer;
              raw_token = made.raw_token;
            });
          })
        | none ↦ do
          lift (assert_transition booked available)
          ids ← release_booked_seats_for_category now booking_id category_id
          pure (record {
            category_id = category_id;
            show_seat_ids = ids;
            state = available;
            offer = none;
          })
      ]

    unfoldable pub dispatch_categories : ℕ → Option Show → List ℕ → Tx (List Released)
    dispatch_categories show_id show? [] = pure []
    dispatch_categories show_id show? (c ∷ cs) = do
      released ← dispatch_category show_id show? c
      rest ← dispatch_categories show_id show? cs
      pure (released ∷ rest)

    -- `cancelBooking`
    unfoldable pub cancel_booking : Call Cancelled
    unfolding with_transaction mark_booking_cancelled mark_payment_refunded
    cancel_booking = with_transaction do
      booking ← mark_booking_cancelled now booking_id
      mark_payment_refunded booking_id
      seats ← query (find_booked_seats_by_booking booking_id)
      show? ← query (show_of_seats seats)
      released ← dispatch_categories (seats_show_id seats) show? (category_ids [] seats)
      pure (record { cancelled = is_some booking; released = released })
