-- ===== src/Cancellation/Outcome.antt =====
-- What a cancellation that succeeds has done: the seats it released, the refund, and that a second
-- one does nothing.
use mathlib.Core.Path.{subst}
use ticket_booking_system.Common.{
  ℕ, ◌≡◌, refl, sym, ap, ◌∙◌, inl, inr, Bool, true, false, ◌||◌, none, some, List, [], ◌∷◌, map,
  is_some, arith, ==→eq, contains, All, All-unit, Bool-cases,
}
use ticket_booking_system.Errors.{ok, ok-injective, Result-cases}
use ticket_booking_system.Sql.{select, first, exists, update_where}
use ticket_booking_system.Sql.Laws.{Rows, Rows-mono, select-Rows_nil}
use ticket_booking_system.Sql.Keys.{
  All-contains-select, exists-update_where_done, update_where-exists_none,
}
use ticket_booking_system.Db.{Db, ShowSeat, Booking, Env, WaitlistOffer}
use ticket_booking_system.Db.Tx.{Tx, finish-ok, pure, ◌>>=◌}
use ticket_booking_system.Payments.{is_captured_for, refund_row}
use ticket_booking_system.Offers.{Crypto, OfferMint}
use ticket_booking_system.Cancellation.{
  Cancelled, is_confirmed_booking, cancelled_row, is_booked_under, cancel_booking, category_ids,
  find_booked_seats_by_booking, dispatch_categories, seats_show_id, show_of_seats,
}
use ticket_booking_system.Cancellation.Dispatch.{
  IsReleased, IsDispatched, Dispatched, dispatch_categories-Dispatched,
}

-- Every category of a seat is among the categories, those already seen included.
contains-category_ids :
    (seen : List ℕ) (ss : List ShowSeat) (a : ℕ)
    → contains (map (λ s. s.category_id) ss) a ≡ true
    → (contains seen a || contains (category_ids seen ss) a) ≡ true
unfolding category_ids
contains-category_ids seen [] a h = absurd (cc)
contains-category_ids seen (s ∷ ss) a h = ground (
  arith,
  h,
  contains-category_ids seen ss a,
  contains-category_ids (s.category_id ∷ seen) ss a,
  ==→eq s.category_id a,
)

-- `result.rows[0]` of an UPDATE is there exactly if some row meets the test.
is_some-first :
    (p : Booking → Bool) (f : Booking → Booking) (rows : List Booking)
    → is_some (elim (first p rows) [ none ↦ none | some b ↦ some (f b) ]) ≡ exists p rows
unfolding first exists
is_some-first p f [] = refl
is_some-first p f (r ∷ rows) = elim (Bool-cases (p r)) [
  | inl found ↦ rw found refl
  | inr past ↦ rw past (is_some-first p f rows)
]

-- What a cancellation does to a row: a seat booked under the booking is released, any other stays.
abbrev pub IsUnbooked : List WaitlistOffer → ℕ → ℕ → ℕ → ShowSeat → ShowSeat → Type 0
IsUnbooked offers attempts now booking_id r t =
    (is_booked_under booking_id r ≡ true → IsReleased offers attempts now r t)
    × (is_booked_under booking_id r ≡ false → t ≡ r)

-- A released seat is no longer booked under the booking.
IsUnbooked-unbooked :
    (offers : List WaitlistOffer) (attempts now booking_id : ℕ) (r t : ShowSeat)
    → IsUnbooked offers attempts now booking_id r t
    → is_booked_under booking_id t ≡ false
IsUnbooked-unbooked offers attempts now booking_id r t k =
    elim (Bool-cases (is_booked_under booking_id r)) [
      | inr miss ↦ rw (k.1 miss) miss
      | inl hit ↦ elim (k.0 hit) [
        | inl free ↦ rw free refl
        | inr (ttl, reserved, offered) ↦ rw reserved refl
      ]
    ]

module _ (crypto : Crypto) (env : Env) (now booking_id : ℕ) (locked : ℕ → Bool)
    (mint : ℕ → OfferMint) (db : Db) (c : Cancelled) (db' : Db) where
  abbrev pub booked_seats : List ShowSeat
  booked_seats = select (is_booked_under booking_id) db.show_seats

  -- The database once the booking is cancelled and the payment refunded.
  abbrev pub settled_db : Db
  settled_db = record db {
    bookings = update_where (is_confirmed_booking booking_id) (cancelled_row now) db.bookings;
    payments = update_where (is_captured_for booking_id) refund_row db.payments;
  }

  -- What the transaction runs after that.
  abbrev pub dispatched : Tx Cancelled
  dispatched =
      dispatch_categories crypto env now booking_id locked mint (seats_show_id booked_seats)
        (show_of_seats booked_seats settled_db) (category_ids [] booked_seats)
      >>= λ released. pure (record {
        cancelled = is_some (elim (first (is_confirmed_booking booking_id) db.bookings) [
          | none ↦ none
          | some b ↦ some (cancelled_row now b)
        ]);
        released = released;
      })

  cancel_booking-Dispatched :
      cancel_booking crypto env now booking_id locked mint db ≡ (ok c, db')
      → Dispatched env.waitlist_max_cascade_attempts now booking_id
          (category_ids [] booked_seats)
          settled_db
          db'
        × (c.cancelled ≡ exists (is_confirmed_booking booking_id) db.bookings)
  unfolding cancel_booking find_booked_seats_by_booking
  cancel_booking-Dispatched h =
      elim (Result-cases (
        dispatch_categories crypto env now booking_id locked mint (seats_show_id booked_seats)
          (show_of_seats booked_seats settled_db) (category_ids [] booked_seats) settled_db)) [
            | inl (e, refused) ↦ absurd (cc (rw (refused, ◌>>=◌) at ran))
            | inr ((released, released_db), done) ↦
                let result = ok-injective (rw (done, ◌>>=◌) at ran) in
                (
                  subst
                      (Dispatched env.waitlist_max_cascade_attempts now booking_id
                        (category_ids [] booked_seats) settled_db)
                      (ap (λ r. r.1) result)
                      (dispatch_categories-Dispatched now booking_id crypto env locked mint _ _ _ _
                        _ _ done),
                  sym (ap (λ r. r.0.cancelled) result)
                      ∙ is_some-first (is_confirmed_booking booking_id) (cancelled_row now)
                          db.bookings,
                )
          ]
    where
      ran : dispatched settled_db ≡ ok (c, db')
      ran = finish-ok db (dispatched settled_db) h

  covered :
      All
        (λ r.
          is_booked_under booking_id r ≡ true
          → contains (category_ids [] booked_seats) r.category_id ≡ true)
        db.show_seats
  covered =
      All-contains-select (λ r. r.category_id) (is_booked_under booking_id) db.show_seats
        (category_ids [] booked_seats) (λ a m. contains-category_ids [] booked_seats a m)

  -- A cancellation that succeeds releases every seat booked under the booking: it is available, or it
  -- is reserved until a pending offer that has it expires. Every other seat is as it was.
  pub cancel_booking_releases :
      cancel_booking crypto env now booking_id locked mint db ≡ (ok c, db')
      → Rows
          (IsUnbooked db'.waitlist_offers env.waitlist_max_cascade_attempts now booking_id)
          db.show_seats
          db'.show_seats
  cancel_booking_releases h =
      Rows-mono
        (λ r.
          is_booked_under booking_id r ≡ true
          → contains (category_ids [] booked_seats) r.category_id ≡ true)
        (IsDispatched db'.waitlist_offers env.waitlist_max_cascade_attempts now booking_id
          (category_ids [] booked_seats))
        (IsUnbooked db'.waitlist_offers env.waitlist_max_cascade_attempts now booking_id)
        db.show_seats db'.show_seats
        (λ r t known k. (λ hit. k.0 (ground (arith, known hit)), λ no. k.1 (ground arith))) covered
        (cancel_booking-Dispatched h).0.seats

  -- A cancellation that succeeds reports whether the booking was confirmed; after it the booking is
  -- not confirmed, and no payment of it is captured.
  pub cancel_booking_refunds :
      cancel_booking crypto env now booking_id locked mint db ≡ (ok c, db')
      → (c.cancelled ≡ exists (is_confirmed_booking booking_id) db.bookings)
        × (exists (is_confirmed_booking booking_id) db'.bookings ≡ false)
        × (exists (is_captured_for booking_id) db'.payments ≡ false)
  cancel_booking_refunds h =
      let (k, reported) = cancel_booking-Dispatched h in
      (
        reported,
        rw k.bookings (
            exists-update_where_done (is_confirmed_booking booking_id) (cancelled_row now)
              db.bookings (λ r e. ground arith)),
        rw k.payments (
            exists-update_where_done (is_captured_for booking_id) refund_row db.payments
              (λ r e. ground arith)),
      )

  -- After a cancellation that succeeds, a second one of the booking, at any later time, reports that
  -- it cancelled nothing, releases no seat and leaves the database as it is.
  pub cancel_booking_idempotent :
      cancel_booking crypto env now booking_id locked mint db ≡ (ok c, db')
      → (later : ℕ)
      → cancel_booking crypto env later booking_id locked mint db'
        ≡ (ok (record { cancelled = false; released = [] }), db')
  unfolding cancel_booking find_booked_seats_by_booking category_ids show_of_seats
      dispatch_categories
  cancel_booking_idempotent h later =
      let (reported, unconfirmed, uncaptured) = cancel_booking_refunds h in
      let unbooked =
        select-Rows_nil (λ r. Unit {0})
          (IsUnbooked db'.waitlist_offers env.waitlist_max_cascade_attempts now booking_id)
          (is_booked_under booking_id) db.show_seats db'.show_seats
          (λ r t _ k.
            IsUnbooked-unbooked db'.waitlist_offers env.waitlist_max_cascade_attempts now booking_id
              r t k)
          (All-unit db.show_seats) (cancel_booking_releases h) in
      let same_bookings =
        update_where-exists_none (is_confirmed_booking booking_id) (cancelled_row later)
          db'.bookings unconfirmed in
      let same_payments =
        update_where-exists_none (is_captured_for booking_id) refund_row db'.payments uncaptured in
      let nothing =
        is_some-first (is_confirmed_booking booking_id) (cancelled_row later) db'.bookings
        ∙ unconfirmed in
      rw (unbooked, nothing, same_bookings, same_payments) refl
