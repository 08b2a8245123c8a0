-- ===== src/Bookings/Success.antt =====
-- `confirmBooking` of a hold that has not expired: nothing that the code checks can fail.
use ticket_booking_system.Common.{
  ℕ, ◌≡◌, ◌≤◌, refl, ap, ◌⊎◌, inl, inr, Bool, true, false, ◌&&◌, some, List, [], ◌∷◌, map, arith,
  ltb, ◌==◌, Bool-cases, Option-cases, contains, IsDistinct, length, length-map, All,
}
use ticket_booking_system.Errors.{ok}
use ticket_booking_system.Sql.{select, exists, first, gt_null, update_where}
use ticket_booking_system.Sql.Keys.{IsUnique, exists_mono, select-IsDistinct}
use ticket_booking_system.Db.{Db, ShowSeat, Seat, Payment, BookingSeat, Env, fits_int}
use ticket_booking_system.Db.Tx.{finish, ◌>>=◌}
use ticket_booking_system.Pricing.{
  PricedSeat, priced_seats, price_booking, has_unpriced, first_show_id,
}
use ticket_booking_system.Seatmap.{find_price}
use ticket_booking_system.Payments.{authorize_and_capture, is_payment_key}
use ticket_booking_system.Payments.Capture.{captured_payment, authorize_and_capture_lem}
use ticket_booking_system.Holds.{is_held_under, mark_seat_hold_released}
use ticket_booking_system.Holds.Acquire.{same_id}
use ticket_booking_system.Bookings.{
  Mint, Confirmed, is_booking_key, insert_booking, insert_booking_seat, insert_booking_seats,
  confirm_read_seats, confirm_booking, find_hold_seats, is_confirmable, booked_row,
}
use ticket_booking_system.Bookings.Records.{booking_seat, with_seats}
use ticket_booking_system.Bookings.Confirm.{the_booking, confirmed_db}

abbrev keys : List PricedSeat → List ℕ
keys seats = map (λ s. s.show_seat_id) seats

abbrev taken : ℕ → List PricedSeat → BookingSeat → Bool
taken booking_id seats b = b.booking_id == booking_id && contains (keys seats) b.show_seat_id

insert_booking_seat_added :
    (booking_id : ℕ) (s : PricedSeat) (n : ℕ) (db : Db)
    → s.price_cents ≡ some n
    → exists (λ b. b.booking_id == booking_id && b.show_seat_id == s.show_seat_id) db.booking_seats
      ≡ false
    → insert_booking_seat booking_id s db
      ≡ ok (tt, record db { booking_seats = booking_seat booking_id s ∷ db.booking_seats })
unfolding insert_booking_seat
insert_booking_seat_added booking_id s n db priced once = rw priced (rw once)

insert_booking_seats_all :
    (booking_id : ℕ) (seats : List PricedSeat) (db : Db)
    → has_unpriced seats ≡ false
    → IsDistinct (keys seats)
    → exists (taken booking_id seats) db.booking_seats ≡ false
    → insert_booking_seats booking_id seats db
      ≡ ok (tt, record db { booking_seats = with_seats booking_id seats db.booking_seats })
unfolding insert_booking_seats has_unpriced exists
insert_booking_seats_all booking_id [] db priced distinct fresh = refl
insert_booking_seats_all booking_id (s ∷ ss) db priced distinct fresh =
    elim (Option-cases s.price_cents) [
      | inl unpriced ↦ absurd (cc (rw unpriced at priced))
      | inr (n, known) ↦
          let once : exists (λ b. b.booking_id == booking_id && b.show_seat_id == s.show_seat_id)
                db.booking_seats
              ≡ false =
            exists_mono _ (taken booking_id (s ∷ ss)) db.booking_seats (λ b e. ground (arith, e))
              fresh in
          let rest : exists (taken booking_id ss) db.booking_seats ≡ false =
            exists_mono (taken booking_id ss) (taken booking_id (s ∷ ss)) db.booking_seats
              (λ b e. ground (arith, e)) fresh in
          rw (insert_booking_seat_added booking_id s n db known once, ◌>>=◌)
            (insert_booking_seats_all booking_id ss
              (record db { booking_seats = booking_seat booking_id s ∷ db.booking_seats })
              (rw known at priced) distinct.1 (ground (arith, distinct.0, rest)))
    ]

module _ (db : Db) where
  -- The join drops a row, or keeps its key.
  priced_seats_cases :
      (r : ShowSeat) (rows : List ShowSeat)
      → (priced_seats db (r ∷ rows) ≡ priced_seats db rows)
        ⊎ ((p : PricedSeat) × (p.show_seat_id ≡ r.id)
            × (priced_seats db (r ∷ rows) ≡ p ∷ priced_seats db rows))
  unfolding priced_seats
  priced_seats_cases r rows = elim (Option-cases (first (λ s. s.id == r.seat_id) db.seats)) [
    | inl missing ↦ inl (rw (missing, priced_seats) refl)
    | inr (s, known) ↦ inr (kept s, refl, rw (known, priced_seats) refl)
  ]
    where
      kept : Seat → PricedSeat
      kept s = record {
        show_seat_id = r.id;
        seat_id = r.seat_id;
        show_id = r.show_id;
        category_id = r.category_id;
        price_cents = find_price r.show_id r.category_id db.show_prices;
        row_label = s.row_label;
        seat_number = s.seat_number;
      }

  contains-priced_seats :
      (rows : List ShowSeat) (a : ℕ)
      → contains (keys (priced_seats db rows)) a ≡ true
      → contains (map (λ r. r.id) rows) a ≡ true
  unfolding priced_seats
  contains-priced_seats [] a m = m
  contains-priced_seats (r ∷ rows) a m = elim (priced_seats_cases r rows) [
    | inl dropped ↦ ground (arith, contains-priced_seats rows a, rw dropped at m)
    | inr (p, key, kept) ↦ ground (arith, contains-priced_seats rows a, key, rw kept at m)
  ]

  priced_seats-IsDistinct :
      (rows : List ShowSeat)
      → IsDistinct (map (λ r. r.id) rows)
      → IsDistinct (keys (priced_seats db rows))
  unfolding priced_seats
  priced_seats-IsDistinct [] d = tt
  priced_seats-IsDistinct (r ∷ rows) d = elim (priced_seats_cases r rows) [
    | inl dropped ↦ rw dropped (priced_seats-IsDistinct rows d.1)
    | inr (p, key, kept) ↦
        rw (kept, key)
          (ground (arith, contains-priced_seats rows r.id, d.0), priced_seats-IsDistinct rows d.1)
  ]

  length-priced_seats_bound : (rows : List ShowSeat) → length (priced_seats db rows) ≤ length rows
  unfolding priced_seats
  length-priced_seats_bound [] = omega arith
  length-priced_seats_bound (r ∷ rows) = elim (priced_seats_cases r rows) [
    | inl dropped ↦ rw dropped (omega (arith, length-priced_seats_bound rows))
    | inr (p, key, kept) ↦ rw kept (omega (arith, length-priced_seats_bound rows))
  ]

-- A hold that has not expired loses no seat.
unexpired_confirmable :
    (now hold_id : ℕ) (rows : List ShowSeat)
    → All (λ r. is_held_under hold_id r ≡ true → gt_null r.expires_at now ≡ true) rows
    → select (is_confirmable now hold_id) rows ≡ select (is_held_under hold_id) rows
unfolding select
unexpired_confirmable now hold_id [] h = refl
unexpired_confirmable now hold_id (r ∷ rows) h = elim (Bool-cases (is_held_under hold_id r)) [
  | inl mine ↦ rw (mine, h.0 mine) (ap (λ rs. r ∷ rs) (unexpired_confirmable now hold_id rows h.1))
  | inr other ↦ rw other (unexpired_confirmable now hold_id rows h.1)
]

module _ (env : Env) (now : ℕ) (mint : Mint) (hold_id user_id : ℕ) (seats : List PricedSeat)
    (db : Db) where
  abbrev confirmed : Confirmed
  confirmed = record { booking = the_booking env now mint hold_id user_id seats; seats = seats }

  abbrev booked_db : Db
  booked_db = record db { bookings = the_booking env now mint hold_id user_id seats ∷ db.bookings }

  abbrev payment : Payment
  payment =
      captured_payment now mint.payment_id mint.txn_ref mint.booking_id
        (price_booking env seats).total_cents

  abbrev paid_db : Db
  paid_db = record booked_db {
    payments = payment ∷ db.payments;
    show_seats =
        update_where (is_confirmable now hold_id) (booked_row now mint.booking_id) db.show_seats;
  }

  -- The transaction from the pricing on: each statement is let through.
  confirm_read_seats_succeeds :
      has_unpriced seats ≡ false
      → insert_booking now mint (first_show_id seats) user_id (price_booking env seats) db
        ≡ ok (the_booking env now mint hold_id user_id seats, booked_db)
      → authorize_and_capture now mint.payment_id mint.txn_ref mint.booking_id
          (price_booking env seats).total_cents
          booked_db
        ≡ ok (payment, record booked_db { payments = payment ∷ db.payments })
      → ltb
          (length (map (λ s. s.id) (select (is_confirmable now hold_id) db.show_seats)))
          (length seats)
        ≡ false
      → insert_booking_seats mint.booking_id seats paid_db
        ≡ ok (
          tt,
          record paid_db { booking_seats = with_seats mint.booking_id seats db.booking_seats },
        )
      → confirm_read_seats env now mint hold_id user_id seats db
        ≡ ok (confirmed, confirmed_db env now mint hold_id user_id seats db)
  unfolding confirm_read_seats mark_seat_hold_released
  confirm_read_seats_succeeds priced inserted paid enough added =
      rw (priced, ◌>>=◌)
        (rw (inserted, ◌>>=◌) (rw (paid, ◌>>=◌) (rw (enough, ◌>>=◌) (rw (added, ◌>>=◌) refl))))

module _ (env : Env) (now : ℕ) (mint : Mint) (hold_id user_id : ℕ) (db : Db) where
  abbrev seats : List PricedSeat
  seats = find_hold_seats hold_id db

  abbrev outcome : Confirmed
  outcome = record { booking = the_booking env now mint hold_id user_id seats; seats = seats }

  no_shortfall :
      All (λ r. is_held_under hold_id r ≡ true → gt_null r.expires_at now ≡ true) db.show_seats
      → ltb
          (length (map (λ s. s.id) (select (is_confirmable now hold_id) db.show_seats)))
          (length seats)
        ≡ false
  unfolding find_hold_seats
  no_shortfall unexpired = rw (unexpired_confirmable now hold_id db.show_seats unexpired) (
      ground (
        arith,
        length-map (λ (s : ShowSeat). s.id) (select (is_held_under hold_id) db.show_seats),
        length-priced_seats_bound db (select (is_held_under hold_id) db.show_seats),
      ))

  keys-IsDistinct : IsUnique same_id db.show_seats → IsDistinct (keys seats)
  unfolding find_hold_seats
  keys-IsDistinct unique =
      priced_seats-IsDistinct db (select (is_held_under hold_id) db.show_seats) (
        select-IsDistinct (λ s. s.id) (is_held_under hold_id) same_id db.show_seats
          (λ r t e f. ground (arith, f)) unique)

  -- A hold with a seat, that has not expired and whose seats all have a price, is confirmed, where
  -- the keys of the booking and of its payment are unused, the total is within the range of int and
  -- the keys of the seat rows are distinct.
  pub confirm_booking_succeeds :
      (length seats == 0) ≡ false
      → has_unpriced seats ≡ false
      → All (λ r. is_held_under hold_id r ≡ true → gt_null r.expires_at now ≡ true) db.show_seats
      → IsUnique same_id db.show_seats
      → exists (is_booking_key mint) db.bookings ≡ false
      → exists (is_payment_key mint.payment_id mint.booking_id) db.payments ≡ false
      → exists (λ b. b.booking_id == mint.booking_id) db.booking_seats ≡ false
      → fits_int (price_booking env seats).total_cents ≡ true
      → (confirm_booking env now mint hold_id user_id db).0 ≡ ok outcome
  unfolding confirm_booking insert_booking
  confirm_booking_succeeds some_seat priced unexpired unique fresh unpaid unrecorded small =
      rw (some_seat, ◌>>=◌, finish)
        (rw
          (
            confirm_read_seats_succeeds env now mint hold_id user_id seats db priced
                (rw fresh (rw small))
                (rw
                  (authorize_and_capture_lem now mint.payment_id mint.txn_ref mint.booking_id
                    (price_booking env seats).total_cents
                    (booked_db env now mint hold_id user_id seats db))
                  (rw unpaid (rw small)))
                (no_shortfall unexpired)
                (insert_booking_seats_all mint.booking_id seats
                  (paid_db env now mint hold_id user_id seats db) priced (keys-IsDistinct unique)
                  (exists_mono (taken mint.booking_id seats) (λ b. b.booking_id == mint.booking_id)
                    db.booking_seats (λ b e. ground (arith, e)) unrecorded)),
            finish,
          )
          refl)
