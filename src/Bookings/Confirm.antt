-- ===== src/Bookings/Confirm.antt =====
-- What a successful `confirmBooking` has done: the guards it passed, and every table that it wrote.
use ticket_booking_system.Common.{
  ℕ, ◌≡◌, sym, ap, ◌⊎◌, inl, inr, false, List, ◌∷◌, map, ltb, Bool-cases, length,
}
use ticket_booking_system.Errors.{
  Error, ok, ok-injective, err, sql, unique_violation, numeric_value_out_of_range,
}
use ticket_booking_system.Sql.{select, exists, update_where}
use ticket_booking_system.Db.{Db, Booking, HoldStatus, Env, fits_int}
use ticket_booking_system.Db.Tx.{pure, ◌>>=◌, ◌>>◌}
use ticket_booking_system.Pricing.{PricedSeat, Amounts, price_booking, has_unpriced, first_show_id}
use ticket_booking_system.Payments.{authorize_and_capture, is_payment_key}
use ticket_booking_system.Payments.Capture.{captured_payment, authorize_and_capture_lem}
use ticket_booking_system.Holds.{is_active_hold, mark_seat_hold_released}
use ticket_booking_system.Bookings.{
  Mint, Confirmed, new_booking, is_booking_key, insert_booking, insert_booking_seats,
  confirm_read_seats, is_confirmable, booked_row,
}
use ticket_booking_system.Bookings.Records.{with_seats, insert_booking_seats_cases}

pub insert_booking_cases :
    (now : ℕ) (mint : Mint) (show_id user_id : ℕ) (amounts : Amounts) (db : Db)
    → ((e : Error) × (insert_booking now mint show_id user_id amounts db ≡ err e))
      ⊎ (exists (is_booking_key mint) db.bookings ≡ false)
        × (insert_booking now mint show_id user_id amounts db
            ≡ ok (
              new_booking now mint show_id user_id amounts,
              record db { bookings = new_booking now mint show_id user_id amounts ∷ db.bookings },
            ))
unfolding insert_booking
insert_booking_cases now mint show_id user_id amounts db =
    elim (Bool-cases (exists (is_booking_key mint) db.bookings)) [
      | inl used ↦ inl (sql unique_violation, rw used)
      | inr fresh ↦ elim (Bool-cases (fits_int amounts.total_cents)) [
        | inl small ↦ inr (fresh, rw fresh (rw small))
        | inr large ↦ inl (sql numeric_value_out_of_range, rw fresh (rw large))
      ]
    ]

pub authorize_and_capture_cases :
    (now id txn_ref booking_id amount_cents : ℕ) (db : Db)
    → ((e : Error) × (authorize_and_capture now id txn_ref booking_id amount_cents db ≡ err e))
      ⊎ (exists (is_payment_key id booking_id) db.payments ≡ false)
        × (authorize_and_capture now id txn_ref booking_id amount_cents db
            ≡ ok (
              captured_payment now id txn_ref booking_id amount_cents,
              record db {
                payments = captured_payment now id txn_ref booking_id amount_cents ∷ db.payments;
              },
            ))
authorize_and_capture_cases now id txn_ref booking_id amount_cents db =
    rw (authorize_and_capture_lem now id txn_ref booking_id amount_cents db)
      (elim (Bool-cases (exists (is_payment_key id booking_id) db.payments)) [
        | inl used ↦ inl (sql unique_violation, rw used)
        | inr fresh ↦ elim (Bool-cases (fits_int amount_cents)) [
          | inl small ↦ inr (fresh, rw fresh (rw small))
          | inr large ↦ inl (sql numeric_value_out_of_range, rw fresh (rw large))
        ]
      ])

module _ (env : Env) (now : ℕ) (mint : Mint) (hold_id user_id : ℕ) (seats : List PricedSeat) where
  abbrev pub amounts : Amounts
  amounts = price_booking env seats

  abbrev pub the_booking : Booking
  the_booking = new_booking now mint (first_show_id seats) user_id amounts

  -- The database after the commit.
  abbrev pub confirmed_db : Db → Db
  confirmed_db db = record db {
    bookings = the_booking ∷ db.bookings;
    payments =
        captured_payment now mint.payment_id mint.txn_ref mint.booking_id amounts.total_cents
        ∷ db.payments;
    show_seats =
        update_where (is_confirmable now hold_id) (booked_row now mint.booking_id) db.show_seats;
    booking_seats = with_seats mint.booking_id seats db.booking_seats;
    seat_holds =
        update_where (is_active_hold hold_id) (λ h. record h { status = HoldStatus.converted })
          db.seat_holds;
  }

  -- What a transaction of `confirmBooking` that commits has found and left.
  pub record Commits (db : Db) (c : Confirmed) (db' : Db) : Type 0 where
    pub priced : has_unpriced seats ≡ false
    pub booking_fresh : exists (is_booking_key mint) db.bookings ≡ false
    pub payment_fresh : exists (is_payment_key mint.payment_id mint.booking_id) db.payments ≡ false
    pub no_shortfall :
        ltb
          (length (map (λ s. s.id) (select (is_confirmable now hold_id) db.show_seats)))
          (length seats)
        ≡ false
    pub result : c ≡ record { booking = the_booking; seats = seats }
    pub state : db' ≡ confirmed_db db

  -- The database before the seats are recorded.
  abbrev paid_db : Db → Db
  paid_db db = record db {
    bookings = the_booking ∷ db.bookings;
    payments =
        captured_payment now mint.payment_id mint.txn_ref mint.booking_id amounts.total_cents
        ∷ db.payments;
    show_seats =
        update_where (is_confirmable now hold_id) (booked_row now mint.booking_id) db.show_seats;
  }

  recorded :
      (db : Db) (c : Confirmed) (db' : Db)
      → has_unpriced seats ≡ false
      → exists (is_booking_key mint) db.bookings ≡ false
      → exists (is_payment_key mint.payment_id mint.booking_id) db.payments ≡ false
      → ltb
          (length (map (λ s. s.id) (select (is_confirmable now hold_id) db.show_seats)))
          (length seats)
        ≡ false
      → (insert_booking_seats mint.booking_id seats
            >> (mark_seat_hold_released hold_id HoldStatus.converted
                >> pure {A = Confirmed} (record { booking = the_booking; seats = seats })))
          (paid_db db)
        ≡ ok (c, db')
      → Commits db c db'
  unfolding mark_seat_hold_released
  recorded db c db' priced fresh unpaid enough h =
      elim (insert_booking_seats_cases mint.booking_id seats (paid_db db)) [
        | inl (e, refused) ↦ absurd (cc (rw (refused, ◌>>=◌) at h))
        | inr added ↦
            let done = ok-injective (rw (added, ◌>>=◌) at h) in
            record {
              priced = priced;
              booking_fresh = fresh;
              payment_fresh = unpaid;
              no_shortfall = enough;
              result = sym (ap (λ r. r.0) done);
              state = sym (ap (λ r. r.1) done);
            }
      ]

  pub confirm_read_seats-Commits :
      (db : Db) (c : Confirmed) (db' : Db)
      → confirm_read_seats env now mint hold_id user_id seats db ≡ ok (c, db')
      → Commits db c db'
  unfolding confirm_read_seats
  confirm_read_seats-Commits db c db' h = elim (Bool-cases (has_unpriced seats)) [
    | inl unpriced ↦ absurd (cc (rw (unpriced, ◌>>=◌) at h))
    | inr priced ↦
        let h₁ = rw (priced, ◌>>=◌) at h in
        elim (insert_booking_cases now mint (first_show_id seats) user_id amounts db) [
          | inl (e, refused) ↦ absurd (cc (rw (refused, ◌>>=◌) at h₁))
          | inr (fresh, inserted) ↦
              let h₂ = rw (inserted, ◌>>=◌) at h₁ in
              elim (authorize_and_capture_cases now mint.payment_id mint.txn_ref mint.booking_id
                amounts.total_cents (record db { bookings = the_booking ∷ db.bookings })) [
                  | inl (e, refused) ↦ absurd (cc (rw (refused, ◌>>=◌) at h₂))
                  | inr (unpaid, paid) ↦
                      let h₃ = rw (paid, ◌>>=◌) at h₂ in
                      elim (Bool-cases (
                        ltb
                          (length
                            (map (λ s. s.id) (select (is_confirmable now hold_id) db.show_seats)))
                          (length seats))) [
                            | inl short ↦ absurd (cc (rw (short, ◌>>=◌) at h₃))
                            | inr enough ↦
                                recorded db c db' priced fresh unpaid enough
                                  (rw (enough, ◌>>=◌) at h₃)
                          ]
                ]
        ]
  ]
