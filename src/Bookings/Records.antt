-- ===== src/Bookings/Records.antt =====
-- `insertBookingSeats`: the rows that it adds, and when it can.
use ticket_booking_system.Common.{
  ℕ, ◌≡◌, refl, ◌⊎◌, inl, inr, ◌&&◌, List, [], ◌∷◌, ◌==◌, Bool-cases, Option-cases,
}
use ticket_booking_system.Errors.{Error, ok, err, sql, not_null_violation, unique_violation}
use ticket_booking_system.Sql.{exists}
use ticket_booking_system.Db.{Db, BookingSeat}
use ticket_booking_system.Db.Tx.{◌>>=◌}
use ticket_booking_system.Pricing.{PricedSeat, cents}
use ticket_booking_system.Bookings.{insert_booking_seat, insert_booking_seats}

abbrev pub booking_seat : ℕ → PricedSeat → BookingSeat
booking_seat booking_id s = record {
  booking_id = booking_id;
  show_seat_id = s.show_seat_id;
  price_cents = cents s.price_cents;
}

-- The table with the rows of the seats added.
abbrev pub with_seats : ℕ → List PricedSeat → List BookingSeat → List BookingSeat
with_seats booking_id [] rows = rows
with_seats booking_id (s ∷ ss) rows = with_seats booking_id ss (booking_seat booking_id s ∷ rows)

-- One row is refused, or added.
insert_booking_seat_cases :
    (booking_id : ℕ) (s : PricedSeat) (db : Db)
    → ((e : Error) × (insert_booking_seat booking_id s db ≡ err e))
      ⊎ (insert_booking_seat booking_id s db
          ≡ ok (tt, record db { booking_seats = booking_seat booking_id s ∷ db.booking_seats }))
unfolding insert_booking_seat
insert_booking_seat_cases booking_id s db = elim (Option-cases s.price_cents) [
  | inl unpriced ↦ inl (sql not_null_violation, rw unpriced)
  | inr (n, priced) ↦
      elim (Bool-cases (
        exists (λ b. b.booking_id == booking_id && b.show_seat_id == s.show_seat_id)
          db.booking_seats)) [
            | inl twice ↦ inl (sql unique_violation, rw priced (rw twice))
            | inr once ↦ inr (rw priced (rw once))
          ]
]

-- The statement is refused, or it adds a row for each seat and changes no other table.
pub insert_booking_seats_cases :
    (booking_id : ℕ) (seats : List PricedSeat) (db : Db)
    → ((e : Error) × (insert_booking_seats booking_id seats db ≡ err e))
      ⊎ (insert_booking_seats booking_id seats db
          ≡ ok (tt, record db { booking_seats = with_seats booking_id seats db.booking_seats }))
unfolding insert_booking_seats
insert_booking_seats_cases booking_id [] db = inr refl
insert_booking_seats_cases booking_id (s ∷ ss) db =
    elim (insert_booking_seat_cases booking_id s db) [
      | inl (e, refused) ↦ inl (e, rw (refused, ◌>>=◌))
      | inr added ↦
          rw (added, ◌>>=◌)
            (insert_booking_seats_cases booking_id ss
              (record db { booking_seats = booking_seat booking_id s ∷ db.booking_seats }))
    ]
