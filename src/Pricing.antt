-- ===== src/Pricing.antt =====
-- What a booking costs: the seats with their prices, as bookings.queries.js and offers.queries.js
-- join them, and the amounts that bookings.service.js and offers.service.js charge for them.
use ticket_booking_system.Common.{
  ℕ, ◌+◌, ◌*◌, ◌/◌, Bool, true, false, Option, none, some, List, [], ◌∷◌, ◌==◌,
}
use ticket_booking_system.Sql.{first}
use ticket_booking_system.Db.{Db, ShowSeat, Env}
use ticket_booking_system.Seatmap.{find_price}

-- A row of `findHoldSeats` and of `findOfferSeatsByIds`.
pub record PricedSeat : Type 0 where
  pub show_seat_id : ℕ
  pub seat_id : ℕ
  pub show_id : ℕ
  pub category_id : ℕ
  pub price_cents : Option ℕ
  pub row_label : ℕ
  pub seat_number : ℕ

-- The joins with `seats` and `show_prices`, row by row.
unfoldable pub priced_seats : Db → List ShowSeat → List PricedSeat
unfolding first find_price
priced_seats db [] = []
priced_seats db (ss ∷ rest) =
    let others = priced_seats db rest in
    elim (first (λ s. s.id == ss.seat_id) db.seats) [
      | none ↦ others
      | some s ↦
          record {
            show_seat_id = ss.id;
            seat_id = ss.seat_id;
            show_id = ss.show_id;
            category_id = ss.category_id;
            price_cents = find_price ss.show_id ss.category_id db.show_prices;
            row_label = s.row_label;
            seat_number = s.seat_number;
          }
          ∷ others
    ]

pub record Amounts : Type 0 where
  pub subtotal_cents : ℕ
  pub fees_cents : ℕ
  pub total_cents : ℕ

abbrev pub cents : Option ℕ → ℕ
cents none = 0
cents (some n) = n

-- `seats.reduce((sum, seat) => sum + seat.priceCents, 0)`; null counts 0, as `?? 0` has it.
unfoldable pub subtotal : ℕ → List PricedSeat → ℕ
subtotal acc [] = acc
subtotal acc (s ∷ ss) = subtotal (acc + cents s.price_cents) ss

-- `Math.round((subtotalCents * env.BOOKING_FEE_PERCENT) / 100)` at a whole percentage.
unfoldable pub fees : ℕ → ℕ → ℕ
fees percent subtotal_cents = (subtotal_cents * percent + 50) / 100

unfoldable pub price_booking : Env → List PricedSeat → Amounts
unfolding subtotal fees
price_booking env seats =
    let sub = subtotal 0 seats in
    let fee = fees env.booking_fee_percent sub in
    record { subtotal_cents = sub; fees_cents = fee; total_cents = sub + fee }

unfoldable pub has_unpriced : List PricedSeat → Bool
has_unpriced [] = false
has_unpriced (s ∷ ss) = elim s.price_cents [ none ↦ true | some c ↦ has_unpriced ss ]

-- `heldSeats[0].showId`; the callers have seen that the list is not empty.
abbrev pub first_show_id : List PricedSeat → ℕ
first_show_id [] = 0
first_show_id (s ∷ ss) = s.show_id
