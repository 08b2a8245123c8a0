-- ===== src/Bookings/Charges.antt =====
-- What `confirmBooking` charges, and the payment that it captures.
use ticket_booking_system.Common.{
  ℕ, ◌+◌, ◌*◌, ◌≤◌, ◌<◌, ◌≡◌, refl, ◌∙◌, some, List, [], ◌∷◌, map, arith, ==_refl, sum, false,
}
use ticket_booking_system.Errors.{ok}
use ticket_booking_system.Sql.{first}
use ticket_booking_system.Db.{Db, Payment, PaymentStatus, Env}
use ticket_booking_system.Pricing.{PricedSeat, cents, subtotal, fees, price_booking, has_unpriced}
use ticket_booking_system.Payments.{find_payment_by_booking_id}
use ticket_booking_system.Payments.Capture.{captured_payment}
use ticket_booking_system.Bookings.{Mint, Confirmed, confirm_booking, find_hold_seats}
use ticket_booking_system.Bookings.Outcome.{confirm_booking-Commits}

abbrev pub prices : List PricedSeat → List ℕ
prices = map λ s. cents s.price_cents

-- The loop adds the prices.
pub subtotal-eq-sum :
    (acc : ℕ) (seats : List PricedSeat) → subtotal acc seats ≡ acc + sum (prices seats)
unfolding subtotal
subtotal-eq-sum acc [] = omega arith
subtotal-eq-sum acc (s ∷ ss) = omega (arith, subtotal-eq-sum (acc + cents s.price_cents) ss)

-- The fee is the percentage of the subtotal rounded to the nearest cent, a half upwards.
pub fees_nearest :
    (percent subtotal_cents : ℕ)
    → let fee = fees percent subtotal_cents in
      (100 * fee ≤ subtotal_cents * percent + 50) × (subtotal_cents * percent < 100 * fee + 50)
unfolding fees
fees_nearest percent subtotal_cents = (omega arith, omega arith)

-- Up to a whole percentage of 100 the fee is never more than the subtotal.
pub fees-le :
    (percent subtotal_cents : ℕ) → percent ≤ 100 → fees percent subtotal_cents ≤ subtotal_cents
unfolding fees
fees-le percent subtotal_cents h =
    let grown : subtotal_cents * percent ≤ subtotal_cents * 100 = grind arith in
    omega (arith, grown)

-- A confirmation that succeeds has a price for every seat of the hold. The subtotal is the sum of
-- the prices, the total adds the fee, and the booking's payment is captured at the total.
pub confirm_booking_charges :
    (env : Env) (now : ℕ) (mint : Mint) (hold_id user_id : ℕ) (db : Db) (c : Confirmed) (db' : Db)
    → confirm_booking env now mint hold_id user_id db ≡ (ok c, db')
    → let b = c.booking in
      (has_unpriced (find_hold_seats hold_id db) ≡ false)
      × (b.subtotal_cents ≡ sum (prices (find_hold_seats hold_id db)))
      × (b.total_cents ≡ b.subtotal_cents + fees env.booking_fee_percent b.subtotal_cents)
      × ((p : Payment) × (find_payment_by_booking_id b.id db' ≡ some p)
          × (p.status ≡ PaymentStatus.captured)
          × (p.amount_cents ≡ b.total_cents))
unfolding price_booking find_payment_by_booking_id
confirm_booking_charges env now mint hold_id user_id db c db' h =
    let k = confirm_booking-Commits env now mint hold_id user_id db c db' h in
    rw (k.result, k.state)
      (
        k.priced,
        subtotal-eq-sum 0 (find_hold_seats hold_id db) ∙ omega arith,
        refl,
        (
          captured_payment now mint.payment_id mint.txn_ref mint.booking_id
              (price_booking env (find_hold_seats hold_id db)).total_cents,
          rw (==_refl mint.booking_id, first),
          refl,
          refl,
        ),
      )
