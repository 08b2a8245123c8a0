-- ===== src/Payments/Capture.antt =====
-- `authorizeAndCapture` as one insert: the capture always finds the row just authorized.
use ticket_booking_system.Common.{
  ℕ, ◌≡◌, inl, inr, true, false, ◌∷◌, arith, Bool-cases, if◌then◌else◌, ==_refl,
}
use ticket_booking_system.Errors.{ok, err, sql, unique_violation, numeric_value_out_of_range}
use ticket_booking_system.Sql.{exists}
use ticket_booking_system.Sql.Keys.{update_where-exists_none, exists_mono}
use ticket_booking_system.Db.{Db, Payment, PaymentStatus, fits_int}
use ticket_booking_system.Db.Tx.{◌>>=◌}
use ticket_booking_system.Payments.{
  authorize_and_capture, capture, is_payment_key, is_authorized_payment,
}

abbrev pub captured_payment : ℕ → ℕ → ℕ → ℕ → ℕ → Payment
captured_payment now id txn_ref booking_id amount_cents = record {
  id = id;
  booking_id = booking_id;
  status = PaymentStatus.captured;
  amount_cents = amount_cents;
  txn_ref = txn_ref;
  created_at = now;
}

module _ (now id txn_ref booking_id amount_cents : ℕ) (db : Db) where
  refused_used :
      exists (is_payment_key id booking_id) db.payments ≡ true
      → authorize_and_capture now id txn_ref booking_id amount_cents db ≡ err (sql unique_violation)
  unfolding authorize_and_capture
  refused_used used = rw (used, ◌>>=◌)

  refused_large :
      exists (is_payment_key id booking_id) db.payments ≡ false
      → fits_int amount_cents ≡ false
      → authorize_and_capture now id txn_ref booking_id amount_cents db
        ≡ err (sql numeric_value_out_of_range)
  unfolding authorize_and_capture
  refused_large fresh large = rw (fresh, ◌>>=◌) (rw (large, ◌>>=◌))

  -- The row just authorized is the one that is captured.
  authorized_captured :
      exists (is_payment_key id booking_id) db.payments ≡ false
      → fits_int amount_cents ≡ true
      → authorize_and_capture now id txn_ref booking_id amount_cents db
        ≡ ok (
          captured_payment now id txn_ref booking_id amount_cents,
          record db {
            payments = captured_payment now id txn_ref booking_id amount_cents ∷ db.payments;
          },
        )
  unfolding authorize_and_capture
  authorized_captured fresh small =
      rw (fresh, ◌>>=◌)
        (rw (small, ◌>>=◌)
          (rw (==_refl id) (
            rw (
              update_where-exists_none (is_authorized_payment id) capture db.payments (
                exists_mono (is_authorized_payment id) (is_payment_key id booking_id) db.payments
                  (λ p h. ground arith) fresh)))))

  -- The capture never misses: the only refusals are those of the table's constraints.
  pub authorize_and_capture_lem :
      authorize_and_capture now id txn_ref booking_id amount_cents db ≡ (
        if exists (is_payment_key id booking_id) db.payments
        then err (sql unique_violation)
        else if fits_int amount_cents
        then ok (
          captured_payment now id txn_ref booking_id amount_cents,
          record db {
            payments = captured_payment now id txn_ref booking_id amount_cents ∷ db.payments;
          },
        )
        else err (sql numeric_value_out_of_range))
  authorize_and_capture_lem =
      elim (Bool-cases (exists (is_payment_key id booking_id) db.payments)) [
        | inl used ↦ rw used (refused_used used)
        | inr fresh ↦ elim (Bool-cases (fits_int amount_cents)) [
          | inr large ↦ rw fresh (rw large (refused_large fresh large))
          | inl small ↦ rw fresh (rw small (authorized_captured fresh small))
        ]
      ]
