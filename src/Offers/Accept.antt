-- ===== src/Offers/Accept.antt =====
-- What a successful `acceptOffer` has done: the guards it passed, and every table that it wrote.
use ticket_booking_system.Common.{
  ℕ, ◌≡◌, sym, ap, inl, inr, false, ◌&&◌, some, List, ◌∷◌, map, ltb, ◌==◌, Bool-cases, Option-cases,
  length,
}
use ticket_booking_system.Errors.{ok, ok-injective}
use ticket_booking_system.Sql.{select, update_where}
use ticket_booking_system.Db.{
  Db, Booking, WaitlistOffer, WaitlistEntry, OfferStatus, WaitlistStatus, Env,
}
use ticket_booking_system.Db.Tx.{pure, ◌>>=◌, ◌>>◌}
use ticket_booking_system.Pricing.{PricedSeat, Amounts, price_booking}
use ticket_booking_system.Payments.Capture.{captured_payment}
use ticket_booking_system.Bookings.{Mint, Confirmed, new_booking, insert_booking_seats}
use ticket_booking_system.Bookings.Records.{with_seats, insert_booking_seats_cases}
use ticket_booking_system.Bookings.Confirm.{insert_booking_cases, authorize_and_capture_cases}
use ticket_booking_system.Waitlist.{find_entry_by_id, is_offered, set_status, mark_entry_converted}
use ticket_booking_system.Offers.{
  accept_read_offer, find_offer_seats_by_ids, is_claimable, claimed_row, is_pending_offer,
  mark_offer_accepted,
}

module _ (env : Env) (now : ℕ) (mint : Mint) (offer : WaitlistOffer) where
  abbrev pub offered_seats : Db → List PricedSeat
  offered_seats db = find_offer_seats_by_ids offer.show_seat_ids db

  abbrev pub amounts : Db → Amounts
  amounts db = price_booking env (offered_seats db)

  module _ (entry : WaitlistEntry) where
    -- The booking is made for the user of the entry.
    abbrev pub the_booking : Db → Booking
    the_booking db = new_booking now mint entry.show_id entry.user_id (amounts db)

    -- The database before the seats are recorded.
    abbrev paid_db : Db → Db
    paid_db db = record db {
      bookings = the_booking db ∷ db.bookings;
      payments =
          captured_payment now mint.payment_id mint.txn_ref mint.booking_id (amounts db).total_cents
          ∷ db.payments;
      show_seats =
          update_where (is_claimable now offer.show_seat_ids) (claimed_row now mint.booking_id)
            db.show_seats;
    }

    -- The database after the commit.
    abbrev pub accepted_db : Db → Db
    accepted_db db = record (paid_db db) {
      booking_seats = with_seats mint.booking_id (offered_seats db) db.booking_seats;
      waitlist_offers =
          update_where (is_pending_offer offer.id) (λ o. record o { status = OfferStatus.accepted })
            db.waitlist_offers;
      waitlist_entries =
          update_where (λ e. e.id == entry.id && is_offered e.status)
            (set_status WaitlistStatus.converted) db.waitlist_entries;
    }

    -- What a transaction of `acceptOffer` that commits has found and left.
    pub record Accepts (db : Db) (c : Confirmed) (db' : Db) : Type 0 where
      pub entry_found : find_entry_by_id offer.waitlist_entry_id db ≡ some entry
      pub no_shortfall :
          ltb
            (length (map (λ s. s.id) (select (is_claimable now offer.show_seat_ids) db.show_seats)))
            (length offer.show_seat_ids)
          ≡ false
      pub result : c ≡ record { booking = the_booking db; seats = offered_seats db }
      pub state : db' ≡ accepted_db db

    recorded :
        (db : Db) (c : Confirmed) (db' : Db)
        → find_entry_by_id offer.waitlist_entry_id db ≡ some entry
        → ltb
            (length (map (λ s. s.id) (select (is_claimable now offer.show_seat_ids) db.show_seats)))
            (length offer.show_seat_ids)
          ≡ false
        → (insert_booking_seats mint.booking_id (offered_seats db)
              >> (mark_offer_accepted offer.id
                  >> (mark_entry_converted entry.id
                      >> pure {A = Confirmed}
                          (record { booking = the_booking db; seats = offered_seats db }))))
            (paid_db db)
          ≡ ok (c, db')
        → Accepts db c db'
    unfolding mark_offer_accepted mark_entry_converted
    recorded db c db' found enough h =
        elim (insert_booking_seats_cases mint.booking_id (offered_seats db) (paid_db db)) [
          | inl (e, refused) ↦ absurd (cc (rw (refused, ◌>>=◌) at h))
          | inr added ↦
              let done = ok-injective (rw (added, ◌>>=◌) at h) in
              record {
                entry_found = found;
                no_shortfall = enough;
                result = sym (ap (λ r. r.0) done);
                state = sym (ap (λ r. r.1) done);
              }
        ]

  pub accept_read_offer-Accepts :
      (db : Db) (c : Confirmed) (db' : Db)
      → accept_read_offer env now mint offer db ≡ ok (c, db')
      → (entry : WaitlistEntry) × Accepts entry db c db'
  unfolding accept_read_offer
  accept_read_offer-Accepts db c db' h =
      elim (Option-cases (find_entry_by_id offer.waitlist_entry_id db)) [
        | inl missing ↦ absurd (cc (rw (missing, ◌>>=◌) at h))
        | inr (entry, found) ↦
            let h₁ = rw (found, ◌>>=◌) at h in
            elim (insert_booking_cases now mint entry.show_id entry.user_id (amounts db) db) [
              | inl (e, refused) ↦ absurd (cc (rw (refused, ◌>>=◌) at h₁))
              | inr (fresh, inserted) ↦
                  let h₂ = rw (inserted, ◌>>=◌) at h₁ in
                  elim (authorize_and_capture_cases now mint.payment_id mint.txn_ref mint.booking_id
                    (amounts db).total_cents
                    (record db { bookings = the_booking entry db ∷ db.bookings })) [
                      | inl (e, refused) ↦ absurd (cc (rw (refused, ◌>>=◌) at h₂))
                      | inr (unpaid, paid) ↦
                          let h₃ = rw (paid, ◌>>=◌) at h₂ in
                          elim (Bool-cases (
                            ltb
                              (length (
                                map (λ s. s.id)
                                  (select (is_claimable now offer.show_seat_ids) db.show_seats)))
                              (length offer.show_seat_ids))) [
                                | inl short ↦ absurd (cc (rw (short, ◌>>=◌) at h₃))
                                | inr enough ↦ (
                                  entry,
                                  recorded entry db c db' found enough (rw (enough, ◌>>=◌) at h₃),
                                )
                              ]
                    ]
            ]
      ]
