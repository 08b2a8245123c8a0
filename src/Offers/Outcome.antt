-- ===== src/Offers/Outcome.antt =====
-- `acceptOffer` against the offer that it claims: which seats it books and for whom, and that a
-- token is good for one acceptance.
use ticket_booking_system.Common.{
  ℕ, ◌+◌, none, ◌≤◌, ◌<◌, ◌≡◌, refl, inl, inr, true, false, ◌⊎◌, ==_refl, Bool-cases, some, List,
  arith, ◌==◌, Option-cases, length, length-map, ltb_false→le, contains, All, All-unit,
}
use ticket_booking_system.SeatStates.{state_eq, offer_reserved, booked}
use ticket_booking_system.Errors.{Error, offer_invalid, offer_expired, ok, err, is_ok, not_ok}
use ticket_booking_system.Sql.{select, gt_null}
use ticket_booking_system.Sql.Laws.{
  Rows, Rows-update_where, select-update_where, first-update_where,
}
use ticket_booking_system.Sql.Keys.{length-select-Within, IsUnique}
use ticket_booking_system.Sql.Counts.{All-select_full}
use ticket_booking_system.Db.{Db, ShowSeat, WaitlistOffer, WaitlistEntry, OfferStatus, Env}
use ticket_booking_system.Db.Tx.{finish-ok, query, lift, ◌>>=◌}
use ticket_booking_system.Bookings.{Mint, Confirmed}
use ticket_booking_system.Waitlist.{find_entry_by_id}
use ticket_booking_system.Offers.{
  Crypto, accept_offer, accept_read_offer, find_offer_by_token_hash, check_offer, is_pending,
  is_pending_offer, is_expired, is_claimable, claimed_row,
}
use ticket_booking_system.Holds.Acquire.{same_id}
use ticket_booking_system.Offers.Accept.{Accepts, accept_read_offer-Accepts}

-- What an acceptance does to a row: a seat of the offer was still reserved and is now booked, any
-- other row stays.
abbrev pub IsClaimed : ℕ → List ℕ → ℕ → ShowSeat → ShowSeat → Type 0
IsClaimed now ids booking_id r t =
    (contains ids r.id ≡ true
      → (state_eq r.state offer_reserved ≡ true)
        × (gt_null r.expires_at now ≡ true)
        × (t ≡ record r {
          state = booked;
          booking_id = some booking_id;
          expires_at = none;
          reserved_until = none;
          hold_id = none;
          version = r.version + 1;
          updated_at = now;
        }))
    × (contains ids r.id ≡ false → t ≡ r)

check_offer_cases :
    (now : ℕ) (offer : WaitlistOffer)
    → ((e : Error) × (check_offer now (some offer) ≡ err e))
      ⊎ (is_pending offer.status ≡ true)
        × (is_expired now offer ≡ false)
        × (check_offer now (some offer) ≡ ok offer)
unfolding check_offer
check_offer_cases now offer = elim (Bool-cases (is_pending offer.status)) [
  | inr settled ↦ inl (offer_invalid, rw settled)
  | inl pending ↦ elim (Bool-cases (is_expired now offer)) [
    | inl late ↦ inl (offer_expired, rw pending (rw late))
    | inr fresh ↦ inr (pending, fresh, rw pending (rw fresh))
  ]
]

module _ (env : Env) (now : ℕ) (mint : Mint) where
  -- Without a shortfall every seat of the offer is one that the UPDATE books.
  offered_claimable :
      (offer : WaitlistOffer) (entry : WaitlistEntry) (db : Db) (c : Confirmed) (db' : Db)
      → IsUnique same_id db.show_seats
      → Accepts env now mint offer entry db c db'
      → All
          (λ (r : ShowSeat).
            contains offer.show_seat_ids r.id ≡ true
            → is_claimable now offer.show_seat_ids r ≡ true)
          db.show_seats
  offered_claimable offer entry db c db' unique k =
      All-select_full (λ (r : ShowSeat). contains offer.show_seat_ids r.id)
        (is_claimable now offer.show_seat_ids) db.show_seats (λ r h. ground arith)
        (omega (
          arith,
          ltb_false→le _ _ k.no_shortfall,
          length-map (λ (s : ShowSeat). s.id)
              (select (is_claimable now offer.show_seat_ids) db.show_seats),
          length-select-Within (λ (r : ShowSeat). r.id) same_id offer.show_seat_ids db.show_seats
              (λ r t e. ground arith) unique,
        ))

  module _ (crypto : Crypto) (raw_token : ℕ) (db : Db) (c : Confirmed) (db' : Db) where
    -- The transaction of `acceptOffer` that commits is one that has found an offer it may accept.
    pub accept_offer-Accepts :
        accept_offer crypto env now mint raw_token db ≡ (ok c, db')
        → (offer : WaitlistOffer) × (find_offer_by_token_hash (crypto.sha256 raw_token) db
            ≡ some offer)
          × (is_pending offer.status ≡ true)
          × (is_expired now offer ≡ false)
          × ((entry : WaitlistEntry) × Accepts env now mint offer entry db c db')
    unfolding accept_offer check_offer
    accept_offer-Accepts h =
        elim (Option-cases (find_offer_by_token_hash (crypto.sha256 raw_token) db)) [
          | inl missing ↦ absurd (cc (rw (missing, check_offer, lift, ◌>>=◌) at ran))
          | inr (offer, found) ↦
              let h₁ = rw (found, ◌>>=◌) at ran in
              elim (check_offer_cases now offer) [
                | inl (e, refused) ↦ absurd (cc (rw (refused, lift, ◌>>=◌) at h₁))
                | inr (pending, fresh, passed) ↦ (
                  offer,
                  found,
                  pending,
                  fresh,
                  accept_read_offer-Accepts env now mint offer db c db'
                      (rw (passed, lift, ◌>>=◌) at h₁),
                )
              ]
        ]
      where
        ran :
            (query (find_offer_by_token_hash (crypto.sha256 raw_token)) >>= λ found.
            lift (check_offer now found) >>= λ offer. accept_read_offer env now mint offer)
              db
            ≡ ok (c, db')
        ran =
            finish-ok db
              ((query (find_offer_by_token_hash (crypto.sha256 raw_token)) >>= λ found.
                  lift (check_offer now found) >>= λ offer. accept_read_offer env now mint offer)
                db)
              h

    -- Where the keys of the seat rows are distinct, an acceptance that succeeds has found a pending
    -- offer that had not expired; it books every seat of the offer, each of which was still
    -- reserved, and leaves every other seat as it was.
    pub accept_offer_books :
        IsUnique same_id db.show_seats
        → accept_offer crypto env now mint raw_token db ≡ (ok c, db')
        → (offer : WaitlistOffer) × (find_offer_by_token_hash (crypto.sha256 raw_token) db
            ≡ some offer)
          × (is_pending offer.status ≡ true)
          × (is_expired now offer ≡ false)
          × Rows (IsClaimed now offer.show_seat_ids c.booking.id) db.show_seats db'.show_seats
    accept_offer_books unique h =
        let (offer, found, pending, fresh, (entry, k)) = accept_offer-Accepts h in
        (
          offer,
          found,
          pending,
          fresh,
          rw (k.result, k.state)
              (Rows-update_where
                (λ (r : ShowSeat).
                  contains offer.show_seat_ids r.id ≡ true
                  → is_claimable now offer.show_seat_ids r ≡ true)
                (IsClaimed now offer.show_seat_ids mint.booking_id)
                (is_claimable now offer.show_seat_ids) (claimed_row now mint.booking_id)
                db.show_seats
                (λ r _ e. (λ _. (ground arith, ground arith, refl), λ f. absurd (ground arith)))
                (λ r p e. (λ f. absurd (ground (arith, p f)), λ _. refl))
                (offered_claimable offer entry db c db' unique k)),
        )

    -- The booking that an acceptance makes belongs to the user of the waitlist entry that the offer
    -- was made to, and is for the show of the entry.
    pub accept_offer_owner :
        accept_offer crypto env now mint raw_token db ≡ (ok c, db')
        → (offer : WaitlistOffer) × (find_offer_by_token_hash (crypto.sha256 raw_token) db
            ≡ some offer)
          × ((entry : WaitlistEntry) × (find_entry_by_id offer.waitlist_entry_id db ≡ some entry)
              × (c.booking.user_id ≡ entry.user_id)
              × (c.booking.show_id ≡ entry.show_id))
    accept_offer_owner h =
        let (offer, found, pending, fresh, (entry, k)) = accept_offer-Accepts h in
        (offer, found, (entry, k.entry_found, rw k.result refl, rw k.result refl))

    -- After an acceptance that succeeds the token is spent: another with it, at any time, is
    -- refused as invalid and leaves the database as it is.
    pub accept_offer_once :
        accept_offer crypto env now mint raw_token db ≡ (ok c, db')
        → (env' : Env) (later : ℕ) (mint' : Mint)
        → accept_offer crypto env' later mint' raw_token db' ≡ (err offer_invalid, db')
    unfolding accept_offer check_offer find_offer_by_token_hash
    accept_offer_once h env' later mint' =
        let (offer, found, pending, fresh, (entry, k)) = accept_offer-Accepts h in
        let spent =
          first-update_where (λ o. o.token_hash == crypto.sha256 raw_token)
            (is_pending_offer offer.id) (λ o. record o { status = OfferStatus.accepted })
            db.waitlist_offers offer (λ o. refl) found in
        rw k.state (rw spent (rw (==_refl offer.id) (rw pending refl)))

  -- Of two acceptances that have both read the offer, at most one commits: where the offer has a
  -- seat, the second, at no earlier time, does not commit.
  pub accept_twice :
      (env' : Env) (later : ℕ) (mint' : Mint) (offer : WaitlistOffer) (db : Db) (c : Confirmed)
      (db' : Db)
      → accept_read_offer env now mint offer db ≡ ok (c, db')
      → now ≤ later
      → 0 < length offer.show_seat_ids
      → is_ok (accept_read_offer env' later mint' offer db') ≡ false
  accept_twice env' later mint' offer db c db' h le offered =
      not_ok (accept_read_offer env' later mint' offer db') λ r h'.
        let (entry, k) = accept_read_offer-Accepts env now mint offer db c db' h in
        let (entry', k') = accept_read_offer-Accepts env' later mint' offer db' r.0 r.1 h' in
        let none_left =
          select-update_where (λ r. Unit {0}) (is_claimable now offer.show_seat_ids)
            (is_claimable later offer.show_seat_ids) (claimed_row now mint.booking_id) db.show_seats
            (λ r _ e. ground arith) (λ r _ e. ground arith) (All-unit db.show_seats) in
        ground (arith, rw (k.state, none_left) at k'.no_shortfall)
