-- ===== src/Offers.antt =====
-- server/src/modules/waitlist: offers of freed seats (offers.queries.js), their tokens, and the
-- claim of an offer (offers.service.js).
pub mod Accept
pub mod Outcome
pub mod Exclusive
use ticket_booking_system.Common.{
  ℕ, ◌+◌, ◌-◌, ◌*◌, ◌/◌, Bool, true, false, ◌&&◌, ◌||◌, Option, none, some, List, ◌∷◌, map, ltb,
  leb, ◌==◌, if◌then◌else◌, length, contains,
}
use ticket_booking_system.SeatStates.{booked, offer_reserved, state_eq, assert_transition}
use ticket_booking_system.Errors.{
  Result, ok, err, offer_invalid, offer_expired, internal, sql, unique_violation,
}
use ticket_booking_system.Sql.{select, update_where, first, exists, eq_null, gt_null}
use ticket_booking_system.Db.{Db, ShowSeat, WaitlistOffer, OfferStatus, Env, make_interval}
use ticket_booking_system.Db.Tx.{
  Tx, Call, pure, throw_if, or_throw, query, lift, ◌>>=◌, ◌>>◌, with_transaction,
}
use ticket_booking_system.Pricing.{PricedSeat, priced_seats, price_booking}
use ticket_booking_system.Payments.{authorize_and_capture}
use ticket_booking_system.Bookings.{Mint, Confirmed, insert_booking, insert_booking_seats}
use ticket_booking_system.Waitlist.{find_entry_by_id, mark_entry_offered, mark_entry_converted}

-- node:crypto and the template literal of the token, which the program does not implement: the
-- digest of a text, and the text made of an offer's id and the random bytes.
pub record Crypto : Type 0 where
  pub sha256 : ℕ → ℕ
  pub token_text : ℕ → ℕ → ℕ

abbrev pub is_pending : OfferStatus → Bool
is_pending OfferStatus.pending = true
is_pending _ = false

abbrev pub is_booked_in : ℕ → ℕ → ShowSeat → Bool
is_booked_in booking_id category_id s =
    eq_null s.booking_id booking_id && s.category_id == category_id && state_eq s.state booked

abbrev pub reserved_row : ℕ → ℕ → ℕ → ShowSeat → ShowSeat
reserved_row now offer_ttl_seconds reserved_until_seconds s = record s {
  state = offer_reserved;
  booking_id = none;
  expires_at = some (now + make_interval offer_ttl_seconds);
  reserved_until = some (now + make_interval reserved_until_seconds);
  version = s.version + 1;
  updated_at = now;
}

-- `transitionBookedSeatsToOfferReserved`, with the keys of the seats that it moved.
unfoldable pub transition_booked_seats_to_offer_reserved : ℕ → ℕ → ℕ → ℕ → ℕ → Tx (List ℕ)
unfolding select update_where
transition_booked_seats_to_offer_reserved now booking_id category_id offer_ttl reserved_until db =
    ok (
      map (λ s. s.id) (select (is_booked_in booking_id category_id) db.show_seats),
      record db {
        show_seats =
            update_where (is_booked_in booking_id category_id)
              (reserved_row now offer_ttl reserved_until) db.show_seats;
      },
    )

abbrev pub new_offer : ℕ → ℕ → ℕ → List ℕ → ℕ → ℕ → ℕ → WaitlistOffer
new_offer now id entry_id show_seat_ids token_hash attempt_no offer_ttl = record {
  id = id;
  waitlist_entry_id = entry_id;
  show_seat_ids = show_seat_ids;
  token_hash = token_hash;
  status = OfferStatus.pending;
  attempt_no = attempt_no;
  expires_at = now + make_interval offer_ttl;
  created_at = now;
}

-- `insertWaitlistOffer`; the key and the digest of the token are unique.
unfoldable pub insert_waitlist_offer : ℕ → ℕ → ℕ → List ℕ → ℕ → ℕ → ℕ → Tx WaitlistOffer
unfolding exists
insert_waitlist_offer now id entry_id show_seat_ids token_hash attempt_no offer_ttl db =
    let offer = new_offer now id entry_id show_seat_ids token_hash attempt_no offer_ttl in
    if exists (λ o. o.id == id || o.token_hash == token_hash) db.waitlist_offers
    then err (sql unique_violation)
    else ok (offer, record db { waitlist_offers = offer ∷ db.waitlist_offers })

-- `findOfferByTokenHash`; `is_expired` and `seconds_remaining` are computed from the row.
unfoldable pub find_offer_by_token_hash : ℕ → Db → Option WaitlistOffer
unfolding first
find_offer_by_token_hash token_hash db = first (λ o. o.token_hash == token_hash) db.waitlist_offers

unfoldable pub is_expired : ℕ → WaitlistOffer → Bool
is_expired now o = leb o.expires_at now

-- `GREATEST(0, EXTRACT(EPOCH FROM (expires_at - now())))::int`, rounded to the nearest second.
unfoldable pub seconds_remaining : ℕ → WaitlistOffer → ℕ
seconds_remaining now o = (o.expires_at - now + 500000) / 1000000

-- `findOfferSeatsByIds`
unfoldable pub find_offer_seats_by_ids : List ℕ → Db → List PricedSeat
unfolding priced_seats select
find_offer_seats_by_ids ids db =
    priced_seats db (select (λ (s : ShowSeat). contains ids s.id) db.show_seats)

abbrev pub is_claimable : ℕ → List ℕ → ShowSeat → Bool
is_claimable now ids s =
    contains ids s.id && state_eq s.state offer_reserved && gt_null s.expires_at now

abbrev pub claimed_row : ℕ → ℕ → ShowSeat → ShowSeat
claimed_row now booking_id s = record s {
  state = booked;
  booking_id = some booking_id;
  expires_at = none;
  reserved_until = none;
  hold_id = none;
  version = s.version + 1;
  updated_at = now;
}

-- `confirmOfferSeats`
unfoldable pub confirm_offer_seats : ℕ → List ℕ → ℕ → Tx (List ℕ)
unfolding select update_where
confirm_offer_seats now ids booking_id db = ok (
  map (λ s. s.id) (select (is_claimable now ids) db.show_seats),
  record db {
    show_seats = update_where (is_claimable now ids) (claimed_row now booking_id) db.show_seats;
  },
)

abbrev pub is_pending_offer : ℕ → WaitlistOffer → Bool
is_pending_offer offer_id o = o.id == offer_id && is_pending o.status

-- `markOfferAccepted`
unfoldable pub mark_offer_accepted : ℕ → Tx (Unit {0})
unfolding update_where
mark_offer_accepted offer_id db = ok (
  tt,
  record db {
    waitlist_offers =
        update_where (is_pending_offer offer_id) (λ o. record o { status = OfferStatus.accepted })
          db.waitlist_offers;
  },
)

-- The checks that `getOfferByToken` and `acceptOffer` begin with.
unfoldable pub check_offer : ℕ → Option WaitlistOffer → Result WaitlistOffer
unfolding is_expired
check_offer now none = err offer_invalid
check_offer now (some o) =
    if is_pending o.status
    then (if is_expired now o then err offer_expired else ok o)
    else err offer_invalid

-- What is drawn at random for an offer: its key, and the 32 bytes of its token.
pub record OfferMint : Type 0 where
  pub offer_id : ℕ
  pub secret : ℕ

pub record InitialOffer : Type 0 where
  pub show_seat_ids : List ℕ
  pub offer : WaitlistOffer
  pub raw_token : ℕ

-- How long the whole cascade may keep the seats off the public map.
unfoldable pub reserved_until_seconds : ℕ → ℕ → ℕ
reserved_until_seconds offer_ttl max_cascade_attempts = offer_ttl * max_cascade_attempts + 60

pub record OfferView : Type 0 where
  pub seats : List PricedSeat
  pub subtotal_cents : ℕ
  pub total_cents : ℕ
  pub seconds_left : ℕ

module _ (crypto : Crypto) where
  -- `generateOfferToken`: the raw token, and the digest that is stored.
  unfoldable pub generate_offer_token : OfferMint → ℕ × ℕ
  generate_offer_token m =
      let raw = crypto.token_text m.offer_id m.secret in (raw, crypto.sha256 raw)

  -- `createInitialOffer`
  unfoldable pub create_initial_offer : ℕ → OfferMint → ℕ → ℕ → ℕ → ℕ → ℕ → Tx InitialOffer
  unfolding assert_transition transition_booked_seats_to_offer_reserved generate_offer_token
      mark_entry_offered
  create_initial_offer now mint booking_id category_id entry_id offer_ttl max_cascade_attempts = do
    lift (assert_transition booked offer_reserved)
    ids ←
        transition_booked_seats_to_offer_reserved now booking_id category_id offer_ttl
          (reserved_until_seconds offer_ttl max_cascade_attempts)
    let token = generate_offer_token mint
    offer ← insert_waitlist_offer now mint.offer_id entry_id ids token.1 1 offer_ttl
    mark_entry_offered entry_id
    pure (record { show_seat_ids = ids; offer = offer; raw_token = token.0 })

  -- `getOfferByToken`
  unfoldable pub get_offer_by_token : Env → ℕ → ℕ → Db → Result OfferView
  unfolding find_offer_by_token_hash check_offer find_offer_seats_by_ids price_booking
  get_offer_by_token env now raw_token db =
      elim (check_offer now (find_offer_by_token_hash (crypto.sha256 raw_token) db)) [
        | err e ↦ err e
        | ok o ↦
            let seats = find_offer_seats_by_ids o.show_seat_ids db in
            let amounts = price_booking env seats in
            ok (record {
              seats = seats;
              subtotal_cents = amounts.subtotal_cents;
              total_cents = amounts.total_cents;
              seconds_left = seconds_remaining now o;
            })
      ]

-- The transaction of `acceptOffer` after the checks, on the offer that it has read.
unfoldable pub accept_read_offer : Env → ℕ → Mint → WaitlistOffer → Tx Confirmed
unfolding assert_transition confirm_offer_seats mark_offer_accepted mark_entry_converted
accept_read_offer env now mint offer = do
  entry? ← query (find_entry_by_id offer.waitlist_entry_id)
  seats ← query (find_offer_seats_by_ids offer.show_seat_ids)
  entry ← or_throw entry? internal
  let amounts = price_booking env seats
  booking ← insert_booking now mint entry.show_id entry.user_id amounts
  authorize_and_capture now mint.payment_id mint.txn_ref booking.id amounts.total_cents
  lift (assert_transition offer_reserved booked)
  ids ← confirm_offer_seats now offer.show_seat_ids booking.id
  throw_if (ltb (length ids) (length offer.show_seat_ids)) offer_invalid
  insert_booking_seats booking.id seats
  mark_offer_accepted offer.id
  mark_entry_converted entry.id
  pure (record { booking = booking; seats = seats })

-- `acceptOffer`
unfoldable pub accept_offer : Crypto → Env → ℕ → Mint → ℕ → Call Confirmed
unfolding with_transaction
accept_offer crypto env now mint raw_token = with_transaction do
  found ← query (find_offer_by_token_hash (crypto.sha256 raw_token))
  offer ← lift (check_offer now found)
  accept_read_offer env now mint offer
