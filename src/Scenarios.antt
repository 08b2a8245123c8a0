-- ===== src/Scenarios.antt =====
-- Runs of the services on the small database.
use ticket_booking_system.Common.{
  ◌+◌, ◌≡◌, refl, true, false, ℕ, Bool, some, none, List, [], ◌∷◌, map,
}
use ticket_booking_system.SeatStates.{SeatState, held, booked, available, offer_reserved}
use ticket_booking_system.Db.{Db, Booking, WaitlistOffer, OfferStatus}
use ticket_booking_system.Holds.{create_hold}
use ticket_booking_system.Bookings.{
  Confirmed, new_booking, confirm_booking, find_hold_seats, confirm_read_seats, insert_booking,
  insert_booking_seats,
}
use ticket_booking_system.Offers.{
  Crypto, OfferMint, accept_offer, find_offer_by_token_hash, check_offer, accept_read_offer,
  find_offer_seats_by_ids, create_initial_offer, reserved_until_seconds, insert_waitlist_offer,
}
use ticket_booking_system.Pricing.{has_unpriced, price_booking}
use ticket_booking_system.Payments.{authorize_and_capture}
use ticket_booking_system.Waitlist.{find_entry_by_id, claim_next_waiting_entry}
use ticket_booking_system.Cancellation.{
  Cancelled, cancel_booking, find_booked_seats_by_booking, category_ids, show_of_seats,
  dispatch_category, dispatch_categories,
}
use ticket_booking_system.Fixtures.{env, fresh_db, mint}

-- What a run of the services computes through.
unfoldable pub runs : Unit {0}
unfolding create_hold confirm_booking find_hold_seats confirm_read_seats has_unpriced price_booking
    insert_booking authorize_and_capture insert_booking_seats accept_offer find_offer_by_token_hash
    check_offer accept_read_offer find_entry_by_id find_offer_seats_by_ids create_initial_offer
    reserved_until_seconds insert_waitlist_offer cancel_booking find_booked_seats_by_booking
    category_ids show_of_seats dispatch_category dispatch_categories claim_next_waiting_entry
runs = tt

abbrev pub crypto : Crypto
crypto = record { sha256 = λ t. t + 1; token_text = λ i s. i + s }

unfoldable pub held_db : Db
unfolding runs
held_db = (create_hold env 1000 21 1 (12 ∷ 13 ∷ []) 5 fresh_db).1

unfoldable pub booked_db : Db
unfolding held_db runs
booked_db = (confirm_booking env 2000 (mint 31) 21 5 held_db).1

-- The result of that confirmation.
unfoldable pub confirmed : Confirmed
unfolding held_db runs
confirmed = record {
  booking = new_booking 2000 (mint 31) 1 5 (price_booking env (find_hold_seats 21 held_db));
  seats = find_hold_seats 21 held_db;
}

-- The offer that the cancellation makes.
abbrev pub offer : WaitlistOffer
offer = record {
  id = 77;
  waitlist_entry_id = 50;
  show_seat_ids = 102 ∷ [];
  token_hash = 85;
  status = OfferStatus.pending;
  attempt_no = 1;
  expires_at = 900003000;
  created_at = 3000;
}

-- No row is locked.
abbrev pub unlocked : ℕ → Bool
unlocked i = false

abbrev pub offer_mint : ℕ → OfferMint
offer_mint c = record { offer_id = 70 + c; secret = c }

unfoldable pub cancelled_db : Db
unfolding booked_db runs
cancelled_db = (cancel_booking crypto env 3000 31 unlocked offer_mint booked_db).1

-- The result of that cancellation: one category goes to the waitlist, the other to the public.
unfoldable pub cancelled : Cancelled
cancelled = record {
  cancelled = true;
  released =
      record {
        category_id = 7;
        show_seat_ids = 102 ∷ [];
        state = offer_reserved;
        offer = some (record { user_id = 9; offer = offer; raw_token = 84 });
      }
      ∷ record { category_id = 8; show_seat_ids = 103 ∷ []; state = available; offer = none }
      ∷ [];
}

unfoldable pub accepted_db : Db
unfolding cancelled_db runs
accepted_db = (accept_offer crypto env 4000 (mint 32) (crypto.token_text 77 7) cancelled_db).1

-- The result of that acceptance.
unfoldable pub accepted : Confirmed
unfolding cancelled_db runs
accepted = record {
  booking =
      new_booking 4000 (mint 32) 1 9
        (price_booking env (find_offer_seats_by_ids (102 ∷ []) cancelled_db));
  seats = find_offer_seats_by_ids (102 ∷ []) cancelled_db;
}

unfoldable pub states : Db → List SeatState
states db = map (λ s. s.state) db.show_seats

held_states : states held_db ≡ available ∷ held ∷ held ∷ []
unfolding states held_db
held_states = refl

booked_states : states booked_db ≡ available ∷ booked ∷ booked ∷ []
unfolding states booked_db
booked_states = refl

booked_totals : map (λ (b : Booking). b.total_cents) booked_db.bookings ≡ 1586 ∷ []
unfolding booked_db
booked_totals = refl

cancelled_states : states cancelled_db ≡ available ∷ offer_reserved ∷ available ∷ []
unfolding states cancelled_db
cancelled_states = refl

accepted_states : states accepted_db ≡ available ∷ booked ∷ available ∷ []
unfolding states accepted_db
accepted_states = refl

accepted_users : map (λ (b : Booking). b.user_id) accepted_db.bookings ≡ 9 ∷ 5 ∷ []
unfolding accepted_db
accepted_users = refl
