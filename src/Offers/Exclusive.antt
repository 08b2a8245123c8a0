-- ===== src/Offers/Exclusive.antt =====
-- Seats of an offer are out of reach of everyone else until the offer has expired.
use ticket_booking_system.Common.{ℕ, ◌≤◌, ◌≡◌, true, false, List, arith, contains}
use native.Mathlib.Nat.{mul-le-mul_left}
use ticket_booking_system.SeatStates.{offer_reserved}
use ticket_booking_system.Db.{ShowSeat}
use ticket_booking_system.Seatmap.{effective_state}
use ticket_booking_system.Holds.{is_acquirable}
use ticket_booking_system.Offers.{
  reserved_row, reserved_until_seconds, new_offer, is_expired, is_claimable,
}

-- A seat that an offer reserves with at least one attempt to come: as long as the offer has not
-- expired, no hold acquires the seat, the seat map shows it OFFER_RESERVED, and the offer's holder
-- may claim it.
pub reserved_row_exclusive :
    (now later ttl attempts id entry_id token_hash : ℕ) (ids : List ℕ) (r : ShowSeat)
    → 1 ≤ attempts
    → contains ids r.id ≡ true
    → is_expired later (new_offer now id entry_id ids token_hash 1 ttl) ≡ false
    → let t = reserved_row now ttl (reserved_until_seconds ttl attempts) r in
      (is_acquirable later t ≡ false)
      × (effective_state later t ≡ offer_reserved)
      × (is_claimable later ids t ≡ true)
unfolding is_acquirable effective_state is_expired reserved_until_seconds
reserved_row_exclusive now later ttl attempts id entry_id token_hash ids r le m fresh =
    let longer = mul-le-mul_left ttl le in (ground arith, ground arith, ground arith)
