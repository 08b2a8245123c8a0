-- ===== src/Fixtures.antt =====
-- A small database for tests and witnesses: one show with two categories, three seats, one user in
-- the waitlist, at instants counted from zero.
use ticket_booking_system.Common.{ℕ, ◌+◌, some, true, if◌then◌else◌, ◌==◌, false, none, [], ◌∷◌}
use ticket_booking_system.SeatStates.{available}
use ticket_booking_system.Db.{
  pos, Show, ShowStatus, customer, admin, Db, ShowSeat, Seat, WaitlistEntry, WaitlistStatus, Env,
}
use ticket_booking_system.Bookings.{Mint}
use ticket_booking_system.Accounts.{Auth, Draw, Registration}

abbrev pub free_seat : ℕ → ℕ → ℕ → ShowSeat
free_seat id seat_id category_id = record {
  id = id;
  show_id = 1;
  seat_id = seat_id;
  category_id = category_id;
  state = available;
  hold_id = none;
  held_by_user_id = none;
  expires_at = none;
  reserved_until = none;
  booking_id = none;
  version = 0;
  updated_at = 0;
}

abbrev pub seat : ℕ → ℕ → Seat
seat id col = record {
  id = id;
  venue_id = 4;
  category_id = if col == 3 then 8 else 7;
  row_label = 65;
  seat_number = col;
  grid_row = 0;
  grid_col = col;
  is_accessible = false;
  is_active = true;
}

abbrev pub env : Env
env = record {
  max_seats_per_booking = 6;
  booking_fee_percent = 5;
  waitlist_max_cascade_attempts = 5;
  job_max_attempts = 5;
}

abbrev pub show : Show
show = record {
  id = 1;
  event_id = 3;
  venue_id = 4;
  starts_at = 1000000000;
  ends_at = 2000000000;
  status = ShowStatus.scheduled;
  hold_ttl_seconds = 600;
  offer_ttl_seconds = 900;
}

abbrev pub entry : WaitlistEntry
entry = record {
  id = 50;
  show_id = 1;
  category_id = 7;
  user_id = 9;
  quantity = 1;
  status = WaitlistStatus.waiting;
  enqueued_at = 3;
}

-- Seats 11 and 12 are of category 7 at 1000 cents, seat 13 of category 8 at 510 cents.
abbrev pub fresh_db : Db
fresh_db = record {
  shows = show ∷ [];
  show_prices =
      record { show_id = 1; category_id = 7; price_cents = 1000 }
      ∷ record { show_id = 1; category_id = 8; price_cents = 510 }
      ∷ [];
  seats = seat 11 1 ∷ seat 12 2 ∷ seat 13 3 ∷ [];
  seat_categories =
      record { id = 7; venue_id = 4; name = 1; color_hex = 1; sort_order = pos 0 }
      ∷ record { id = 8; venue_id = 4; name = 2; color_hex = 2; sort_order = pos 1 }
      ∷ [];
  show_seats = free_seat 101 11 7 ∷ free_seat 102 12 7 ∷ free_seat 103 13 8 ∷ [];
  seat_holds = [];
  bookings = [];
  booking_seats = [];
  payments = [];
  waitlist_entries = entry ∷ [];
  waitlist_offers = [];
  users = [];
  refresh_tokens = [];
  venues = [];
  events = [];
}

abbrev pub mint : ℕ → Mint
mint n = record { booking_id = n; reference = n; qr_token = n; payment_id = n; txn_ref = n }

-- A password is stored as its successor, a token is its random part.
abbrev pub auth : Auth
auth = record {
  hash_password = λ salt password. password + 1;
  verify_password = λ hash password. hash == password + 1;
  sign_access = λ user role clock. user;
  sign_refresh = λ user family jti clock. jti;
  verify_access = λ clock token. some (record { id = token; role = customer });
  verify_refresh = λ clock token. true;
  decode_exp = λ token. 1000;
  sha256 = λ token. token + 1;
}

-- The n-th draw.
abbrev pub draw : ℕ → Draw
draw n = record { user_id = n; salt = n; family_id = n; token_id = n; jti = n; clock = n }

abbrev pub registration : Registration
registration = record { email = 70; password = 71; name = 72; phone = none; role = some admin }
