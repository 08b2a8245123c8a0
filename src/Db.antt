-- ===== src/Db.antt =====
-- server/src/db: the rows of the tables (migrations 001 to 005 and 008), the database that the
-- services share, and transactions (withTransaction.js). Keys are numbers in place of UUIDs,
-- instants are numbers of microseconds, text that is only stored and passed on is a number. Columns
-- that no modelled statement reads or writes are left out.
pub mod Catalog
pub mod People
pub mod Tx
pub mod Connections
pub use Catalog.*
pub use People.*
use ticket_booking_system.Common.{ℕ, ◌*◌, Bool, Option, List, ltb}
use ticket_booking_system.SeatStates.{SeatState}

pub data HoldStatus : Type 0 where
  active converted released expired : HoldStatus

pub data BookingStatus : Type 0 where
  pending confirmed cancelled expired : BookingStatus

-- The literals that payments.queries.js writes into the text column.
pub data PaymentStatus : Type 0 where
  authorized captured refunded : PaymentStatus

pub data WaitlistStatus : Type 0 where
  waiting offered converted expired cancelled : WaitlistStatus

pub data OfferStatus : Type 0 where
  pending accepted expired superseded : OfferStatus

pub record ShowSeat : Type 0 where
  pub id : ℕ
  pub show_id : ℕ
  pub seat_id : ℕ
  pub category_id : ℕ
  pub state : SeatState
  pub hold_id : Option ℕ
  pub held_by_user_id : Option ℕ
  pub expires_at : Option ℕ
  pub reserved_until : Option ℕ
  pub booking_id : Option ℕ
  pub version : ℕ
  pub updated_at : ℕ

pub record SeatHold : Type 0 where
  pub id : ℕ
  pub show_id : ℕ
  pub user_id : ℕ
  pub status : HoldStatus
  pub expires_at : ℕ

pub record Booking : Type 0 where
  pub id : ℕ
  pub reference : ℕ
  pub show_id : ℕ
  pub user_id : ℕ
  pub status : BookingStatus
  pub subtotal_cents : ℕ
  pub fees_cents : ℕ
  pub total_cents : ℕ
  pub qr_token : ℕ
  pub cancelled_at : Option ℕ
  pub created_at : ℕ

pub record BookingSeat : Type 0 where
  pub booking_id : ℕ
  pub show_seat_id : ℕ
  pub price_cents : ℕ

pub record Payment : Type 0 where
  pub id : ℕ
  pub booking_id : ℕ
  pub status : PaymentStatus
  pub amount_cents : ℕ
  pub txn_ref : ℕ
  pub created_at : ℕ

pub record WaitlistEntry : Type 0 where
  pub id : ℕ
  pub show_id : ℕ
  pub category_id : ℕ
  pub user_id : ℕ
  pub quantity : ℕ
  pub status : WaitlistStatus
  pub enqueued_at : ℕ

pub record WaitlistOffer : Type 0 where
  pub id : ℕ
  pub waitlist_entry_id : ℕ
  pub show_seat_ids : List ℕ
  pub token_hash : ℕ
  pub status : OfferStatus
  pub attempt_no : ℕ
  pub expires_at : ℕ
  pub created_at : ℕ

pub record Db : Type 0 where
  pub shows : List Show
  pub show_prices : List ShowPrice
  pub seats : List Seat
  pub seat_categories : List SeatCategory
  pub show_seats : List ShowSeat
  pub seat_holds : List SeatHold
  pub bookings : List Booking
  pub booking_seats : List BookingSeat
  pub payments : List Payment
  pub waitlist_entries : List WaitlistEntry
  pub waitlist_offers : List WaitlistOffer
  pub users : List User
  pub refresh_tokens : List RefreshToken
  pub venues : List Venue
  pub events : List Event

-- `make_interval(secs => n)`
abbrev pub make_interval : ℕ → ℕ
make_interval secs = secs * 1000000

-- The variables of config/env.js that the services read.
pub record Env : Type 0 where
  pub max_seats_per_booking : ℕ
  pub booking_fee_percent : ℕ
  pub waitlist_max_cascade_attempts : ℕ
  pub job_max_attempts : ℕ

-- The range of a Postgres `int` column, for the amounts that are never negative.
abbrev pub fits_int : ℕ → Bool
fits_int n = ltb n 2147483648
