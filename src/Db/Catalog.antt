-- ===== src/Db/Catalog.antt =====
-- The rows of what is on offer: venues with their seats, events with their shows (migrations 001 and
-- 002).
use ticket_booking_system.Common.{ℕ, Bool, Option}

-- A whole number: `pos n` is n, and `negsuc n` is -(n + 1).
pub data ℤ : Type 0 where
  pos negsuc : ℕ → ℤ

pub data EventType : Type 0 where
  movie concert : EventType

pub data ShowStatus : Type 0 where
  scheduled cancelled completed : ShowStatus

pub record Venue : Type 0 where
  pub id : ℕ
  pub name : ℕ
  pub address : ℕ
  pub city : ℕ
  pub layout_meta : ℕ
  pub created_at : ℕ

pub record SeatCategory : Type 0 where
  pub id : ℕ
  pub venue_id : ℕ
  pub name : ℕ
  pub color_hex : ℕ
  pub sort_order : ℤ

pub record Seat : Type 0 where
  pub id : ℕ
  pub venue_id : ℕ
  pub category_id : ℕ
  pub row_label : ℕ
  pub seat_number : ℕ
  pub grid_row : ℕ
  pub grid_col : ℕ
  pub is_accessible : Bool
  pub is_active : Bool

pub record Event : Type 0 where
  pub id : ℕ
  pub organiser_id : ℕ
  pub title : ℕ
  pub type : EventType
  pub description : ℕ
  pub poster_url : Option ℕ
  pub language : Option ℕ
  pub genre : Option ℕ
  pub duration_min : ℕ
  pub is_published : Bool
  pub created_at : ℕ

pub record Show : Type 0 where
  pub id : ℕ
  pub event_id : ℕ
  pub venue_id : ℕ
  pub starts_at : ℕ
  pub ends_at : ℕ
  pub status : ShowStatus
  pub hold_ttl_seconds : ℕ
  pub offer_ttl_seconds : ℕ

pub record ShowPrice : Type 0 where
  pub show_id : ℕ
  pub category_id : ℕ
  pub price_cents : ℕ
