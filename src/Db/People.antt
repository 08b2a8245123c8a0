-- ===== src/Db/People.antt =====
-- The rows of accounts and their sessions (migrations 001 and 008).
use ticket_booking_system.Common.{ℕ, Option}

-- `role_t`
pub data Role : Type 0 where
  admin organiser customer : Role

pub record User : Type 0 where
  pub id : ℕ
  pub email : ℕ
  pub password_hash : ℕ
  pub name : ℕ
  pub phone : Option ℕ
  pub role : Role
  pub created_at : ℕ

pub record RefreshToken : Type 0 where
  pub id : ℕ
  pub user_id : ℕ
  pub token_hash : ℕ
  pub family_id : ℕ
  pub revoked_at : Option ℕ
  pub expires_at : ℕ
  pub created_at : ℕ
