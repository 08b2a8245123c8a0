-- ===== src/Accounts/Store.antt =====
-- The statements of auth.queries.js, and the libraries that auth.service.js calls with what it
-- draws.
use ticket_booking_system.Common.{
  ℕ, Bool, true, false, ◌&&◌, ◌||◌, Option, none, some, ◌∷◌, ◌==◌, if◌then◌else◌, is_some,
}
use ticket_booking_system.Errors.{ok, err, sql, unique_violation, foreign_key_violation}
use ticket_booking_system.Sql.{update_where, first, exists}
use ticket_booking_system.Db.{Db, User, RefreshToken, Role}
use ticket_booking_system.Db.Tx.{Tx}

-- Who a verified access token speaks for.
pub record Principal : Type 0 where
  pub id : ℕ
  pub role : Role

-- argon2, jsonwebtoken and node:crypto, with the secrets that they are called with. `clock` is the
-- clock of the process, in seconds.
pub record Auth : Type 0 where
  -- `argon2.hash(password)`, with the salt that it draws, and `argon2.verify(hash, password)`
  pub hash_password : ℕ → ℕ → ℕ
  pub verify_password : ℕ → ℕ → Bool
  -- `jwt.sign` of an access token: user, role, clock
  pub sign_access : ℕ → Role → ℕ → ℕ
  -- `jwt.sign` of a refresh token: user, family, random id, clock
  pub sign_refresh : ℕ → ℕ → ℕ → ℕ → ℕ
  -- `jwt.verify` at a clock
  pub verify_access : ℕ → ℕ → Option Principal
  pub verify_refresh : ℕ → ℕ → Bool
  -- the claim `exp` of `jwt.decode(token)`, in seconds
  pub decode_exp : ℕ → ℕ
  pub sha256 : ℕ → ℕ

-- What a call draws at random, and the clock that it reads.
pub record Draw : Type 0 where
  pub user_id : ℕ
  pub salt : ℕ
  pub family_id : ℕ
  pub token_id : ℕ
  pub jti : ℕ
  pub clock : ℕ

pub record NewUser : Type 0 where
  pub email : ℕ
  pub password_hash : ℕ
  pub name : ℕ
  pub phone : Option ℕ
  pub role : Role

-- `insertUser`: the primary key and the unique email.
unfoldable pub insert_user : ℕ → ℕ → NewUser → Tx User
unfolding exists
insert_user now id u db =
    let user : User = record {
      id = id;
      email = u.email;
      password_hash = u.password_hash;
      name = u.name;
      phone = u.phone;
      role = u.role;
      created_at = now;
    } in
    if exists (λ r. r.id == id || r.email == u.email) db.users
    then err (sql unique_violation)
    else ok (user, record db { users = user ∷ db.users })

-- `findUserByEmail`
unfoldable pub find_user_by_email : ℕ → Db → Option User
unfolding first
find_user_by_email email db = first (λ u. u.email == email) db.users

-- `findUserById`
unfoldable pub find_user_by_id : ℕ → Db → Option User
unfolding first
find_user_by_id id db = first (λ u. u.id == id) db.users

abbrev pub new_token : ℕ → ℕ → ℕ → ℕ → ℕ → ℕ → RefreshToken
new_token now id user_id token_hash family_id expires_at = record {
  id = id;
  user_id = user_id;
  token_hash = token_hash;
  family_id = family_id;
  revoked_at = none;
  expires_at = expires_at;
  created_at = now;
}

-- `insertRefreshToken`: the primary key, the unique digest, and the foreign key of the user.
unfoldable pub insert_refresh_token : ℕ → ℕ → ℕ → ℕ → ℕ → ℕ → Tx (Unit {0})
unfolding exists
insert_refresh_token now id user_id token_hash family_id expires_at db =
    if exists (λ t. t.id == id || t.token_hash == token_hash) db.refresh_tokens
    then err (sql unique_violation)
    else if exists (λ u. u.id == user_id) db.users
    then ok (
      tt,
      record db {
        refresh_tokens =
            new_token now id user_id token_hash family_id expires_at ∷ db.refresh_tokens;
      },
    )
    else err (sql foreign_key_violation)

-- `findRefreshTokenByHash`; `is_expired` is computed from the row.
unfoldable pub find_refresh_token_by_hash : ℕ → Db → Option RefreshToken
unfolding first
find_refresh_token_by_hash token_hash db = first (λ t. t.token_hash == token_hash) db.refresh_tokens

abbrev pub is_live : RefreshToken → Bool
is_live t = if is_some t.revoked_at then false else true

abbrev pub revoked_row : ℕ → RefreshToken → RefreshToken
revoked_row now t = record t { revoked_at = some now }

-- `revokeRefreshToken`
unfoldable pub revoke_refresh_token : ℕ → ℕ → Tx (Unit {0})
unfolding update_where
revoke_refresh_token now token_hash db = ok (
  tt,
  record db {
    refresh_tokens =
        update_where (λ t. t.token_hash == token_hash && is_live t) (revoked_row now)
          db.refresh_tokens;
  },
)

-- `revokeRefreshTokenFamily`
unfoldable pub revoke_refresh_token_family : ℕ → ℕ → Tx (Unit {0})
unfolding update_where
revoke_refresh_token_family now family_id db = ok (
  tt,
  record db {
    refresh_tokens =
        update_where (λ t. t.family_id == family_id && is_live t) (revoked_row now)
          db.refresh_tokens;
  },
)
