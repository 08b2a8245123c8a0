-- ===== src/Accounts.antt =====
-- server/src/modules/auth: users and refresh tokens (auth.queries.js); registration, login, the
-- rotation of refresh tokens with the detection of their reuse, and logout (auth.service.js).
pub mod Store
pub mod Rotation
pub mod Reuse
pub mod Single
pub mod Families
pub mod Login
pub mod Renewal
pub mod Overlap
unfoldable pub use Store.*
use ticket_booking_system.Common.{
  ℕ, ◌*◌, Bool, true, false, ◌&&◌, ◌||◌, Option, none, some, ◌∷◌, leb, ◌==◌, if◌then◌else◌, is_some,
}
use ticket_booking_system.Errors.{
  Result, ok, err, invalid_credentials, email_taken, refresh_invalid, sql, unique_violation,
  foreign_key_violation,
}
use ticket_booking_system.Sql.{update_where, first, exists}
use ticket_booking_system.Db.{Db, User, RefreshToken, Role, organiser, customer}
use ticket_booking_system.Db.Tx.{
  Tx, Call, pure, throw_if, or_throw, query, ◌>>=◌, ◌>>◌, with_transaction,
}

-- `resolveRegistrationRole`
unfoldable pub resolve_registration_role : Option Role → Role
resolve_registration_role (some organiser) = organiser
resolve_registration_role _ = customer

-- `toPublicUser`
pub record PublicUser : Type 0 where
  pub id : ℕ
  pub email : ℕ
  pub name : ℕ
  pub phone : Option ℕ
  pub role : Role
  pub created_at : ℕ

abbrev pub to_public_user : User → PublicUser
to_public_user u = record {
  id = u.id;
  email = u.email;
  name = u.name;
  phone = u.phone;
  role = u.role;
  created_at = u.created_at;
}

pub record Session : Type 0 where
  pub user : PublicUser
  pub access_token : ℕ
  pub refresh_token : ℕ

-- The body of a registration after its schema.
pub record Registration : Type 0 where
  pub email : ℕ
  pub password : ℕ
  pub name : ℕ
  pub phone : Option ℕ
  pub role : Option Role

-- What the transaction of `refreshTokens` returns, so that a revocation commits.
pub data Outcome : Type 0 where
  invalid reuse expired : Outcome
  success : Session → Outcome

-- What `refreshTokens` throws once its transaction has committed.
unfoldable pub settle_outcome : Result Outcome → Result Session
settle_outcome (ok (success session)) = ok session
settle_outcome (ok _) = err refresh_invalid
settle_outcome (err e) = err e

module _ (auth : Auth) (now : ℕ) (draw : Draw) where
  abbrev pub refresh_token_of : User → ℕ → ℕ
  refresh_token_of user family_id = auth.sign_refresh user.id family_id draw.jti draw.clock

  abbrev pub session_of : User → ℕ → Session
  session_of user family_id = record {
    user = to_public_user user;
    access_token = auth.sign_access user.id user.role draw.clock;
    refresh_token = refresh_token_of user family_id;
  }

  -- `issueTokenPair`, with the public user that every caller adds.
  unfoldable pub issue_token_pair : User → ℕ → Tx Session
  issue_token_pair user family_id = do
    insert_refresh_token now draw.token_id user.id (auth.sha256 (refresh_token_of user family_id))
        family_id (auth.decode_exp (refresh_token_of user family_id) * 1000000)
    pure (session_of user family_id)

  -- `registerUser`
  unfoldable pub register_transaction : Registration → Tx Session
  register_transaction input = do
    existing ← query (find_user_by_email input.email)
    throw_if (is_some existing) email_taken
    user ← insert_user now draw.user_id (record {
      email = input.email;
      password_hash = auth.hash_password draw.salt input.password;
      name = input.name;
      phone = input.phone;
      role = resolve_registration_role input.role;
    })
    issue_token_pair user draw.family_id

  unfoldable pub register_user : Registration → Call Session
  unfolding with_transaction
  register_user input = with_transaction (register_transaction input)

  -- `loginUser`
  unfoldable pub login_transaction : ℕ → ℕ → Tx Session
  login_transaction email password = do
    found ← query (find_user_by_email email)
    user ← or_throw found invalid_credentials
    throw_if (if auth.verify_password user.password_hash password then false else true)
        invalid_credentials
    issue_token_pair user draw.family_id

  unfoldable pub login_user : ℕ → ℕ → Call Session
  unfolding with_transaction
  login_user email password = with_transaction (login_transaction email password)

  -- The branches of the transaction of `refreshTokens` on the row that it has read.
  unfoldable pub rotate : ℕ → RefreshToken → Tx Outcome
  unfolding revoke_refresh_token revoke_refresh_token_family
  rotate token_hash t =
      if is_some t.revoked_at
      then (do revoke_refresh_token_family now t.family_id; pure reuse)
      else if leb t.expires_at now
      then pure expired
      else do
        found ← query (find_user_by_id t.user_id)
        elim found [
          | none ↦ pure invalid
          | some user ↦ do
            revoke_refresh_token now token_hash
            session ← issue_token_pair user t.family_id
            pure (success session)
        ]

  -- One step here: the token is read without a lock, so `rotate` may also run on a database that
  -- another refresh of the token has left in between (Accounts/Overlap).
  unfoldable pub refresh_transaction : ℕ → Tx Outcome
  refresh_transaction token_hash = do
    found ← query (find_refresh_token_by_hash token_hash)
    elim found [ none ↦ pure invalid | some t ↦ rotate token_hash t ]

  -- `refreshTokens`
  unfoldable pub refresh_tokens : Option ℕ → Call Session
  unfolding with_transaction settle_outcome
  refresh_tokens none db = (err refresh_invalid, db)
  refresh_tokens (some raw) db =
      if auth.verify_refresh draw.clock raw
      then (let (outcome, db') = with_transaction (refresh_transaction (auth.sha256 raw)) db in
          (settle_outcome outcome, db'))
      else (err refresh_invalid, db)

-- `logoutUser`
unfoldable pub logout_user : Auth → ℕ → Option ℕ → Call (Unit {0})
unfolding with_transaction
logout_user auth now none db = (ok tt, db)
logout_user auth now (some raw) db =
    with_transaction (revoke_refresh_token now (auth.sha256 raw)) db

-- `getUserById`
unfoldable pub get_user_by_id : ℕ → Db → Option PublicUser
unfolding find_user_by_id
get_user_by_id id db = elim (find_user_by_id id db) [
  | none ↦ none
  | some user ↦ some (to_public_user user)
]
