-- ===== src/Accounts/Families.antt =====
-- Every history of the accounts in which each call runs alone: a family of refresh tokens has at most
-- one live token. Refreshes that overlap stand in Accounts/Overlap.
use ticket_booking_system.Common.{
  ℕ, ◌≡◌, refl, inl, inr, false, ◌&&◌, Option, none, some, [], ◌==◌, Bool-cases,
}
use ticket_booking_system.Sql.{exists, update_where}
use ticket_booking_system.Db.{Db}
use ticket_booking_system.Db.Tx.{finish, finish_lem}
use ticket_booking_system.Accounts.{
  Auth, Draw, Registration, is_live, revoked_row, revoke_refresh_token, refresh_transaction,
  register_user, register_transaction, login_user, login_transaction, refresh_tokens, logout_user,
}
use ticket_booking_system.Accounts.Rotation.{issued}
use ticket_booking_system.Accounts.Login.{account, register_user_lem, login_user_lem}
use ticket_booking_system.Accounts.Single.{
  IsSingle, IsUnique-Shrinks, revoked-Shrinks, fresh_family, refresh_transaction-IsSingle,
}

-- The databases that the calls of the accounts can leave, each of which runs alone, whatever else
-- other services do to the other tables. A login and a registration draw a family that no token has.
pub data Reachable (auth : Auth) : Db → Type 0 where
  empty : {db : Db} → db.refresh_tokens ≡ [] → Reachable auth db
  elsewhere :
      {db db' : Db}
      → Reachable auth db
      → db'.refresh_tokens ≡ db.refresh_tokens
      → Reachable auth db'
  registered :
      {db : Db} (now : ℕ) (draw : Draw) (input : Registration)
      → Reachable auth db
      → exists (λ t. t.family_id == draw.family_id) db.refresh_tokens ≡ false
      → Reachable auth (register_user auth now draw input db).1
  logged_in :
      {db : Db} (now : ℕ) (draw : Draw) (email password : ℕ)
      → Reachable auth db
      → exists (λ t. t.family_id == draw.family_id) db.refresh_tokens ≡ false
      → Reachable auth (login_user auth now draw email password db).1
  refreshed :
      {db : Db} (now : ℕ) (draw : Draw) (raw : Option ℕ)
      → Reachable auth db
      → Reachable auth (refresh_tokens auth now draw raw db).1
  logged_out :
      {db : Db} (now : ℕ) (raw : Option ℕ)
      → Reachable auth db
      → Reachable auth (logout_user auth now raw db).1

module _ (auth : Auth) (now : ℕ) (draw : Draw) where
  refresh_tokens-IsSingle :
      (raw : Option ℕ) (db : Db) → IsSingle db → IsSingle (refresh_tokens auth now draw raw db).1
  unfolding refresh_tokens
  refresh_tokens-IsSingle none db single = single
  refresh_tokens-IsSingle (some raw) db single =
      elim (Bool-cases (auth.verify_refresh draw.clock raw)) [
        | inr forged ↦ rw forged single
        | inl genuine ↦ rw genuine (
            finish_lem IsSingle db (refresh_transaction auth now draw (auth.sha256 raw) db) single
              (λ o db' h.
                refresh_transaction-IsSingle auth now draw (auth.sha256 raw) db o db' single h))
      ]

  register_user-IsSingle :
      (input : Registration) (db : Db)
      → IsSingle db
      → exists (λ t. t.family_id == draw.family_id) db.refresh_tokens ≡ false
      → IsSingle (register_user auth now draw input db).1
  unfolding register_user
  register_user-IsSingle input db single fresh =
      finish_lem IsSingle db (register_transaction auth now draw input db) single (λ s db' h.
        let (free, unused, session, state) =
          register_user_lem auth now draw input db s db' (rw (h, finish) refl) in
        rw state (
          fresh_family (issued auth now draw (account auth now draw input) draw.family_id)
              db.refresh_tokens fresh,
          single,
        ))

  login_user-IsSingle :
      (email password : ℕ) (db : Db)
      → IsSingle db
      → exists (λ t. t.family_id == draw.family_id) db.refresh_tokens ≡ false
      → IsSingle (login_user auth now draw email password db).1
  unfolding login_user
  login_user-IsSingle email password db single fresh =
      finish_lem IsSingle db (login_transaction auth now draw email password db) single (λ s db' h.
        let (user, found, right, session, state) =
          login_user_lem auth now draw email password db s db' (rw (h, finish) refl) in
        rw state
          (fresh_family (issued auth now draw user draw.family_id) db.refresh_tokens fresh, single))

logout_user-IsSingle :
    (auth : Auth) (now : ℕ) (raw : Option ℕ) (db : Db)
    → IsSingle db
    → IsSingle (logout_user auth now raw db).1
unfolding logout_user revoke_refresh_token
logout_user-IsSingle auth now none db single = single
logout_user-IsSingle auth now (some raw) db single =
    IsUnique-Shrinks db.refresh_tokens
      (update_where (λ t. t.token_hash == auth.sha256 raw && is_live t) (revoked_row now)
        db.refresh_tokens)
      (revoked-Shrinks (λ t. t.token_hash == auth.sha256 raw && is_live t) now db.refresh_tokens)
      single

-- In every database that the calls of the accounts can leave, as long as each of them runs alone, no
-- two tokens of one family are live.
pub Reachable-IsSingle : (auth : Auth) (db : Db) → Reachable auth db → IsSingle db
Reachable-IsSingle auth db (empty none_yet) = rw none_yet tt
Reachable-IsSingle auth db' (elsewhere {db} h same) = rw same (Reachable-IsSingle auth db h)
Reachable-IsSingle auth _ (registered {db} now draw input h fresh) =
    register_user-IsSingle auth now draw input db (Reachable-IsSingle auth db h) fresh
Reachable-IsSingle auth _ (logged_in {db} now draw email password h fresh) =
    login_user-IsSingle auth now draw email password db (Reachable-IsSingle auth db h) fresh
Reachable-IsSingle auth _ (refreshed {db} now draw raw h) =
    refresh_tokens-IsSingle auth now draw raw db (Reachable-IsSingle auth db h)
Reachable-IsSingle auth _ (logged_out {db} now raw h) =
    logout_user-IsSingle auth now raw db (Reachable-IsSingle auth db h)
