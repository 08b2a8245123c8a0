-- ===== src/Accounts/Overlap.antt =====
-- Two refreshes of one token that overlap (auth.service.js#refreshTokens): neither read of the token
-- takes a lock, and neither looks at how many rows its revocation has changed.
use ticket_booking_system.Common.{
  ℕ, ◌≡◌, refl, Bool, true, false, ◌&&◌, none, some, ◌∷◌, arith, leb, ◌==◌, ==_refl,
}
use ticket_booking_system.Errors.{ok}
use ticket_booking_system.Sql.{exists, update_where}
use ticket_booking_system.Sql.Keys.{exists-update_where}
use ticket_booking_system.Db.{Db, User, RefreshToken}
use ticket_booking_system.Db.Tx.{◌>>=◌}
use ticket_booking_system.Accounts.{
  Auth, Draw, Session, is_live, revoked_row, rotate, success, refresh_token_of, session_of,
  find_user_by_id, revoke_refresh_token,
}
use ticket_booking_system.Accounts.Rotation.{issued, clashes, issue_token_pair_unused}

-- The live token of a family with this key.
abbrev pub is_live_in : ℕ → ℕ → RefreshToken → Bool
is_live_in id family_id r = r.id == id && r.family_id == family_id && is_live r

module _ (auth : Auth) (token_hash : ℕ) (t : RefreshToken) (user : User) where
  -- What a refresh leaves that has read the token when it was live.
  abbrev pub after_rotation : ℕ → Draw → Db → Db
  after_rotation now draw db = record db {
    refresh_tokens =
        issued auth now draw user t.family_id
        ∷ update_where (λ r. r.token_hash == token_hash && is_live r) (revoked_row now)
            db.refresh_tokens;
  }

  rotates :
      (now : ℕ) (draw : Draw) (db : Db)
      → t.revoked_at ≡ none
      → leb t.expires_at now ≡ false
      → find_user_by_id t.user_id db ≡ some user
      → exists (λ u. u.id == user.id) db.users ≡ true
      → exists (clashes auth now draw user t.family_id) db.refresh_tokens ≡ false
      → rotate auth now draw token_hash t db
        ≡ ok (success (session_of auth now draw user t.family_id), after_rotation now draw db)
  unfolding rotate revoke_refresh_token
  rotates now draw db live fresh found known unused =
      rw (live, ◌>>=◌, rotate)
        (rw (fresh, ◌>>=◌, rotate)
          (rw (found, ◌>>=◌, rotate)
            (rw
              (
                issue_token_pair_unused auth now draw user t.family_id
                    (record db {
                      refresh_tokens =
                          update_where (λ r. r.token_hash == token_hash && is_live r)
                            (revoked_row now) db.refresh_tokens;
                    })
                    (rw
                      (exists-update_where (clashes auth now draw user t.family_id)
                        (λ r. r.token_hash == token_hash && is_live r) (revoked_row now)
                        db.refresh_tokens (λ r. refl))
                      unused)
                    known,
                ◌>>=◌,
              )
              refl)))

  -- Two refreshes that have both read one token while it was live and has not expired, of a user who
  -- is there, with keys and tokens that are new: both succeed, and afterwards the tokens of both are
  -- live, in one family.
  pub refresh_race :
      (now later : ℕ) (draw draw' : Draw) (db : Db)
      → t.revoked_at ≡ none
      → leb t.expires_at now ≡ false
      → leb t.expires_at later ≡ false
      → find_user_by_id t.user_id db ≡ some user
      → exists (λ u. u.id == user.id) db.users ≡ true
      → exists (clashes auth now draw user t.family_id) db.refresh_tokens ≡ false
      → let db' = after_rotation now draw db in
        exists (clashes auth later draw' user t.family_id) db'.refresh_tokens ≡ false
        → (auth.sha256 (refresh_token_of auth now draw user t.family_id) == token_hash) ≡ false
        → (rotate auth now draw token_hash t db
            ≡ ok (success (session_of auth now draw user t.family_id), db'))
          × (s' : Session) × (db'' : Db) × (rotate auth later draw' token_hash t db'
              ≡ ok (success s', db''))
          × (exists (is_live_in draw.token_id t.family_id) db''.refresh_tokens ≡ true)
          × (exists (is_live_in draw'.token_id t.family_id) db''.refresh_tokens ≡ true)
  unfolding exists update_where find_user_by_id
  refresh_race now later draw draw' db live fresh fresh' found known unused unused' other = (
    rotates now draw db live fresh found known unused,
    session_of auth later draw' user t.family_id,
    after_rotation later draw' (after_rotation now draw db),
    rotates later draw' (after_rotation now draw db) live fresh' found known unused',
    rw other (ground (arith, ==_refl draw.token_id, ==_refl t.family_id)),
    ground (arith, ==_refl draw'.token_id, ==_refl t.family_id),
  )
