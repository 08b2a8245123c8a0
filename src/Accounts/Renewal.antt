-- ===== src/Accounts/Renewal.antt =====
-- The refresh token of a session renews it.
use mathlib.Core.Path.{subst}
use ticket_booking_system.Common.{
  ℕ, ◌*◌, ◌≡◌, refl, sym, ap, ◌∙◌, Bool, true, false, ◌&&◌, some, none, ◌∷◌, leb, ◌==◌, ==_refl,
  List,
}
use ticket_booking_system.Errors.{ok}
use ticket_booking_system.Sql.{exists, first, update_where}
use ticket_booking_system.Sql.Keys.{exists-update_where}
use ticket_booking_system.Db.{Db, User, RefreshToken}
use ticket_booking_system.Db.Tx.{finish, ◌>>=◌}
use ticket_booking_system.Accounts.{
  Auth, Draw, Registration, Session, success, is_live, revoked_row, find_refresh_token_by_hash,
  find_user_by_id, issue_token_pair, session_of, refresh_token_of, register_user, rotate,
  refresh_transaction, refresh_tokens, settle_outcome,
}
use ticket_booking_system.Accounts.Rotation.{issued, clashes, issue_token_pair_unused}
use ticket_booking_system.Accounts.Login.{account, register_user_lem, known_first}

module _ (auth : Auth) (now : ℕ) (draw : Draw) where
  -- The database in which the token is revoked, and the row of the next one added.
  abbrev revoked_db : ℕ → Db → Db
  revoked_db token_hash db = record db {
    refresh_tokens =
        update_where (λ r. r.token_hash == token_hash && is_live r) (revoked_row now)
          db.refresh_tokens;
  }

  -- A rotation whose token is live and whose user is known.
  rotate_succeeds :
      (token_hash : ℕ) (t : RefreshToken) (user : User) (db : Db)
      → t.revoked_at ≡ none
      → leb t.expires_at now ≡ false
      → find_user_by_id t.user_id db ≡ some user
      → exists (clashes auth now draw user t.family_id) db.refresh_tokens ≡ false
      → exists (λ u. u.id == user.id) db.users ≡ true
      → rotate auth now draw token_hash t db
        ≡ ok (
          success (session_of auth now draw user t.family_id),
          record (revoked_db token_hash db) {
            refresh_tokens =
                issued auth now draw user t.family_id ∷ (revoked_db token_hash db).refresh_tokens;
          },
        )
  unfolding rotate
  rotate_succeeds token_hash t user db unrevoked fresh found unused known =
      rw (unrevoked, ◌>>=◌) (rw (fresh, ◌>>=◌) (rw (found, ◌>>=◌) (rw (made, ◌>>=◌) refl)))
    where
      still_unused :
          exists (clashes auth now draw user t.family_id) (revoked_db token_hash db).refresh_tokens
          ≡ false
      still_unused =
          exists-update_where (clashes auth now draw user t.family_id)
            (λ r. r.token_hash == token_hash && is_live r) (revoked_row now) db.refresh_tokens
            (λ r. refl)
          ∙ unused

      made :
          issue_token_pair auth now draw user t.family_id (revoked_db token_hash db)
          ≡ ok (
            session_of auth now draw user t.family_id,
            record (revoked_db token_hash db) {
              refresh_tokens =
                  issued auth now draw user t.family_id ∷ (revoked_db token_hash db).refresh_tokens;
            },
          )
      made =
          issue_token_pair_unused auth now draw user t.family_id (revoked_db token_hash db)
            still_unused known

refresh_tokens_succeeds :
    (auth : Auth) (now : ℕ) (draw : Draw) (raw : ℕ) (t : RefreshToken) (db : Db) (s : Session)
    (db' : Db)
    → auth.verify_refresh draw.clock raw ≡ true
    → find_refresh_token_by_hash (auth.sha256 raw) db ≡ some t
    → rotate auth now draw (auth.sha256 raw) t db ≡ ok (success s, db')
    → (refresh_tokens auth now draw (some raw) db).0 ≡ ok s
unfolding refresh_tokens refresh_transaction settle_outcome
refresh_tokens_succeeds auth now draw raw t db s db' genuine found rotated =
    rw (genuine, refresh_tokens)
      (rw (found, ◌>>=◌, finish) (rw (rotated, finish, settle_outcome) refl))

first_hit :
    {A : Type 0} (p : A → Bool) (a : A) (rest : List A) → p a ≡ true → first p (a ∷ rest) ≡ some a
unfolding first
first_hit p a rest hit = rw hit refl

-- After a registration that succeeds, the refresh token of its session gives the same user a new
-- session, as long as it verifies, the row of the token has not expired, and the random id and the
-- digest of the new token are unused.
pub register_then_refresh :
    (auth : Auth) (now later : ℕ) (draw draw' : Draw) (input : Registration) (db : Db) (s : Session)
    (db' : Db)
    → register_user auth now draw input db ≡ (ok s, db')
    → auth.verify_refresh draw'.clock s.refresh_token ≡ true
    → leb (auth.decode_exp s.refresh_token * 1000000) later ≡ false
    → exists
        (clashes auth later draw' (account auth now draw input) draw.family_id)
        db'.refresh_tokens
      ≡ false
    → (l : Session) × ((refresh_tokens auth later draw' (some s.refresh_token) db').0 ≡ ok l)
      × (l.user ≡ s.user)
unfolding find_refresh_token_by_hash find_user_by_id
register_then_refresh auth now later draw draw' input db s db' h genuine fresh unused =
    let (free, distinct, session, state) = register_user_lem auth now draw input db s db' h in
    let user = account auth now draw input in
    let raw = refresh_token_of auth now draw user draw.family_id in
    let same : s.refresh_token ≡ raw = ap (λ s. s.refresh_token) session in
    let t = issued auth now draw user draw.family_id in
    let next = session_of auth later draw' user draw.family_id in
    let token_found : find_refresh_token_by_hash (auth.sha256 raw) db' ≡ some t = rw state (
      first_hit (λ r. r.token_hash == auth.sha256 raw) t db.refresh_tokens
        (==_refl (auth.sha256 raw))) in
    let user_found : find_user_by_id user.id db' ≡ some user =
      rw state (first_hit (λ u. u.id == user.id) user db.users (==_refl user.id)) in
    let known : exists (λ u. u.id == user.id) db'.users ≡ true =
      rw state (known_first user db.users) in
    let unexpired : leb t.expires_at later ≡ false =
      subst (λ r. leb (auth.decode_exp r * 1000000) later ≡ false) same fresh in
    (
      next,
      subst (λ r. (refresh_tokens auth later draw' (some r) db').0 ≡ ok next) (sym same)
          (refresh_tokens_succeeds auth later draw' raw t db' next _
            (subst (λ r. auth.verify_refresh draw'.clock r ≡ true) same genuine) token_found
            (rotate_succeeds auth later draw' (auth.sha256 raw) t user db' refl unexpired user_found
              unused known)),
      rw session refl,
    )
