-- ===== src/Witnesses/Accounts.antt =====
-- The theorems about accounts at the small database, and runs of the calls.
use ticket_booking_system.Common.{◌≡◌, ◌⊎◌, refl, true, none, some, ◌+◌, ==_refl}
use ticket_booking_system.Errors.{ok, err, refresh_invalid, email_taken}
use ticket_booking_system.Sql.{exists}
use ticket_booking_system.Db.{Db, User, RefreshToken, organiser, customer, admin}
use ticket_booking_system.Accounts.{
  Session, register_user, register_transaction, login_user, login_transaction, refresh_tokens,
  refresh_transaction, rotate, insert_user, insert_refresh_token, issue_token_pair,
  find_user_by_email, find_user_by_id, find_refresh_token_by_hash, revoke_refresh_token,
  revoke_refresh_token_family, resolve_registration_role, session_of, to_public_user,
  settle_outcome, success,
}
use ticket_booking_system.Accounts.Reuse.{IsRevoked, refresh_reuse}
use ticket_booking_system.Accounts.Login.{account, register_user_grants, register_then_login}
use ticket_booking_system.Accounts.Single.{IsSingle}
use ticket_booking_system.Accounts.Families.{empty, registered, refreshed, Reachable-IsSingle}
use ticket_booking_system.Accounts.Rotation.{issued}
use ticket_booking_system.Accounts.Overlap.{is_live_in, after_rotation, refresh_race}
use ticket_booking_system.Accounts.Renewal.{register_then_refresh}
use ticket_booking_system.Fixtures.{fresh_db, auth, draw, registration}

-- What a run of the accounts computes through.
unfoldable accounts_runs : Unit {0}
unfolding register_user register_transaction login_user login_transaction refresh_tokens
    refresh_transaction rotate insert_user insert_refresh_token issue_token_pair find_user_by_email
    find_user_by_id find_refresh_token_by_hash revoke_refresh_token revoke_refresh_token_family
    resolve_registration_role settle_outcome
accounts_runs = tt

unfoldable signed_up : Db
unfolding accounts_runs
signed_up = (register_user auth 100 (draw 1) registration fresh_db).1

unfoldable rotated_db : Db
unfolding signed_up accounts_runs
rotated_db = (refresh_tokens auth 200 (draw 2) (some 1) signed_up).1

abbrev signed : Session
signed = session_of auth 100 (draw 1) (account auth 100 (draw 1) registration) 1

abbrev rotated : Session
rotated = session_of auth 100 (draw 2) (account auth 100 (draw 1) registration) 1

signs_up : register_user auth 100 (draw 1) registration fresh_db ≡ (ok signed, signed_up)
unfolding signed_up accounts_runs
signs_up = refl

rotates : refresh_tokens auth 200 (draw 2) (some 1) signed_up ≡ (ok rotated, rotated_db)
unfolding rotated_db signed_up accounts_runs
rotates = refl

refused_again : (register_user auth 100 (draw 2) registration signed_up).0 ≡ err email_taken
unfolding signed_up accounts_runs
refused_again = refl

refresh_reuse_example :
    let (result, after) = refresh_tokens auth 300 (draw 3) (some 1) rotated_db in
    (result ≡ err refresh_invalid)
    × ((t : _) × (find_refresh_token_by_hash 2 signed_up ≡ some t) × IsRevoked t.family_id after)
    × ((refresh_tokens auth 400 (draw 4) (some 2) after).0 ≡ err refresh_invalid)
refresh_reuse_example =
    refresh_reuse auth 200 (draw 2) 1 signed_up rotated rotated_db 300 (draw 3) 400 (draw 4) rotates
      refl

Reachable-IsSingle_example :
    IsSingle
      (refresh_tokens auth 200
        (draw 2)
        (some 1)
        (register_user auth 100 (draw 1) registration fresh_db).1).1
unfolding exists
Reachable-IsSingle_example = Reachable-IsSingle auth _ (
    refreshed 200 (draw 2) (some 1)
      (registered 100 (draw 1) registration (empty {db = fresh_db} refl) refl))

register_user_grants_example :
    (find_user_by_email 70 fresh_db ≡ none)
    × ((some admin ≡ some organiser) × (signed.user.role ≡ organiser)
        ⊎ (signed.user.role ≡ customer))
    × ((u : User) × (find_user_by_email 70 signed_up ≡ some u) × (to_public_user u ≡ signed.user))
register_user_grants_example =
    register_user_grants auth 100 (draw 1) registration fresh_db signed signed_up signs_up

register_then_login_example :
    (l : Session) × ((login_user auth 200 (draw 2) 70 71 signed_up).0 ≡ ok l)
    × (l.user ≡ signed.user)
unfolding signed_up accounts_runs
register_then_login_example =
    register_then_login auth 100 200 (draw 1) (draw 2) registration fresh_db signed signed_up
      (λ salt password. ==_refl (password + 1)) signs_up refl

register_then_refresh_example :
    (l : Session) × ((refresh_tokens auth 200 (draw 2) (some 1) signed_up).0 ≡ ok l)
    × (l.user ≡ signed.user)
unfolding signed_up accounts_runs
register_then_refresh_example =
    register_then_refresh auth 100 200 (draw 1) (draw 2) registration fresh_db signed signed_up
      signs_up refl refl refl

-- The account that has signed up, and its first token.
abbrev holder : User
holder = account auth 100 (draw 1) registration

abbrev first_token : RefreshToken
first_token = issued auth 100 (draw 1) holder 1

refresh_race_example :
    let db' = after_rotation auth 2 first_token holder 200 (draw 2) signed_up in
    (rotate auth 200 (draw 2) 2 first_token signed_up
      ≡ ok (success (session_of auth 200 (draw 2) holder 1), db'))
    × (s' : Session) × (db'' : Db) × (rotate auth 201 (draw 3) 2 first_token db'
        ≡ ok (success s', db''))
    × (exists (is_live_in (draw 2).token_id 1) db''.refresh_tokens ≡ true)
    × (exists (is_live_in (draw 3).token_id 1) db''.refresh_tokens ≡ true)
unfolding signed_up accounts_runs exists
refresh_race_example =
    refresh_race auth 2 first_token holder 200 201 (draw 2) (draw 3) signed_up refl refl refl refl
      refl refl refl refl
