-- ===== src/Http/Sessions.antt =====
-- server/src/modules/auth/auth.controller.js and auth.routes.js: the calls of the accounts, with
-- the cookies that a browser holds before and after each. The lifetime of a cookie is left out: the
-- token in it ends by itself.
use ticket_booking_system.Common.{ℕ, Option, none, some}
use ticket_booking_system.Errors.{Result, ok, err}
use ticket_booking_system.Db.{Db}
use ticket_booking_system.Accounts.{
  Auth, Draw, Session, Registration, register_user, login_user, refresh_tokens, logout_user,
  get_user_by_id,
}
use ticket_booking_system.Http.{Reply, Next, error_handler, require_auth, controller, reading}

-- The cookies `accessToken` and `refreshToken`.
pub record Cookies : Type 0 where
  pub access_token : Option ℕ
  pub refresh_token : Option ℕ

-- `setAuthCookies`
abbrev pub set_auth_cookies : Session → Cookies
set_auth_cookies s = record {
  access_token = some s.access_token;
  refresh_token = some s.refresh_token;
}

-- `clearAuthCookies`
abbrev pub clear_auth_cookies : Cookies
clear_auth_cookies = record { access_token = none; refresh_token = none }

-- What an answer leaves: the reply, the cookies and the database.
abbrev pub Visit : Type 0
Visit = Cookies → Db → Reply × (Cookies × Db)

-- The end of a controller that opens a session; `kept` are the cookies after a failure.
unfoldable pub open_session : ℕ → Cookies → Result Session × Db → Reply × (Cookies × Db)
open_session success kept (ok s, db) =
    (record { status = success; code = none }, (set_auth_cookies s, db))
open_session success kept (err e, db) = (error_handler e, (kept, db))

module _ (auth : Auth) (now : ℕ) (draw : Draw) where
  -- `register`
  unfoldable pub register_controller : Registration → Visit
  unfolding open_session
  register_controller body cookies db =
      open_session 201 cookies (register_user auth now draw body db)

  -- `login`
  unfoldable pub login_controller : ℕ → ℕ → Visit
  unfolding open_session
  login_controller email password cookies db =
      open_session 200 cookies (login_user auth now draw email password db)

  -- `refresh`: a failure clears the cookies.
  unfoldable pub refresh_controller : Visit
  unfolding open_session
  refresh_controller cookies db =
      open_session 200 clear_auth_cookies (refresh_tokens auth now draw cookies.refresh_token db)

-- `logout`; the cookies are cleared once the service has returned.
unfoldable pub logout_controller : Auth → ℕ → Visit
logout_controller auth now cookies db =
    let (result, db') = logout_user auth now cookies.refresh_token db in
    elim result [
      | ok u ↦ (record { status = 200; code = none }, (clear_auth_cookies, db'))
      | err e ↦ (error_handler e, (cookies, db'))
    ]

-- `me`; a user that is gone is answered with 200 and null.
unfoldable pub me_controller : Next
unfolding get_user_by_id
me_controller = controller 200 (λ user_id. reading (λ db. ok (get_user_by_id user_id db)))

unfoldable pub me_route : Auth → ℕ → Next
me_route auth clock = require_auth auth clock me_controller
