-- ===== src/Schemas/Accepted/Accounts.antt =====
-- The bodies of accounts, holds, bookings and the waitlist: what is accepted can be read.

use ticket_booking_system.Common.{true, some, ◌≡◌, refl, is_some}
use ticket_booking_system.Schemas.{number, Props, Texts, documented_fields}
use ticket_booking_system.Schemas.Requests.{
  create_hold_schema, confirm_booking_schema, join_waitlist_schema, waitlist_me_query_schema,
  register_schema, login_schema,
}
use ticket_booking_system.Schemas.Bodies.{
  registration_body, credentials_body, hold_body, hold_id_body, waitlist_body, category_id_query,
}
use ticket_booking_system.Schemas.Reading.{
  Reads-at, fields_of, uuid-Reads, email-Reads, string-Reads, int_from-Reads, role-Reads,
  optional-Reads, default-Reads, array-Reads, bind-some,
}

module _ (t : Texts) (ps rs : Props) where
  pub register-read :
      documented_fields t (fields_of register_schema) ps ≡ some rs
      → is_some (registration_body t rs) ≡ true
  register-read h = bind-some _ _ (Reads-at t _ ps _ h "email" refl refl (email-Reads t)) λ _.
      bind-some _ _ (Reads-at t _ ps _ h "password" refl refl (string-Reads t 8)) λ _.
        bind-some _ _ (Reads-at t _ ps _ h "name" refl refl (string-Reads t 1)) λ _.
          bind-some _ _
            (Reads-at t _ ps _ h "phone" refl refl (optional-Reads t _ _ (string-Reads t 0)))
            λ _.
              bind-some _ _
                (Reads-at t _ ps _ h "role" refl refl (optional-Reads t _ _ (role-Reads t)))
                λ _. refl

  pub login-read :
      documented_fields t (fields_of login_schema) ps ≡ some rs
      → is_some (credentials_body rs) ≡ true
  login-read h =
      bind-some _ _ (Reads-at t _ ps _ h "email" refl refl (email-Reads t))
        λ _. bind-some _ _ (Reads-at t _ ps _ h "password" refl refl (string-Reads t 1)) λ _. refl

  pub hold-read :
      documented_fields t (fields_of create_hold_schema) ps ≡ some rs
      → is_some (hold_body rs) ≡ true
  hold-read h = bind-some _ _ (Reads-at t _ ps _ h "showId" refl refl (uuid-Reads t)) λ _.
      bind-some _ _ (Reads-at t _ ps _ h "seatIds" refl refl (array-Reads t _ _ 1 (uuid-Reads t)))
        λ _. refl

  pub confirm-read :
      documented_fields t (fields_of confirm_booking_schema) ps ≡ some rs
      → is_some (hold_id_body rs) ≡ true
  confirm-read h = Reads-at t _ ps _ h "holdId" refl refl (uuid-Reads t)

  pub waitlist-read :
      documented_fields t (fields_of join_waitlist_schema) ps ≡ some rs
      → is_some (waitlist_body rs) ≡ true
  waitlist-read h = bind-some _ _ (Reads-at t _ ps _ h "categoryId" refl refl (uuid-Reads t)) λ _.
      bind-some _ _
        (Reads-at t _ ps _ h "quantity" refl refl
          (default-Reads t _ _ (number 1) refl (int_from-Reads t 1)))
        λ _. refl

  pub waitlist_me-read :
      documented_fields t (fields_of waitlist_me_query_schema) ps ≡ some rs
      → is_some (category_id_query rs) ≡ true
  waitlist_me-read h = Reads-at t _ ps _ h "categoryId" refl refl (uuid-Reads t)
