-- ===== src/Accounts/Login.antt =====
-- `registerUser` and `loginUser`: what they add to the tables.
use ticket_booking_system.Common.{
  ℕ, ◌≡◌, refl, sym, ap, ◌∙◌, ◌⊎◌, inl, inr, true, false, ◌||◌, Option, none, some, ◌∷◌, List, ◌==◌,
  Bool-cases, Option-cases, ==_refl,
}
use ticket_booking_system.Errors.{
  Error, ok, err, ok-injective, invalid_credentials, sql, unique_violation,
}
use ticket_booking_system.Sql.{exists, first}
use ticket_booking_system.Db.{Db, User, Role, admin, organiser, customer}
use ticket_booking_system.Db.Tx.{finish, finish-ok, ◌>>=◌}
use ticket_booking_system.Accounts.{
  Auth, Draw, to_public_user, NewUser, Registration, Session, insert_user, find_user_by_email,
  resolve_registration_role, issue_token_pair, session_of, register_user, register_transaction,
  login_transaction, login_user,
}
use ticket_booking_system.Accounts.Rotation.{
  issued, clashes, issue_token_pair_unused, issue_token_pair_cases,
}

abbrev pub new_user : ℕ → ℕ → NewUser → User
new_user now id u = record {
  id = id;
  email = u.email;
  password_hash = u.password_hash;
  name = u.name;
  phone = u.phone;
  role = u.role;
  created_at = now;
}

insert_user_cases :
    (now id : ℕ) (u : NewUser) (db : Db)
    → ((e : Error) × (insert_user now id u db ≡ err e))
      ⊎ (exists (λ r. r.id == id || r.email == u.email) db.users ≡ false)
        × (insert_user now id u db
            ≡ ok (new_user now id u, record db { users = new_user now id u ∷ db.users }))
unfolding insert_user
insert_user_cases now id u db =
    elim (Bool-cases (exists (λ r. r.id == id || r.email == u.email) db.users)) [
      | inl used ↦ inl (sql unique_violation, rw used refl)
      | inr fresh ↦ inr (fresh, rw fresh refl)
    ]

module _ (auth : Auth) (now : ℕ) (draw : Draw) where
  abbrev registered : Registration → NewUser
  registered input = record {
    email = input.email;
    password_hash = auth.hash_password draw.salt input.password;
    name = input.name;
    phone = input.phone;
    role = resolve_registration_role input.role;
  }

  -- The account that a registration makes.
  abbrev pub account : Registration → User
  account input = new_user now draw.user_id (registered input)

  abbrev pub registered_db : Registration → Db → Db
  registered_db input db = record db {
    users = account input ∷ db.users;
    refresh_tokens = issued auth now draw (account input) draw.family_id ∷ db.refresh_tokens;
  }

  pub register_user_lem :
      (input : Registration) (db : Db) (s : Session) (db' : Db)
      → register_user auth now draw input db ≡ (ok s, db')
      → (find_user_by_email input.email db ≡ none)
        × (exists (λ r. r.id == draw.user_id || r.email == input.email) db.users ≡ false)
        × (s ≡ session_of auth now draw (account input) draw.family_id)
        × (db' ≡ registered_db input db)
  unfolding register_user register_transaction
  register_user_lem input db s db' h =
      let ran = finish-ok db (register_transaction auth now draw input db) h in
      elim (Option-cases (find_user_by_email input.email db)) [
        | inr (u, taken) ↦ absurd (cc (rw (taken, ◌>>=◌) at ran))
        | inl free ↦
            let h₁ = rw (free, ◌>>=◌) at ran in
            elim (insert_user_cases now draw.user_id (registered input) db) [
              | inl (e, refused) ↦ absurd (cc (rw (refused, ◌>>=◌) at h₁))
              | inr (fresh, inserted) ↦
                  let h₂ = rw (inserted, ◌>>=◌) at h₁ in
                  elim (issue_token_pair_cases auth now draw (account input) draw.family_id
                    (record db { users = account input ∷ db.users })) [
                      | inl (e, refused) ↦ absurd (cc (rw (refused, ◌>>=◌) at h₂))
                      | inr (unused, made) ↦
                          let done = ok-injective (sym made ∙ h₂) in
                          (free, fresh, sym (ap (λ r. r.0) done), sym (ap (λ r. r.1) done))
                    ]
            ]
      ]

  pub login_user_lem :
      (email password : ℕ) (db : Db) (s : Session) (db' : Db)
      → login_user auth now draw email password db ≡ (ok s, db')
      → (user : User) × (find_user_by_email email db ≡ some user)
        × (auth.verify_password user.password_hash password ≡ true)
        × (s ≡ session_of auth now draw user draw.family_id)
        × (db' ≡ record db {
          refresh_tokens = issued auth now draw user draw.family_id ∷ db.refresh_tokens;
        })
  unfolding login_user login_transaction
  login_user_lem email password db s db' h =
      let ran = finish-ok db (login_transaction auth now draw email password db) h in
      elim (Option-cases (find_user_by_email email db)) [
        | inl missing ↦ absurd (cc (rw (missing, ◌>>=◌) at ran))
        | inr (user, found) ↦
            let h₁ = rw (found, ◌>>=◌) at ran in
            elim (Bool-cases (auth.verify_password user.password_hash password)) [
              | inr wrong ↦ absurd (cc (rw (wrong, ◌>>=◌) at h₁))
              | inl right ↦
                  let h₂ = rw (right, ◌>>=◌) at h₁ in
                  elim (issue_token_pair_cases auth now draw user draw.family_id db) [
                    | inl (e, refused) ↦ absurd (cc (rw (refused, ◌>>=◌) at h₂))
                    | inr (unused, made) ↦
                        let done = ok-injective (sym made ∙ h₂) in
                        (user, found, right, sym (ap (λ r. r.0) done), sym (ap (λ r. r.1) done))
                  ]
            ]
      ]

  -- A registration that succeeds was for an email that no user had; it grants the role of an
  -- organiser only where that was asked for and otherwise that of a customer, never that of an
  -- admin; and the account is found by its email.
  pub register_user_grants :
      (input : Registration) (db : Db) (s : Session) (db' : Db)
      → register_user auth now draw input db ≡ (ok s, db')
      → (find_user_by_email input.email db ≡ none)
        × ((input.role ≡ some organiser) × (s.user.role ≡ organiser) ⊎ (s.user.role ≡ customer))
        × ((u : User) × (find_user_by_email input.email db' ≡ some u) × (to_public_user u ≡ s.user))
  unfolding find_user_by_email resolve_registration_role
  register_user_grants input db s db' h =
      let (free, fresh, session, state) = register_user_lem input db s db' h in
      (
        free,
        rw session (granted input.role),
        rw (session, state) (account input, rw (==_refl input.email) refl, refl),
      )
    where
      granted :
          (asked : Option Role)
          → ((asked ≡ some organiser) × (resolve_registration_role asked ≡ organiser)
              ⊎ (resolve_registration_role asked ≡ customer))
      granted none = inr refl
      granted (some admin) = inr refl
      granted (some organiser) = inl (refl, refl)
      granted (some customer) = inr refl

  -- A login with an email that no user has, and one with a wrong password, are refused alike, and
  -- leave the database as it is.
  pub login_user_refused :
      (email password : ℕ) (db : Db)
      → (find_user_by_email email db ≡ none)
        ⊎ ((u : User) × (find_user_by_email email db ≡ some u)
            × (auth.verify_password u.password_hash password ≡ false))
      → login_user auth now draw email password db ≡ (err invalid_credentials, db)
  unfolding login_user login_transaction
  login_user_refused email password db (inl missing) = rw (missing, ◌>>=◌, finish) refl
  login_user_refused email password db (inr (u, found, wrong)) =
      rw (found, ◌>>=◌, finish) (rw (wrong, ◌>>=◌, finish) refl)

found_first :
    (email : ℕ) (u : User) (users : List User)
    → (u.email == email) ≡ true
    → first (λ r. r.email == email) (u ∷ users) ≡ some u
unfolding first
found_first email u users same = rw same refl

pub known_first : (u : User) (users : List User) → exists (λ r. r.id == u.id) (u ∷ users) ≡ true
unfolding exists
known_first u users = rw (==_refl u.id) refl

-- Where argon2 verifies what it has hashed, an account can log in with the password that it was
-- registered with, at any time, as long as the random id and the digest of the new token are unused.
pub register_then_login :
    (auth : Auth) (now later : ℕ) (draw draw' : Draw) (input : Registration) (db : Db) (s : Session)
    (db' : Db)
    → ((salt password : ℕ)
        → auth.verify_password (auth.hash_password salt password) password ≡ true)
    → register_user auth now draw input db ≡ (ok s, db')
    → exists
        (clashes auth later draw' (account auth now draw input) draw'.family_id)
        db'.refresh_tokens
      ≡ false
    → (l : Session) × ((login_user auth later draw' input.email input.password db').0 ≡ ok l)
      × (l.user ≡ s.user)
unfolding login_user login_transaction find_user_by_email
register_then_login auth now later draw draw' input db s db' verifies h unused =
    let (free, fresh, session, state) = register_user_lem auth now draw input db s db' h in
    let user = account auth now draw input in
    (
      session_of auth later draw' user draw'.family_id,
      ap (λ r. r.0)
          (run user (rw state (found_first input.email user db.users (==_refl _)))
            (verifies draw.salt input.password)
            (issue_token_pair_unused auth later draw' user draw'.family_id db' unused
              (rw state (known_first user db.users)))),
      rw session refl,
    )
  where
    run :
        (user : User)
        → find_user_by_email input.email db' ≡ some user
        → auth.verify_password user.password_hash input.password ≡ true
        → issue_token_pair auth later draw' user draw'.family_id db'
          ≡ ok (
            session_of auth later draw' user draw'.family_id,
            record db' {
              refresh_tokens = issued auth later draw' user draw'.family_id ∷ db'.refresh_tokens;
            },
          )
        → login_user auth later draw' input.email input.password db' ≡ (
          ok (session_of auth later draw' user draw'.family_id),
          record db' {
            refresh_tokens = issued auth later draw' user draw'.family_id ∷ db'.refresh_tokens;
          },
        )
    run user found right made =
        rw (found, ◌>>=◌, finish) (rw (right, ◌>>=◌, finish) (rw (made, finish) refl))
