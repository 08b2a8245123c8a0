-- ===== src/Http/Guards.antt =====
-- What each guard of a route lets through.
use ticket_booking_system.Common.{
  ℕ, ◌≡◌, refl, ap, ◌∙◌, ◌⊎◌, inl, inr, true, Option, none, some, List, ◌==◌, Bool-cases,
  Option-cases, ==→eq,
}
use ticket_booking_system.Errors.{Error, unauthenticated, forbidden, not_found, validation}
use ticket_booking_system.Db.{Db, Role}
use ticket_booking_system.Accounts.{Auth, Principal}
use ticket_booking_system.Http.{
  Request, Reply, Next, refuse, includes_role, require_auth, require_role, require_ownership,
  validate,
}

-- An answer that is an error and leaves the database as it is, or what holds where there is another.
abbrev pub Guarded : Type 0 → Reply × Db → Db → Type 0
Guarded P answer db = ((e : Error) × (answer ≡ refuse e db)) ⊎ P

-- The cookie of the request verifies, as the token of the principal.
abbrev pub Presents : Auth → ℕ → Request → Principal → Type 0
Presents auth clock req p =
    (token : ℕ) × (req.access_token ≡ some token) × (auth.verify_access clock token ≡ some p)

pub auth_then :
    (P : Principal → Type 0) (auth : Auth) (clock : ℕ) (next : Next) (req : Request) (db : Db)
    → ((p : Principal) → Guarded (P p) (next (record req { user = some p }) db) db)
    → Guarded
        ((p : Principal) × Presents auth clock req p × P p)
        (require_auth auth clock next req db)
        db
unfolding require_auth
auth_then P auth clock next req db inner = elim (Option-cases req.access_token) [
  | inl absent ↦ inl (unauthenticated, rw (absent, require_auth) refl)
  | inr (token, present) ↦ elim (Option-cases (auth.verify_access clock token)) [
    | inl forged ↦ inl (unauthenticated, rw (present, forged, require_auth) refl)
    | inr (p, genuine) ↦
        rw (present, genuine, require_auth)
          (elim (inner p) [
            | inl refused ↦ inl refused
            | inr holds ↦ inr (p, (token, refl, genuine), holds)
          ])
  ]
]

module _ (P : Type 0) (req : Request) (p : Principal) (db : Db) where
  abbrev req' : Request
  req' = record req { user = some p }

  pub role_then :
      (roles : List Role) (next : Next)
      → (includes_role roles p.role ≡ true → Guarded P (next req' db) db)
      → Guarded P (require_role roles next req' db) db
  unfolding require_role
  role_then roles next inner = elim (Bool-cases (includes_role roles p.role)) [
    | inl allowed ↦ rw allowed (inner allowed)
    | inr other ↦ inl (forbidden, rw (other, require_role) refl)
  ]

  pub own_then :
      (load : Db → Option ℕ) (next : Next)
      → (load db ≡ some p.id → Guarded P (next req' db) db)
      → Guarded P (require_ownership load next req' db) db
  unfolding require_ownership
  own_then load next inner = elim (Option-cases (load db)) [
    | inl missing ↦ inl (not_found, rw (missing, require_ownership) refl)
    | inr (owner_id, found) ↦ elim (Bool-cases (owner_id == p.id)) [
      | inl same ↦
          rw (found, same, require_ownership) ((inner (found ∙ ap some (==→eq owner_id p.id same))))
      | inr other ↦ inl (forbidden, rw (found, other, require_ownership) refl)
    ]
  ]

pub body_then :
    (P : Type 0) {B : Type 0} (body : Option B) (next : B → Next) (req : Request) (db : Db)
    → ((b : B) → body ≡ some b → Guarded P (next b req db) db)
    → Guarded P (validate body next req db) db
unfolding validate
body_then P none next req db inner = inl (validation, refl)
body_then P (some b) next req db inner = inner b refl
