-- ===== src/Accounts/Single.antt =====
-- Refresh tokens of one family of which at most one is live, and the steps of a rotation.
use ticket_booking_system.Common.{
  ℕ, ◌≡◌, refl, sym, ap, ◌⊎◌, inl, inr, Bool, true, false, ◌&&◌, List, [], ◌∷◌, arith, leb, ◌==◌,
  Bool-cases, Option-cases, All, All-unit, ==_refl,
}
use mathlib.Core.Path.{subst}
use ticket_booking_system.Errors.{ok, ok-injective}
use ticket_booking_system.Sql.{exists, update_where}
use ticket_booking_system.Sql.Laws.{Rows, Rows-refl, Rows-update_where, All-update_where}
use ticket_booking_system.Sql.Keys.{IsUnique, IsUnique-All, All-exists_none}
use ticket_booking_system.Sql.Counts.{first-meets, first-exists}
use ticket_booking_system.Db.{Db, RefreshToken}
use ticket_booking_system.Db.Tx.{◌>>=◌}
use ticket_booking_system.Accounts.{
  Auth, Draw, Session, Outcome, success, is_live, revoked_row, rotate, refresh_transaction,
  find_user_by_id, find_refresh_token_by_hash, session_of,
}
use ticket_booking_system.Accounts.Rotation.{
  issued, issue_token_pair_cases, Rotates, refresh_transaction-Rotates,
}

-- Two rows that may not stand in one table: live tokens of one family.
abbrev pub same_family : RefreshToken → RefreshToken → Bool
same_family r t = is_live r && is_live t && r.family_id == t.family_id

abbrev pub IsSingle : Db → Type 0
IsSingle db = IsUnique same_family db.refresh_tokens

-- A step that makes no token live and changes no live one.
abbrev pub Shrinks : RefreshToken → RefreshToken → Type 0
Shrinks r s = is_live s ≡ true → s ≡ r

none-Rows :
    (a b : RefreshToken) (rs ss : List RefreshToken)
    → Shrinks a b
    → Rows Shrinks rs ss
    → exists (same_family a) rs ≡ false
    → exists (same_family b) ss ≡ false
unfolding exists
none-Rows a b [] [] h k u = refl
none-Rows a b [] (s ∷ ss) h k u = absurd k
none-Rows a b (r ∷ rs) [] h k u = absurd k
none-Rows a b (r ∷ rs) (s ∷ ss) h k u = elim (Bool-cases (same_family b s)) [
  | inr e ↦ rw e (none-Rows a b rs ss h k.1 (ground (arith, u)))
  | inl e ↦
      let same_b : b ≡ a = h (ground (arith, e)) in
      let same_s : s ≡ r = k.0 (ground (arith, e)) in
      absurd (ground (arith, u, rw (same_b, same_s) at e))
]

pub IsUnique-Shrinks :
    (rs ss : List RefreshToken)
    → Rows Shrinks rs ss
    → IsUnique same_family rs
    → IsUnique same_family ss
IsUnique-Shrinks [] [] k u = tt
IsUnique-Shrinks [] (s ∷ ss) k u = absurd k
IsUnique-Shrinks (r ∷ rs) [] k u = absurd k
IsUnique-Shrinks (r ∷ rs) (s ∷ ss) k u =
    (none-Rows r s rs ss k.0 k.1 u.0, IsUnique-Shrinks rs ss k.1 u.1)

pub revoked-Shrinks :
    (p : RefreshToken → Bool) (now : ℕ) (rs : List RefreshToken)
    → Rows Shrinks rs (update_where p (revoked_row now) rs)
revoked-Shrinks p now rs =
    Rows-update_where (λ r. Unit {0}) Shrinks p (revoked_row now) rs (λ r _ e live. absurd (cc))
      (λ r _ e live. refl) (All-unit rs)

-- A token of a family that no token has.
pub fresh_family :
    (t : RefreshToken) (rs : List RefreshToken)
    → exists (λ r. r.family_id == t.family_id) rs ≡ false
    → exists (same_family t) rs ≡ false
unfolding exists
fresh_family t [] h = refl
fresh_family t (r ∷ rs) h = ground (arith, fresh_family t rs)

unchanged : (db db' : Db) → db ≡ db' → Rows Shrinks db.refresh_tokens db'.refresh_tokens
unchanged db db' same =
    subst (λ d. Rows Shrinks db.refresh_tokens d.refresh_tokens) same
      (Rows-refl Shrinks db.refresh_tokens (λ r live. refl))

module _ (auth : Auth) (now : ℕ) (draw : Draw) where
  -- Once the token that was presented is revoked, its family has no live token.
  Rotates-IsSingle :
      (token_hash : ℕ) (db : Db) (s : Session) (db' : Db)
      → IsSingle db
      → Rotates auth now draw token_hash db s db'
      → IsSingle db'
  unfolding find_refresh_token_by_hash
  Rotates-IsSingle token_hash db s db' single k = rw k.state (
    All-exists_none (same_family new) (update_where p (revoked_row now) db.refresh_tokens) (
        All-update_where (λ r. at r ≡ true → q r ≡ true) (λ r. same_family new r ≡ false) p
          (revoked_row now) db.refresh_tokens (λ r _ e. refl) (λ r known e. ground (arith, known))
          consumed),
    IsUnique-Shrinks db.refresh_tokens (update_where p (revoked_row now) db.refresh_tokens)
        (revoked-Shrinks p now db.refresh_tokens) single,
  )
    where
      new : RefreshToken
      new = issued auth now draw k.user k.t.family_id

      p : RefreshToken → Bool
      p r = r.token_hash == token_hash && is_live r

      at : RefreshToken → Bool
      at r = is_live r && r.family_id == k.t.family_id

      q : RefreshToken → Bool
      q r = is_live r && r.family_id == k.t.family_id && r.token_hash == token_hash

      consumed : All (λ r. at r ≡ true → q r ≡ true) db.refresh_tokens
      consumed =
          IsUnique-All same_family at q db.refresh_tokens (λ r t m n. ground arith)
            (λ r m. ground arith) single
            (first-exists (λ r. r.token_hash == token_hash) q db.refresh_tokens k.t k.found
              (ground (
                arith,
                k.live,
                ==_refl k.t.family_id,
                first-meets (λ r. r.token_hash == token_hash) db.refresh_tokens k.t k.found,
              )))

  -- A refresh that issues no token makes no token live.
  rotate-Shrinks :
      (token_hash : ℕ) (t : RefreshToken) (db : Db) (o : Outcome) (db' : Db)
      → rotate auth now draw token_hash t db ≡ ok (o, db')
      → (Rows Shrinks db.refresh_tokens db'.refresh_tokens) ⊎ ((s : Session) × (o ≡ success s))
  unfolding rotate
  rotate-Shrinks token_hash t db o db' h = elim (Option-cases t.revoked_at) [
    | inr (at, revoked) ↦ inl (
        subst (λ d. Rows Shrinks db.refresh_tokens d.refresh_tokens)
          (ap (λ r. r.1) (ok-injective (rw (revoked, ◌>>=◌) at h)))
          (revoked-Shrinks (λ r. r.family_id == t.family_id && is_live r) now db.refresh_tokens))
    | inl unrevoked ↦
        let h₁ = rw (unrevoked, ◌>>=◌) at h in
        elim (Bool-cases (leb t.expires_at now)) [
          | inl late ↦
              inl (unchanged db db' (ap (λ r. r.1) (ok-injective (rw (late, ◌>>=◌) at h₁))))
          | inr fresh ↦
              let h₂ = rw (fresh, ◌>>=◌) at h₁ in
              elim (Option-cases (find_user_by_id t.user_id db)) [
                | inl missing ↦
                    inl
                      (unchanged db db' (ap (λ r. r.1) (ok-injective (rw (missing, ◌>>=◌) at h₂))))
                | inr (user, known) ↦
                    let h₃ = rw (known, ◌>>=◌) at h₂ in
                    elim (issue_token_pair_cases auth now draw user t.family_id (record db {
                      refresh_tokens =
                          update_where (λ r. r.token_hash == token_hash && is_live r)
                            (revoked_row now) db.refresh_tokens;
                    })) [
                      | inl (e, refused) ↦ absurd (cc (rw (refused, ◌>>=◌) at h₃))
                      | inr (unused, made) ↦ inr (
                        session_of auth now draw user t.family_id,
                        sym (ap (λ r. r.0) (ok-injective (rw (made, ◌>>=◌) at h₃))),
                      )
                    ]
              ]
        ]
  ]

  pub refresh_transaction-IsSingle :
      (token_hash : ℕ) (db : Db) (o : Outcome) (db' : Db)
      → IsSingle db
      → refresh_transaction auth now draw token_hash db ≡ ok (o, db')
      → IsSingle db'
  unfolding refresh_transaction
  refresh_transaction-IsSingle token_hash db o db' single h =
      elim (Option-cases (find_refresh_token_by_hash token_hash db)) [
        | inl missing ↦
            subst IsSingle (ap (λ r. r.1) (ok-injective (rw (missing, ◌>>=◌) at h))) single
        | inr (t, found) ↦ elim (rotate-Shrinks token_hash t db o db' (rw (found, ◌>>=◌) at h)) [
          | inl shrinks ↦ IsUnique-Shrinks db.refresh_tokens db'.refresh_tokens shrinks single
          | inr (s, succeeded) ↦ Rotates-IsSingle token_hash db s db' single (
              refresh_transaction-Rotates auth now draw token_hash db s db' (
                subst (λ o. refresh_transaction auth now draw token_hash db ≡ ok (o, db')) succeeded
                  h))
        ]
      ]
