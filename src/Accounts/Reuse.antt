-- ===== src/Accounts/Reuse.antt =====
-- A refresh token that comes back after its rotation: the whole family is revoked, and the
-- revocation is committed although the call fails.
use ticket_booking_system.Common.{
  ℕ, ◌≡◌, refl, ap, inl, inr, true, false, ◌&&◌, some, arith, if◌then◌else◌, ◌∙◌, ◌==◌,
  Option-cases, Bool-cases, All, All-unit, ==_refl,
}
use ticket_booking_system.Errors.{ok, err, refresh_invalid}
use ticket_booking_system.Sql.{exists, update_where, first}
use ticket_booking_system.Sql.Laws.{first-update_where, All-update_where}
use ticket_booking_system.Sql.Counts.{first-meets, first-exists}
use ticket_booking_system.Db.{Db, RefreshToken}
use ticket_booking_system.Db.Tx.{◌>>=◌, finish}
use ticket_booking_system.Accounts.{
  Auth, Draw, Session, is_live, revoked_row, rotate, reuse, refresh_transaction, refresh_tokens,
  find_refresh_token_by_hash, refresh_token_of, settle_outcome,
}
use ticket_booking_system.Accounts.Rotation.{issued, clashes, Rotates, refresh_tokens-Rotates}

-- No token of the family can be used.
abbrev pub IsRevoked : ℕ → Db → Type 0
IsRevoked family_id db =
    All (λ t. (t.family_id == family_id) ≡ true → is_live t ≡ false) db.refresh_tokens

abbrev pub family_revoked : ℕ → ℕ → Db → Db
family_revoked now family_id db = record db {
  refresh_tokens =
      update_where (λ t. t.family_id == family_id && is_live t) (revoked_row now) db.refresh_tokens;
}

family_revoked-IsRevoked :
    (now family_id : ℕ) (db : Db) → IsRevoked family_id (family_revoked now family_id db)
family_revoked-IsRevoked now family_id db =
    All-update_where (λ t. Unit {0}) (λ t. (t.family_id == family_id) ≡ true → is_live t ≡ false)
      (λ t. t.family_id == family_id && is_live t) (revoked_row now) db.refresh_tokens
      (λ t _ e _. refl) (λ t _ e m. ground arith) (All-unit db.refresh_tokens)

pub reuse_detected :
    (auth : Auth) (now : ℕ) (draw : Draw) (token_hash : ℕ) (db : Db) (t : RefreshToken)
    → find_refresh_token_by_hash token_hash db ≡ some t
    → is_live t ≡ false
    → refresh_transaction auth now draw token_hash db
      ≡ ok (reuse, family_revoked now t.family_id db)
unfolding refresh_transaction rotate
reuse_detected auth now draw token_hash db t found dead = elim (Option-cases t.revoked_at) [
  | inl unrevoked ↦ absurd (cc (rw unrevoked at dead))
  | inr (at, revoked) ↦ rw (found, ◌>>=◌) (rw (revoked, ◌>>=◌, rotate) refl)
]

-- A token that is found revoked revokes its family and is refused.
revoked_again :
    (auth : Auth) (now : ℕ) (draw : Draw) (raw : ℕ) (db : Db) (t : RefreshToken)
    → auth.verify_refresh draw.clock raw ≡ true
    → find_refresh_token_by_hash (auth.sha256 raw) db ≡ some t
    → is_live t ≡ false
    → refresh_tokens auth now draw (some raw) db
      ≡ (err refresh_invalid, family_revoked now t.family_id db)
unfolding refresh_tokens settle_outcome
revoked_again auth now draw raw db t genuine found dead =
    rw genuine (rw (reuse_detected auth now draw (auth.sha256 raw) db t found dead, finish) refl)

-- A token that is found revoked is refused, whether its signature still verifies or not.
revoked_refused :
    (auth : Auth) (now : ℕ) (draw : Draw) (raw : ℕ) (db : Db) (t : RefreshToken)
    → find_refresh_token_by_hash (auth.sha256 raw) db ≡ some t
    → is_live t ≡ false
    → (refresh_tokens auth now draw (some raw) db).0 ≡ err refresh_invalid
unfolding refresh_tokens
revoked_refused auth now draw raw db t found dead =
    elim (Bool-cases (auth.verify_refresh draw.clock raw)) [
      | inr forged ↦ rw forged refl
      | inl genuine ↦ ap (λ r. r.0) (revoked_again auth now draw raw db t genuine found dead)
    ]

-- The new token of a rotation is found revoked once its family is.
issued_found :
    (auth : Auth) (now later : ℕ) (draw : Draw) (raw : ℕ) (db : Db) (s : Session) (db' : Db)
    (k : Rotates auth now draw (auth.sha256 raw) db s db')
    → find_refresh_token_by_hash
        (auth.sha256 s.refresh_token)
        (family_revoked later k.t.family_id db')
      ≡ some (revoked_row later (issued auth now draw k.user k.t.family_id))
unfolding find_refresh_token_by_hash first update_where
issued_found auth now later draw raw db s db' k =
    rw (k.session, k.state)
      (rw
        (
          ==_refl k.t.family_id,
          ==_refl (auth.sha256 (refresh_token_of auth now draw k.user k.t.family_id)),
        )
        refl)

-- The token is found again, revoked: the digest of the new token is another one.
rotated_found :
    (auth : Auth) (now : ℕ) (draw : Draw) (raw : ℕ) (db : Db) (s : Session) (db' : Db)
    (k : Rotates auth now draw (auth.sha256 raw) db s db')
    → find_refresh_token_by_hash (auth.sha256 raw) db' ≡ some (revoked_row now k.t)
unfolding find_refresh_token_by_hash first
rotated_found auth now draw raw db s db' k =
    rw k.state (elim (Bool-cases (k_hash == auth.sha256 raw)) [
      | inl same ↦ absurd (cc (k.unused, clash same))
      | inr other ↦ rw other spent
    ])
  where
    k_hash : ℕ
    k_hash = auth.sha256 (refresh_token_of auth now draw k.user k.t.family_id)

    hit : (k.t.token_hash == auth.sha256 raw) ≡ true
    hit = first-meets (λ r. r.token_hash == auth.sha256 raw) db.refresh_tokens k.t k.found

    kept :
        first
          (λ r. r.token_hash == auth.sha256 raw)
          (update_where
            (λ r. r.token_hash == auth.sha256 raw && is_live r)
            (revoked_row now)
            db.refresh_tokens)
        ≡ some
            (if k.t.token_hash == auth.sha256 raw && is_live k.t then revoked_row now k.t else k.t)
    kept =
        first-update_where (λ r. r.token_hash == auth.sha256 raw)
          (λ r. r.token_hash == auth.sha256 raw && is_live r) (revoked_row now) db.refresh_tokens
          k.t (λ r. refl) k.found

    spent :
        first
          (λ r. r.token_hash == auth.sha256 raw)
          (update_where
            (λ r. r.token_hash == auth.sha256 raw && is_live r)
            (revoked_row now)
            db.refresh_tokens)
        ≡ some (revoked_row now k.t)
    spent = kept ∙ rw (hit, k.live) refl

    clash :
        (k_hash == auth.sha256 raw) ≡ true
        → exists (clashes auth now draw k.user k.t.family_id) (
            update_where
              (λ r. r.token_hash == auth.sha256 raw && is_live r)
              (revoked_row now)
              db.refresh_tokens)
          ≡ true
    clash same =
        first-exists (λ r. r.token_hash == auth.sha256 raw)
          (clashes auth now draw k.user k.t.family_id) _ (revoked_row now k.t) spent
          (ground (arith, same, hit))

module _ (auth : Auth) (now : ℕ) (draw : Draw) (raw : ℕ) (db : Db) (s : Session) (db' : Db)
    (later : ℕ) (draw' : Draw) (last : ℕ) (draw'' : Draw) where
  -- After a refresh that succeeds, the same token presented again while its signature still
  -- verifies is refused, and the refusal commits: no token of the family is live any more, and the
  -- token that the refresh issued is refused too.
  pub refresh_reuse :
      refresh_tokens auth now draw (some raw) db ≡ (ok s, db')
      → auth.verify_refresh draw'.clock raw ≡ true
      → let (result, after) = refresh_tokens auth later draw' (some raw) db' in
        (result ≡ err refresh_invalid)
        × ((t : RefreshToken) × (find_refresh_token_by_hash (auth.sha256 raw) db ≡ some t)
            × IsRevoked t.family_id after)
        × ((refresh_tokens auth last draw'' (some s.refresh_token) after).0 ≡ err refresh_invalid)
  unfolding find_refresh_token_by_hash
  refresh_reuse h genuine =
      let k = refresh_tokens-Rotates auth now draw raw db s db' h in
      let again = rotated_found auth now draw raw db s db' k in
      let refused =
        revoked_again auth later draw' raw db' (revoked_row now k.t) genuine again refl in
      rw refused (
        refl,
        (k.t, k.found, family_revoked-IsRevoked later k.t.family_id db'),
        revoked_refused auth last draw'' s.refresh_token (family_revoked later k.t.family_id db')
            (revoked_row later (issued auth now draw k.user k.t.family_id))
            (issued_found auth now later draw raw db s db' k) refl,
      )
