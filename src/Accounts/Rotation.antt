-- ===== src/Accounts/Rotation.antt =====
-- `refreshTokens`: what a rotation does to the table of tokens, and what a token that comes back
-- after its rotation sets off.
use ticket_booking_system.Common.{
  ℕ, ◌*◌, ◌≡◌, refl, sym, ap, ◌∙◌, ◌⊎◌, inl, inr, Bool, true, false, ◌&&◌, ◌||◌, some, ◌∷◌, leb,
  ◌==◌, Bool-cases, Option-cases,
}
use ticket_booking_system.Errors.{
  Error, ok, err, ok-injective, Result-cases, sql, unique_violation, foreign_key_violation,
}
use ticket_booking_system.Sql.{exists, update_where}
use ticket_booking_system.Db.{Db, User, RefreshToken}
use ticket_booking_system.Db.Tx.{◌>>=◌, finish}
use ticket_booking_system.Accounts.{
  Auth, Draw, Session, Outcome, success, reuse, expired, invalid, insert_refresh_token, new_token,
  is_live, revoked_row, issue_token_pair, session_of, refresh_token_of, rotate, refresh_transaction,
  refresh_tokens, find_refresh_token_by_hash, find_user_by_id, settle_outcome,
}

pair_path : {A B : Type 0} {a a' : A} {b b' : B} → a ≡ a' → b ≡ b' → ◌≡◌ {A = A × B} (a, b) (a', b')
pair_path p q = λ i. (p i, q i)

success-injective : {s s' : Session} → success s ≡ success s' → s ≡ s'
success-injective h = cc

settle_outcome-ok : (o : Outcome) (s : Session) → settle_outcome (ok o) ≡ ok s → o ≡ success s
unfolding settle_outcome
settle_outcome-ok invalid s h = absurd (cc)
settle_outcome-ok reuse s h = absurd (cc)
settle_outcome-ok expired s h = absurd (cc)
settle_outcome-ok (success s') s h = cc

module _ (auth : Auth) (now : ℕ) (draw : Draw) where
  -- The row that a pair of tokens leaves.
  abbrev pub issued : User → ℕ → RefreshToken
  issued user family_id =
      new_token now draw.token_id user.id
        (auth.sha256 (refresh_token_of auth now draw user family_id)) family_id
        (auth.decode_exp (refresh_token_of auth now draw user family_id) * 1000000)

  -- What the primary key and the unique digest compare.
  abbrev pub clashes : User → ℕ → RefreshToken → Bool
  clashes user family_id r =
      r.id == draw.token_id
      || r.token_hash == auth.sha256 (refresh_token_of auth now draw user family_id)

  pub issue_token_pair_unused :
      (user : User) (family_id : ℕ) (db : Db)
      → exists (clashes user family_id) db.refresh_tokens ≡ false
      → exists (λ u. u.id == user.id) db.users ≡ true
      → issue_token_pair auth now draw user family_id db
        ≡ ok (
          session_of auth now draw user family_id,
          record db { refresh_tokens = issued user family_id ∷ db.refresh_tokens },
        )
  unfolding issue_token_pair insert_refresh_token
  issue_token_pair_unused user family_id db fresh known =
      rw (fresh, ◌>>=◌, insert_refresh_token) (rw (known, ◌>>=◌, insert_refresh_token) refl)

  pub issue_token_pair_cases :
      (user : User) (family_id : ℕ) (db : Db)
      → ((e : Error) × (issue_token_pair auth now draw user family_id db ≡ err e))
        ⊎ (exists (clashes user family_id) db.refresh_tokens ≡ false)
          × (issue_token_pair auth now draw user family_id db
              ≡ ok (
                session_of auth now draw user family_id,
                record db { refresh_tokens = issued user family_id ∷ db.refresh_tokens },
              ))
  unfolding issue_token_pair insert_refresh_token
  issue_token_pair_cases user family_id db =
      elim (Bool-cases (exists (clashes user family_id) db.refresh_tokens)) [
        | inl used ↦ inl (sql unique_violation, rw (used, ◌>>=◌, insert_refresh_token) refl)
        | inr fresh ↦ elim (Bool-cases (exists (λ u. u.id == user.id) db.users)) [
          | inl known ↦ inr (fresh, issue_token_pair_unused user family_id db fresh known)
          | inr unknown ↦ inl (
            sql foreign_key_violation,
            rw (fresh, ◌>>=◌, insert_refresh_token)
                (rw (unknown, ◌>>=◌, insert_refresh_token) refl),
          )
        ]
      ]

  -- What a refresh that succeeds has found and left.
  pub record Rotates (token_hash : ℕ) (db : Db) (s : Session) (db' : Db) : Type 0 where
    pub t : RefreshToken
    pub user : User
    pub found : find_refresh_token_by_hash token_hash db ≡ some t
    pub live : is_live t ≡ true
    pub fresh : leb t.expires_at now ≡ false
    pub unused :
        exists (clashes user t.family_id) (
          update_where
            (λ r. r.token_hash == token_hash && is_live r)
            (revoked_row now)
            db.refresh_tokens)
        ≡ false
    pub session : s ≡ session_of auth now draw user t.family_id
    pub state : db' ≡ record db {
      refresh_tokens =
          issued user t.family_id
          ∷ update_where
              (λ r. r.token_hash == token_hash && is_live r)
              (revoked_row now)
              db.refresh_tokens;
    }

  rotate-success :
      (token_hash : ℕ) (t : RefreshToken) (db : Db) (s : Session) (db' : Db)
      → find_refresh_token_by_hash token_hash db ≡ some t
      → rotate auth now draw token_hash t db ≡ ok (success s, db')
      → Rotates token_hash db s db'
  unfolding rotate
  rotate-success token_hash t db s db' found h = elim (Option-cases t.revoked_at) [
    | inr (at, revoked) ↦ absurd (cc (rw (revoked, ◌>>=◌) at h))
    | inl unrevoked ↦
        let h₁ = rw (unrevoked, ◌>>=◌) at h in
        elim (Bool-cases (leb t.expires_at now)) [
          | inl late ↦ absurd (cc (rw (late, ◌>>=◌) at h₁))
          | inr fresh ↦
              let h₂ = rw (fresh, ◌>>=◌) at h₁ in
              elim (Option-cases (find_user_by_id t.user_id db)) [
                | inl missing ↦ absurd (cc (rw (missing, ◌>>=◌) at h₂))
                | inr (user, known) ↦
                    let h₃ = rw (known, ◌>>=◌) at h₂ in
                    elim (issue_token_pair_cases user t.family_id (record db {
                      refresh_tokens =
                          update_where (λ r. r.token_hash == token_hash && is_live r)
                            (revoked_row now) db.refresh_tokens;
                    })) [
                      | inl (e, refused) ↦ absurd (cc (rw (refused, ◌>>=◌) at h₃))
                      | inr (unused, made) ↦
                          let done = ok-injective (rw (made, ◌>>=◌) at h₃) in
                          record {
                            t = t;
                            user = user;
                            found = found;
                            live = rw unrevoked refl;
                            fresh = fresh;
                            unused = unused;
                            session = success-injective (sym (ap (λ r. r.0) done));
                            state = sym (ap (λ r. r.1) done);
                          }
                    ]
              ]
        ]
  ]

  pub refresh_transaction-Rotates :
      (token_hash : ℕ) (db : Db) (s : Session) (db' : Db)
      → refresh_transaction auth now draw token_hash db ≡ ok (success s, db')
      → Rotates token_hash db s db'
  unfolding refresh_transaction
  refresh_transaction-Rotates token_hash db s db' h =
      elim (Option-cases (find_refresh_token_by_hash token_hash db)) [
        | inl missing ↦ absurd (cc (rw (missing, ◌>>=◌) at h))
        | inr (t, found) ↦ rotate-success token_hash t db s db' found (rw (found, ◌>>=◌) at h)
      ]

  pub refresh_tokens-Rotates :
      (raw : ℕ) (db : Db) (s : Session) (db' : Db)
      → refresh_tokens auth now draw (some raw) db ≡ (ok s, db')
      → Rotates (auth.sha256 raw) db s db'
  unfolding refresh_tokens settle_outcome
  refresh_tokens-Rotates raw db s db' h = elim (Bool-cases (auth.verify_refresh draw.clock raw)) [
    | inr forged ↦ absurd (cc (ap (λ r. r.0) (rw forged at h)))
    | inl genuine ↦
        let h₁ = rw genuine at h in
        elim (Result-cases (refresh_transaction auth now draw (auth.sha256 raw) db)) [
          | inl (e, failed) ↦ absurd (cc (ap (λ r. r.0) (rw (failed, finish) at h₁)))
          | inr ((o, db₁), ran) ↦
              let h₂ = rw (ran, finish) at h₁ in
              refresh_transaction-Rotates (auth.sha256 raw) db s db' (
                ran
                ∙ ap ok (pair_path (settle_outcome-ok o s (ap (λ r. r.0) h₂)) (ap (λ r. r.1) h₂)))
        ]
  ]
