-- ===== src/Sql/Keys.antt =====
-- Ids that a SELECT reports: which they are, and that a unique key makes them distinct.
use ticket_booking_system.Common.{
  ℕ, ◌≡◌, refl, ◌∙◌, inl, inr, Bool, true, false, ◌&&◌, List, [], ◌∷◌, map, arith, ◌==◌, Bool-cases,
  contains, IsDistinct, Within, length-Within, length, length-map, ◌≤◌, ==→eq, All, ==_refl,
  All-mono,
}
use ticket_booking_system.Sql.{select, exists, update_where}

module _ {ℓ} {A : Type ℓ} where
  pub exists_mono :
      (p q : A → Bool) (rs : List A)
      → ((r : A) → p r ≡ true → q r ≡ true)
      → exists q rs ≡ false
      → exists p rs ≡ false
  unfolding exists
  exists_mono p q [] f h = refl
  exists_mono p q (r ∷ rs) f h = ground (arith, f r, exists_mono p q rs f)

  -- An id is reported exactly if a selected row has it.
  pub contains-select :
      (key : A → ℕ) (p : A → Bool) (rs : List A) (a : ℕ)
      → contains (map key (select p rs)) a ≡ exists (λ r. p r && key r == a) rs
  unfolding select exists
  contains-select key p [] a = refl
  contains-select key p (r ∷ rs) a = ground (arith, contains-select key p rs a)

  -- No two rows meet `same`: a UNIQUE constraint.
  abbrev pub IsUnique : (A → A → Bool) → List A → Type 0
  IsUnique same [] = Unit
  IsUnique same (r ∷ rs) = (exists (same r) rs ≡ false) × IsUnique same rs

  -- Where rows of one key that are selected are the same by the constraint, the ids are distinct.
  pub select-IsDistinct :
      (key : A → ℕ) (p : A → Bool) (same : A → A → Bool) (rs : List A)
      → ((r t : A) → p r ≡ true → (p t && key t == key r) ≡ true → same r t ≡ true)
      → IsUnique same rs
      → IsDistinct (map key (select p rs))
  unfolding select
  select-IsDistinct key p same [] f u = tt
  select-IsDistinct key p same (r ∷ rs) f u = elim (Bool-cases (p r)) [
    | inl e ↦ rw e (
      contains-select key p rs (key r)
          ∙ exists_mono (λ t. p t && key t == key r) (same r) rs (λ t. f r t e) u.0,
      select-IsDistinct key p same rs f u.1,
    )
    | inr e ↦ rw e (select-IsDistinct key p same rs f u.1)
  ]

  -- An UPDATE that keeps what the constraint compares keeps the constraint.
  pub exists-update_where :
      (q : A → Bool) (p : A → Bool) (f : A → A) (rs : List A)
      → ((r : A) → q (f r) ≡ q r)
      → exists q (update_where p f rs) ≡ exists q rs
  unfolding exists update_where
  exists-update_where q p f [] same = refl
  exists-update_where q p f (r ∷ rs) same =
      ground (arith, same r, exists-update_where q p f rs same)

  pub exists-All : (p : A → Bool) (rs : List A) → exists p rs ≡ false → All (λ r. p r ≡ false) rs
  unfolding exists
  exists-All p [] h = tt
  exists-All p (r ∷ rs) h = (ground arith, exists-All p rs (ground arith))

  -- Under a unique key, a row that has the key and meets `q` is the only row that has the key.
  pub IsUnique-All :
      (same : A → A → Bool) (at q : A → Bool) (rs : List A)
      → ((r t : A) → at r ≡ true → at t ≡ true → same r t ≡ true)
      → ((r : A) → q r ≡ true → at r ≡ true)
      → IsUnique same rs
      → exists q rs ≡ true
      → All (λ r. at r ≡ true → q r ≡ true) rs
  unfolding exists
  IsUnique-All same at q [] f g u h = tt
  IsUnique-All same at q (r ∷ rs) f g u h = elim (Bool-cases (q r)) [
    | inl e ↦ (
      λ _. e,
      All-mono (λ t. same r t ≡ false) (λ t. at t ≡ true → q t ≡ true) rs
          (λ t differ k. ground (arith, f r t (g r e) k)) (exists-All (same r) rs u.0),
    )
    | inr e ↦ (
      λ k. ground (arith, h, exists_mono q (same r) rs (λ t m. f r t k (g t m)) u.0),
      IsUnique-All same at q rs f g u.1 (ground arith),
    )
  ]

  -- An UPDATE by a test that no row meets changes nothing.
  pub update_where-exists_none :
      (p : A → Bool) (f : A → A) (rs : List A) → exists p rs ≡ false → update_where p f rs ≡ rs
  unfolding exists update_where
  update_where-exists_none p f [] h = refl
  update_where-exists_none p f (r ∷ rs) h = ground (arith, update_where-exists_none p f rs)

  -- Every selected row has its id among the reported ones.
  pub All-contains-select :
      (key : A → ℕ) (p : A → Bool) (rs : List A) (ids : List ℕ)
      → ((a : ℕ) → contains (map key (select p rs)) a ≡ true → contains ids a ≡ true)
      → All (λ r. p r ≡ true → contains ids (key r) ≡ true) rs
  unfolding select
  All-contains-select key p [] ids f = tt
  All-contains-select key p (r ∷ rs) ids f = (
    λ h. f (key r) (rw h (rw (==_refl (key r)) refl)),
    All-contains-select key p rs ids (λ a m. f a (ground (arith, m))),
  )

  -- An UPDATE that takes its rows out of its own test leaves no row that meets it.
  pub exists-update_where_done :
      (p : A → Bool) (f : A → A) (rs : List A)
      → ((r : A) → p r ≡ true → p (f r) ≡ false)
      → exists p (update_where p f rs) ≡ false
  unfolding exists update_where
  exists-update_where_done p f [] done = refl
  exists-update_where_done p f (r ∷ rs) done = elim (Bool-cases (p r)) [
    | inl e ↦ rw e (rw (done r e) (exists-update_where_done p f rs done))
    | inr e ↦ rw e (rw e (exists-update_where_done p f rs done))
  ]

  -- Rows selected by a list of ids report ids of the list.
  pub select-Within :
      (key : A → ℕ) (ids : List ℕ) (rs : List A)
      → Within (map key (select (λ r. contains ids (key r)) rs)) ids
  unfolding select
  select-Within key ids [] a m = absurd (cc)
  select-Within key ids (r ∷ rs) a m = ground (arith, select-Within key ids rs a, ==→eq (key r) a)

  -- Under a unique key they are no more than the ids.
  pub length-select-Within :
      (key : A → ℕ) (same : A → A → Bool) (ids : List ℕ) (rs : List A)
      → ((r t : A) → (key t == key r) ≡ true → same r t ≡ true)
      → IsUnique same rs
      → length (select (λ r. contains ids (key r)) rs) ≤ length ids
  length-select-Within key same ids rs f u = omega (
    arith,
    length-map key (select (λ r. contains ids (key r)) rs),
    length-Within (map key (select (λ r. contains ids (key r)) rs)) ids
        (select-IsDistinct key (λ r. contains ids (key r)) same rs (λ r t p q. f r t (ground arith))
          u)
        (select-Within key ids rs),
  )

  pub All-exists_none :
      (p : A → Bool) (rs : List A) → All (λ r. p r ≡ false) rs → exists p rs ≡ false
  unfolding exists
  All-exists_none p [] h = refl
  All-exists_none p (r ∷ rs) h = rw h.0 (All-exists_none p rs h.1)
