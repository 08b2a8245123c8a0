-- ===== src/Sql/Counts.antt =====
-- How many rows a SELECT reports, and what follows where two tests report as many.
use ticket_booking_system.Common.{
  ◌≤◌, ◌≡◌, inl, inr, Bool, true, List, [], ◌∷◌, arith, refl, some, some-injective, Bool-cases,
  length, All,
}
use ticket_booking_system.Sql.{select, exists, first}

module _ {ℓ} {A : Type ℓ} where
  pub length-select-le :
      (p q : A → Bool) (rs : List A)
      → ((r : A) → q r ≡ true → p r ≡ true)
      → length (select q rs) ≤ length (select p rs)
  unfolding select
  length-select-le p q [] f = omega arith
  length-select-le p q (r ∷ rs) f = ground (arith, f r, length-select-le p q rs f)

  -- A narrower test that reports no fewer rows reports the same rows.
  pub All-select_full :
      (p q : A → Bool) (rs : List A)
      → ((r : A) → q r ≡ true → p r ≡ true)
      → length (select p rs) ≤ length (select q rs)
      → All (λ r. p r ≡ true → q r ≡ true) rs
  unfolding select
  All-select_full p q [] f h = tt
  All-select_full p q (r ∷ rs) f h = (
    ground (arith, length-select-le p q rs f),
    All-select_full p q rs f (ground (arith, f r, length-select-le p q rs f)),
  )

  pub exists-first :
      (p : A → Bool) (rs : List A) → exists p rs ≡ true → (r : A) × (first p rs ≡ some r)
  unfolding exists first
  exists-first p [] h = absurd (cc)
  exists-first p (r ∷ rs) h = elim (Bool-cases (p r)) [
    | inl e ↦ (r, rw e)
    | inr e ↦ rw e (exists-first p rs (rw e at h))
  ]

  -- The row that is found meets the test.
  pub first-meets : (p : A → Bool) (rs : List A) (r : A) → first p rs ≡ some r → p r ≡ true
  unfolding first
  first-meets p [] r h = absurd (cc)
  first-meets p (x ∷ rs) r h = elim (Bool-cases (p x)) [
    | inl here ↦ let same : x ≡ r = some-injective (rw here at h) in rw (← same) here
    | inr past ↦ first-meets p rs r (rw past at h)
  ]

  -- The row that is found is in the table.
  pub first-exists :
      (p q : A → Bool) (rs : List A) (r : A) → first p rs ≡ some r → q r ≡ true → exists q rs ≡ true
  unfolding first exists
  first-exists p q [] r h m = absurd (cc)
  first-exists p q (x ∷ rs) r h m = elim (Bool-cases (p x)) [
    | inl here ↦ let same : x ≡ r = some-injective (rw here at h) in rw same (rw m refl)
    | inr past ↦ ground (arith, first-exists p q rs r (rw past at h) m)
  ]
