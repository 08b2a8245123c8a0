-- ===== src/Sql/Inserts.antt =====
-- An INSERT of several rows against the UNIQUE constraint of the table.
use ticket_booking_system.Common.{
  ◌≡◌, refl, ap, inl, inr, Bool, true, false, none, some, List, [], ◌∷◌, ◌++◌, arith, Bool-cases,
  Option-cases, some-injective, map, length,
}
use mathlib.Core.Path.{subst}
use ticket_booking_system.Sql.{exists, insert_rows, select}
use ticket_booking_system.Sql.Keys.{IsUnique}

module _ {ℓ} {A : Type ℓ} (clash : A → A → Bool) (table : List A) where
  -- What the insert leaves, and that no rows of it clash.
  pub insert_rows_lem :
      (rs after : List A)
      → insert_rows clash rs table ≡ some after
      → (after ≡ rs ++ table) × (IsUnique clash table → IsUnique clash after)
  unfolding insert_rows
  insert_rows_lem [] after h =
      let same = some-injective h in (rw (← same) refl, λ u. subst (IsUnique clash) same u)
  insert_rows_lem (r ∷ rs) after h = elim (Option-cases (insert_rows clash rs table)) [
    | inl refused ↦ absurd (cc (rw refused at h))
    | inr (t, inserted) ↦ elim (Bool-cases (exists (clash r) t)) [
      | inl clashes ↦ absurd (cc (rw (inserted, clashes) at h))
      | inr fresh ↦
          let same = some-injective (rw (inserted, fresh) at h) in
          let (rows, unique) = insert_rows_lem rs t inserted in
          (rw (← same) (rw rows refl), λ u. subst (IsUnique clash) same (fresh, unique u))
    ]
  ]

  pub insert_rows-IsUnique :
      (rs : List A) → IsUnique clash (rs ++ table) → insert_rows clash rs table ≡ some (rs ++ table)
  unfolding insert_rows
  insert_rows-IsUnique [] u = refl
  insert_rows-IsUnique (r ∷ rs) u = rw (insert_rows-IsUnique rs u.1) (rw u.0 refl)

  exists-append : (p : A → Bool) (rs ss : List A) → exists p ss ≡ true → exists p (rs ++ ss) ≡ true
  unfolding exists
  exists-append p [] ss h = h
  exists-append p (r ∷ rs) ss h = ground (arith, exists-append p rs ss h)

  -- A row that clashes with the table makes the statement fail.
  pub insert_rows-clash :
      (r : A) (rs : List A)
      → exists (clash r) table ≡ true
      → insert_rows clash (r ∷ rs) table ≡ none
  unfolding insert_rows
  insert_rows-clash r rs clashes = elim (Option-cases (insert_rows clash rs table)) [
    | inl refused ↦ rw refused refl
    | inr (t, inserted) ↦
        let rows : t ≡ rs ++ table = (insert_rows_lem rs t inserted).0 in
        let hit : exists (clash r) t ≡ true = rw rows (exists-append (clash r) rs table clashes) in
        rw inserted (rw hit refl)
  ]

-- What a SELECT finds among inserted rows that all meet its test, where it found none before.
pub select-inserted {ℓ κ} :
    {A : Type ℓ} {B : Type κ} (p : A → Bool) (f : B → A) (bs : List B) (table : List A)
    → ((b : B) → p (f b) ≡ true)
    → select p table ≡ []
    → select p (map f bs ++ table) ≡ map f bs
unfolding select
select-inserted p f [] table meets none_before = none_before
select-inserted p f (b ∷ bs) table meets none_before =
    rw (meets b) (ap (λ rs. f b ∷ rs) (select-inserted p f bs table meets none_before))

-- What a SELECT finds beside inserted rows that do not meet its test.
pub select-others {ℓ κ} :
    {A : Type ℓ} {B : Type κ} (p : A → Bool) (f : B → A) (bs : List B) (table : List A)
    → ((b : B) → p (f b) ≡ false)
    → select p (map f bs ++ table) ≡ select p table
unfolding select
select-others p f [] table misses = refl
select-others p f (b ∷ bs) table misses = rw (misses b) (select-others p f bs table misses)

pub length-none {ℓ} : {A : Type ℓ} (rs : List A) → length rs ≡ 0 → rs ≡ []
length-none [] h = refl
length-none (r ∷ rs) h = absurd (omega arith)

-- An inserted row, by a value that its source has.
pub exists-inserted {ℓ κ} :
    {A : Type ℓ} {B : Type κ} (p : A → Bool) (q : B → Bool) (f : B → A) (bs : List B)
    (table : List A)
    → ((b : B) → q b ≡ true → p (f b) ≡ true)
    → exists q bs ≡ true
    → exists p (map f bs ++ table) ≡ true
unfolding exists
exists-inserted p q f [] table meets found = cc
exists-inserted p q f (b ∷ bs) table meets found =
    ground (arith, meets b, exists-inserted p q f bs table meets)

pub select-none {ℓ} :
    {A : Type ℓ} (p : A → Bool) (rs : List A) → exists p rs ≡ false → select p rs ≡ []
unfolding select exists
select-none p [] h = refl
select-none p (r ∷ rs) h = elim (Bool-cases (p r)) [
  | inl e ↦ absurd (cc (rw e at h))
  | inr e ↦ rw e (select-none p rs (rw e at h))
]
