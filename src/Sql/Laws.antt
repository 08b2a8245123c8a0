-- ===== src/Sql/Laws.antt =====
-- Laws of SELECT and UPDATE over a table.
use ticket_booking_system.Common.{
  ◌≡◌, refl, inl, inr, Bool, true, false, List, [], ◌∷◌, arith, Bool-cases, All, All-unit, some,
  if◌then◌else◌,
}
use ticket_booking_system.Sql.{select, update_where, first}

-- Row by row, `S` relates a table to a later state of it.
abbrev pub Rows {ℓ} : {A : Type ℓ} → (A → A → Type 0) → List A → List A → Type 0
Rows S [] [] = Unit
Rows S [] (t ∷ ts) = ⊥
Rows S (r ∷ rs) [] = ⊥
Rows S (r ∷ rs) (t ∷ ts) = S r t × Rows S rs ts

module _ {ℓ} {A : Type ℓ} where
  -- What holds of each row that the UPDATE changes or leaves holds of the table after it.
  pub All-update_where {κ ι} :
      (P : A → Type κ) (Q : A → Type ι) (p : A → Bool) (f : A → A) (rs : List A)
      → ((r : A) → P r → p r ≡ true → Q (f r))
      → ((r : A) → P r → p r ≡ false → Q r)
      → All P rs
      → All Q (update_where p f rs)
  unfolding update_where
  All-update_where P Q p f [] hit miss h = tt
  All-update_where P Q p f (r ∷ rs) hit miss h = elim (Bool-cases (p r)) [
    | inl e ↦ rw e (hit r h.0 e, All-update_where P Q p f rs hit miss h.1)
    | inr e ↦ rw e (miss r h.0 e, All-update_where P Q p f rs hit miss h.1)
  ]

  -- The selected rows meet the test.
  pub All-select {κ} :
      (P : A → Type κ) (p : A → Bool) (rs : List A)
      → All P rs
      → All (λ r. P r × (p r ≡ true)) (select p rs)
  unfolding select
  All-select P p [] h = tt
  All-select P p (r ∷ rs) h = elim (Bool-cases (p r)) [
    | inl e ↦ rw e ((h.0, e), All-select P p rs h.1)
    | inr e ↦ rw e (All-select P p rs h.1)
  ]

  -- An UPDATE after which no row meets the test leaves nothing to select.
  pub select-update_where {κ} :
      (P : A → Type κ) (p q : A → Bool) (f : A → A) (rs : List A)
      → ((r : A) → P r → p r ≡ true → q (f r) ≡ false)
      → ((r : A) → P r → p r ≡ false → q r ≡ false)
      → All P rs
      → select q (update_where p f rs) ≡ []
  unfolding select update_where
  select-update_where P p q f [] hit miss h = refl
  select-update_where P p q f (r ∷ rs) hit miss h = elim (Bool-cases (p r)) [
    | inl e ↦ rw e (rw (hit r h.0 e) (select-update_where P p q f rs hit miss h.1))
    | inr e ↦ rw e (rw (miss r h.0 e) (select-update_where P p q f rs hit miss h.1))
  ]

  -- An UPDATE that no row meets changes nothing.
  pub update_where-select_nil :
      (p : A → Bool) (f : A → A) (rs : List A) → select p rs ≡ [] → update_where p f rs ≡ rs
  unfolding select update_where
  update_where-select_nil p f [] h = refl
  update_where-select_nil p f (r ∷ rs) h = ground (arith, update_where-select_nil p f rs)

  -- An UPDATE relates each row to itself after the change.
  pub Rows-update_where {κ} :
      (P : A → Type κ) (S : A → A → Type 0) (p : A → Bool) (f : A → A) (rs : List A)
      → ((r : A) → P r → p r ≡ true → S r (f r))
      → ((r : A) → P r → p r ≡ false → S r r)
      → All P rs
      → Rows S rs (update_where p f rs)
  unfolding update_where
  Rows-update_where P S p f [] hit miss h = tt
  Rows-update_where P S p f (r ∷ rs) hit miss h = elim (Bool-cases (p r)) [
    | inl e ↦ rw e (hit r h.0 e, Rows-update_where P S p f rs hit miss h.1)
    | inr e ↦ rw e (miss r h.0 e, Rows-update_where P S p f rs hit miss h.1)
  ]

  -- An UPDATE that takes its rows out of its own test is done: running it again selects nothing.
  pub select-update_where_done :
      (p : A → Bool) (f : A → A) (rs : List A)
      → ((r : A) → p r ≡ true → p (f r) ≡ false)
      → select p (update_where p f rs) ≡ []
  select-update_where_done p f rs done =
      select-update_where (λ r. Unit {0}) p p f rs (λ r _ e. done r e) (λ r _ e. e) (All-unit rs)

  pub update_where-update_where_done :
      (p : A → Bool) (f g : A → A) (rs : List A)
      → ((r : A) → p r ≡ true → p (f r) ≡ false)
      → update_where p g (update_where p f rs) ≡ update_where p f rs
  update_where-update_where_done p f g rs done =
      update_where-select_nil p g (update_where p f rs) (select-update_where_done p f rs done)

  -- An UPDATE that keeps what a SELECT tests keeps the row that it finds, changed or not.
  pub first-update_where :
      (q p : A → Bool) (f : A → A) (rs : List A) (found : A)
      → ((r : A) → q (f r) ≡ q r)
      → first q rs ≡ some found
      → first q (update_where p f rs) ≡ some (if p found then f found else found)
  unfolding first update_where
  first-update_where q p f [] found same h = absurd (cc)
  first-update_where q p f (r ∷ rs) found same h =
      ground (arith, same r, first-update_where q p f rs found same)

  pub Rows-refl : (S : A → A → Type 0) (rs : List A) → ((r : A) → S r r) → Rows S rs rs
  Rows-refl S [] f = tt
  Rows-refl S (r ∷ rs) f = (f r, Rows-refl S rs f)

  pub Rows-trans :
      (S T U : A → A → Type 0) (rs ss ts : List A)
      → ((r s t : A) → S r s → T s t → U r t)
      → Rows S rs ss
      → Rows T ss ts
      → Rows U rs ts
  Rows-trans S T U [] [] [] f h k = tt
  Rows-trans S T U [] [] (t ∷ ts) f h k = absurd k
  Rows-trans S T U [] (s ∷ ss) ts f h k = absurd h
  Rows-trans S T U (r ∷ rs) [] ts f h k = absurd h
  Rows-trans S T U (r ∷ rs) (s ∷ ss) [] f h k = absurd k
  Rows-trans S T U (r ∷ rs) (s ∷ ss) (t ∷ ts) f h k =
      (f r s t h.0 k.0, Rows-trans S T U rs ss ts f h.1 k.1)

  -- Row by row, what is known of the earlier row may be used.
  pub Rows-mono {κ} :
      (P : A → Type κ) (S T : A → A → Type 0) (rs ss : List A)
      → ((r s : A) → P r → S r s → T r s)
      → All P rs
      → Rows S rs ss
      → Rows T rs ss
  Rows-mono P S T [] [] f a h = tt
  Rows-mono P S T [] (s ∷ ss) f a h = absurd h
  Rows-mono P S T (r ∷ rs) [] f a h = absurd h
  Rows-mono P S T (r ∷ rs) (s ∷ ss) f a h = (f r s a.0 h.0, Rows-mono P S T rs ss f a.1 h.1)

  -- What row by row no longer meets the test is not selected.
  pub select-Rows_nil {κ} :
      (P : A → Type κ) (S : A → A → Type 0) (p : A → Bool) (rs ss : List A)
      → ((r s : A) → P r → S r s → p s ≡ false)
      → All P rs
      → Rows S rs ss
      → select p ss ≡ []
  unfolding select
  select-Rows_nil P S p [] [] f a h = refl
  select-Rows_nil P S p [] (s ∷ ss) f a h = absurd h
  select-Rows_nil P S p (r ∷ rs) [] f a h = absurd h
  select-Rows_nil P S p (r ∷ rs) (s ∷ ss) f a h =
      rw (f r s a.0 h.0) (select-Rows_nil P S p rs ss f a.1 h.1)

  -- What the relation carries from each row to the later one holds of the later table.
  pub All-Rows {κ ι} :
      (P : A → Type κ) (Q : A → Type ι) (S : A → A → Type 0) (rs ss : List A)
      → ((r s : A) → P r → S r s → Q s)
      → All P rs
      → Rows S rs ss
      → All Q ss
  All-Rows P Q S [] [] f a h = tt
  All-Rows P Q S [] (s ∷ ss) f a h = absurd h
  All-Rows P Q S (r ∷ rs) [] f a h = absurd h
  All-Rows P Q S (r ∷ rs) (s ∷ ss) f a h = (f r s a.0 h.0, All-Rows P Q S rs ss f a.1 h.1)
