-- ===== src/Sql.antt =====
-- The fragments of SQL that the query modules are written in, over a table as a list of rows:
-- SELECT … WHERE, UPDATE … WHERE, INSERT of several rows, ORDER BY with LIMIT and OFFSET, and
-- comparisons with a nullable column. Where a theorem or an answer depends on it, the order of rows of
-- equal rank is a parameter, `Ties`; the other queries take them in table order.
pub mod Laws
pub mod Keys
pub mod Counts
pub mod Inserts
use ticket_booking_system.Common.{
  ℕ, zero, suc, Bool, true, false, Option, none, some, List, [], ◌∷◌, leb, ltb, ◌==◌, if◌then◌else◌,
}

module _ {ℓ} {A : Type ℓ} where
  -- `SELECT * FROM rows WHERE p`; also the rows that `UPDATE … RETURNING` reports.
  unfoldable pub select : (A → Bool) → List A → List A
  select p [] = []
  select p (r ∷ rs) = let rest = select p rs in if p r then r ∷ rest else rest

  -- `UPDATE rows SET f WHERE p`
  unfoldable pub update_where : (A → Bool) → (A → A) → List A → List A
  update_where p f [] = []
  update_where p f (r ∷ rs) = (if p r then f r else r) ∷ update_where p f rs

  -- `result.rows[0]`
  unfoldable pub first : (A → Bool) → List A → Option A
  first p [] = none
  first p (r ∷ rs) = if p r then some r else first p rs

  -- Whether a row meets the test: the check of a key's uniqueness.
  unfoldable pub exists : (A → Bool) → List A → Bool
  exists p [] = false
  exists p (r ∷ rs) = if p r then true else exists p rs

  -- `INSERT … SELECT`: all of the rows, or none where two rows clash by a key.
  unfoldable pub insert_rows : (A → A → Bool) → List A → List A → Option (List A)
  unfolding exists
  insert_rows clash [] table = some table
  insert_rows clash (r ∷ rs) table = elim (insert_rows clash rs table) [
    | none ↦ none
    | some t ↦ if exists (clash r) t then none else some (r ∷ t)
  ]

  -- `ORDER BY`, by insertion; rows of equal rank stay in table order.
  unfoldable pub insert_by : (A → A → Bool) → A → List A → List A
  insert_by before r [] = r ∷ []
  insert_by before r (t ∷ ts) = if before t r then t ∷ insert_by before r ts else r ∷ t ∷ ts

  unfoldable pub order_by : (A → A → Bool) → List A → List A
  unfolding insert_by
  order_by before [] = []
  order_by before (r ∷ rs) = insert_by before r (order_by before rs)

  -- `OFFSET n`
  unfoldable pub drop : ℕ → List A → List A
  drop zero rs = rs
  drop (suc n) [] = []
  drop (suc n) (r ∷ rs) = drop n rs

  -- `LIMIT n`
  unfoldable pub take : ℕ → List A → List A
  take zero rs = []
  take (suc n) [] = []
  take (suc n) (r ∷ rs) = r ∷ take n rs

-- Which of two rows of equal rank, by their keys, comes first in the answer to one query: SQL leaves
-- it open.
abbrev pub Ties : Type 0
Ties = ℕ → ℕ → Bool

-- A comparison with NULL is not true.
abbrev pub eq_null : Option ℕ → ℕ → Bool
eq_null none k = false
eq_null (some n) k = n == k

-- `column <= t`
abbrev pub le_null : Option ℕ → ℕ → Bool
le_null none t = false
le_null (some n) t = leb n t

-- `column > t`
abbrev pub gt_null : Option ℕ → ℕ → Bool
gt_null none t = false
gt_null (some n) t = ltb t n

-- Postgres's comparisons of text, on the numbers that stand for texts.
pub record Collation : Type 0 where
  -- `text ILIKE pattern`
  pub ilike : ℕ → ℕ → Bool
  -- `'%' || text || '%'`
  pub around : ℕ → ℕ
  -- the order of `ORDER BY`
  pub before : ℕ → ℕ → Bool
