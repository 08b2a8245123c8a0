-- ===== src/Events/Pages.antt =====
-- The pages of a browse: they follow one another without a gap or an overlap.
use ticket_booking_system.Common.{
  ℕ, Bool, false, ◌==◌, inl, inr, Bool-cases, All, zero, suc, ◌+◌, ◌-◌, ◌*◌, ◌≤◌, ◌≡◌, refl, sym,
  ap, ◌∙◌, List, [], ◌∷◌, ◌++◌, arith, length,
}
use ticket_booking_system.Sql.{take, drop, Collation, Ties, select, exists, insert_by, order_by}
use ticket_booking_system.Sql.Keys.{IsUnique}
use ticket_booking_system.Db.{Db, Event}
use ticket_booking_system.Events.{
  Filters, newer, page_size, matching_events, event_matches, show_matches, list_published_events,
}

module _ {ℓ} {A : Type ℓ} where
  abbrev none_left : List A
  none_left = []

  take-none : (n : ℕ) → take n (none_left) ≡ none_left
  unfolding take
  take-none zero = refl
  take-none (suc n) = refl

  -- What a limit leaves, and the next rows after it.
  take-drop : (m n : ℕ) (rs : List A) → take m rs ++ take n (drop m rs) ≡ take (m + n) rs
  unfolding take drop
  take-drop zero n rs = let same : 0 + n ≡ n = omega arith in rw same refl
  take-drop (suc m) n [] = take-none n ∙ sym (take-none (suc m + n))
  take-drop (suc m) n (r ∷ rs) =
      let same : suc m + n ≡ suc (m + n) = omega arith in
      rw same (ap (λ xs. r ∷ xs) (take-drop m n rs))

  length-take_bound : (n : ℕ) (rs : List A) → length (take n rs) ≤ n
  unfolding take
  length-take_bound zero rs = omega arith
  length-take_bound (suc n) [] = omega arith
  length-take_bound (suc n) (r ∷ rs) = omega (arith, length-take_bound n rs)

  take-all : (n : ℕ) (rs : List A) → length rs ≤ n → take n rs ≡ rs
  unfolding take
  take-all zero [] h = refl
  take-all zero (r ∷ rs) h = absurd (omega arith)
  take-all (suc n) [] h = refl
  take-all (suc n) (r ∷ rs) h = ap (λ xs. r ∷ xs) (take-all n rs (omega arith))

-- Two events that were created at one instant.
abbrev pub same_time : Event → Event → Bool
same_time a b = a.created_at == b.created_at

module _ (ties ties' : Ties) where
  abbrev Agree : Event → Event → Type 0
  Agree e x = newer ties x e ≡ newer ties' x e

  apart : (e : Event) (es : List Event) → exists (same_time e) es ≡ false → All (Agree e) es
  unfolding exists
  apart e [] h = tt
  apart e (x ∷ es) h = (ground (arith, h), apart e es (ground (arith, h)))

  All-insert_by :
      (P : Event → Type 0) (e : Event) (es : List Event)
      → P e
      → All P es
      → All P (insert_by (newer ties) e es)
  unfolding insert_by
  All-insert_by P e [] p all = (p, tt)
  All-insert_by P e (x ∷ es) p all = elim (Bool-cases (newer ties x e)) [
    | inl later ↦ rw later (all.0, All-insert_by P e es p all.1)
    | inr here ↦ rw here (p, all)
  ]

  All-order_by :
      (P : Event → Type 0) (es : List Event) → All P es → All P (order_by (newer ties) es)
  unfolding order_by
  All-order_by P [] all = tt
  All-order_by P (e ∷ es) all =
      All-insert_by P e (order_by (newer ties) es) all.0 (All-order_by P es all.1)

  insert_by_same :
      (e : Event) (es : List Event)
      → All (Agree e) es
      → insert_by (newer ties) e es ≡ insert_by (newer ties') e es
  unfolding insert_by
  insert_by_same e [] h = refl
  insert_by_same e (x ∷ es) h = rw (h.0, insert_by_same e es h.1) refl

  -- The order of ties does not matter where there are none.
  order_by_same :
      (es : List Event)
      → IsUnique same_time es
      → order_by (newer ties) es ≡ order_by (newer ties') es
  unfolding order_by
  order_by_same [] u = refl
  order_by_same (e ∷ es) u =
      insert_by_same e (order_by (newer ties) es) (All-order_by (Agree e) es (apart e es u.0))
      ∙ ap (λ xs. insert_by (newer ties') e xs) (order_by_same es u.1)

module _ (text : Collation) (ties : ℕ → Ties) (f : Filters) (db : Db) where
  -- Each page is a query of its own, with its own order of ties.
  abbrev pub page_of : ℕ → List Event
  page_of n = (list_published_events text (ties n) (record f { page = n }) db).events

  -- The pages from the first to the n-th, one after the other.
  abbrev pub pages : ℕ → List Event
  pages zero = []
  pages (suc n) = pages n ++ page_of (suc n)

  -- The page asked for is no filter.
  same_matches :
      (k : ℕ)
      → IsUnique same_time (select (event_matches text f db) db.events)
      → matching_events text (ties k) (record f { page = k }) db
        ≡ matching_events text (ties 0) f db
  unfolding matching_events event_matches show_matches
  same_matches k unique = order_by_same (ties k) (ties 0) _ unique

  next_page :
      (n : ℕ)
      → IsUnique same_time (select (event_matches text f db) db.events)
      → page_of (suc n) ≡ take page_size (drop (n * page_size) (matching_events text (ties 0) f db))
  unfolding list_published_events
  next_page n unique =
      let before : suc n - 1 ≡ n = omega arith in rw (before, same_matches (suc n) unique) refl

  pages-take :
      (n : ℕ)
      → IsUnique same_time (select (event_matches text f db) db.events)
      → pages n ≡ take (n * page_size) (matching_events text (ties 0) f db)
  unfolding list_published_events take
  pages-take zero unique = refl
  pages-take (suc n) unique =
      let more : suc n * page_size ≡ n * page_size + page_size = omega arith in
      rw (pages-take n unique, next_page n unique, more)
        (take-drop (n * page_size) page_size (matching_events text (ties 0) f db))

  -- Where no two events that the filters accept were created at one instant: asked for one after the
  -- other on one database, the pages of a browse list every such event once, in the order of a query
  -- without pages, and nothing else, as soon as they are enough, whichever way each query orders
  -- ties. No page is longer than the page size.
  pub list_published_events-pages :
      (n : ℕ)
      → IsUnique same_time (select (event_matches text f db) db.events)
      → length (matching_events text (ties 0) f db) ≤ n * page_size
      → (pages n ≡ matching_events text (ties 0) f db) × ((k : ℕ) → length (page_of k) ≤ page_size)
  unfolding list_published_events
  list_published_events-pages n unique enough =
      (pages-take n unique ∙ take-all (n * page_size) _ enough, λ k. length-take_bound page_size _)
