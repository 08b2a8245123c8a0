-- ===== src/Events/Totals.antt =====
-- The totals of a summary against the seats of the event.
use ticket_booking_system.Common.{
  ℕ, ◌+◌, ◌≡◌, refl, sym, ap, ◌∙◌, inl, inr, Bool, true, false, List, [], ◌∷◌, map, arith, ◌==◌,
  if◌then◌else◌, Bool-cases, Option-cases, contains, IsDistinct, length, sum, All, ==→eq,
}
use ticket_booking_system.Errors.{ok, ok-injective}
use ticket_booking_system.Sql.{select, exists, insert_by, order_by, Collation}
use ticket_booking_system.Db.{Db, ShowSeat, SeatCategory}
use ticket_booking_system.Events.{find_event_by_id}
use ticket_booking_system.Events.Summary.{
  CategorySummary, EventSummary, event_seats, sales, seat_revenue, of_category, summarise, groups,
  all_fit, get_event_summary_by_category, totals_of, get_event_summary,
}

module _ {A : Type 0} (f : A → ℕ) (before : A → A → Bool) where
  sum-insert_by : (a : A) (xs : List A) → sum (map f (insert_by before a xs)) ≡ f a + sum (map f xs)
  unfolding insert_by
  sum-insert_by a [] = refl
  sum-insert_by a (x ∷ xs) = elim (Bool-cases (before x a)) [
    | inl e ↦ rw e (omega (arith, sum-insert_by a xs))
    | inr e ↦ rw e refl
  ]

  -- An order changes no sum.
  sum-order_by : (xs : List A) → sum (map f (order_by before xs)) ≡ sum (map f xs)
  unfolding order_by
  sum-order_by [] = refl
  sum-order_by (x ∷ xs) = omega (arith, sum-insert_by x (order_by before xs), sum-order_by xs)

abbrev ids : List SeatCategory → List ℕ
ids cs = map (λ c. c.id) cs

module _ (w : ShowSeat → ℕ) where
  abbrev weight : List ShowSeat → SeatCategory → ℕ
  weight seats c = sum (map w (of_category c seats))

  -- What a seat adds to a category.
  abbrev share : ShowSeat → SeatCategory → ℕ
  share s c = if s.category_id == c.id then w s else 0

  weight_none :
      (c : SeatCategory) (seats : List ShowSeat)
      → exists (λ s. s.category_id == c.id) seats ≡ false
      → weight seats c ≡ 0
  unfolding exists select
  weight_none c [] h = refl
  weight_none c (s ∷ ss) h = elim (Bool-cases (s.category_id == c.id)) [
    | inl e ↦ absurd (cc (rw e at h))
    | inr e ↦ rw e (weight_none c ss (rw e at h))
  ]

  -- A category without a seat adds nothing.
  sum-groups :
      (seats : List ShowSeat) (cs : List SeatCategory)
      → sum (map (weight seats) (groups seats cs)) ≡ sum (map (weight seats) cs)
  unfolding groups select
  sum-groups seats [] = refl
  sum-groups seats (c ∷ cs) = elim (Bool-cases (exists (λ ss. ss.category_id == c.id) seats)) [
    | inl e ↦ rw e (omega (arith, sum-groups seats cs))
    | inr e ↦ rw e (omega (arith, sum-groups seats cs, weight_none c seats e))
  ]

  share_none :
      (s : ShowSeat) (cs : List SeatCategory)
      → contains (ids cs) s.category_id ≡ false
      → sum (map (share s) cs) ≡ 0
  share_none s [] h = refl
  share_none s (c ∷ cs) h = elim (Bool-cases (s.category_id == c.id)) [
    | inl e ↦ absurd (ground (arith, h, e))
    | inr e ↦ rw e (omega (arith, share_none s cs (ground (arith, h))))
  ]

  share_one :
      (s : ShowSeat) (cs : List SeatCategory)
      → IsDistinct (ids cs)
      → contains (ids cs) s.category_id ≡ true
      → sum (map (share s) cs) ≡ w s
  share_one s [] d h = absurd (cc)
  share_one s (c ∷ cs) d h = elim (Bool-cases (s.category_id == c.id)) [
    | inl e ↦
        let gone : contains (ids cs) s.category_id ≡ false = rw (==→eq s.category_id c.id e) d.0 in
        rw e (omega (arith, share_none s cs gone))
    | inr e ↦ rw e (omega (arith, share_one s cs d.1 (ground (arith, h, e))))
  ]

  sum_split :
      (s : ShowSeat) (seats : List ShowSeat) (cs : List SeatCategory)
      → sum (map (weight (s ∷ seats)) cs) ≡ sum (map (share s) cs) + sum (map (weight seats) cs)
  unfolding select
  sum_split s seats [] = omega arith
  sum_split s seats (c ∷ cs) = elim (Bool-cases (s.category_id == c.id)) [
    | inl e ↦ rw e (omega (arith, sum_split s seats cs))
    | inr e ↦ rw e (omega (arith, sum_split s seats cs))
  ]

  no_weight : (cs : List SeatCategory) → sum (map (weight []) cs) ≡ 0
  unfolding select
  no_weight [] = refl
  no_weight (c ∷ cs) = omega (arith, no_weight cs)

  -- The categories share the seats out among them.
  sum-categories :
      (seats : List ShowSeat) (cs : List SeatCategory)
      → IsDistinct (ids cs)
      → All (λ s. contains (ids cs) s.category_id ≡ true) seats
      → sum (map (weight seats) cs) ≡ sum (map w seats)
  sum-categories [] cs d known = no_weight cs
  sum-categories (s ∷ seats) cs d known =
      omega
        (arith, sum_split s seats cs, share_one s cs d known.0, sum-categories seats cs d known.1)

length-ones : (seats : List ShowSeat) → sum (map (λ s. 1) seats) ≡ length seats
length-ones [] = refl
length-ones (s ∷ ss) = omega (arith, length-ones ss)

module _ (text : Collation) (event_id : ℕ) (db : Db) (unique : IsDistinct (ids db.seat_categories))
    (known : All
      (λ s. contains (ids db.seat_categories) s.category_id ≡ true)
      (event_seats event_id db)) where
  abbrev seats : List ShowSeat
  seats = event_seats event_id db

  abbrev grouped : List SeatCategory
  grouped = order_by (λ a b. text.before a.name b.name) (groups seats db.seat_categories)

  abbrev rows : List CategorySummary
  rows = map (summarise db seats) grouped

  -- A column of the summary that is a sum over the seats of a category.
  sum_column :
      (w : ShowSeat → ℕ) (column : CategorySummary → ℕ)
      → ((c : SeatCategory) → column (summarise db seats c) ≡ weight w seats c)
      → sum (map column rows) ≡ sum (map w seats)
  sum_column w column is =
      of_rows grouped
      ∙ sum-order_by (weight w seats) (λ a b. text.before a.name b.name)
          (groups seats db.seat_categories)
      ∙ sum-groups w seats db.seat_categories
      ∙ sum-categories w seats db.seat_categories unique known
    where
      of_rows :
          (cs : List SeatCategory)
          → sum (map column (map (summarise db seats) cs)) ≡ sum (map (weight w seats) cs)
      of_rows [] = refl
      of_rows (c ∷ cs) = omega (arith, is c, of_rows cs)

  summary_rows :
      (r : EventSummary) → get_event_summary text event_id db ≡ ok r → r.totals ≡ totals_of rows
  unfolding get_event_summary get_event_summary_by_category
  summary_rows r h = elim (Option-cases (find_event_by_id event_id db)) [
    | inl missing ↦ absurd (cc (rw (missing, get_event_summary) at h))
    | inr (event, found) ↦ elim (Bool-cases (all_fit rows)) [
      | inl fit ↦ sym (
          ap (λ s. s.totals)
            (ok-injective (rw (found, fit, get_event_summary, get_event_summary_by_category) at h)))
      | inr large ↦
          absurd (cc (rw (found, large, get_event_summary, get_event_summary_by_category) at h))
    ]
  ]

  -- Where the keys of the categories are distinct and each seat of the event has a category that is
  -- known, the totals of a summary count every seat of the event once, with its confirmed sales and
  -- what was charged for them.
  pub get_event_summary_totals :
      (r : EventSummary)
      → get_event_summary text event_id db ≡ ok r
      → (r.totals.total_seats ≡ length seats)
        × (r.totals.sold ≡ sum (map (λ s. length (sales db s)) seats))
        × (r.totals.revenue_cents ≡ sum (map (seat_revenue db) seats))
  unfolding totals_of
  get_event_summary_totals r h =
      let same = summary_rows r h in
      (
        ap (λ t. t.total_seats) same
            ∙ sum_column (λ s. 1) (λ c. c.total_seats)
                (λ c. sym (length-ones (of_category c seats)))
            ∙ length-ones seats,
        ap (λ t. t.sold) same ∙ sum_column (λ s. length (sales db s)) (λ c. c.sold) (λ c. refl),
        ap (λ t. t.revenue_cents) same
            ∙ sum_column (seat_revenue db) (λ c. c.revenue_cents) (λ c. refl),
      )
