-- ===== src/Venues/Bulk.antt =====
-- `bulkCreateSeats`: the seats that it makes, and when it succeeds.
use mathlib.Core.Path.{subst}
use ticket_booking_system.Common.{
  ℕ, zero, suc, ◌≡◌, refl, ap, ◌∙◌, inl, inr, ◌⊎◌, true, none, some, List, [], ◌∷◌, ◌++◌, map,
  length, sum, arith, Option-cases, length-append,
}
use ticket_booking_system.Errors.{ok, err, conflict}
use ticket_booking_system.Sql.{insert_rows}
use ticket_booking_system.Sql.Keys.{IsUnique}
use ticket_booking_system.Sql.Inserts.{insert_rows_lem, insert_rows-IsUnique}
use ticket_booking_system.Db.{Db, Seat, Venue}
use ticket_booking_system.Db.Tx.{finish}
use ticket_booking_system.Venues.{
  RowSpec, NewSeat, expand, seats_from, place, seats_clash, seats_fit, refer, bulk_create_seats,
  find_venue_by_id, get_venue,
}

length-place :
    (draw : ℕ → ℕ) (venue_id i : ℕ) (ss : List NewSeat)
    → length (place draw venue_id i ss) ≡ length ss
unfolding place
length-place draw venue_id i [] = refl
length-place draw venue_id i (s ∷ ss) = ap suc (length-place draw venue_id (suc i) ss)

length-seats_from : (spec : RowSpec) (i n : ℕ) → length (seats_from spec i n) ≡ n
unfolding seats_from
length-seats_from spec i zero = refl
length-seats_from spec i (suc n) = ap suc (length-seats_from spec (suc i) n)

pub length-expand :
    (specs : List RowSpec) → length (expand specs) ≡ sum (map (λ spec. spec.count) specs)
unfolding expand
length-expand [] = refl
length-expand (spec ∷ specs) =
    length-append (seats_from spec 0 spec.count) (expand specs)
    ∙ omega (arith, length-seats_from spec 0 spec.count, length-expand specs)

module _ (draw : ℕ → ℕ) (venue_id : ℕ) (specs : List RowSpec) (db : Db) where
  abbrev pub new_seats : List Seat
  new_seats = place draw venue_id 0 (expand specs)

  abbrev pub created_db : Db
  created_db = record db { seats = new_seats ++ db.seats }

  created :
      (venue : Venue)
      → find_venue_by_id venue_id db ≡ some venue
      → seats_fit (expand specs) ≡ true
      → refer venue_id (expand specs) db ≡ true
      → IsUnique seats_clash (new_seats ++ db.seats)
      → bulk_create_seats draw venue_id specs db ≡ (ok new_seats, created_db)
  unfolding bulk_create_seats get_venue
  created venue found fit referred unique =
      rw (found, bulk_create_seats)
        (rw (fit) (
          rw (insert_rows-IsUnique seats_clash db.seats new_seats unique)
            (rw (referred, finish) refl)))

  collided :
      (venue : Venue)
      → find_venue_by_id venue_id db ≡ some venue
      → seats_fit (expand specs) ≡ true
      → insert_rows seats_clash new_seats db.seats ≡ none
      → bulk_create_seats draw venue_id specs db ≡ (err conflict, db)
  unfolding bulk_create_seats get_venue
  collided venue found fit clashes =
      rw (found, bulk_create_seats) (rw fit (rw (clashes, finish) refl))

  -- For a venue that is known, known categories, numbers within the range of int and a table that
  -- meets its constraints, the seats of a bulk request are created, as many as the counts of its
  -- rows add up to, exactly if no two of the new and the old seats have one key, one place in the
  -- rows or one cell of the grid; otherwise the request is refused with a conflict and changes
  -- nothing.
  pub bulk_create_seats_cases :
      (venue : Venue)
      → find_venue_by_id venue_id db ≡ some venue
      → seats_fit (expand specs) ≡ true
      → refer venue_id (expand specs) db ≡ true
      → IsUnique seats_clash db.seats
      → (IsUnique seats_clash (new_seats ++ db.seats))
          × (length new_seats ≡ sum (map (λ spec. spec.count) specs))
          × (bulk_create_seats draw venue_id specs db ≡ (ok new_seats, created_db))
        ⊎ (¬ IsUnique seats_clash (new_seats ++ db.seats))
          × (bulk_create_seats draw venue_id specs db ≡ (err conflict, db))
  bulk_create_seats_cases venue found fit referred unique =
      elim (Option-cases (insert_rows seats_clash new_seats db.seats)) [
        | inl clashes ↦ inr (
          λ u. absurd (cc (clashes, insert_rows-IsUnique seats_clash db.seats new_seats u)),
          collided venue found fit clashes,
        )
        | inr (after, inserted) ↦
            let (rows, kept) = insert_rows_lem seats_clash db.seats new_seats after inserted in
            let u = subst (IsUnique seats_clash) rows (kept unique) in
            inl (
              u,
              length-place draw venue_id 0 (expand specs) ∙ length-expand specs,
              created venue found fit referred u,
            )
      ]
