-- ===== src/Shows/Opening.antt =====
-- From the publication of a show to the first hold of its seats.
use ticket_booking_system.Common.{
  ℕ, ◌≡◌, ◌≤◌, refl, ap, Bool, true, false, ◌&&◌, ◌||◌, some, List, [], ◌∷◌, ◌++◌, map, length,
  arith, ◌==◌, ==_refl, contains, IsDistinct,
}
use ticket_booking_system.Errors.{ok, is_ok}
use ticket_booking_system.SeatStates.{available, state_eq}
use ticket_booking_system.Sql.{exists}
use ticket_booking_system.Sql.Keys.{IsUnique, exists_mono}
use ticket_booking_system.Sql.Inserts.{insert_rows-IsUnique, exists-inserted, select-none}
use ticket_booking_system.Db.{Db, Show, ShowSeat, Seat, Env}
use ticket_booking_system.Db.Tx.{finish}
use ticket_booking_system.Seatmap.{find_show_by_id, effective_state}
use ticket_booking_system.Holds.{create_hold}
use ticket_booking_system.Holds.Acquire.{same_seat, is_free}
use ticket_booking_system.Holds.AllOrNothing.{create_hold_succeeds_iff}
use ticket_booking_system.Shows.{
  published_row, show_seats_clash, active_seats, count_show_seats, publish_show,
  publish_checked_show,
}
use ticket_booking_system.Shows.Publish.{new_rows, published_db, found_at}

-- A constraint that compares less.
IsUnique-weaken {ℓ} :
    {A : Type ℓ} (same clash : A → A → Bool) (rs : List A)
    → ((r t : A) → same r t ≡ true → clash r t ≡ true)
    → IsUnique clash rs
    → IsUnique same rs
IsUnique-weaken same clash [] f u = tt
IsUnique-weaken same clash (r ∷ rs) f u =
    (exists_mono (same r) (clash r) rs (f r) u.0, IsUnique-weaken same clash rs f u.1)

-- Among the seats that are read, an id.
exists-contains :
    (seats : List Seat) (a : ℕ)
    → contains (map (λ s. s.id) seats) a ≡ true
    → exists (λ s. s.id == a) seats ≡ true
unfolding exists
exists-contains [] a m = m
exists-contains (s ∷ ss) a m = ground (arith, exists-contains ss a)

-- What meets neither of two tests.
exists_or {ℓ} :
    {A : Type ℓ} (c p q : A → Bool) (rs : List A)
    → ((r : A) → c r ≡ true → (p r || q r) ≡ true)
    → exists p rs ≡ false
    → exists q rs ≡ false
    → exists c rs ≡ false
unfolding exists
exists_or c p q [] f h k = refl
exists_or c p q (r ∷ rs) f h k = ground (arith, f r, exists_or c p q rs f)

module _ (now : ℕ) (draw : ℕ → ℕ) (show_id : ℕ) (table : List ShowSeat) where
  abbrev keys : List Seat → List ℕ
  keys seats = map (λ s. draw s.id) seats

  -- A new row clashes with no other new row and with no row of the table.
  new_row_fresh :
      (s : Seat) (ss : List Seat)
      → contains (map (λ t. t.id) ss) s.id ≡ false
      → contains (keys ss) (draw s.id) ≡ false
      → exists (λ r. r.show_id == show_id) table ≡ false
      → exists (λ r. r.id == draw s.id) table ≡ false
      → exists
          (show_seats_clash (published_row now draw show_id s))
          (map (published_row now draw show_id) ss ++ table)
        ≡ false
  unfolding exists
  new_row_fresh s [] other_id other_key none_yet unused =
      exists_or (show_seats_clash (published_row now draw show_id s)) (λ r. r.show_id == show_id)
        (λ r. r.id == draw s.id) table (λ r c. ground (arith, c)) none_yet unused
  new_row_fresh s (t ∷ ts) other_id other_key none_yet unused = ground (
    arith,
    other_id,
    other_key,
    new_row_fresh s ts (ground (arith, other_id)) (ground (arith, other_key)) none_yet unused,
  )

  new_rows-IsUnique :
      (seats : List Seat)
      → IsDistinct (map (λ s. s.id) seats)
      → IsDistinct (keys seats)
      → exists (λ r. r.show_id == show_id) table ≡ false
      → exists (λ r. contains (keys seats) r.id) table ≡ false
      → IsUnique show_seats_clash table
      → IsUnique show_seats_clash (map (published_row now draw show_id) seats ++ table)
  new_rows-IsUnique [] ids drawn none_yet unused u = u
  new_rows-IsUnique (s ∷ ss) ids drawn none_yet unused u = (
    new_row_fresh s ss ids.0 drawn.0 none_yet (
        exists_mono (λ r. r.id == draw s.id) (λ r. contains (keys (s ∷ ss)) r.id) table
          (λ r c. ground (arith, c)) unused),
    new_rows-IsUnique ss ids.1 drawn.1 none_yet
        (exists_mono (λ r. contains (keys ss) r.id) (λ r. contains (keys (s ∷ ss)) r.id) table
          (λ r c. ground (arith, c)) unused)
        u,
  )

none_counted :
    (show_id : ℕ) (db : Db)
    → exists (λ r. r.show_id == show_id) db.show_seats ≡ false
    → count_show_seats show_id db ≡ 0
unfolding count_show_seats
none_counted show_id db h = ap length (select-none (λ ss. ss.show_id == show_id) db.show_seats h)

module _ (now : ℕ) (draw : ℕ → ℕ) (show_id : ℕ) (show : Show) (db : Db)
    (found : find_show_by_id show_id db ≡ some show)
    (none_yet : exists (λ r. r.show_id == show_id) db.show_seats ≡ false)
    (unique : IsUnique show_seats_clash db.show_seats)
    (ids : IsDistinct (map (λ s. s.id) (active_seats show.venue_id db)))
    (drawn : IsDistinct (map (λ s. draw s.id) (active_seats show.venue_id db)))
    (unused : exists
        (λ r. contains (map (λ s. draw s.id) (active_seats show.venue_id db)) r.id)
        db.show_seats
      ≡ false) where
  opened_rows-IsUnique : IsUnique show_seats_clash (new_rows now draw db show ++ db.show_seats)
  opened_rows-IsUnique =
      new_rows-IsUnique now draw show.id db.show_seats (active_seats show.venue_id db) ids drawn
        (rw (found_at now draw db show_id show found) none_yet) unused unique

  opens : publish_show now draw show_id db ≡ (
    ok (record { show = show; seat_count = length (new_rows now draw db show) }),
    published_db now draw db show,
  )
  unfolding publish_show publish_checked_show
  opens =
      rw (found, publish_show)
        (rw (none_counted show_id db none_yet) (
          rw
            (
              insert_rows-IsUnique show_seats_clash db.show_seats (new_rows now draw db show)
                  opened_rows-IsUnique,
              finish,
            )
            refl))

  published_free :
      (later a : ℕ)
      → contains (map (λ s. s.id) (active_seats show.venue_id db)) a ≡ true
      → is_free later show_id a (published_db now draw db show) ≡ true
  unfolding effective_state
  published_free later a m =
      let at : (show.id == show_id) ≡ true =
        rw (found_at now draw db show_id show found) (==_refl show_id) in
      exists-inserted
        (λ (s : ShowSeat).
          s.show_id == show_id && s.seat_id == a && state_eq (effective_state later s) available)
        (λ s. s.id == a) (published_row now draw show.id) (active_seats show.venue_id db)
        db.show_seats (λ s same. ground (arith, same, at))
        (exists-contains (active_seats show.venue_id db) a m)

  -- A show that is known and has no seat yet is published, where the ids of the seats of its venue
  -- and the keys drawn for them are distinct, the keys are unused, and the table of show seats
  -- meets its constraints. At any time after, a hold of distinct active seats of the venue, within
  -- the limit and with an unused key, succeeds.
  pub publish_then_hold :
      (env : Env) (later fresh_id : ℕ) (seat_ids : List ℕ) (user_id : ℕ)
      → length seat_ids ≤ env.max_seats_per_booking
      → exists (λ h. h.id == fresh_id) db.seat_holds ≡ false
      → IsDistinct seat_ids
      → ((a : ℕ)
          → contains seat_ids a ≡ true
          → contains (map (λ s. s.id) (active_seats show.venue_id db)) a ≡ true)
      → let (result, db') = publish_show now draw show_id db in
        (is_ok result ≡ true)
        × (is_ok (create_hold env later fresh_id show_id seat_ids user_id db').0 ≡ true)
  unfolding find_show_by_id
  publish_then_hold env later fresh_id seat_ids user_id few fresh distinct within = rw opens (
    refl,
    (create_hold_succeeds_iff env later fresh_id show_id seat_ids user_id
          (published_db now draw db show) show found few fresh distinct
          (IsUnique-weaken same_seat show_seats_clash _ (λ r t c. ground (arith, c))
            opened_rows-IsUnique)).1
        (λ a m. published_free later a (within a m)),
  )
