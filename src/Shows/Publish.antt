-- ===== src/Shows/Publish.antt =====
-- `publishShow`: the seat map that it makes, and that a show is published once.
use ticket_booking_system.Common.{
  ℕ, ◌≡◌, ◌<◌, refl, sym, ap, ◌∙◌, inl, inr, true, false, not, none, some, List, [], ◌∷◌, ◌++◌, map,
  length, arith, ltb, ◌==◌, Bool-cases, Option-cases, length-map, ==→eq, ==_refl, ltb_false→le,
}
use ticket_booking_system.Errors.{ok, err, conflict, ok-injective}
use ticket_booking_system.SeatStates.{available}
use ticket_booking_system.Sql.{select, exists, insert_rows}
use ticket_booking_system.Sql.Counts.{first-meets}
use ticket_booking_system.Sql.Keys.{IsUnique}
use ticket_booking_system.Sql.Inserts.{
  insert_rows_lem, insert_rows-clash, select-inserted, select-others, length-none,
}
use ticket_booking_system.Db.{Db, Show, ShowSeat, Seat}
use ticket_booking_system.Db.Tx.{finish}
use ticket_booking_system.Seatmap.{find_show_by_id}
use ticket_booking_system.Shows.{
  Published, published_row, show_seats_clash, active_seats, count_show_seats, publish_checked_show,
  publish_show,
}

module _ (now : ℕ) (draw : ℕ → ℕ) (db : Db) where
  abbrev pub new_rows : Show → List ShowSeat
  new_rows show = map (published_row now draw show.id) (active_seats show.venue_id db)

  abbrev pub published_db : Show → Db
  published_db show = record db { show_seats = new_rows show ++ db.show_seats }

  -- A publication past its checks: the rows are inserted, or they clash.
  pub publish_checked_show_lem :
      (show : Show) (p : Published) (db' : Db)
      → publish_checked_show now draw show db ≡ (ok p, db')
      → (p ≡ record { show = show; seat_count = length (active_seats show.venue_id db) })
        × (db' ≡ published_db show)
        × (IsUnique show_seats_clash db.show_seats → IsUnique show_seats_clash db'.show_seats)
  unfolding publish_checked_show
  publish_checked_show_lem show p db' h =
      elim (Option-cases (insert_rows show_seats_clash (new_rows show) db.show_seats)) [
        | inl clashes ↦ absurd (cc (ap (λ r. r.0) (rw (clashes, finish) at h)))
        | inr (after, inserted) ↦
            let done = rw (inserted, finish) at h in
            let (rows, unique) =
              insert_rows_lem show_seats_clash db.show_seats (new_rows show) after inserted in
            let state = sym (ap (λ r. r.1) done) in
            (
              sym (ok-injective (ap (λ r. r.0) done))
                  ∙ ap (λ n. record { show = show; seat_count = n })
                      (length-map (published_row now draw show.id) (active_seats show.venue_id db)),
              rw state (rw rows refl),
              λ u. rw state (unique u),
            )
      ]

  pub publish_checked_show_refused :
      (show : Show)
      → insert_rows show_seats_clash (new_rows show) db.show_seats ≡ none
      → publish_checked_show now draw show db ≡ (err conflict, db)
  unfolding publish_checked_show
  publish_checked_show_refused show clashes = rw (clashes, finish) refl

  -- A publication touches no seat of a venue.
  still_active :
      (show : Show) → active_seats show.venue_id (published_db show) ≡ active_seats show.venue_id db
  unfolding active_seats
  still_active show = refl

  none_before :
      (show_id : ℕ)
      → ltb 0 (count_show_seats show_id db) ≡ false
      → select (λ ss. ss.show_id == show_id) db.show_seats ≡ []
  unfolding count_show_seats
  none_before show_id h = length-none _ (ground (arith, ltb_false→le _ _ h))

  pub found_at :
      (show_id : ℕ) (show : Show) → find_show_by_id show_id db ≡ some show → show.id ≡ show_id
  unfolding find_show_by_id
  found_at show_id show found =
      ==→eq show.id show_id (first-meets (λ s. s.id == show_id) db.shows show found)

  pub publish_show_lem :
      (show_id : ℕ) (p : Published) (db' : Db)
      → publish_show now draw show_id db ≡ (ok p, db')
      → (find_show_by_id show_id db ≡ some p.show)
        × (p.show.id ≡ show_id)
        × (p.seat_count ≡ length (active_seats p.show.venue_id db))
        × (db' ≡ published_db p.show)
        × (select (λ ss. ss.show_id == show_id) db.show_seats ≡ [])
        × (IsUnique show_seats_clash db.show_seats → IsUnique show_seats_clash db'.show_seats)
  unfolding publish_show
  publish_show_lem show_id p db' h = elim (Option-cases (find_show_by_id show_id db)) [
    | inl missing ↦ absurd (cc (ap (λ r. r.0) (rw (missing, publish_show) at h)))
    | inr (show, found) ↦
        let h₁ = rw (found, publish_show) at h in
        elim (Bool-cases (ltb 0 (count_show_seats show_id db))) [
          | inl twice ↦ absurd (cc (ap (λ r. r.0) (rw twice at h₁)))
          | inr first_time ↦
              let (report, state, unique) =
                publish_checked_show_lem show p db' (rw first_time at h₁) in
              let the_show : p.show ≡ show = ap (λ r. r.show) report in
              (
                rw the_show found,
                rw the_show (found_at show_id show found),
                rw (ap (λ r. r.seat_count) report, the_show) refl,
                rw the_show state,
                none_before show_id first_time,
                unique,
              )
        ]
  ]

  -- A publication that succeeds has found the show and no seat of it. It gives the show one
  -- AVAILABLE seat for each active seat of its venue and reports their number; the seats of the
  -- other shows and all other tables are as they were.
  pub publish_show_materialises :
      (show_id : ℕ) (p : Published) (db' : Db)
      → publish_show now draw show_id db ≡ (ok p, db')
      → (find_show_by_id show_id db ≡ some p.show)
        × (select (λ ss. ss.show_id == show_id) db.show_seats ≡ [])
        × (p.seat_count ≡ length (active_seats p.show.venue_id db))
        × (select (λ ss. ss.show_id == show_id) db'.show_seats
            ≡ map
                (λ (s : Seat). record {
                  id = draw s.id;
                  show_id = show_id;
                  seat_id = s.id;
                  category_id = s.category_id;
                  state = available;
                  hold_id = none;
                  held_by_user_id = none;
                  expires_at = none;
                  reserved_until = none;
                  booking_id = none;
                  version = 0;
                  updated_at = now;
                })
                (active_seats p.show.venue_id db))
        × (select (λ ss. not (ss.show_id == show_id)) db'.show_seats
            ≡ select (λ ss. not (ss.show_id == show_id)) db.show_seats)
        × (record db' { show_seats = db.show_seats } ≡ db)
  publish_show_materialises show_id p db' h =
      let (found, at, count, state, before, unique) = publish_show_lem show_id p db' h in
      let mine : (s : Seat) → ((published_row now draw p.show.id s).show_id == show_id) ≡ true =
        λ s. rw at (==_refl show_id) in
      (
        found,
        before,
        count,
        rw state (
            rw (← at) (
              select-inserted (λ ss. ss.show_id == p.show.id) (published_row now draw p.show.id)
                (active_seats p.show.venue_id db) db.show_seats (λ s. ==_refl p.show.id)
                (rw at before))),
        rw state (
            select-others (λ ss. not (ss.show_id == show_id)) (published_row now draw p.show.id)
              (active_seats p.show.venue_id db) db.show_seats (λ s. rw (mine s) refl)),
        rw state refl,
      )

-- Two publications of a show that have both found no seat of it: where the venue has an active seat,
-- the one that commits second is refused with a conflict and changes nothing.
pub publish_race :
    (now : ℕ) (draw : ℕ → ℕ) (show : Show) (db : Db) (p : Published) (db' : Db) (later : ℕ)
    (draw' : ℕ → ℕ)
    → publish_checked_show now draw show db ≡ (ok p, db')
    → 0 < p.seat_count
    → publish_checked_show later draw' show db' ≡ (err conflict, db')
unfolding exists
publish_race now draw show db p db' later draw' h some_seat =
    let (report, state, unique) = publish_checked_show_lem now draw db show p db' h in
    run (active_seats show.venue_id db) refl (rw (ap (λ r. r.seat_count) report) at some_seat)
      (ap (λ d. active_seats show.venue_id d) state ∙ still_active now draw db show)
      (ap (λ d. d.show_seats) state)
  where
    run :
        (seats : List Seat)
        → active_seats show.venue_id db ≡ seats
        → 0 < length (active_seats show.venue_id db)
        → active_seats show.venue_id db' ≡ active_seats show.venue_id db
        → db'.show_seats ≡ (published_db now draw db show).show_seats
        → publish_checked_show later draw' show db' ≡ (err conflict, db')
    run [] is some_seat same rows = absurd (omega (arith, rw is at some_seat))
    run (s ∷ ss) is some_seat same rows = publish_checked_show_refused later draw' db' show (
        rw (same, is)
          (insert_rows-clash show_seats_clash db'.show_seats (published_row later draw' show.id s)
            (map (published_row later draw' show.id) ss)
            (rw (rows, is) (ground (arith, ==_refl show.id, ==_refl s.id)))))
