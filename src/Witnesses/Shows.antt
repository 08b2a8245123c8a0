-- ===== src/Witnesses/Shows.antt =====
-- The theorems about the publication of shows, at the small database before its show is published.
use ticket_booking_system.Common.{
  ℕ, ◌≡◌, ◌+◌, refl, true, not, ◌==◌, some, [], ◌∷◌, map, length, arith,
}
use ticket_booking_system.Errors.{ok, err, conflict, is_ok}
use ticket_booking_system.Sql.{select, exists}
use ticket_booking_system.Db.{Db, ShowSeat}
use ticket_booking_system.Seatmap.{find_show_by_id}
use ticket_booking_system.Holds.{create_hold}
use ticket_booking_system.Shows.{
  Published, publish_show, publish_checked_show, count_show_seats, materialise_show_seats,
  published, published_row, active_seats,
}
use ticket_booking_system.Venues.{or_conflict}
use ticket_booking_system.Shows.Publish.{publish_show_materialises, publish_race}
use ticket_booking_system.Shows.Opening.{publish_then_hold}
use ticket_booking_system.Fixtures.{env, fresh_db, show}

-- What a publication computes through.
unfoldable publishes : Unit {0}
unfolding find_show_by_id publish_show publish_checked_show count_show_seats materialise_show_seats
    published or_conflict active_seats
publishes = tt

abbrev key : ℕ → ℕ
key seat_id = seat_id + 100

abbrev unpublished_db : Db
unpublished_db = record fresh_db { show_seats = [] }

unfoldable published_db : Db
unfolding publishes
published_db = (publish_show 9 key 1 unpublished_db).1

abbrev report : Published
report = record { show = show; seat_count = 3 }

publishes_all : publish_show 9 key 1 unpublished_db ≡ (ok report, published_db)
unfolding published_db publishes
publishes_all = refl

checked_publishes : publish_checked_show 9 key show unpublished_db ≡ (ok report, published_db)
unfolding published_db publishes
checked_publishes = refl

-- The service refuses a second publication.
refuses : publish_show 10 key 1 published_db ≡ (err conflict, published_db)
unfolding published_db publishes
refuses = refl

publish_show_materialises_example :
    (find_show_by_id 1 unpublished_db ≡ some show)
    × (select (λ (s : ShowSeat). s.show_id == 1) unpublished_db.show_seats ≡ [])
    × (report.seat_count ≡ length (active_seats 4 unpublished_db))
    × (select (λ (s : ShowSeat). s.show_id == 1) published_db.show_seats
        ≡ map (published_row 9 key 1) (active_seats 4 unpublished_db))
    × (select (λ (s : ShowSeat). not (s.show_id == 1)) published_db.show_seats
        ≡ select (λ (s : ShowSeat). not (s.show_id == 1)) unpublished_db.show_seats)
    × (record published_db { show_seats = unpublished_db.show_seats } ≡ unpublished_db)
publish_show_materialises_example =
    publish_show_materialises 9 key unpublished_db 1 report published_db publishes_all

publish_race_example : publish_checked_show 10 key show published_db ≡ (err conflict, published_db)
publish_race_example =
    publish_race 9 key show unpublished_db report published_db 10 key checked_publishes
      (omega arith)

publish_then_hold_example :
    let (result, db') = publish_show 9 key 1 unpublished_db in
    (is_ok result ≡ true) × (is_ok (create_hold env 1000 21 1 (12 ∷ 13 ∷ []) 5 db').0 ≡ true)
unfolding publishes exists
publish_then_hold_example =
    publish_then_hold 9 key 1 show unpublished_db refl refl tt (refl, (refl, (refl, tt)))
      (refl, (refl, (refl, tt))) refl env 1000 21 (12 ∷ 13 ∷ []) 5 (omega arith) refl
      (refl, (refl, tt)) (λ a m. ground (arith, m))
