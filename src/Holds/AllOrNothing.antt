-- ===== src/Holds/AllOrNothing.antt =====
-- `createHold`: it takes every requested seat or none, and it succeeds exactly if the seat map shows
-- every requested seat available.
use ticket_booking_system.Common.{
  ℕ, ◌≤◌, ◌≡◌, ◌↔◌, Bool, true, false, List, arith, some, ◌==◌, leb, ltb, contains, IsDistinct,
  Within, length-Within, Within-full, length, leb→le, le→leb,
}
use ticket_booking_system.Errors.{is_ok}
use ticket_booking_system.Sql.{exists}
use ticket_booking_system.Sql.Keys.{IsUnique}
use ticket_booking_system.Db.{Db, ShowSeat, Show, Env}
use ticket_booking_system.Db.Tx.{finish}
use ticket_booking_system.Seatmap.{find_show_by_id}
use ticket_booking_system.Holds.{create_hold, hold_transaction}
use ticket_booking_system.Holds.Acquire.{
  same_seat, is_free, acquired_ids, acquired_ids-IsDistinct, contains-acquired_ids,
}

module _ (env : Env) (now fresh_id show_id : ℕ) (seat_ids : List ℕ) (user_id : ℕ) (db : Db) where
  abbrev outcome : Bool
  outcome = is_ok (create_hold env now fresh_id show_id seat_ids user_id db).0

  abbrev after : List ShowSeat
  after = (create_hold env now fresh_id show_id seat_ids user_id db).1.show_seats

  lt-false :
      length seat_ids ≤ env.max_seats_per_booking
      → ltb env.max_seats_per_booking (length seat_ids) ≡ false
  lt-false h = ground arith

  -- The transaction commits exactly if no seat falls short.
  is_ok-create_hold :
      (show : Show)
      → find_show_by_id show_id db ≡ some show
      → length seat_ids ≤ env.max_seats_per_booking
      → exists (λ h. h.id == fresh_id) db.seat_holds ≡ false
      → outcome ≡ leb (length seat_ids) (length (acquired_ids now show_id seat_ids db))
  unfolding create_hold
  is_ok-create_hold show found few fresh =
      rw found (rw (lt-false few) (rw (fresh, is_ok, finish, hold_transaction) (ground arith)))

  -- With distinct ids the acquired ids are as many as the requested ones exactly if each is free.
  all_free :
      IsUnique same_seat db.show_seats
      → leb (length seat_ids) (length (acquired_ids now show_id seat_ids db)) ≡ true
      → Within seat_ids (acquired_ids now show_id seat_ids db)
  all_free unique enough =
      Within-full _ seat_ids (acquired_ids-IsDistinct now show_id seat_ids db unique)
        (λ a m. ground (arith, contains-acquired_ids now show_id seat_ids db a)) (leb→le _ _ enough)

  pub create_hold_all_free :
      IsUnique same_seat db.show_seats
      → leb (length seat_ids) (length (acquired_ids now show_id seat_ids db)) ≡ true
      → (a : ℕ) → contains seat_ids a ≡ true
      → is_free now show_id a db ≡ true
  create_hold_all_free unique enough a m =
      ground (arith, contains-acquired_ids now show_id seat_ids db a, all_free unique enough a m)

  -- For a known show, distinct seat ids within the limit and an unused key, `createHold` succeeds
  -- exactly if the seat map of the show has every requested seat with effective state AVAILABLE.
  pub create_hold_succeeds_iff :
      (show : Show)
      → find_show_by_id show_id db ≡ some show
      → length seat_ids ≤ env.max_seats_per_booking
      → exists (λ h. h.id == fresh_id) db.seat_holds ≡ false
      → IsDistinct seat_ids
      → IsUnique same_seat db.show_seats
      → (outcome ≡ true) ↔ ((a : ℕ) → contains seat_ids a ≡ true → is_free now show_id a db ≡ true)
  create_hold_succeeds_iff show found few fresh distinct unique = (
    λ succeeded.
        create_hold_all_free unique (rw (is_ok-create_hold show found few fresh) at succeeded),
    λ free. rw (is_ok-create_hold show found few fresh) (
        le→leb _ _ (
          length-Within seat_ids _ distinct
            λ a m. ground (arith, contains-acquired_ids now show_id seat_ids db a, free a m))),
  )
