-- ===== src/Holds/Release.antt =====
-- `releaseHold`: a second release changes nothing, and a release touches no other hold's seats.
use ticket_booking_system.Common.{
  ℕ, ◌+◌, none, ◌≡◌, refl, true, false, arith, All-unit, length, length-map, ap,
}
use ticket_booking_system.SeatStates.{available}
use ticket_booking_system.Errors.{ok}
use ticket_booking_system.Sql.{select}
use ticket_booking_system.Sql.Laws.{
  Rows, Rows-update_where, select-update_where_done, update_where-update_where_done,
}
use ticket_booking_system.Db.{Db, ShowSeat, SeatHold}
use ticket_booking_system.Holds.{
  release_hold, Reason, is_held_under, is_active_hold, freed_row, released_status,
}

-- What a release does to a row: a seat held under this hold is freed, any other row stays.
abbrev pub IsFreed : ℕ → ℕ → ShowSeat → ShowSeat → Type 0
IsFreed now hold_id r t =
    (is_held_under hold_id r ≡ true
      → t ≡ record r {
        state = available;
        hold_id = none;
        held_by_user_id = none;
        expires_at = none;
        version = r.version + 1;
        updated_at = now;
      })
    × (is_held_under hold_id r ≡ false → t ≡ r)

module _ (now hold_id : ℕ) (reason : Reason) (db : Db) where
  -- Releasing is total: it frees exactly the seats held under the hold, reports their number, and
  -- leaves every other row as it is, those under another hold included.
  pub release_hold_frees :
      let (result, db') = release_hold now hold_id reason db in
      (result ≡ ok (length (select (is_held_under hold_id) db.show_seats)))
      × Rows (IsFreed now hold_id) db.show_seats db'.show_seats
  unfolding release_hold
  release_hold_frees = (
    ap ok (length-map (λ s. s.seat_id) (select (is_held_under hold_id) db.show_seats)),
    Rows-update_where (λ r. Unit {0}) (IsFreed now hold_id) (is_held_under hold_id) (freed_row now)
        db.show_seats (λ r _ e. (λ _. refl, λ f. absurd (cc)))
        (λ r _ e. (λ f. absurd (cc), λ _. refl)) (All-unit db.show_seats),
  )

  -- After one release a second, at any later time and for any reason, frees no seat, reports 0 and
  -- leaves the database as it is.
  pub release_hold_idempotent :
      (later : ℕ) (reason' : Reason)
      → let db' = (release_hold now hold_id reason db).1 in
        release_hold later hold_id reason' db' ≡ (ok 0, db')
  unfolding release_hold
  release_hold_idempotent later reason' = rw (
    select-update_where_done (is_held_under hold_id) (freed_row now) db.show_seats freed,
    update_where-update_where_done (is_held_under hold_id) (freed_row now) (freed_row later)
        db.show_seats freed,
    update_where-update_where_done (is_active_hold hold_id)
        (λ h. record h { status = released_status reason })
        (λ h. record h { status = released_status reason' }) db.seat_holds ended,
  )
    where
      freed :
          (r : ShowSeat)
          → is_held_under hold_id r ≡ true
          → is_held_under hold_id (freed_row now r) ≡ false
      freed r h = refl

      ended :
          (h : SeatHold)
          → is_active_hold hold_id h ≡ true
          → is_active_hold hold_id (record h { status = released_status reason }) ≡ false
      ended h a = ground arith
