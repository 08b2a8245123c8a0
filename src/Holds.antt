-- ===== src/Holds.antt =====
-- server/src/modules/holds: the atomic acquire and its inverse (holds.queries.js), and the
-- all-or-nothing hold around them (holds.service.js).
pub mod Acquire
pub mod AllOrNothing
pub mod Effect
pub mod Release
use ticket_booking_system.Common.{
  ℕ, ◌+◌, Bool, true, false, ◌&&◌, ◌||◌, Option, none, some, List, [], ◌∷◌, map, ltb, ◌==◌,
  if◌then◌else◌, contains, length,
}
use ticket_booking_system.SeatStates.{available, held, offer_reserved, state_eq}
use ticket_booking_system.Errors.{
  ok, err, SeatLabel, validation, not_found, seats_unavailable, sql, unique_violation,
}
use ticket_booking_system.Sql.{select, update_where, first, exists, le_null, eq_null}
use ticket_booking_system.Db.{Db, ShowSeat, SeatHold, Seat, HoldStatus, Env, make_interval}
use ticket_booking_system.Db.Tx.{Tx, Call, pure, throw_if, query, ◌>>=◌, ◌>>◌, with_transaction}
use ticket_booking_system.Seatmap.{find_show_by_id}

-- The three branches that the outer UPDATE of the acquire accepts.
unfoldable pub is_acquirable : ℕ → ShowSeat → Bool
is_acquirable now s =
    state_eq s.state available
    || (state_eq s.state held && le_null s.expires_at now)
    || (state_eq s.state offer_reserved && le_null s.reserved_until now)

abbrev pub is_candidate : ℕ → List ℕ → ShowSeat → Bool
is_candidate show_id seat_ids s = s.show_id == show_id && contains seat_ids s.seat_id

-- Its SET clause.
abbrev pub acquired_row : ℕ → ℕ → ℕ → ℕ → ShowSeat → ShowSeat
acquired_row now hold_id user_id ttl_seconds s = record s {
  state = held;
  hold_id = some hold_id;
  held_by_user_id = some user_id;
  expires_at = some (now + make_interval ttl_seconds);
  reserved_until = none;
  version = s.version + 1;
  updated_at = now;
}

-- `acquireSeats`
unfoldable pub acquire_seats : ℕ → ℕ → List ℕ → ℕ → ℕ → ℕ → Tx (List ℕ)
unfolding is_acquirable select update_where
acquire_seats now show_id seat_ids hold_id user_id ttl_seconds db =
    let takes = λ (s : ShowSeat). is_candidate show_id seat_ids s && is_acquirable now s in
    ok (
      map (λ s. s.seat_id) (select takes db.show_seats),
      record db {
        show_seats =
            update_where takes (acquired_row now hold_id user_id ttl_seconds) db.show_seats;
      },
    )

-- `insertSeatHold`; `id` is the value that the column's default draws, a primary key.
unfoldable pub insert_seat_hold : ℕ → ℕ → ℕ → ℕ → ℕ → Tx SeatHold
unfolding exists
insert_seat_hold now id show_id user_id ttl_seconds db =
    let hold : SeatHold = record {
      id = id;
      show_id = show_id;
      user_id = user_id;
      status = HoldStatus.active;
      expires_at = now + make_interval ttl_seconds;
    } in
    if exists (λ h. h.id == id) db.seat_holds
    then err (sql unique_violation)
    else ok (hold, record db { seat_holds = hold ∷ db.seat_holds })

-- `findSeatLabels`
unfoldable pub find_seat_labels : ℕ → List ℕ → Db → List SeatLabel
unfolding select exists
find_seat_labels show_id seat_ids db =
    map (λ s. record { seat_id = s.id; row_label = s.row_label; seat_number = s.seat_number })
      (select
        (λ (s : Seat).
          contains seat_ids s.id
          && exists (λ ss. ss.show_id == show_id && ss.seat_id == s.id) db.show_seats)
        db.seats)

abbrev pub is_active : HoldStatus → Bool
is_active HoldStatus.active = true
is_active _ = false

abbrev pub is_held_under : ℕ → ShowSeat → Bool
is_held_under hold_id s = eq_null s.hold_id hold_id && state_eq s.state held

abbrev pub freed_row : ℕ → ShowSeat → ShowSeat
freed_row now s = record s {
  state = available;
  hold_id = none;
  held_by_user_id = none;
  expires_at = none;
  version = s.version + 1;
  updated_at = now;
}

-- `releaseHoldSeats`
unfoldable pub release_hold_seats : ℕ → ℕ → Tx (List ℕ)
unfolding select update_where
release_hold_seats now hold_id db = ok (
  map (λ s. s.seat_id) (select (is_held_under hold_id) db.show_seats),
  record db { show_seats = update_where (is_held_under hold_id) (freed_row now) db.show_seats },
)

abbrev pub is_active_hold : ℕ → SeatHold → Bool
is_active_hold hold_id h = h.id == hold_id && is_active h.status

-- `markSeatHoldReleased`
unfoldable pub mark_seat_hold_released : ℕ → HoldStatus → Tx Bool
unfolding exists update_where
mark_seat_hold_released hold_id status db = ok (
  exists (is_active_hold hold_id) db.seat_holds,
  record db {
    seat_holds =
        update_where (is_active_hold hold_id) (λ h. record h { status = status }) db.seat_holds;
  },
)

-- `findSeatHoldById`
unfoldable pub find_seat_hold_by_id : ℕ → Db → Option SeatHold
unfolding first
find_seat_hold_by_id hold_id db = first (λ h. h.id == hold_id) db.seat_holds

-- `seatIds.filter((id) => !acquiredSeatIds.includes(id))`
unfoldable pub missing_seat_ids : List ℕ → List ℕ → List ℕ
missing_seat_ids acquired [] = []
missing_seat_ids acquired (id ∷ ids) =
    let rest = missing_seat_ids acquired ids in if contains acquired id then rest else id ∷ rest

-- The transaction of `createHold`.
unfoldable pub hold_transaction : ℕ → ℕ → ℕ → List ℕ → ℕ → ℕ → Tx (SeatHold × List ℕ)
unfolding insert_seat_hold acquire_seats missing_seat_ids find_seat_labels
hold_transaction now fresh_id show_id seat_ids user_id ttl_seconds = do
  hold ← insert_seat_hold now fresh_id show_id user_id ttl_seconds
  acquired ← acquire_seats now show_id seat_ids hold.id user_id ttl_seconds
  labels ← query (find_seat_labels show_id (missing_seat_ids acquired seat_ids))
  throw_if (ltb (length acquired) (length seat_ids)) (seats_unavailable labels)
  pure (hold, acquired)

-- `createHold`
unfoldable pub create_hold : Env → ℕ → ℕ → ℕ → List ℕ → ℕ → Call (SeatHold × List ℕ)
unfolding find_show_by_id with_transaction hold_transaction
create_hold env now fresh_id show_id seat_ids user_id db =
    if ltb env.max_seats_per_booking (length seat_ids)
    then (err validation, db)
    else elim (find_show_by_id show_id db) [
      | none ↦ (err not_found, db)
      | some show ↦
          with_transaction
            (hold_transaction now fresh_id show_id seat_ids user_id show.hold_ttl_seconds) db
    ]

-- `reason` of `releaseHold`
pub data Reason : Type 0 where
  manual ttl : Reason

abbrev pub released_status : Reason → HoldStatus
released_status manual = HoldStatus.released
released_status ttl = HoldStatus.expired

-- `releaseHold`; the result is the number of seats that this call freed.
unfoldable pub release_hold : ℕ → ℕ → Reason → Call ℕ
unfolding with_transaction release_hold_seats mark_seat_hold_released
release_hold now hold_id reason = with_transaction do
  seat_ids ← release_hold_seats now hold_id
  mark_seat_hold_released hold_id (released_status reason)
  pure (length seat_ids)

-- `loadHoldForOwnership`, and `loadHoldForOwnershipFromConfirmBody`, which differ in where the
-- request carries the id: the user who may release or confirm the hold.
unfoldable pub load_hold_for_ownership : ℕ → Db → Option ℕ
unfolding find_seat_hold_by_id
load_hold_for_ownership hold_id db = elim (find_seat_hold_by_id hold_id db) [
  | none ↦ none
  | some hold ↦ some hold.user_id
]
