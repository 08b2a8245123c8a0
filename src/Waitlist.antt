-- ===== src/Waitlist.antt =====
-- server/src/modules/waitlist: the queue (waitlist.queries.js) and joining it (waitlist.service.js).
pub mod Queue
pub mod Joining
use ticket_booking_system.Common.{
  ℕ, ◌+◌, suc, Bool, true, false, not, ◌&&◌, ◌||◌, Option, none, some, List, [], ◌∷◌, ltb, leb,
  ◌==◌, if◌then◌else◌, length,
}
use ticket_booking_system.SeatStates.{available, state_eq}
use ticket_booking_system.Errors.{
  Result, ok, err, Error, validation, not_found, already_waitlisted, internal, sql,
  unique_violation, foreign_key_violation,
}
use ticket_booking_system.Sql.{Ties, select, update_where, first, exists}
use ticket_booking_system.Db.{Db, WaitlistEntry, WaitlistStatus, ShowSeat, Env}
use ticket_booking_system.Db.Tx.{Tx, Call}
use ticket_booking_system.Seatmap.{find_show_by_id, effective_state}

abbrev pub is_waiting : WaitlistStatus → Bool
is_waiting WaitlistStatus.waiting = true
is_waiting _ = false

abbrev pub is_offered : WaitlistStatus → Bool
is_offered WaitlistStatus.offered = true
is_offered _ = false

-- `countEffectiveAvailableSeats`
unfoldable pub count_effective_available_seats : ℕ → ℕ → ℕ → Db → ℕ
unfolding select effective_state
count_effective_available_seats now show_id category_id db = length (
    select
      (λ (ss : ShowSeat).
        ss.show_id == show_id
        && ss.category_id == category_id
        && state_eq (effective_state now ss) available)
      db.show_seats)

abbrev pub is_entry_of : ℕ → ℕ → ℕ → WaitlistEntry → Bool
is_entry_of show_id category_id user_id e =
    e.show_id == show_id && e.category_id == category_id && e.user_id == user_id

-- `insertWaitlistEntry`: the primary key, UNIQUE (show_id, category_id, user_id), and the foreign
-- key of the category. That of the show is checked by the caller, that of the user by the session.
unfoldable pub insert_waitlist_entry : ℕ → ℕ → ℕ → ℕ → ℕ → ℕ → Tx WaitlistEntry
unfolding exists
insert_waitlist_entry now id show_id category_id user_id quantity db =
    let entry : WaitlistEntry = record {
      id = id;
      show_id = show_id;
      category_id = category_id;
      user_id = user_id;
      quantity = quantity;
      status = WaitlistStatus.waiting;
      enqueued_at = now;
    } in
    if exists (λ e. e.id == id || is_entry_of show_id category_id user_id e) db.waitlist_entries
    then err (sql unique_violation)
    else if exists (λ c. c.id == category_id) db.seat_categories
    then ok (entry, record db { waitlist_entries = entry ∷ db.waitlist_entries })
    else err (sql foreign_key_violation)

abbrev pub is_queued : ℕ → ℕ → WaitlistEntry → Bool
is_queued show_id category_id e =
    e.show_id == show_id && e.category_id == category_id && is_waiting e.status

-- `x` stands before `e` in `ORDER BY enqueued_at`.
abbrev pub is_ahead : Ties → WaitlistEntry → WaitlistEntry → Bool
is_ahead ties e x =
    ltb x.enqueued_at e.enqueued_at
    || x.enqueued_at == e.enqueued_at && not (x.id == e.id) && ties x.id e.id

-- How many of the entries stand before `e`.
unfoldable pub count_before : Ties → WaitlistEntry → List WaitlistEntry → ℕ
count_before ties e [] = 0
count_before ties e (x ∷ xs) = (if is_ahead ties e x then 1 else 0) + count_before ties e xs

pub record QueuePosition : Type 0 where
  pub position : ℕ
  pub total : ℕ

-- `findQueuePosition`: the ROW_NUMBER() by `enqueued_at` among those that wait, and their number.
unfoldable pub find_queue_position : Ties → ℕ → ℕ → ℕ → Db → Option QueuePosition
unfolding select first count_before
find_queue_position ties show_id category_id user_id db =
    let queue = select (is_queued show_id category_id) db.waitlist_entries in
    elim (first (λ e. e.user_id == user_id) queue) [
      | none ↦ none
      | some e ↦ some (record { position = suc (count_before ties e queue); total = length queue })
    ]

-- `findEntryForUser`
unfoldable pub find_entry_for_user : ℕ → ℕ → ℕ → Db → Option WaitlistEntry
unfolding first
find_entry_for_user show_id category_id user_id db =
    first (is_entry_of show_id category_id user_id) db.waitlist_entries

abbrev pub earlier : WaitlistEntry → Option WaitlistEntry → WaitlistEntry
earlier e none = e
earlier e (some best) = if leb e.enqueued_at best.enqueued_at then e else best

-- `ORDER BY enqueued_at ASC LIMIT 1` over the rows that meet the test.
unfoldable pub oldest : (WaitlistEntry → Bool) → List WaitlistEntry → Option WaitlistEntry
oldest p [] = none
oldest p (e ∷ es) = let rest = oldest p es in if p e then some (earlier e rest) else rest

-- `claimNextWaitingEntry`; `locked` tells the rows that other open transactions have locked, which
-- SKIP LOCKED passes over.
unfoldable pub claim_next_waiting_entry : (ℕ → Bool) → ℕ → ℕ → Db → Option WaitlistEntry
unfolding oldest
claim_next_waiting_entry locked show_id category_id db =
    oldest (λ e. is_queued show_id category_id e && (if locked e.id then false else true))
      db.waitlist_entries

abbrev pub set_status : WaitlistStatus → WaitlistEntry → WaitlistEntry
set_status status e = record e { status = status }

-- `markEntryOffered`
unfoldable pub mark_entry_offered : ℕ → Tx (Unit {0})
unfolding update_where
mark_entry_offered entry_id db = ok (
  tt,
  record db {
    waitlist_entries =
        update_where (λ e. e.id == entry_id && is_waiting e.status)
          (set_status WaitlistStatus.offered) db.waitlist_entries;
  },
)

-- `findEntryById`
unfoldable pub find_entry_by_id : ℕ → Db → Option WaitlistEntry
unfolding first
find_entry_by_id entry_id db = first (λ e. e.id == entry_id) db.waitlist_entries

-- `markEntryConverted`
unfoldable pub mark_entry_converted : ℕ → Tx (Unit {0})
unfolding update_where
mark_entry_converted entry_id db = ok (
  tt,
  record db {
    waitlist_entries =
        update_where (λ e. e.id == entry_id && is_offered e.status)
          (set_status WaitlistStatus.converted) db.waitlist_entries;
  },
)

-- The `catch` of `joinWaitlist`.
abbrev pub translate_join : Error → Error
translate_join (sql unique_violation) = already_waitlisted
translate_join e = e

pub record Joined : Type 0 where
  pub entry : WaitlistEntry
  pub position : ℕ
  pub total : ℕ

-- The second statement: the position is read back; a missing one would be a TypeError.
abbrev pub read_position : Ties → WaitlistEntry → Db → Result Joined
read_position ties entry db =
    elim (find_queue_position ties entry.show_id entry.category_id entry.user_id db) [
      | none ↦ err internal
      | some q ↦ ok (record { entry = entry; position = q.position; total = q.total })
    ]

-- `joinWaitlist`: no transaction, so the entry stays if a later statement fails.
unfoldable pub join_waitlist : Env → Ties → ℕ → ℕ → ℕ → ℕ → ℕ → ℕ → Call Joined
unfolding find_show_by_id count_effective_available_seats insert_waitlist_entry find_queue_position
join_waitlist env ties now fresh_id show_id category_id user_id quantity db =
    if ltb env.max_seats_per_booking quantity
    then (err validation, db)
    else elim (find_show_by_id show_id db) [
      | none ↦ (err not_found, db)
      | some show ↦
          if ltb 0 (count_effective_available_seats now show_id category_id db)
          then (err validation, db)
          else elim (insert_waitlist_entry now fresh_id show_id category_id user_id quantity db) [
            | err e ↦ (err (translate_join e), db)
            | ok (entry, db') ↦ (read_position ties entry db', db')
          ]
    ]

pub record Membership : Type 0 where
  pub status : WaitlistStatus
  pub place : Option QueuePosition

-- `getMyWaitlistStatus`
unfoldable pub get_my_waitlist_status : Ties → ℕ → ℕ → ℕ → Db → Result Membership
unfolding find_entry_for_user find_queue_position
get_my_waitlist_status ties show_id category_id user_id db =
    elim (find_entry_for_user show_id category_id user_id db) [
      | none ↦ err not_found
      | some e ↦
          if is_waiting e.status
          then elim (find_queue_position ties show_id category_id user_id db) [
            | none ↦ err internal
            | some q ↦ ok (record { status = e.status; place = some q })
          ]
          else ok (record { status = e.status; place = none })
    ]
