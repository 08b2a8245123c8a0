-- ===== src/Lifecycle.antt =====
-- The calls of the services, each as one step of the database, against the graph of legal
-- transitions of a seat (shared/seatStates.js).
use ticket_booking_system.Common.{
  ℕ, ◌+◌, ◌≡◌, refl, ◌⊎◌, inl, inr, Bool, true, ◌||◌, some, List, arith, Bool-cases, Option-cases,
  All-unit, ltb, length,
}
use ticket_booking_system.SeatStates.{is_legal}
use ticket_booking_system.Errors.{is_ok, ok}
use ticket_booking_system.Sql.{update_where}
use ticket_booking_system.Sql.Laws.{Rows, Rows-refl, Rows-update_where, Rows-mono}
use ticket_booking_system.Db.{Db, ShowSeat, Show, Env}
use ticket_booking_system.Db.Tx.{finish-cases}
use ticket_booking_system.Seatmap.{effective_state, find_show_by_id}
use ticket_booking_system.Holds.{create_hold, release_hold, Reason, acquired_row, is_held_under}
use ticket_booking_system.Holds.Acquire.{takes, is_acquirable-available}
use ticket_booking_system.Holds.Effect.{create_hold_rollback, create_hold_commit}
use ticket_booking_system.Holds.Release.{IsFreed, release_hold_frees}
use ticket_booking_system.Bookings.{Mint, Confirmed, confirm_booking, is_confirmable, booked_row}
use ticket_booking_system.Bookings.Outcome.{confirm_booking-Commits}
use ticket_booking_system.Offers.{Crypto, OfferMint, accept_offer, is_claimable, claimed_row}
use ticket_booking_system.Offers.Outcome.{accept_offer-Accepts}
use ticket_booking_system.Cancellation.{Cancelled, cancel_booking, is_booked_under}
use ticket_booking_system.Cancellation.Outcome.{IsUnbooked, cancel_booking_releases}

-- What a step may do to a row: nothing, or a transition of the graph, from the state that is stored
-- or from the effective state; the seat stays the same, and the version counts the change.
abbrev pub IsTransition : ℕ → ShowSeat → ShowSeat → Type 0
IsTransition now r t =
    (t ≡ r)
    ⊎ ((is_legal r.state t.state || is_legal (effective_state now r) t.state) ≡ true)
      × (t.id ≡ r.id)
      × (t.show_id ≡ r.show_id)
      × (t.seat_id ≡ r.seat_id)
      × (t.category_id ≡ r.category_id)
      × (t.version ≡ r.version + 1)

-- The calls that update seats, whatever they are called with, whether they succeed or not.
pub data Step (env : Env) (crypto : Crypto) : ℕ → Db → Db → Type 0 where
  holds :
      {db : Db} (now fresh_id show_id : ℕ) (seat_ids : List ℕ) (user_id : ℕ)
      → Step env crypto now db (create_hold env now fresh_id show_id seat_ids user_id db).1
  releases :
      {db : Db} (now hold_id : ℕ) (reason : Reason)
      → Step env crypto now db (release_hold now hold_id reason db).1
  confirms :
      {db : Db} (now : ℕ) (mint : Mint) (hold_id user_id : ℕ)
      → Step env crypto now db (confirm_booking env now mint hold_id user_id db).1
  accepts :
      {db : Db} (now : ℕ) (mint : Mint) (raw_token : ℕ)
      → Step env crypto now db (accept_offer crypto env now mint raw_token db).1
  cancels :
      {db : Db} (now booking_id : ℕ) (locked : ℕ → Bool) (mint : ℕ → OfferMint)
      → Step env crypto now db (cancel_booking crypto env now booking_id locked mint db).1

abbrev Follows : ℕ → Db → Db → Type 0
Follows now db db' = Rows (IsTransition now) db.show_seats db'.show_seats

stays : (now : ℕ) (db : Db) → Follows now db db
stays now db = Rows-refl (IsTransition now) db.show_seats (λ r. inl refl)

-- An UPDATE whose WHERE clause only admits rows that may make its transition.
updates :
    (now : ℕ) (p : ShowSeat → Bool) (f : ShowSeat → ShowSeat) (rs : List ShowSeat)
    → ((r : ShowSeat) → p r ≡ true → IsTransition now r (f r))
    → Rows (IsTransition now) rs (update_where p f rs)
updates now p f rs moves =
    Rows-update_where (λ r. Unit {0}) (IsTransition now) p f rs (λ r _ e. moves r e)
      (λ r _ e. inl refl) (All-unit rs)

create_hold_known :
    (env : Env) (now fresh_id show_id : ℕ) (seat_ids : List ℕ) (user_id : ℕ) (db : Db)
    → is_ok (create_hold env now fresh_id show_id seat_ids user_id db).0 ≡ true
    → (show : Show) × (find_show_by_id show_id db ≡ some show)
unfolding create_hold
create_hold_known env now fresh_id show_id seat_ids user_id db h =
    elim (Bool-cases (ltb env.max_seats_per_booking (length seat_ids))) [
      | inl many ↦ absurd (cc (rw many at h))
      | inr few ↦ elim (Option-cases (find_show_by_id show_id db)) [
        | inl missing ↦ absurd (cc (rw missing at (rw few at h)))
        | inr known ↦ known
      ]
    ]

-- Each call commits with a result, or leaves the database as it is.
module _ (crypto : Crypto) (env : Env) (now : ℕ) (mint : Mint) (db : Db) where
  confirm_cases :
      (hold_id user_id : ℕ)
      → let r = confirm_booking env now mint hold_id user_id db in
        ((c : Confirmed) × (r ≡ (ok c, r.1))) ⊎ (r.1 ≡ db)
  unfolding confirm_booking
  confirm_cases hold_id user_id = finish-cases db _

  accept_cases :
      (raw_token : ℕ)
      → let r = accept_offer crypto env now mint raw_token db in
        ((c : Confirmed) × (r ≡ (ok c, r.1))) ⊎ (r.1 ≡ db)
  unfolding accept_offer
  accept_cases raw_token = finish-cases db _

cancel_cases :
    (crypto : Crypto) (env : Env) (now booking_id : ℕ) (locked : ℕ → Bool) (mint : ℕ → OfferMint)
    (db : Db)
    → let r = cancel_booking crypto env now booking_id locked mint db in
      ((c : Cancelled) × (r ≡ (ok c, r.1))) ⊎ (r.1 ≡ db)
unfolding cancel_booking
cancel_cases crypto env now booking_id locked mint db = finish-cases db _

module _ (env : Env) (now : ℕ) where
  create_hold-Follows :
      (fresh_id show_id : ℕ) (seat_ids : List ℕ) (user_id : ℕ) (db : Db)
      → Follows now db (create_hold env now fresh_id show_id seat_ids user_id db).1
  create_hold-Follows fresh_id show_id seat_ids user_id db =
      elim (Bool-cases (is_ok (create_hold env now fresh_id show_id seat_ids user_id db).0)) [
        | inr failed ↦
            rw (create_hold_rollback env now fresh_id show_id seat_ids user_id db failed)
              (stays now db)
        | inl succeeded ↦
            let (show, known) =
              create_hold_known env now fresh_id show_id seat_ids user_id db succeeded in
            let (enough, update) =
              create_hold_commit env now fresh_id show_id seat_ids user_id db show known
                succeeded in
            rw update (
              updates now (takes now show_id seat_ids)
                (acquired_row now fresh_id user_id show.hold_ttl_seconds) db.show_seats
                (λ r e. inr (
                  ground (arith, is_acquirable-available now r (ground arith)),
                  refl,
                  refl,
                  refl,
                  refl,
                  refl,
                )))
      ]

  release_hold-Follows :
      (hold_id : ℕ) (reason : Reason) (db : Db)
      → Follows now db (release_hold now hold_id reason db).1
  release_hold-Follows hold_id reason db =
      Rows-mono (λ r. Unit {0}) (IsFreed now hold_id) (IsTransition now) db.show_seats _
        (λ r t _ k. freed r t k) (All-unit db.show_seats)
        (release_hold_frees now hold_id reason db).1
    where
      freed : (r t : ShowSeat) → IsFreed now hold_id r t → IsTransition now r t
      freed r t k = elim (Bool-cases (is_held_under hold_id r)) [
        | inr other ↦ inl (k.1 other)
        | inl mine ↦ rw (k.0 mine) (inr (ground (arith, mine), refl, refl, refl, refl, refl))
      ]

  confirm_booking-Follows :
      (crypto : Crypto) (mint : Mint) (hold_id user_id : ℕ) (db : Db)
      → Follows now db (confirm_booking env now mint hold_id user_id db).1
  confirm_booking-Follows crypto mint hold_id user_id db =
      elim (confirm_cases crypto env now mint db hold_id user_id) [
        | inr same ↦ rw same (stays now db)
        | inl (c, committed) ↦
            rw (confirm_booking-Commits env now mint hold_id user_id db c _ committed).state (
              updates now (is_confirmable now hold_id) (booked_row now mint.booking_id)
                db.show_seats (λ r e. inr (ground arith, refl, refl, refl, refl, refl)))
      ]

  accept_offer-Follows :
      (crypto : Crypto) (mint : Mint) (raw_token : ℕ) (db : Db)
      → Follows now db (accept_offer crypto env now mint raw_token db).1
  accept_offer-Follows crypto mint raw_token db =
      elim (accept_cases crypto env now mint db raw_token) [
        | inr same ↦ rw same (stays now db)
        | inl (c, committed) ↦
            let (offer, found, pending, fresh, (entry, k)) =
              accept_offer-Accepts env now mint crypto raw_token db c _ committed in
            rw k.state (
              updates now (is_claimable now offer.show_seat_ids) (claimed_row now mint.booking_id)
                db.show_seats (λ r e. inr (ground arith, refl, refl, refl, refl, refl)))
      ]

  cancel_booking-Follows :
      (crypto : Crypto) (booking_id : ℕ) (locked : ℕ → Bool) (mint : ℕ → OfferMint) (db : Db)
      → Follows now db (cancel_booking crypto env now booking_id locked mint db).1
  cancel_booking-Follows crypto booking_id locked mint db =
      elim (cancel_cases crypto env now booking_id locked mint db) [
        | inr same ↦ rw same (stays now db)
        | inl (c, committed) ↦
            Rows-mono (λ r. Unit {0})
              (IsUnbooked
                (cancel_booking crypto env now booking_id locked mint db).1.waitlist_offers
                env.waitlist_max_cascade_attempts now booking_id)
              (IsTransition now) db.show_seats _ (λ r t _ k. unbooked r t k)
              (All-unit db.show_seats)
              (cancel_booking_releases crypto env now booking_id locked mint db c _ committed)
      ]
    where
      unbooked :
          (r t : ShowSeat)
          → IsUnbooked
              (cancel_booking crypto env now booking_id locked mint db).1.waitlist_offers
              env.waitlist_max_cascade_attempts
              now
              booking_id
              r
              t
          → IsTransition now r t
      unbooked r t k = elim (Bool-cases (is_booked_under booking_id r)) [
        | inr other ↦ inl (k.1 other)
        | inl mine ↦ elim (k.0 mine) [
          | inl free ↦ rw free (inr (ground (arith, mine), refl, refl, refl, refl, refl))
          | inr (ttl, reserved, offered) ↦
              rw reserved (inr (ground (arith, mine), refl, refl, refl, refl, refl))
        ]
      ]

-- Every call that updates seats, whatever it is called with and whether it succeeds or not, leaves
-- each seat as it is or takes it along SEAT_TRANSITIONS, from the state that is stored or from its
-- effective state; it does not touch which seat of which show and category it is, and counts the
-- change in its version.
pub Step-IsTransition :
    (env : Env) (crypto : Crypto) (now : ℕ) (db db' : Db)
    → Step env crypto now db db'
    → Rows (IsTransition now) db.show_seats db'.show_seats
Step-IsTransition env crypto _ db _ (holds now fresh_id show_id seat_ids user_id) =
    create_hold-Follows env now fresh_id show_id seat_ids user_id db
Step-IsTransition env crypto _ db _ (releases now hold_id reason) =
    release_hold-Follows env now hold_id reason db
Step-IsTransition env crypto _ db _ (confirms now mint hold_id user_id) =
    confirm_booking-Follows env now crypto mint hold_id user_id db
Step-IsTransition env crypto _ db _ (accepts now mint raw_token) =
    accept_offer-Follows env now crypto mint raw_token db
Step-IsTransition env crypto _ db _ (cancels now booking_id locked mint) =
    cancel_booking-Follows env now crypto booking_id locked mint db
