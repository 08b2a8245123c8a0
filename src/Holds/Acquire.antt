-- ===== src/Holds/Acquire.antt =====
-- The acquire statement against the seat map: a seat is taken exactly if the map shows it available.
use ticket_booking_system.Common.{
  ℕ, ◌≡◌, refl, ◌∙◌, inl, inr, Bool, true, false, ◌&&◌, List, [], ◌∷◌, map, arith, ◌==◌, Bool-cases,
  contains, IsDistinct, ==→eq,
}
use ticket_booking_system.SeatStates.{available, state_eq}
use ticket_booking_system.Sql.{select, exists}
use ticket_booking_system.Sql.Keys.{IsUnique, contains-select, select-IsDistinct}
use ticket_booking_system.Db.{Db, ShowSeat}
use ticket_booking_system.Seatmap.{effective_state}
use ticket_booking_system.Holds.{is_acquirable, is_candidate}

-- The acquire accepts a row exactly if the seat map shows it as AVAILABLE.
pub is_acquirable-effective_state :
    (now : ℕ) (s : ShowSeat) → is_acquirable now s ≡ state_eq (effective_state now s) available
unfolding is_acquirable effective_state
is_acquirable-effective_state now s = ground arith

-- The primary key of show_seats.
abbrev pub same_id : ShowSeat → ShowSeat → Bool
same_id r t = r.id == t.id

-- UNIQUE (show_id, seat_id)
abbrev pub same_seat : ShowSeat → ShowSeat → Bool
same_seat r t = r.show_id == t.show_id && r.seat_id == t.seat_id

-- Whether the map of the show has the seat, with the effective state AVAILABLE.
abbrev pub is_free : ℕ → ℕ → ℕ → Db → Bool
is_free now show_id seat_id db =
    exists
      (λ (s : ShowSeat).
        s.show_id == show_id && s.seat_id == seat_id && state_eq (effective_state now s) available)
      db.show_seats

abbrev pub takes : ℕ → ℕ → List ℕ → ShowSeat → Bool
takes now show_id seat_ids s = is_candidate show_id seat_ids s && is_acquirable now s

abbrev pub acquired_ids : ℕ → ℕ → List ℕ → Db → List ℕ
acquired_ids now show_id seat_ids db =
    map (λ s. s.seat_id) (select (takes now show_id seat_ids) db.show_seats)

pub acquired_ids-IsDistinct :
    (now show_id : ℕ) (seat_ids : List ℕ) (db : Db)
    → IsUnique same_seat db.show_seats
    → IsDistinct (acquired_ids now show_id seat_ids db)
acquired_ids-IsDistinct now show_id seat_ids db u =
    select-IsDistinct (λ s. s.seat_id) (takes now show_id seat_ids) same_seat db.show_seats
      (λ r t e f. ground arith) u

exists-congr :
    (p q : ShowSeat → Bool) (rs : List ShowSeat)
    → ((r : ShowSeat) → p r ≡ q r)
    → exists p rs ≡ exists q rs
unfolding exists
exists-congr p q [] f = refl
exists-congr p q (r ∷ rs) f = ground (arith, f r, exists-congr p q rs f)

exists-none :
    (p : ShowSeat → Bool) (rs : List ShowSeat)
    → ((r : ShowSeat) → p r ≡ false)
    → exists p rs ≡ false
unfolding exists
exists-none p [] f = refl
exists-none p (r ∷ rs) f = ground (arith, f r, exists-none p rs f)

-- A seat is acquired exactly if it is requested and free.
pub contains-acquired_ids :
    (now show_id : ℕ) (seat_ids : List ℕ) (db : Db) (a : ℕ)
    → contains (acquired_ids now show_id seat_ids db) a
      ≡ (contains seat_ids a && is_free now show_id a db)
contains-acquired_ids now show_id seat_ids db a = elim (Bool-cases (contains seat_ids a)) [
  | inl e ↦ rw e (
      contains-select (λ s. s.seat_id) (takes now show_id seat_ids) db.show_seats a
      ∙ exists-congr _ _ db.show_seats
          λ s. ground (arith, is_acquirable-effective_state now s, ==→eq s.seat_id a, e))
  | inr e ↦ rw e (
      contains-select (λ s. s.seat_id) (takes now show_id seat_ids) db.show_seats a
      ∙ exists-none _ db.show_seats λ s. ground (arith, ==→eq s.seat_id a, e))
]

pub is_acquirable-available :
    (now : ℕ) (s : ShowSeat) → is_acquirable now s ≡ true → effective_state now s ≡ available
unfolding is_acquirable effective_state
is_acquirable-available now s h = ground arith
