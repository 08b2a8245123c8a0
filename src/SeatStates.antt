-- ===== src/SeatStates.antt =====
-- shared/seatStates.js and server/src/modules/seatmap/seatState.machine.js: the vocabulary of seat
-- states, the graph of legal transitions, and the guard that every state change passes.
use ticket_booking_system.Common.{Bool, true, false, List, [], ◌∷◌, if◌then◌else◌}
use ticket_booking_system.Errors.{Result, ok, err, illegal_seat_transition}

-- `SEAT_STATES`, which mirrors the enum `seat_state_t`. An unrecognised state, which
-- `assertTransition` also refuses, cannot be written here.
pub data SeatState : Type 0 where
  available held offer_reserved booked blocked : SeatState

abbrev pub state_eq : SeatState → SeatState → Bool
state_eq available available = true
state_eq held held = true
state_eq offer_reserved offer_reserved = true
state_eq booked booked = true
state_eq blocked blocked = true
state_eq _ _ = false

-- `SEAT_TRANSITIONS`
abbrev pub seat_transitions : SeatState → List SeatState
seat_transitions available = held ∷ blocked ∷ []
seat_transitions held = booked ∷ available ∷ []
seat_transitions booked = available ∷ offer_reserved ∷ []
seat_transitions offer_reserved = booked ∷ offer_reserved ∷ available ∷ []
seat_transitions blocked = available ∷ []

-- `legalTargets.includes(toState)`
abbrev pub includes_state : List SeatState → SeatState → Bool
includes_state [] s = false
includes_state (t ∷ ts) s = if state_eq t s then true else includes_state ts s

abbrev pub is_legal : SeatState → SeatState → Bool
is_legal from to = includes_state (seat_transitions from) to

unfoldable pub assert_transition : SeatState → SeatState → Result (Unit {0})
assert_transition from to = if is_legal from to then ok tt else err illegal_seat_transition
