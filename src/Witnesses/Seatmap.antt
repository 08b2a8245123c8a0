-- ===== src/Witnesses/Seatmap.antt =====
-- The theorem about the seat map on the fresh database.
use ticket_booking_system.Common.{◌≡◌, refl, [], ◌∷◌}
use ticket_booking_system.Seatmap.{SeatMap, get_effective_seat_map, legend_from}
use ticket_booking_system.Sql.{first}
use ticket_booking_system.Seatmap.Legends.{categories}
use ticket_booking_system.Fixtures.{fresh_db}

abbrev fresh_map : SeatMap
fresh_map = record {
  show_id = 1;
  seats = get_effective_seat_map 5 1 fresh_db;
  legend = legend_from [] (get_effective_seat_map 5 1 fresh_db);
}

fresh_categories : categories fresh_map.legend ≡ 7 ∷ 8 ∷ []
unfolding get_effective_seat_map legend_from first
fresh_categories = refl
