-- ===== src/Seatmap/Legends.antt =====
-- The legend of a seat map: one entry for each category of its seats.
use mathlib.Core.Path.{subst}
use ticket_booking_system.Common.{
  ℕ, ◌≡◌, refl, inl, inr, true, false, List, [], ◌∷◌, ◌++◌, map, arith, ==→eq, ==_refl, Bool-cases,
  Option-cases, contains, IsDistinct, All,
}
use ticket_booking_system.Errors.{ok, ok-injective}
use ticket_booking_system.Db.{Db}
use ticket_booking_system.Seatmap.{
  SeatMap, SeatMapRow, Legend, has_category, add_legend, legend_from, get_seat_map, find_show_by_id,
  get_effective_seat_map,
}

abbrev pub categories : List Legend → List ℕ
categories legend = map (λ l. l.category_id) legend

has_category-contains :
    (c : ℕ) (legend : List Legend) → has_category c legend ≡ contains (categories legend) c
unfolding has_category
has_category-contains c [] = refl
has_category-contains c (l ∷ ls) = ground (arith, has_category-contains c ls)

contains-append_one :
    (legend : List Legend) (l : Legend) (a : ℕ)
    → contains (categories (legend ++ l ∷ [])) a ≡ contains (l.category_id ∷ categories legend) a
contains-append_one [] l a = refl
contains-append_one (k ∷ ks) l a = ground (arith, contains-append_one ks l a)

append_one-IsDistinct :
    (legend : List Legend) (l : Legend)
    → IsDistinct (categories legend)
    → contains (categories legend) l.category_id ≡ false
    → IsDistinct (categories (legend ++ l ∷ []))
append_one-IsDistinct [] l d m = (refl, tt)
append_one-IsDistinct (k ∷ ks) l d m = (
  ground (arith, d.0, contains-append_one ks l k.category_id, ==→eq k.category_id l.category_id),
  append_one-IsDistinct ks l d.1 (ground arith),
)

add_legend-IsDistinct :
    (legend : List Legend) (r : SeatMapRow)
    → IsDistinct (categories legend)
    → IsDistinct (categories (add_legend legend r))
unfolding add_legend
add_legend-IsDistinct legend r d = elim (Bool-cases (has_category r.category_id legend)) [
  | inl known ↦ rw known d
  | inr fresh ↦ rw fresh (
      append_one-IsDistinct legend _ d (ground (arith, has_category-contains r.category_id legend)))
]

-- Adding a seat keeps the entries, and has one for the category of the seat.
add_legend-keeps :
    (legend : List Legend) (r : SeatMapRow) (a : ℕ)
    → contains (r.category_id ∷ categories legend) a ≡ true
    → contains (categories (add_legend legend r)) a ≡ true
unfolding add_legend
add_legend-keeps legend r a h = elim (Bool-cases (has_category r.category_id legend)) [
  | inl known ↦
      rw known
        (ground (arith, h, ==→eq r.category_id a, has_category-contains r.category_id legend))
  | inr fresh ↦ rw fresh (rw (contains-append_one legend _ a) h)
]

legend_from-IsDistinct :
    (legend : List Legend) (rows : List SeatMapRow)
    → IsDistinct (categories legend)
    → IsDistinct (categories (legend_from legend rows))
unfolding legend_from
legend_from-IsDistinct legend [] d = d
legend_from-IsDistinct legend (r ∷ rows) d =
    legend_from-IsDistinct (add_legend legend r) rows (add_legend-IsDistinct legend r d)

legend_from-keeps :
    (legend : List Legend) (rows : List SeatMapRow) (a : ℕ)
    → contains (categories legend) a ≡ true
    → contains (categories (legend_from legend rows)) a ≡ true
unfolding legend_from
legend_from-keeps legend [] a h = h
legend_from-keeps legend (r ∷ rows) a h =
    legend_from-keeps (add_legend legend r) rows a (add_legend-keeps legend r a (ground arith))

legend_from-All :
    (legend : List Legend) (rows : List SeatMapRow)
    → All (λ r. contains (categories (legend_from legend rows)) r.category_id ≡ true) rows
unfolding legend_from
legend_from-All legend [] = tt
legend_from-All legend (r ∷ rows) = (
  legend_from-keeps (add_legend legend r) rows r.category_id
      (add_legend-keeps legend r r.category_id (ground (arith, ==_refl r.category_id))),
  legend_from-All (add_legend legend r) rows,
)

-- The legend of a seat map lists no category twice, and has the category of every seat of the map.
pub get_seat_map_legend :
    (now show_id : ℕ) (db : Db) (m : SeatMap)
    → get_seat_map now show_id db ≡ ok m
    → IsDistinct (categories m.legend)
      × All (λ r. contains (categories m.legend) r.category_id ≡ true) m.seats
unfolding get_seat_map
get_seat_map_legend now show_id db m h = elim (Option-cases (find_show_by_id show_id db)) [
  | inl missing ↦ absurd (cc (rw (missing, get_seat_map) at h))
  | inr (show, found) ↦
      let rows = get_effective_seat_map now show_id db in
      let same = ok-injective (rw (found, get_seat_map) at h) in
      subst
        (λ (m : SeatMap).
          IsDistinct (categories m.legend)
          × All (λ r. contains (categories m.legend) r.category_id ≡ true) m.seats)
        same (legend_from-IsDistinct [] rows tt, legend_from-All [] rows)
]
