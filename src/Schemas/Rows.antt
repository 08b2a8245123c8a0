-- ===== src/Schemas/Rows.antt =====
-- The bulk creation of seats: what its schema bounds.
use mathlib.Core.Path.{subst}
use ticket_booking_system.Common.{
  ℕ, ◌*◌, ◌≤◌, some, List, [], ◌∷◌, ◌≡◌, refl, arith, some-injective, length, All, sum, map,
}
use ticket_booking_system.Venues.{RowSpec, expand}
use ticket_booking_system.Venues.Bulk.{length-expand}
use ticket_booking_system.Schemas.{
  Value, number, Props, get, int_in, array_of, Texts, Zod, IsDocumented, documented,
  documented_fields, check_int_in,
}
use ticket_booking_system.Schemas.Requests.{bulk_seat_row_schema, bulk_create_seats_schema}
use ticket_booking_system.Schemas.Parsing.{seats, parse}
use ticket_booking_system.Schemas.Bodies.{
  read_object, read_number, read_text, read_bool, row_body, rows_body,
}
use ticket_booking_system.Schemas.Lookups.{get-documented_fields}
use ticket_booking_system.Schemas.Reading.{fields_of, items-items_of}
use ticket_booking_system.Schemas.Inversion.{
  bind-eq-some, parsed_object, parsed_array, read_each-All,
}

abbrev pub IsCounted : RowSpec → Type 0
IsCounted spec = (1 ≤ spec.count) × (spec.count ≤ 50)

sum_counts :
    (specs : List RowSpec)
    → All IsCounted specs
    → (length specs ≤ sum (map (λ spec. spec.count) specs))
      × (sum (map (λ spec. spec.count) specs) ≤ 50 * length specs)
sum_counts [] h = (omega arith, omega arith)
sum_counts (spec ∷ specs) h =
    let (low, high) = sum_counts specs h.1 in (omega (arith, h.0), omega (arith, h.0))

check_int_in-bounds :
    (lo hi : ℕ) (v w : Value) (n : ℕ)
    → check_int_in lo hi v ≡ some w
    → read_number w ≡ some n
    → (lo ≤ n) × (n ≤ hi)
check_int_in-bounds lo hi (number m) w n h r = ground arith
check_int_in-bounds lo hi _ w n h r = absurd (cc)

module _ (t : Texts) where
  row_body-IsCounted :
      (ps rs : Props) (spec : RowSpec)
      → documented_fields t (fields_of bulk_seat_row_schema) ps ≡ some rs
      → row_body rs ≡ some spec
      → IsCounted spec
  unfolding documented
  row_body-IsCounted ps rs spec e b =
      let (row_label, _, b0) = bind-eq-some (read_text (get "rowLabel" rs)) _ b in
      let (count, counted, b1) = bind-eq-some (read_number (get "count" rs)) _ b0 in
      let (category_id, _, b2) = bind-eq-some (read_text (get "categoryId" rs)) _ b1 in
      let (grid_row, _, b3) = bind-eq-some (read_number (get "gridRow" rs)) _ b2 in
      let (start_seat_number, _, b4) = bind-eq-some (read_number (get "startSeatNumber" rs)) _ b3 in
      let (start_grid_col, _, b5) = bind-eq-some (read_number (get "startGridCol" rs)) _ b4 in
      let (is_accessible, _, b6) = bind-eq-some (read_bool (get "isAccessible" rs)) _ b5 in
      subst IsCounted (some-injective b6) (
        check_int_in-bounds 1 50 (get "count" ps) (get "count" rs) count
          (get-documented_fields t ps "count" (fields_of bulk_seat_row_schema) (int_in 1 50) rs refl
            e refl)
          counted)

  row_object-IsCounted :
      (v w : Value) (spec : RowSpec)
      → documented t bulk_seat_row_schema v ≡ some w
      → read_object row_body w ≡ some spec
      → IsCounted spec
  row_object-IsCounted v w spec h r =
      let (ps, rs, _, e, b) =
        parsed_object t (fields_of bulk_seat_row_schema) row_body v spec (rw h r) in
      row_body-IsCounted ps rs spec e b

  rows_body-IsCounted :
      (ps rs : Props) (specs : List RowSpec)
      → documented_fields t (fields_of bulk_create_seats_schema) ps ≡ some rs
      → rows_body rs ≡ some specs
      → All IsCounted specs × (1 ≤ length specs)
  rows_body-IsCounted ps rs specs h r =
      let at =
        get-documented_fields t ps "rows" (fields_of bulk_create_seats_schema)
          (array_of bulk_seat_row_schema 1) rs refl h refl in
      let (vs, ws, parsed, most, e) =
        parsed_array t bulk_seat_row_schema 1 (get "rows" ps) (get "rows" rs) at in
      let (all, count) =
        read_each-All IsCounted (documented t bulk_seat_row_schema) (read_object row_body)
          row_object-IsCounted vs ws specs parsed (rw (← items-items_of ws) (rw e at r)) in
      (all, omega arith)

-- Where zod does what it documents: an accepted request for seats in bulk has at least one row, and
-- expands to at least one and at most fifty seats for each row.
pub parse-seats_bounds :
    (z : Zod)
    → IsDocumented z
    → (v : Value) (specs : List RowSpec) → parse z seats v ≡ some specs
    → (1 ≤ length specs)
      × (length specs ≤ length (expand specs))
      × (length (expand specs) ≤ 50 * length specs)
unfolding parse
parse-seats_bounds z doc v specs h =
    let (ps, rs, _, e, b) =
      parsed_object z.texts (fields_of bulk_create_seats_schema) rows_body v specs
        (rw (doc bulk_create_seats_schema v) at h) in
    let (all, most) = rows_body-IsCounted z.texts ps rs specs e b in
    let (low, high) = sum_counts specs all in (most, rw length-expand low, rw length-expand high)
