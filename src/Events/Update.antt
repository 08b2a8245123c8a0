-- ===== src/Events/Update.antt =====
-- What `updateEvent` makes of the event that it finds (events.queries.js, events.service.js).
use ticket_booking_system.Common.{
  ℕ, Bool, true, false, some, List, [], ◌∷◌, ◌==◌, ◌≡◌, refl, sym, ap, ◌∙◌, arith, inl, inr,
  Bool-cases, some-injective,
}
use ticket_booking_system.Errors.{ok, ok-injective}
use ticket_booking_system.Sql.{first, update_where}
use ticket_booking_system.Db.{Db, Event}
use ticket_booking_system.Events.{
  Patch, is_empty, fits_patch, patched_row, find_event_by_id, update_event, update_event_row,
  found_or_not_found,
}

first-update_where :
    {A : Type 0} (p : A → Bool) (f : A → A) (rs : List A) (r : A)
    → ((x : A) → p (f x) ≡ p x)
    → first p rs ≡ some r
    → first p (update_where p f rs) ≡ some (f r)
unfolding first update_where
first-update_where p f [] r keep h = absurd (cc)
first-update_where p f (x ∷ xs) r keep h = elim (Bool-cases (p x)) [
  | inl hit ↦ rw hit (rw (keep x, hit) (ap (λ y. some (f y)) (some-injective (rw hit at h))))
  | inr miss ↦ rw miss (rw miss (first-update_where p f xs r keep (rw miss at h)))
]

patched_row-empty : (p : Patch) (e : Event) → is_empty p ≡ true → patched_row p e ≡ e
unfolding is_empty
patched_row-empty p e h = ground arith

module _ (id : ℕ) (p : Patch) (db : Db) (e e' : Event)
    (found : find_event_by_id id db ≡ some e) where
  empty_patch : is_empty p ≡ true → (update_event id p db).0 ≡ ok e' → e' ≡ patched_row p e
  unfolding update_event update_event_row
  empty_patch empty h =
      sym (patched_row-empty p e empty ∙ ok-injective (rw (empty, found, found_or_not_found) at h))

  row_patch :
      is_empty p ≡ false
      → fits_patch p ≡ true
      → (update_event id p db).0 ≡ ok e'
      → e' ≡ patched_row p e
  unfolding update_event update_event_row find_event_by_id
  row_patch keys fits h =
      let updated =
        first-update_where (λ (r : Event). r.id == id) (patched_row p) db.events e (λ _. refl)
          found in
      sym (
        ok-injective (
          rw (updated, found_or_not_found) at
            (rw (fits, update_event) at (rw (keys, update_event) at h))))

  refused_patch :
      is_empty p ≡ false
      → fits_patch p ≡ false
      → (update_event id p db).0 ≡ ok e'
      → e' ≡ patched_row p e
  unfolding update_event update_event_row
  refused_patch keys over h =
      absurd (cc (rw (over, update_event) at (rw (keys, update_event) at h)))

  -- An update of an event that is found answers with the patched row.
  pub update_event-patched_row : (update_event id p db).0 ≡ ok e' → e' ≡ patched_row p e
  update_event-patched_row h = elim (Bool-cases (is_empty p)) [
    | inl empty ↦ empty_patch empty h
    | inr keys ↦ elim (Bool-cases (fits_patch p)) [
      | inl fits ↦ row_patch keys fits h
      | inr over ↦ refused_patch keys over h
    ]
  ]
