-- ===== src/Witnesses/Requests.antt =====
-- The theorems about schemas and the configuration, at a zod that does what it documents.
use package.text.Mathlib.Text.{◌==◌ as str_eq}
use ticket_booking_system.Common.{
  ◌*◌, ◌≤◌, true, false, Option, none, some, [], ◌∷◌, ◌≡◌, refl, length, is_some, if◌then◌else◌,
}
use ticket_booking_system.Errors.{ok}
use ticket_booking_system.Db.{Db, Event, movie}
use ticket_booking_system.Venues.{RowSpec, expand}
use ticket_booking_system.Events.{
  Patch, find_event_by_id, update_event, update_event_row, patched_row,
}
use ticket_booking_system.Schemas.{
  Value, text, number, boolean, array, object, Props, end, prop, nil, item, get, Texts, Zod,
  traverse, documented,
}
use ticket_booking_system.Schemas.Parsing.{patch, seats, hold, parse, schema_of}
use ticket_booking_system.Schemas.Bodies.{read_each}
use ticket_booking_system.Schemas.Accepted.{parse-accepted}
use ticket_booking_system.Schemas.Patches.{IsPatched, patch_event-IsPatched}
use ticket_booking_system.Schemas.Rows.{parse-seats_bounds}
use ticket_booking_system.Config.{boot, read_env}
use ticket_booking_system.Config.Boot.{IsSane, AreSeparate, boot_sound}
use ticket_booking_system.Fixtures.{env, fresh_db}

-- A text is long, and a well-formed email, URL and uuid; "" is short.
abbrev texts : Texts
texts = record {
  is_email = λ n. true;
  is_url = λ n. true;
  is_uuid = λ n. true;
  matches = λ p n. true;
  length = λ n. n;
  literal = λ s. if str_eq s "MOVIE" then 1 else if str_eq s "CONCERT" then 2 else 0;
  to_number = λ v. v;
  to_date = λ v. none;
  in_range = λ lo hi n. false;
  stringify = λ v. 0;
}

abbrev zod : Zod
zod = record { texts = texts; safe_parse = documented texts }

-- `{ "showId": …, "seatIds": […] }`
abbrev hold_request : Value
hold_request = object (prop "showId" (text 1) (prop "seatIds" (array (item (text 11) nil)) end))

parse-accepted_example :
    is_some (parse zod hold hold_request)
    ≡ is_some (zod.safe_parse (schema_of texts hold) hold_request)
parse-accepted_example = parse-accepted zod (λ s v. refl) hold hold_request

-- `{ "isPublished": true }`
abbrev patch_request : Value
patch_request = object (prop "isPublished" (boolean true) end)

abbrev patch_made : Patch
patch_made = record {
  title = none;
  type = none;
  description = none;
  poster_url = none;
  language = none;
  genre = none;
  duration_min = none;
  is_published = some true;
}

patch_parses : parse zod patch patch_request ≡ some patch_made
unfolding parse documented get
patch_parses = refl

abbrev draft : Event
draft = record {
  id = 3;
  organiser_id = 5;
  title = 40;
  type = movie;
  description = 41;
  poster_url = none;
  language = none;
  genre = none;
  duration_min = 90;
  is_published = false;
  created_at = 1;
}

abbrev draft_db : Db
draft_db = record fresh_db { events = draft ∷ [] }

abbrev published : Event
published = record draft { is_published = true }

draft_found : find_event_by_id 3 draft_db ≡ some draft
unfolding find_event_by_id
draft_found = refl

draft_updated : (update_event 3 patch_made draft_db).0 ≡ ok published
unfolding update_event update_event_row
draft_updated = refl

patch_event-IsPatched_example :
    (published ≡ patched_row patch_made draft)
    × IsPatched (prop "isPublished" (boolean true) end) draft published
patch_event-IsPatched_example =
    patch_event-IsPatched zod (λ s v. refl) patch_request patch_made patch_parses 3 draft_db draft
      published draft_found draft_updated

-- A row of two seats.
abbrev seats_request : Value
seats_request = object (
    prop "rows"
      (array (
        item
          (object (
            prop "rowLabel" (text 65) (
              prop "count" (number 2)
                (prop "categoryId" (text 7) (prop "gridRow" (number 0) end)))))
          nil))
      end)

abbrev row_spec : RowSpec
row_spec = record {
  row_label = 65;
  count = 2;
  category_id = 7;
  grid_row = 0;
  start_seat_number = 1;
  start_grid_col = 0;
  is_accessible = false;
}

seats_parse : parse zod seats seats_request ≡ some (row_spec ∷ [])
unfolding parse documented get traverse read_each
seats_parse = refl

parse-seats_bounds_example :
    (1 ≤ length (row_spec ∷ []))
    × (length (row_spec ∷ []) ≤ length (expand (row_spec ∷ [])))
    × (length (expand (row_spec ∷ [])) ≤ 50 * length (row_spec ∷ []))
parse-seats_bounds_example =
    parse-seats_bounds zod (λ s v. refl) seats_request (row_spec ∷ []) seats_parse

-- The variables that have no default, and a fee.
abbrev process_env : Props
process_env = prop "DATABASE_URL" (text 50) (
    prop "JWT_ACCESS_SECRET" (text 51) (
      prop "JWT_REFRESH_SECRET" (text 52)
        (prop "QR_SIGNING_SECRET" (text 53) (prop "BOOKING_FEE_PERCENT" (number 5) end))))

abbrev or_empty : Option Props → Props
or_empty none = end
or_empty (some ps) = ps

unfoldable parsed_env : Props
unfolding boot documented get
parsed_env = or_empty (boot zod process_env)

boots : boot zod process_env ≡ some parsed_env
unfolding boot documented get parsed_env
boots = refl

reads : read_env parsed_env ≡ some env
unfolding read_env parsed_env get
reads = refl

boot_sound_example : IsSane env × AreSeparate texts parsed_env
boot_sound_example = boot_sound zod (λ s v. refl) process_env parsed_env env boots reads
