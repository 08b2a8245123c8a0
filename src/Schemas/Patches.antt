-- ===== src/Schemas/Patches.antt =====
-- The PATCH of an event: which columns a request changes.
use Prim.Native.String.{String}
use mathlib.Core.Path.{subst}
use ticket_booking_system.Common.{
  ℕ, if◌then◌else◌, Bool, true, false, Option, none, some, ◌≡◌, refl, sym, is_some, some-injective,
}
use ticket_booking_system.Errors.{ok}
use ticket_booking_system.Db.{Db, Event}
use ticket_booking_system.Events.{
  Patch, or_else, or_keep, patched_row, find_event_by_id, update_event,
}
use ticket_booking_system.Events.Update.{update_event-patched_row}
use ticket_booking_system.Schemas.{
  Value, undefined, object, Props, end, get, Schema, optional, Texts, Zod, IsDocumented, documented,
  documented_fields,
}
use ticket_booking_system.Schemas.Requests.{update_event_schema}
use ticket_booking_system.Schemas.Parsing.{patch, parse}
use ticket_booking_system.Schemas.Bodies.{some_of, read_optional, patch_body}
use ticket_booking_system.Schemas.Lookups.{field_at, get-documented_fields}
use ticket_booking_system.Schemas.Inversion.{bind-eq-some, parsed_object}
use ticket_booking_system.Schemas.Reading.{
  Reads, fields_of, url-Reads, string-Reads, bool-Reads, int_from-Reads, event_type-Reads,
}

abbrev pub is_defined : Value → Bool
is_defined undefined = false
is_defined _ = true

some_of-some : {A : Type 0} (o : Option A) (r : Option A) → some_of o ≡ some r → is_some r ≡ true
some_of-some none r h = absurd (cc)
some_of-some (some a) r h = rw (← some-injective h) refl

module _ {A : Type 0} (t : Texts) (s : Schema) (read : Value → Option A) where
  read_optional-defined :
      (w : Value) (o : Option A)
      → is_some (read w) ≡ true
      → is_some (read undefined) ≡ false
      → read_optional read w ≡ some o
      → is_some o ≡ true
  read_optional-defined undefined o h e r = absurd (cc)
  read_optional-defined w o h e r = some_of-some (read w) o r

  -- An optional key is read as present exactly if the request has it.
  optional_key :
      Reads (documented t s) read
      → is_some (read undefined) ≡ false
      → (v w : Value) (o : Option A) → documented t (optional s) v ≡ some w
      → read_optional read w ≡ some o
      → is_some o ≡ is_defined v
  unfolding documented
  optional_key r e undefined w o h k = rw (← some-injective (rw (← some-injective h) at k)) refl
  optional_key r e v w o h k = read_optional-defined w o (r v w h) e k

module _ (t : Texts) (ps rs : Props)
    (h : documented_fields t (fields_of update_event_schema) ps ≡ some rs) where
  key_at :
      {A : Type 0} (key : String) (s : Schema) (read : Value → Option A) (o : Option A)
      → field_at key (fields_of update_event_schema) ≡ some (optional s)
      → Reads (documented t s) read
      → is_some (read undefined) ≡ false
      → read_optional read (get key rs) ≡ some o
      → is_some o ≡ is_defined (get key ps)
  key_at key s read o e r n k =
      optional_key t s read r n (get key ps) (get key rs) o
        (get-documented_fields t ps key (fields_of update_event_schema) (optional s) rs refl h e) k

-- The keys that a request has.
abbrev pub props_of : Value → Props
props_of (object ps) = ps
props_of _ = end

-- The keys of a patch are those of the request.
abbrev pub HasKeysOf : Props → Patch → Type 0
HasKeysOf ps p =
    (is_some p.title ≡ is_defined (get "title" ps))
    × (is_some p.type ≡ is_defined (get "type" ps))
    × (is_some p.description ≡ is_defined (get "description" ps))
    × (is_some p.poster_url ≡ is_defined (get "posterUrl" ps))
    × (is_some p.language ≡ is_defined (get "language" ps))
    × (is_some p.genre ≡ is_defined (get "genre" ps))
    × (is_some p.duration_min ≡ is_defined (get "durationMin" ps))
    × (is_some p.is_published ≡ is_defined (get "isPublished" ps))

module _ (t : Texts) (ps rs : Props)
    (h : documented_fields t (fields_of update_event_schema) ps ≡ some rs) where
  patch_body-HasKeysOf : (p : Patch) → patch_body t rs ≡ some p → HasKeysOf ps p
  patch_body-HasKeysOf p b =
      let (title, e0, b0) = bind-eq-some _ _ b in
      let (type, e1, b1) = bind-eq-some _ _ b0 in
      let (description, e2, b2) = bind-eq-some _ _ b1 in
      let (poster_url, e3, b3) = bind-eq-some _ _ b2 in
      let (language, e4, b4) = bind-eq-some _ _ b3 in
      let (genre, e5, b5) = bind-eq-some _ _ b4 in
      let (duration_min, e6, b6) = bind-eq-some _ _ b5 in
      let (is_published, e7, b7) = bind-eq-some _ _ b6 in
      subst (HasKeysOf ps) (some-injective b7) (
        key_at t ps rs h "title" _ _ title refl (string-Reads t 1) refl e0,
        key_at t ps rs h "type" _ _ type refl (event_type-Reads t) refl e1,
        key_at t ps rs h "description" _ _ description refl (string-Reads t 0) refl e2,
        key_at t ps rs h "posterUrl" _ _ poster_url refl (url-Reads t) refl e3,
        key_at t ps rs h "language" _ _ language refl (string-Reads t 0) refl e4,
        key_at t ps rs h "genre" _ _ genre refl (string-Reads t 0) refl e5,
        key_at t ps rs h "durationMin" _ _ duration_min refl (int_from-Reads t 1) refl e6,
        key_at t ps rs h "isPublished" _ _ is_published refl (bool-Reads t) refl e7,
      )

parse-HasKeysOf :
    (z : Zod)
    → IsDocumented z
    → (v : Value) (p : Patch) → parse z patch v ≡ some p
    → HasKeysOf (props_of v) p
unfolding parse
parse-HasKeysOf z doc v p h =
    let (ps, rs, is_object, e, b) =
      parsed_object z.texts (fields_of update_event_schema) (patch_body z.texts) v p
        (rw (doc update_event_schema v) at h) in
    subst (λ u. HasKeysOf (props_of u) p) (sym is_object) (patch_body-HasKeysOf z.texts ps rs e p b)

kept_else :
    {A : Type 0} (o : Option A) (a : A) → or_else o a ≡ (if is_some o then or_else o a else a)
kept_else none a = refl
kept_else (some b) a = refl

kept_keep :
    {A : Type 0} (o : Option A) (a : Option A)
    → or_keep o a ≡ (if is_some o then or_keep o a else a)
kept_keep none a = refl
kept_keep (some b) a = refl

-- A row after an update, against the row before and the keys of the request.
abbrev pub IsPatched : Props → Event → Event → Type 0
IsPatched ps e e' =
    (e'.id ≡ e.id)
    × (e'.organiser_id ≡ e.organiser_id)
    × (e'.created_at ≡ e.created_at)
    × (e'.title ≡ (if is_defined (get "title" ps) then e'.title else e.title))
    × (e'.type ≡ (if is_defined (get "type" ps) then e'.type else e.type))
    × (e'.description
        ≡ (if is_defined (get "description" ps) then e'.description else e.description))
    × (e'.poster_url ≡ (if is_defined (get "posterUrl" ps) then e'.poster_url else e.poster_url))
    × (e'.language ≡ (if is_defined (get "language" ps) then e'.language else e.language))
    × (e'.genre ≡ (if is_defined (get "genre" ps) then e'.genre else e.genre))
    × (e'.duration_min
        ≡ (if is_defined (get "durationMin" ps) then e'.duration_min else e.duration_min))
    × (e'.is_published
        ≡ (if is_defined (get "isPublished" ps) then e'.is_published else e.is_published))

patched_row-IsPatched :
    (ps : Props) (p : Patch) (e : Event) → HasKeysOf ps p → IsPatched ps e (patched_row p e)
patched_row-IsPatched ps p e (k0, k1, k2, k3, k4, k5, k6, k7) = (
  refl,
  refl,
  refl,
  rw (← k0) (kept_else p.title e.title),
  rw (← k1) (kept_else p.type e.type),
  rw (← k2) (kept_else p.description e.description),
  rw (← k3) (kept_keep p.poster_url e.poster_url),
  rw (← k4) (kept_keep p.language e.language),
  rw (← k5) (kept_keep p.genre e.genre),
  rw (← k6) (kept_else p.duration_min e.duration_min),
  rw (← k7) (kept_else p.is_published e.is_published),
)

-- Where zod does what it documents, and the schema of updates has accepted the body of a PATCH of
-- an event that is found: if the update answers with an event, that event is the one found with what
-- was read off the body put in; it keeps the id, the organiser and the time of creation, and each
-- other column whose key the body lacks.
pub patch_event-IsPatched :
    (z : Zod)
    → IsDocumented z
    → (v : Value) (p : Patch) → parse z patch v ≡ some p
    → (id : ℕ) (db : Db) (e e' : Event) → find_event_by_id id db ≡ some e
    → (update_event id p db).0 ≡ ok e'
    → (e' ≡ record e {
      title = or_else p.title e.title;
      type = or_else p.type e.type;
      description = or_else p.description e.description;
      poster_url = or_keep p.poster_url e.poster_url;
      language = or_keep p.language e.language;
      genre = or_keep p.genre e.genre;
      duration_min = or_else p.duration_min e.duration_min;
      is_published = or_else p.is_published e.is_published;
    })
      × IsPatched (props_of v) e e'
patch_event-IsPatched z doc v p accepted id db e e' found answered =
    let patched = update_event-patched_row id p db e e' found answered in
    (
      patched,
      subst (IsPatched (props_of v) e) (sym patched)
          (patched_row-IsPatched (props_of v) p e (parse-HasKeysOf z doc v p accepted)),
    )
