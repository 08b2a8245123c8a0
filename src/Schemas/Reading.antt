-- ===== src/Schemas/Reading.antt =====
-- A value that a schema has accepted has the type that the controllers read: a lemma for each
-- constructor of the schemas.
use Prim.Native.String.{String}
use ticket_booking_system.Common.{
  ℕ, Bool, true, false, Option, none, some, List, [], ◌∷◌, ◌≡◌, refl, ap, arith, is_some,
  some-injective,
}
use ticket_booking_system.Schemas.{
  Value, undefined, text, number, negative, regex, int, Pattern, array, object, items, items_of,
  Props, Schema, int_in, int_from, coerce_int_from, uuid, email, url, bool, string, coerce_date,
  array_of, optional, default, object_of, Fields, Texts, documented, documented_fields, keep_if,
  if_text, if_bool, if_date, check_int_from, traverse, any_literal, cons?, array_if, object?, done,
  one_of, get,
}
use ticket_booking_system.Schemas.Bodies.{
  read_text, read_number, read_int, read_date, read_bool, read_optional, read_array, read_object,
  read_each, read_role, cons_read, some_of, ◌>>=◌, read_event_type,
}
use ticket_booking_system.Schemas.Lookups.{field_at, are_distinct, get-documented_fields}

-- Every value that is accepted can be read.
abbrev pub Reads : {A : Type 0} → (Value → Option Value) → (Value → Option A) → Type 0
Reads parse read = (v w : Value) → parse v ≡ some w → is_some (read w) ≡ true

pub keep_if-some : (b : Bool) (v w : Value) → keep_if b v ≡ some w → v ≡ w
keep_if-some true v w h = some-injective h
keep_if-some false v w h = absurd (cc)

if_date-read : (d : Option ℕ) (w : Value) → if_date d ≡ some w → is_some (read_date w) ≡ true
if_date-read none w h = absurd (cc)
if_date-read (some d) w h = rw (← some-injective h) refl

pub items-items_of : (vs : List Value) → items (items_of vs) ≡ vs
items-items_of [] = refl
items-items_of (v ∷ vs) = ap (λ us. v ∷ us) (items-items_of vs)

pub cons?-some :
    (o : Option Value) (r : Option (List Value)) {ws : List Value}
    → cons? o r ≡ some ws
    → (v : Value) × (vs : List Value) × (o ≡ some v) × (r ≡ some vs) × (v ∷ vs ≡ ws)
cons?-some (some v) (some vs) h = (v, vs, refl, refl, some-injective h)
cons?-some none r h = absurd (cc)
cons?-some (some v) none h = absurd (cc)

module _ {A : Type 0} where
  some_of-some : (o : Option A) → is_some o ≡ true → is_some (some_of o) ≡ true
  some_of-some none h = h
  some_of-some (some a) h = refl

  read_optional-some :
      (read : Value → Option A) (w : Value)
      → is_some (read w) ≡ true
      → is_some (read_optional read w) ≡ true
  read_optional-some read undefined h = refl
  read_optional-some read w h = some_of-some (read w) h

  cons_read-some :
      (o : Option A) (r : Option (List A))
      → is_some o ≡ true
      → is_some r ≡ true
      → is_some (cons_read o r) ≡ true
  cons_read-some (some a) (some as') h k = refl
  cons_read-some none r h k = absurd (cc)
  cons_read-some (some a) none h k = absurd (cc)

  traverse-read :
      (parse : Value → Option Value) (read : Value → Option A)
      → Reads parse read
      → (vs ws : List Value) → traverse parse vs ≡ some ws
      → is_some (read_each read ws) ≡ true
  unfolding traverse read_each
  traverse-read parse read r [] ws h = rw (← some-injective h) refl
  traverse-read parse read r (v ∷ vs) ws h =
      let (w, rest, head, tail, e) = cons?-some (parse v) (traverse parse vs) h in
      rw (← e) (
        cons_read-some (read w) (read_each read rest) (r v w head)
          (traverse-read parse read r vs rest tail))

  array_if-read :
      (read : Value → Option A) (least : ℕ) (o : Option (List Value)) (w : Value)
      → ((ws : List Value) → o ≡ some ws → is_some (read_each read ws) ≡ true)
      → array_if least o ≡ some w
      → is_some (read_array read w) ≡ true
  array_if-read read least none w r h = absurd (cc)
  array_if-read read least (some vs) w r h =
      rw (← keep_if-some _ (array (items_of vs)) w h, items-items_of vs) (r vs refl)

  object?-read :
      (read : Props → Option A) (o : Option Props) (w : Value)
      → ((rs : Props) → o ≡ some rs → is_some (read rs) ≡ true)
      → object? o ≡ some w
      → is_some (read_object read w) ≡ true
  object?-read read none w r h = absurd (cc)
  object?-read read (some rs) w r h = rw (← some-injective h) (r rs refl)

module _ (t : Texts) where
  if_text-Reads : (test : ℕ → Bool) → Reads (if_text t test) read_text
  if_text-Reads test (text n) w h = rw (← keep_if-some (test n) (text n) w h) refl
  if_text-Reads test _ w h = absurd (cc)

  pub coerce_date-Reads : Reads (documented t coerce_date) read_date
  unfolding documented
  coerce_date-Reads v w h = if_date-read (t.to_date v) w h

if_bool-Reads : Reads (if_bool) read_bool
if_bool-Reads (Value.boolean b) w h = rw (← some-injective h) refl
if_bool-Reads _ w h = absurd (cc)

check_int_from-Reads : (lo : ℕ) → Reads (check_int_from lo) read_number
check_int_from-Reads lo (number n) w h = rw (← keep_if-some _ (number n) w h) refl
check_int_from-Reads lo _ w h = absurd (cc)

module _ (t : Texts) where
  pub uuid-Reads : Reads (documented t uuid) read_text
  unfolding documented
  uuid-Reads = if_text-Reads t t.is_uuid

  pub email-Reads : Reads (documented t email) read_text
  unfolding documented
  email-Reads = if_text-Reads t t.is_email

  pub url-Reads : Reads (documented t url) read_text
  unfolding documented
  url-Reads = if_text-Reads t t.is_url

  pub string-Reads : (least : ℕ) → Reads (documented t (string least)) read_text
  unfolding documented
  string-Reads least = if_text-Reads t _

  pub bool-Reads : Reads (documented t bool) read_bool
  unfolding documented
  bool-Reads = if_bool-Reads

  pub int_from-Reads : (lo : ℕ) → Reads (documented t (int_from lo)) read_number
  unfolding documented
  int_from-Reads lo = check_int_from-Reads lo

  pub coerce_int_from-Reads : (lo : ℕ) → Reads (documented t (coerce_int_from lo)) read_number
  unfolding documented
  coerce_int_from-Reads lo v w h = check_int_from-Reads lo (t.to_number v) w h

  pub int_in-Reads : (lo hi : ℕ) → Reads (documented t (int_in lo hi)) read_number
  unfolding documented
  int_in-Reads lo hi (number n) w h = rw (← keep_if-some _ (number n) w h) refl
  int_in-Reads lo hi _ w h = absurd (cc)

  pub event_type-Reads :
      Reads (documented t (one_of ("MOVIE" ∷ "CONCERT" ∷ []))) (read_event_type t)
  unfolding documented
  event_type-Reads (text n) w h =
      let accepted : is_some (keep_if (any_literal t ("MOVIE" ∷ "CONCERT" ∷ []) n) (text n))
          ≡ true =
        rw h refl in
      rw (← keep_if-some _ (text n) w h) (ground arith)
  event_type-Reads _ w h = absurd (cc)

  pub role-Reads :
      Reads (documented t (one_of ("ADMIN" ∷ "ORGANISER" ∷ "CUSTOMER" ∷ []))) (read_role t)
  unfolding documented
  role-Reads (text n) w h =
      let accepted : is_some
            (keep_if (any_literal t ("ADMIN" ∷ "ORGANISER" ∷ "CUSTOMER" ∷ []) n) (text n))
          ≡ true =
        rw h refl in
      rw (← keep_if-some _ (text n) w h) (ground arith)
  role-Reads _ w h = absurd (cc)

module _ (t : Texts) where
  pub regex-Reads : (p : Pattern) → Reads (documented t (regex p)) read_text
  unfolding documented
  regex-Reads p (text n) w h = rw (← keep_if-some _ (text n) w h) refl
  regex-Reads p _ w h = absurd (cc)

  pub int-Reads : Reads (documented t int) read_int
  unfolding documented
  int-Reads (number n) w h = rw (← keep_if-some _ (number n) w h) refl
  int-Reads (negative n) w h = rw (← keep_if-some _ (negative n) w h) refl
  int-Reads _ w h = absurd (cc)

module _ {A : Type 0} (t : Texts) (s : Schema) (read : Value → Option A) where
  pub optional-Reads :
      Reads (documented t s) read → Reads (documented t (optional s)) (read_optional read)
  unfolding documented
  optional-Reads r undefined w h = rw (← some-injective h) refl
  optional-Reads r v w h = read_optional-some read w (r v w h)

  -- `s.optional().default(d)`
  pub default-optional-Reads :
      (d : Value)
      → is_some (read d) ≡ true
      → Reads (documented t s) read
      → Reads (documented t (default (optional s) d)) read
  unfolding documented
  default-optional-Reads d e r undefined w h = rw (← some-injective h) e
  default-optional-Reads d e r v w h = r v w h

  pub default-Reads :
      (d : Value)
      → is_some (read d) ≡ true
      → Reads (documented t s) read
      → Reads (documented t (default s d)) read
  unfolding documented
  default-Reads d e r undefined w h = rw (← some-injective h) e
  default-Reads d e r v w h = r v w h

  pub array-Reads :
      (least : ℕ)
      → Reads (documented t s) read
      → Reads (documented t (array_of s least)) (read_array read)
  unfolding documented
  array-Reads least r (array vs) w h =
      array_if-read read least (traverse (documented t s) (items vs)) w
        (λ ws e. traverse-read (documented t s) read r (items vs) ws e) h
  array-Reads least r _ w h = absurd (cc)

module _ {A : Type 0} (t : Texts) where
  pub object-Reads :
      (fs : Fields) (read : Props → Option A)
      → ((ps rs : Props) → documented_fields t fs ps ≡ some rs → is_some (read rs) ≡ true)
      → Reads (documented t (object_of fs)) (read_object read)
  unfolding documented
  object-Reads fs read r (object ps) w h =
      object?-read read (documented_fields t fs ps) w (λ rs e. r ps rs e) h
  object-Reads fs read r _ w h = absurd (cc)

pub bind-some :
    {A B : Type 0} (o : Option A) (f : A → Option B)
    → is_some o ≡ true
    → ((a : A) → is_some (f a) ≡ true)
    → is_some (o >>= f) ≡ true
bind-some none f h k = absurd (cc)
bind-some (some a) f h k = k a

abbrev pub fields_of : Schema → Fields
fields_of (object_of fs) = fs
fields_of _ = done

-- The value under a key of an accepted object.
pub Reads-at :
    {A : Type 0} (t : Texts) (fs : Fields) (ps : Props) (read : Value → Option A) {rs : Props}
    {s : Schema}
    → documented_fields t fs ps ≡ some rs
    → (key : String) → are_distinct fs ≡ true
    → field_at key fs ≡ some s
    → Reads (documented t s) read
    → is_some (read (get key rs)) ≡ true
Reads-at t fs ps read {rs} {s} h key d e r =
    r (get key ps) (get key rs) (get-documented_fields t ps key fs s rs d h e)
