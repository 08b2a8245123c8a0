-- ===== src/Schemas.antt =====
-- What the schemas of shared/schemas and config/env.js are written in: the values of JavaScript that
-- they are run on, the constructors of zod that they use, and what the documentation of zod says that
-- `safeParse` makes of each. zod itself is a parameter: a theorem that needs it assumes that its
-- `safeParse` does what `documented` says.
pub mod Requests
pub mod Bodies
pub mod Parsing
pub mod Lookups
pub mod Reading
pub mod Accepted
pub mod Inversion
pub mod Patches
pub mod Rows
use Prim.Native.String.{String}
use package.text.Mathlib.Text.{◌==◌ as str_eq}
use ticket_booking_system.Common.{
  ℕ, Bool, true, false, ◌&&◌, ◌||◌, Option, none, some, List, [], ◌∷◌, ◌==◌, leb, ltb,
  if◌then◌else◌, length, ◌≡◌,
}

-- A text that a client sends is only passed on and compared, so a number stands for it; a number is
-- a natural one, a negative whole one (`negative n` is -(n + 1)), or another, known by an index.
mutual
  pub data Value : Type 0 where
    undefined null : Value
    boolean : Bool → Value
    text number negative fraction : ℕ → Value
    date : ℕ → Value
    array : Items → Value
    object : Props → Value

  pub data Items : Type 0 where
    nil : Items
    item : Value → Items → Items

  pub data Props : Type 0 where
    end : Props
    prop : String → Value → Props → Props

abbrev pub items : Items → List Value
items nil = []
items (item v vs) = v ∷ items vs

abbrev pub items_of : List Value → Items
items_of [] = nil
items_of (v ∷ vs) = item v (items_of vs)

-- `o[key]`
unfoldable pub get : String → Props → Value
get key end = undefined
get key (prop k v ps) = if str_eq k key then v else get key ps

pub data Pattern : Type 0 where
  hex_color duration cron : Pattern

-- The constructors, with the checks that are chained to them.
mutual
  pub data Schema : Type 0 where
    -- `z.email()`, `z.url()`, `z.uuid()`, `z.boolean()`
    email url uuid bool : Schema
    -- `z.string().min(n)`
    string : ℕ → Schema
    -- `z.string().regex(…)`
    regex : Pattern → Schema
    -- `z.enum([…])`
    one_of : List String → Schema
    -- `z.number().int()`, with `.min(lo)`, and with `.min(lo).max(hi)`; `.nonnegative()` is
    -- `.min(0)` and, of a whole number, `.positive()` is `.min(1)`
    int : Schema
    int_from : ℕ → Schema
    int_in : ℕ → ℕ → Schema
    -- `z.coerce.number().int().min(lo)`, `z.coerce.number().min(lo).max(hi)`, `z.coerce.date()`
    coerce_int_from : ℕ → Schema
    coerce_number_in : ℕ → ℕ → Schema
    coerce_date : Schema
    -- `z.array(s).min(n)`
    array_of : Schema → ℕ → Schema
    -- `s.optional()`, `s.default(v)`
    optional : Schema → Schema
    default : Schema → Value → Schema
    -- `z.preprocess((val) => (val === '' ? undefined : val), s)`
    blank_as_undefined : Schema → Schema
    -- `z.object({…})`
    object_of : Fields → Schema

  pub data Fields : Type 0 where
    done : Fields
    field : String → Schema → Fields → Fields

-- What a schema looks up in the language and in its library: tests on a text, the number that stands
-- for a literal, `Number(…)` and `new Date(…)`, and `JSON.stringify`.
pub record Texts : Type 0 where
  pub is_email : ℕ → Bool
  pub is_url : ℕ → Bool
  pub is_uuid : ℕ → Bool
  pub matches : Pattern → ℕ → Bool
  pub length : ℕ → ℕ
  pub literal : String → ℕ
  pub to_number : Value → Value
  pub to_date : Value → Option ℕ
  pub in_range : ℕ → ℕ → ℕ → Bool
  pub stringify : Value → ℕ

-- `Number.MAX_SAFE_INTEGER`, the limit of `.int()`.
abbrev pub max_safe : ℕ
max_safe = 9007199254740991

abbrev pub keep_if : Bool → Value → Option Value
keep_if true v = some v
keep_if false v = none

abbrev pub check_int_from : ℕ → Value → Option Value
check_int_from lo (number n) = keep_if (leb lo n && leb n max_safe) (number n)
check_int_from lo _ = none

abbrev pub cons? : Option Value → Option (List Value) → Option (List Value)
cons? (some v) (some vs) = some (v ∷ vs)
cons? _ _ = none

unfoldable pub traverse : (Value → Option Value) → List Value → Option (List Value)
traverse f [] = some []
traverse f (v ∷ vs) = cons? (f v) (traverse f vs)

abbrev pub array_if : ℕ → Option (List Value) → Option Value
array_if least none = none
array_if least (some vs) = keep_if (leb least (length vs)) (array (items_of vs))

-- A key whose value is undefined is left out of the result.
abbrev pub prop? : String → Value → Props → Props
prop? key undefined ps = ps
prop? key v ps = prop key v ps

abbrev pub add_prop : String → Option Value → Option Props → Option Props
add_prop key (some v) (some ps) = some (prop? key v ps)
add_prop key _ _ = none

abbrev pub object? : Option Props → Option Value
object? none = none
object? (some ps) = some (object ps)

abbrev pub check_int : Value → Option Value
check_int (number n) = keep_if (leb n max_safe) (number n)
check_int (negative n) = keep_if (ltb n max_safe) (negative n)
check_int _ = none

abbrev pub check_int_in : ℕ → ℕ → Value → Option Value
check_int_in lo hi (number n) = keep_if (leb lo n && leb n hi && leb n max_safe) (number n)
check_int_in lo hi _ = none

abbrev pub if_bool : Value → Option Value
if_bool (boolean b) = some (boolean b)
if_bool _ = none

abbrev pub if_date : Option ℕ → Option Value
if_date none = none
if_date (some d) = some (date d)

abbrev pub unless_undefined : Option Value → (Value → Option Value) → Value → Option Value
unless_undefined absent parse undefined = absent
unless_undefined absent parse v = parse v

module _ (t : Texts) where
  abbrev pub any_literal : List String → ℕ → Bool
  any_literal [] n = false
  any_literal (s ∷ ss) n = t.literal s == n || any_literal ss n

  abbrev pub if_text : (ℕ → Bool) → Value → Option Value
  if_text test (text n) = keep_if (test n) (text n)
  if_text test _ = none

  abbrev pub check_number_in : ℕ → ℕ → Value → Option Value
  check_number_in lo hi (number n) = keep_if (leb lo n && leb n hi) (number n)
  check_number_in lo hi (fraction n) = keep_if (t.in_range lo hi n) (fraction n)
  check_number_in lo hi _ = none

  abbrev pub blank_to_undefined : Value → Value
  blank_to_undefined (text n) = if t.literal "" == n then undefined else text n
  blank_to_undefined v = v

  -- `schema.safeParse(value)`: the parsed value, where it is accepted.
  unfoldable mutual
    pub documented : Schema → Value → Option Value
    documented email v = if_text t.is_email v
    documented url v = if_text t.is_url v
    documented uuid v = if_text t.is_uuid v
    documented bool v = if_bool v
    documented (string least) v = if_text (λ n. leb least (t.length n)) v
    documented (regex p) v = if_text (t.matches p) v
    documented (one_of ss) v = if_text (any_literal ss) v
    documented int v = check_int v
    documented (int_from lo) v = check_int_from lo v
    documented (int_in lo hi) v = check_int_in lo hi v
    documented (coerce_int_from lo) v = check_int_from lo (t.to_number v)
    documented (coerce_number_in lo hi) v = check_number_in lo hi (t.to_number v)
    documented coerce_date v = if_date (t.to_date v)
    documented (array_of s least) (array vs) = array_if least (traverse (documented s) (items vs))
    documented (array_of s least) _ = none
    documented (optional s) v = unless_undefined (some undefined) (documented s) v
    documented (default s d) v = unless_undefined (some d) (documented s) v
    documented (blank_as_undefined s) v = documented s (blank_to_undefined v)
    documented (object_of fs) (object ps) = object? (documented_fields fs ps)
    documented (object_of fs) _ = none

    pub documented_fields : Fields → Props → Option Props
    documented_fields done ps = some end
    documented_fields (field key s fs) ps =
        add_prop key (documented s (get key ps)) (documented_fields fs ps)

-- `safeParse` of zod.
pub record Zod : Type 0 where
  pub texts : Texts
  pub safe_parse : Schema → Value → Option Value

abbrev pub IsDocumented : Zod → Type 0
IsDocumented z = (s : Schema) (v : Value) → z.safe_parse s v ≡ documented z.texts s v
