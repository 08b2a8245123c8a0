-- ===== src/Schemas/Inversion.antt =====
-- What a successful parse and a successful read were made of.
use ticket_booking_system.Common.{
  ℕ, suc, ◌≤◌, Option, none, some, List, [], ◌∷◌, ◌≡◌, refl, sym, ap, arith, some-injective, leb,
  length, All,
}
use ticket_booking_system.Schemas.{
  Value, array, object, Props, items, items_of, Schema, array_of, object_of, Fields, Texts,
  documented, documented_fields, object?, traverse, array_if,
}
use ticket_booking_system.Schemas.Parsing.{read_parsed}
use ticket_booking_system.Schemas.Bodies.{◌>>=◌, read_each, cons_read}
use ticket_booking_system.Schemas.Reading.{cons?-some, keep_if-some}

pub bind-eq-some :
    {A B : Type 0} (o : Option A) (f : A → Option B) {b : B}
    → (o >>= f) ≡ some b
    → (a : A) × (o ≡ some a) × (f a ≡ some b)
bind-eq-some none f h = absurd (cc)
bind-eq-some (some a) f h = (a, refl, h)

read_parsed-object? :
    {A : Type 0} (read : Props → Option A) (o : Option Props) {a : A}
    → read_parsed read (object? o) ≡ some a
    → (rs : Props) × (o ≡ some rs) × (read rs ≡ some a)
read_parsed-object? read none h = absurd (cc)
read_parsed-object? read (some rs) h = (rs, refl, h)

-- Only an object is read as a body.
pub parsed_object :
    {A : Type 0} (t : Texts) (fs : Fields) (read : Props → Option A) (v : Value) (a : A)
    → read_parsed read (documented t (object_of fs) v) ≡ some a
    → (ps : Props) × (rs : Props) × (v ≡ object ps)
      × (documented_fields t fs ps ≡ some rs)
      × (read rs ≡ some a)
unfolding documented
parsed_object t fs read (object ps) a h =
    let (rs, e, b) = read_parsed-object? read (documented_fields t fs ps) h in (ps, rs, refl, e, b)
parsed_object t fs read _ a h = absurd (cc)

array_if-some :
    (least : ℕ) (o : Option (List Value)) (w : Value)
    → array_if least o ≡ some w
    → (ws : List Value) × (o ≡ some ws) × (least ≤ length ws) × (w ≡ array (items_of ws))
array_if-some least none w h = absurd (cc)
array_if-some least (some ws) w h =
    (ws, refl, ground arith, sym (keep_if-some (leb least (length ws)) (array (items_of ws)) w h))

pub parsed_array :
    (t : Texts) (s : Schema) (least : ℕ) (v w : Value)
    → documented t (array_of s least) v ≡ some w
    → (vs : List Value) × (ws : List Value) × (traverse (documented t s) vs ≡ some ws)
      × (least ≤ length ws)
      × (w ≡ array (items_of ws))
unfolding documented
parsed_array t s least (array vs) w h =
    let (ws, e, most, eq) = array_if-some least (traverse (documented t s) (items vs)) w h in
    (items vs, ws, e, most, eq)
parsed_array t s least _ w h = absurd (cc)

cons_read-eq-some :
    {A : Type 0} (o : Option A) (r : Option (List A)) {as' : List A}
    → cons_read o r ≡ some as'
    → (a : A) × (rest : List A) × (o ≡ some a) × (r ≡ some rest) × (a ∷ rest ≡ as')
cons_read-eq-some (some a) (some rest) h = (a, rest, refl, refl, some-injective h)
cons_read-eq-some none r h = absurd (cc)
cons_read-eq-some (some a) none h = absurd (cc)

-- What holds of each element that is parsed and read holds of all.
pub read_each-All :
    {A : Type 0} (P : A → Type 0) (parse : Value → Option Value) (read : Value → Option A)
    → ((v w : Value) (a : A) → parse v ≡ some w → read w ≡ some a → P a)
    → (vs ws : List Value) (as' : List A) → traverse parse vs ≡ some ws
    → read_each read ws ≡ some as'
    → All P as' × (length as' ≡ length ws)
unfolding traverse read_each
read_each-All P parse read p [] ws as' h k =
    let none_parsed : [] ≡ ws = some-injective h in
    let none_read : [] ≡ as' = some-injective (rw (← none_parsed) at k) in
    rw (← none_read, ← none_parsed) (tt, refl)
read_each-All P parse read p (v ∷ vs) ws as' h k =
    let (w, rest, head, tail, e) = cons?-some (parse v) (traverse parse vs) h in
    let (a, more, first, next, e') =
      cons_read-eq-some (read w) (read_each read rest) (rw (← e) at k) in
    let (all, count) = read_each-All P parse read p vs rest more tail next in
    rw (← e, ← e') ((p v w a head first, all), ap suc count)
