-- ===== src/Schemas/Lookups.antt =====
-- What a parsed object has under a key: what the schema of the key makes of the value there.
use Prim.Native.String.{String}
use package.text.Mathlib.Text.{◌==◌ as str_eq}
use text.Mathlib.TextEquality.{eq_iff}
use ticket_booking_system.Common.{
  ◌∙◌, Bool, true, false, not, ◌&&◌, Option, none, some, ◌≡◌, refl, inl, inr, arith, Bool-cases,
  is_some, some-injective, if◌then◌else◌,
}
use ticket_booking_system.Schemas.{
  Value, undefined, Props, get, Schema, Fields, done, field, Texts, documented, documented_fields,
  prop?, add_prop,
}

abbrev pub field_at : String → Fields → Option Schema
field_at key done = none
field_at key (field k s fs) = if str_eq k key then some s else field_at key fs

abbrev pub are_distinct : Fields → Bool
are_distinct done = true
are_distinct (field k s fs) = not (is_some (field_at k fs)) && are_distinct fs

get-prop?_ne :
    (key k : String) (v : Value) (ps : Props)
    → str_eq k key ≡ false
    → get key (prop? k v ps) ≡ get key ps
unfolding get
get-prop?_ne key k undefined ps h = refl
get-prop?_ne key k v ps h = rw h refl

get-prop?_eq :
    (key k : String) (v : Value) (ps : Props)
    → str_eq k key ≡ true
    → get key ps ≡ undefined
    → get key (prop? k v ps) ≡ v
unfolding get
get-prop?_eq key k undefined ps h e = e
get-prop?_eq key k v ps h e = rw h refl

add_prop-some :
    (k : String) (o : Option Value) (r : Option Props) {ps : Props}
    → add_prop k o r ≡ some ps
    → (v : Value) × (rest : Props) × (o ≡ some v) × (r ≡ some rest) × (ps ≡ prop? k v rest)
add_prop-some k (some v) (some rest) h = (v, rest, refl, refl, ground arith)
add_prop-some k none r h = absurd (cc)
add_prop-some k (some v) none h = absurd (cc)

and-left : (a b : Bool) → (a && b) ≡ true → a ≡ true
and-left a b h = ground arith

and-right : (a b : Bool) → (a && b) ≡ true → b ≡ true
and-right a b h = ground arith

not_some : {A : Type 0} (o : Option A) → not (is_some o) ≡ true → o ≡ none
not_some none h = refl
not_some (some a) h = absurd (cc)

module _ (t : Texts) (ps : Props) where
  get-absent :
      (key : String) (fs : Fields) (rs : Props)
      → documented_fields t fs ps ≡ some rs
      → field_at key fs ≡ none
      → get key rs ≡ undefined
  unfolding documented get
  get-absent key done rs h e = rw (← some-injective h) refl
  get-absent key (field k s fs) rs h e =
      let (v, rest, _, tail, eq) =
        add_prop-some k (documented t s (get k ps)) (documented_fields t fs ps) h in
      elim (Bool-cases (str_eq k key)) [
        | inl hit ↦ absurd (cc (rw hit at e))
        | inr miss ↦
            rw eq (get-prop?_ne key k v rest miss ∙ get-absent key fs rest tail (rw miss at e))
      ]

  pub get-documented_fields :
      (key : String) (fs : Fields) (s : Schema) (rs : Props)
      → are_distinct fs ≡ true
      → documented_fields t fs ps ≡ some rs
      → field_at key fs ≡ some s
      → documented t s (get key ps) ≡ some (get key rs)
  unfolding documented
  get-documented_fields key done s rs d h e = absurd (cc)
  get-documented_fields key (field k s' fs) s rs d h e =
      let (v, rest, head, tail, eq) =
        add_prop-some k (documented t s' (get k ps)) (documented_fields t fs ps) h in
      elim (Bool-cases (str_eq k key)) [
        | inr miss ↦ rw eq (
            rw (get-prop?_ne key k v rest miss) (
              get-documented_fields key fs s rest
                (and-right (not (is_some (field_at k fs))) (are_distinct fs) d) tail
                (rw miss at e)))
        | inl hit ↦
            let same : k ≡ key = (eq_iff k key).0 hit in
            let this : s' ≡ s = some-injective (rw hit at e) in
            let fresh : field_at key fs ≡ none = rw (← same) (
              not_some (field_at k fs)
                (and-left (not (is_some (field_at k fs))) (are_distinct fs) d)) in
            rw
              (
                eq,
                get-prop?_eq key k v rest hit (get-absent key fs rest tail fresh),
                ← this,
                ← same,
              )
              head
      ]
