-- ===== src/Application/Unique.antt =====
-- No request fits two routes, so the order of the mounts does not matter.
use Prim.Native.String.{String}
use text.Mathlib.Text.{◌==◌ as str_eq}
use text.Mathlib.TextEquality.{eq_iff}
use text.Mathlib.TextPositions.{eq_refl}
use ticket_booking_system.Common.{
  ℕ, get_elem?, All, ◌++◌, ap, zero, suc, length, Bool, true, false, not, ◌&&◌, ◌||◌, Option, none,
  some, List, [], ◌∷◌, ◌≡◌, refl, sym, ◌∙◌, arith, inl, inr, Bool-cases, Option-cases, is_some,
  some-injective, if◌then◌else◌,
}
use ticket_booking_system.Application.{
  Method, get, post, patch, delete, Segment, lit, param, Row, method_eq, matches, match_row,
  documented, cons_param, Endpoint,
}
use ticket_booking_system.Application.Routers.{app}

-- Some path fits both.
abbrev overlap : List Segment → List Segment → Bool
overlap [] [] = true
overlap [] (lit b ∷ qs) = str_eq b ""
overlap [] (param y ∷ qs) = false
overlap (lit a ∷ ps) [] = str_eq a ""
overlap (param x ∷ ps) [] = false
overlap (lit a ∷ ps) (lit b ∷ qs) = str_eq a b && overlap ps qs
overlap (p ∷ ps) (q ∷ qs) = overlap ps qs

-- The values that a path gives to the parameters, put back in, with its literals spelled some way.
unfoldable pub url : (String → String) → List Segment → List String → List String
url spell [] params = []
url spell (lit l ∷ ps) params = spell l ∷ url spell ps params
url spell (param x ∷ ps) [] = []
url spell (param x ∷ ps) (s ∷ params) = s ∷ url spell ps params

-- The spelling differs from the literals of the path in the case of letters only.
abbrev pub IsSpelled : (lower spell : String → String) → List Segment → Type 0
IsSpelled lower spell [] = Unit
IsSpelled lower spell (lit l ∷ ps) = (lower (spell l) ≡ l) × IsSpelled lower spell ps
IsSpelled lower spell (param x ∷ ps) = IsSpelled lower spell ps

-- A slash at the end of a URL, or none.
abbrev pub ending : Bool → List String
ending true = "" ∷ []
ending false = []

abbrev the_end : List String
the_end = []

end_matches : (b : Bool) → is_some (if b then some (the_end) else none) ≡ true → b ≡ true
end_matches true h = refl
end_matches false h = absurd (cc)

param_matches :
    (b : Bool) (o : Option (List String))
    → is_some (let rest = o in if b then none else rest) ≡ true
    → (b ≡ false) × (is_some o ≡ true)
param_matches true o h = absurd (cc)
param_matches false o h = (refl, h)

lit_matches :
    (b : Bool) (o : Option (List String))
    → is_some (let rest = o in if b then rest else none) ≡ true
    → (b ≡ true) × (is_some o ≡ true)
lit_matches true o h = (refl, h)
lit_matches false o h = absurd (cc)

and_right : (a b : Bool) → (a && b) ≡ true → b ≡ true
and_right a b h = ground arith

or_true : (b : Bool) → (b || true) ≡ true
or_true true = refl
or_true false = refl

-- How many parameters a path has.
abbrev pub arity : List Segment → ℕ
arity [] = 0
arity (lit l ∷ ps) = arity ps
arity (param x ∷ ps) = suc (arity ps)

matches-url :
    (lower spell : String → String) (slash : Bool) (ps : List Segment) (params : List String)
    → IsSpelled lower spell ps
    → length params ≡ arity ps
    → All (λ s. str_eq s "" ≡ false) params
    → matches lower ps (url spell ps params ++ ending slash) ≡ some params
unfolding matches url
matches-url lower spell true [] [] k h full = refl
matches-url lower spell false [] [] k h full = refl
matches-url lower spell slash [] (s ∷ params) k h full = absurd (omega arith)
matches-url lower spell slash (lit l ∷ ps) params k h full =
    rw (k.0) (rw (eq_refl l) (matches-url lower spell slash ps params k.1 h full))
matches-url lower spell slash (param x ∷ ps) [] k h full = absurd (omega arith)
matches-url lower spell slash (param x ∷ ps) (s ∷ params) k h full =
    rw full.0 (rw (matches-url lower spell slash ps params k (omega arith) full.1) refl)

cons_param-some :
    (s : String) (o : Option (List String)) → is_some (cons_param s o) ≡ true → is_some o ≡ true
cons_param-some s none h = h
cons_param-some s (some ss) h = refl

rest_some :
    (lower : String → String) (x : String) (ps : List Segment) (s : String) (path : List String)
    → is_some (matches lower (param x ∷ ps) (s ∷ path)) ≡ true
    → is_some (matches lower ps path) ≡ true
unfolding matches
rest_some lower x ps s path h =
    cons_param-some s (matches lower ps path)
      (param_matches (str_eq s "") (cons_param s (matches lower ps path)) h).1

-- A path that ends where a literal stands, but for a slash.
matches-empty :
    (lower : String → String)
    → lower "" ≡ ""
    → (b : String) (qs : List Segment) (path : List String) → is_some (matches lower [] path) ≡ true
    → is_some (matches lower (lit b ∷ qs) path) ≡ true
    → str_eq b "" ≡ true
unfolding matches
matches-empty lower keeps b qs [] h k = absurd (cc)
matches-empty lower keeps b qs (s ∷ []) h k =
    let none_left : s ≡ "" = (eq_iff s "").0 (end_matches (str_eq s "") h) in
    let same : b ≡ lower s =
      (eq_iff b (lower s)).0 (lit_matches (str_eq b (lower s)) (matches lower qs []) k).0 in
    (eq_iff b "").1 (same ∙ ap lower none_left ∙ keeps)
matches-empty lower keeps b qs (s ∷ u ∷ ss) h k = absurd (cc)

-- A parameter is not empty.
matches-param :
    (lower : String → String) (y : String) (qs : List Segment) (path : List String)
    → is_some (matches lower [] path) ≡ true
    → is_some (matches lower (param y ∷ qs) path) ≡ true
    → ⊥
unfolding matches
matches-param lower y qs [] h k = cc
matches-param lower y qs (s ∷ []) h k =
    let none_left = end_matches (str_eq s "") h in
    let some_left = (param_matches (str_eq s "") (cons_param s (matches lower qs [])) k).0 in cc
matches-param lower y qs (s ∷ u ∷ ss) h k = cc

matches-overlap :
    (lower : String → String)
    → lower "" ≡ ""
    → (ps qs : List Segment) (path : List String) → is_some (matches lower ps path) ≡ true
    → is_some (matches lower qs path) ≡ true
    → overlap ps qs ≡ true
unfolding matches
matches-overlap lower keeps [] [] path h k = refl
matches-overlap lower keeps [] (lit b ∷ qs) path h k = matches-empty lower keeps b qs path h k
matches-overlap lower keeps [] (param y ∷ qs) path h k = absurd (matches-param lower y qs path h k)
matches-overlap lower keeps (lit a ∷ ps) [] path h k = matches-empty lower keeps a ps path k h
matches-overlap lower keeps (param x ∷ ps) [] path h k = absurd (matches-param lower x ps path k h)
matches-overlap lower keeps (p ∷ ps) (q ∷ qs) [] h k = absurd (cc)
matches-overlap lower keeps (lit a ∷ ps) (lit b ∷ qs) (s ∷ path) h k =
    let (same_a, rest_a) = lit_matches (str_eq a (lower s)) (matches lower ps path) h in
    let (same_b, rest_b) = lit_matches (str_eq b (lower s)) (matches lower qs path) k in
    let same : a ≡ b = (eq_iff a (lower s)).0 same_a ∙ sym ((eq_iff b (lower s)).0 same_b) in
    rw ((eq_iff a b).1 same, matches-overlap lower keeps ps qs path rest_a rest_b) refl
matches-overlap lower keeps (lit a ∷ ps) (param y ∷ qs) (s ∷ path) h k =
    matches-overlap lower keeps ps qs path
      (lit_matches (str_eq a (lower s)) (matches lower ps path) h).1 (rest_some lower y qs s path k)
matches-overlap lower keeps (param x ∷ ps) (lit b ∷ qs) (s ∷ path) h k =
    matches-overlap lower keeps ps qs path (rest_some lower x ps s path h)
      (lit_matches (str_eq b (lower s)) (matches lower qs path) k).1
matches-overlap lower keeps (param x ∷ ps) (param y ∷ qs) (s ∷ path) h k =
    matches-overlap lower keeps ps qs path (rest_some lower x ps s path h)
      (rest_some lower y qs s path k)

abbrev clash : Row → Row → Bool
clash r t = method_eq r.method t.method && overlap r.path t.path

abbrev clashes : Row → List Row → Bool
clashes r [] = false
clashes r (t ∷ ts) = clash r t || clashes r ts

abbrev are_disjoint : List Row → Bool
are_disjoint [] = true
are_disjoint (r ∷ rs) = not (clashes r rs) && are_disjoint rs

method_eq-eq : (a b : Method) → method_eq a b ≡ true → a ≡ b
method_eq-eq get get h = refl
method_eq-eq post post h = refl
method_eq-eq patch patch h = refl
method_eq-eq delete delete h = refl
method_eq-eq _ _ h = absurd (cc)

method_eq_refl : (a : Method) → method_eq a a ≡ true
method_eq_refl get = refl
method_eq_refl post = refl
method_eq_refl patch = refl
method_eq_refl delete = refl

match_row-some :
    (lower : String → String) (r : Row) (m : Method) (path : List String)
    → is_some (match_row lower r m path) ≡ true
    → (r.method ≡ m) × (is_some (matches lower r.path path) ≡ true)
match_row-some lower r m path h = elim (Bool-cases (method_eq r.method m)) [
  | inl same ↦ (method_eq-eq r.method m same, rw same at h)
  | inr other ↦ absurd (cc (rw other at h))
]

match_row-clash :
    (lower : String → String)
    → lower "" ≡ ""
    → (r t : Row) (m : Method) (path : List String) → is_some (match_row lower r m path) ≡ true
    → is_some (match_row lower t m path) ≡ true
    → clash r t ≡ true
match_row-clash lower keeps r t m path h k =
    let (mr, pr) = match_row-some lower r m path h in
    let (mt, pt) = match_row-some lower t m path k in
    rw (mr ∙ sym mt, method_eq_refl t.method, matches-overlap lower keeps r.path t.path path pr pt)
      refl

clashes-get_elem? :
    (r t : Row) (ts : List Row) (i : ℕ)
    → get_elem? ts i ≡ some t
    → clash r t ≡ true
    → clashes r ts ≡ true
clashes-get_elem? r t [] i h k = absurd (cc)
clashes-get_elem? r t (u ∷ ts) zero h k = rw (some-injective h, k) refl
clashes-get_elem? r t (u ∷ ts) (suc i) h k =
    rw (clashes-get_elem? r t ts i h k) (or_true (clash r u))

documented-get_elem? :
    (lower : String → String)
    → lower "" ≡ ""
    → (rows : List Row) (i : ℕ) (r : Row) (m : Method) (path params : List String)
    → are_disjoint rows ≡ true
    → get_elem? rows i ≡ some r
    → match_row lower r m path ≡ some params
    → documented lower rows m path ≡ some (r.endpoint, params)
unfolding documented
documented-get_elem? lower keeps [] i r m path params d h k = absurd (cc)
documented-get_elem? lower keeps (u ∷ rows) zero r m path params d h k =
    rw (some-injective h, k) refl
documented-get_elem? lower keeps (u ∷ rows) (suc i) r m path params d h k =
    elim (Option-cases (match_row lower u m path)) [
      | inl missed ↦ rw missed (
          documented-get_elem? lower keeps rows i r m path params
            (and_right (not (clashes u rows)) (are_disjoint rows) d) h k)
      | inr (others, taken) ↦
          let both =
            clashes-get_elem? u r rows i h
              (match_row-clash lower keeps u r m path (rw taken refl) (rw k refl)) in
          absurd (cc (rw both at d))
    ]

app-are_disjoint : are_disjoint app ≡ true
unfolding app
app-are_disjoint = refl

-- Where Express does what it documents: each route of the application is reached by its method at its
-- own URL, with the values of its parameters, whatever they are but empty, whichever case the letters
-- of the rest are in, with a slash at the end or without, and wherever the route stands; no other
-- route takes the request.
pub app_reaches :
    (lower : String → String)
    → lower "" ≡ ""
    → (dispatch : List Row → Method → List String → Option (Endpoint × List String))
    → ((rows : List Row) (m : Method) (path : List String)
        → dispatch rows m path ≡ documented lower rows m path)
    → (spell : String → String) (slash : Bool) (i : ℕ) (r : Row) (params : List String)
    → get_elem? app i ≡ some r
    → IsSpelled lower spell r.path
    → length params ≡ arity r.path
    → All (λ s. str_eq s "" ≡ false) params
    → dispatch app r.method (url spell r.path params ++ ending slash) ≡ some (r.endpoint, params)
app_reaches lower keeps dispatch express spell slash i r params h spelled n full =
    express app r.method (url spell r.path params ++ ending slash)
    ∙ documented-get_elem? lower keeps app i r r.method (url spell r.path params ++ ending slash)
        params app-are_disjoint h
        (rw (method_eq_refl r.method) (matches-url lower spell slash r.path params spelled n full))
