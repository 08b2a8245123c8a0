-- ===== src/Config/Boot.antt =====
-- What a process that has started can rely on.
use Prim.Native.String.{String}
use mathlib.Core.Path.{subst}
use ticket_booking_system.Common.{
  ℕ, ◌≤◌, false, Option, none, some, ◌≡◌, ◌≢◌, refl, sym, ap, arith, inl, inr, leb, Bool-cases,
  some-injective,
}
use ticket_booking_system.Db.{Env}
use ticket_booking_system.Schemas.{
  Value, undefined, text, number, fraction, object, Props, get, Schema, string, coerce_number_in,
  default, Texts, Zod, IsDocumented, documented, documented_fields, object?, check_int_from,
  check_number_in,
}
use ticket_booking_system.Schemas.Bodies.{read_number}
use ticket_booking_system.Schemas.Inversion.{bind-eq-some}
use ticket_booking_system.Schemas.Lookups.{field_at, get-documented_fields}
use ticket_booking_system.Schemas.Reading.{fields_of, keep_if-some}
use ticket_booking_system.Config.{positive, env_schema, secret_reused, refine, boot, read_env}

check_int_from-bound :
    (lo : ℕ) (v w : Value) (n : ℕ) → check_int_from lo v ≡ some w → read_number w ≡ some n → lo ≤ n
check_int_from-bound lo (number m) w n h r = ground arith
check_int_from-bound lo _ w n h r = absurd (cc)

module _ (t : Texts) where
  positive_bound :
      (d : ℕ) (v w : Value) (n : ℕ)
      → 1 ≤ d
      → documented t (positive d) v ≡ some w
      → read_number w ≡ some n
      → 1 ≤ n
  unfolding documented
  positive_bound d undefined w n h e r = ground arith
  positive_bound d v w n h e r = check_int_from-bound 1 (t.to_number v) w n e r

  check_number_in-bound :
      (v w : Value) (n : ℕ) → check_number_in t 0 100 v ≡ some w → read_number w ≡ some n → n ≤ 100
  check_number_in-bound (number m) w n e r = ground arith
  check_number_in-bound (fraction m) w n e r = ground arith
  check_number_in-bound _ w n e r = absurd (cc)

  fee_bound :
      (v w : Value) (n : ℕ)
      → documented t (default (coerce_number_in 0 100) (number 0)) v ≡ some w
      → read_number w ≡ some n
      → n ≤ 100
  unfolding documented
  fee_bound undefined w n e r = ground arith
  fee_bound v w n e r = check_number_in-bound (t.to_number v) w n e r

refine-object? :
    (o : Option Props) {ps : Props}
    → refine (object? o) ≡ some ps
    → (o ≡ some ps) × (secret_reused ps ≡ false)
refine-object? none h = absurd (cc)
refine-object? (some qs) h = elim (Bool-cases (secret_reused qs)) [
  | inl reused ↦ absurd (cc (rw reused at h))
  | inr fresh ↦ let e = some-injective (rw fresh at h) in (ap (λ x. some x) e, rw (← e) fresh)
]

if_text-some :
    (t : Texts) (least : ℕ) (v w : Value)
    → documented t (string least) v ≡ some w
    → (n : ℕ) × (w ≡ text n) × (least ≤ t.length n)
unfolding documented
if_text-some t least (text n) w h =
    (n, sym (keep_if-some (leb least (t.length n)) (text n) w h), ground arith)
if_text-some t least _ w h = absurd (cc)

-- The secret that signs tickets signs no session, and no secret is short.
abbrev pub AreSeparate : Texts → Props → Type 0
AreSeparate t ps =
    (qr : ℕ) × (access : ℕ) × (refresh : ℕ) × (get "QR_SIGNING_SECRET" ps ≡ text qr)
    × (get "JWT_ACCESS_SECRET" ps ≡ text access)
    × (get "JWT_REFRESH_SECRET" ps ≡ text refresh)
    × (qr ≢ access)
    × (qr ≢ refresh)
    × (32 ≤ t.length qr)
    × (32 ≤ t.length access)
    × (32 ≤ t.length refresh)

-- The limits that the services go by.
abbrev pub IsSane : Env → Type 0
IsSane env =
    (1 ≤ env.max_seats_per_booking)
    × (env.booking_fee_percent ≤ 100)
    × (1 ≤ env.waitlist_max_cascade_attempts)
    × (1 ≤ env.job_max_attempts)

module _ (t : Texts) (pe ps : Props)
    (h : documented_fields t (fields_of (env_schema t)) pe ≡ some ps) where
  env_at :
      (key : String) (s : Schema)
      → field_at key (fields_of (env_schema t)) ≡ some s
      → documented t s (get key pe) ≡ some (get key ps)
  env_at key s e = get-documented_fields t pe key (fields_of (env_schema t)) s ps refl h e

  secrets_separate : secret_reused ps ≡ false → AreSeparate t ps
  unfolding secret_reused
  secrets_separate fresh =
      let (qr, e0, l0) = if_text-some t 32 _ _ (env_at "QR_SIGNING_SECRET" (string 32) refl) in
      let (access, e1, l1) = if_text-some t 32 _ _ (env_at "JWT_ACCESS_SECRET" (string 32) refl) in
      let (refresh, e2, l2) =
        if_text-some t 32 _ _ (env_at "JWT_REFRESH_SECRET" (string 32) refl) in
      let f = rw (e0, e1, e2) at fresh in
      (qr, access, refresh, e0, e1, e2, ground arith, ground arith, l0, l1, l2)

  env-IsSane : (env : Env) → read_env ps ≡ some env → IsSane env
  unfolding read_env
  env-IsSane env r =
      let (max_seats, e0, r0) = bind-eq-some (read_number (get "MAX_SEATS_PER_BOOKING" ps)) _ r in
      let (fee, e1, r1) = bind-eq-some (read_number (get "BOOKING_FEE_PERCENT" ps)) _ r0 in
      let (cascade, e2, r2) =
        bind-eq-some (read_number (get "WAITLIST_MAX_CASCADE_ATTEMPTS" ps)) _ r1 in
      let (attempts, e3, r3) = bind-eq-some (read_number (get "JOB_MAX_ATTEMPTS" ps)) _ r2 in
      subst IsSane (some-injective r3) (
        positive_bound t 6 _ _ max_seats (omega arith)
            (env_at "MAX_SEATS_PER_BOOKING" (positive 6) refl) e0,
        fee_bound t _ _ fee (env_at "BOOKING_FEE_PERCENT" _ refl) e1,
        positive_bound t 5 _ _ cascade (omega arith)
            (env_at "WAITLIST_MAX_CASCADE_ATTEMPTS" (positive 5) refl) e2,
        positive_bound t 5 _ _ attempts (omega arith) (env_at "JOB_MAX_ATTEMPTS" (positive 5) refl)
            e3,
      )

-- Where zod does what it documents, in a process that has started with a fee that is a whole
-- percentage: a booking may have a seat, the fee is at most the whole price, an offer is tried at
-- least once and so is a job; and the three secrets have at least 32 characters, where the one that
-- signs tickets is neither of the others.
pub boot_sound :
    (z : Zod)
    → IsDocumented z
    → (process_env ps : Props) (env : Env) → boot z process_env ≡ some ps
    → read_env ps ≡ some env
    → IsSane env × AreSeparate z.texts ps
unfolding boot documented
boot_sound z doc process_env ps env h r =
    let (e, fresh) =
      refine-object? (documented_fields z.texts (fields_of (env_schema z.texts)) process_env)
        (rw (doc (env_schema z.texts) (object process_env)) at h) in
    (env-IsSane z.texts process_env ps e env r, secrets_separate z.texts process_env ps e fresh)
