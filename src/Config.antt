-- ===== src/Config.antt =====
-- server/src/config/env.js: the schema of the environment, the check that the secrets differ, and
-- what a process that has started reads from it.
pub mod Boot
use ticket_booking_system.Common.{
  ℕ, Bool, true, false, not, ◌&&◌, ◌||◌, Option, none, some, [], ◌∷◌, ◌==◌, if◌then◌else◌,
}
use ticket_booking_system.Db.{Env}
use ticket_booking_system.Schemas.{
  Value, text, number, object, Props, get, Schema, url, string, regex, one_of, coerce_int_from,
  coerce_number_in, optional, default, blank_as_undefined, object_of, done, field, duration, cron,
  Texts, Zod,
}
use ticket_booking_system.Schemas.Bodies.{◌>>=◌, read_number}

-- `z.coerce.number().int().positive().default(n)`
abbrev pub positive : ℕ → Schema
positive n = default (coerce_int_from 1) (number n)

module _ (t : Texts) where
  -- The schema of the variables; the numbers that stand for its defaults are looked up.
  abbrev pub env_schema : Schema
  env_schema = object_of (
      field "NODE_ENV"
        (default (one_of ("development" ∷ "test" ∷ "production" ∷ []))
          (text (t.literal "development")))
        (field "PORT" (positive 3000) (
          field "API_URL" (default url (text (t.literal "http://localhost:3000"))) (
            field "WEB_URL" (default url (text (t.literal "http://localhost:3000"))) (
              field "DATABASE_URL" (string 1) (
                field "PGPOOL_MAX" (positive 10) (
                  field "JOB_POLL_INTERVAL_MS" (positive 2000) (
                    field "JOB_MAX_ATTEMPTS" (positive 5) (
                      field "JWT_ACCESS_SECRET" (string 32) (
                        field "JWT_REFRESH_SECRET" (string 32) (
                          field "JWT_ACCESS_TTL" (default (regex duration) (text (t.literal "15m")))
                            (field "JWT_REFRESH_TTL"
                              (default (regex duration) (text (t.literal "7d")))
                              (field "QR_SIGNING_SECRET" (string 32) (
                                field "SEAT_HOLD_TTL_SECONDS" (positive 600) (
                                  field "WAITLIST_OFFER_TTL_SECONDS" (positive 900) (
                                    field "WAITLIST_MAX_CASCADE_ATTEMPTS" (positive 5) (
                                      field "HOLD_RECONCILER_CRON"
                                        (default (regex cron) (text (t.literal "*/30 * * * * *")))
                                        (field "OUTBOX_RECONCILER_CRON"
                                          (default (regex cron) (text (t.literal "*/60 * * * * *")))
                                          (field "MAX_SEATS_PER_BOOKING" (positive 6) (
                                            field "SMTP_HOST"
                                              (default (string 0) (text (t.literal "")))
                                              (field "SMTP_PORT"
                                                (blank_as_undefined (optional (coerce_int_from 1)))
                                                (field "SMTP_USER"
                                                  (default (string 0) (text (t.literal "")))
                                                  (field "SMTP_PASS"
                                                    (default (string 0) (text (t.literal "")))
                                                    (field "MAIL_FROM"
                                                      (default (string 0) (text (t.literal "")))
                                                      (field "BOOKING_FEE_PERCENT"
                                                        (default (coerce_number_in 0 100)
                                                          (number 0))
                                                        (field "RATE_LIMIT_HOLD_PER_MIN"
                                                          (positive 10)
                                                          done))))))))))))))))))))))))))

-- `===` on two texts.
abbrev pub same_text : Value → Value → Bool
same_text (text a) (text b) = a == b
same_text _ _ = false

-- The issue that `superRefine` adds.
unfoldable pub secret_reused : Props → Bool
secret_reused ps =
    same_text (get "QR_SIGNING_SECRET" ps) (get "JWT_ACCESS_SECRET" ps)
    || same_text (get "QR_SIGNING_SECRET" ps) (get "JWT_REFRESH_SECRET" ps)

abbrev pub refine : Option Value → Option Props
refine (some (object ps)) = if secret_reused ps then none else some ps
refine _ = none

-- `env`, of `process.env`; where there is none, the process ends with status 1.
unfoldable pub boot : Zod → Props → Option Props
unfolding secret_reused
boot z process_env = refine (z.safe_parse (env_schema z.texts) (object process_env))

-- The variables that the services read; a fee that is not whole reads as `none`.
unfoldable pub read_env : Props → Option Env
read_env ps = do
  max_seats ← read_number (get "MAX_SEATS_PER_BOOKING" ps)
  fee ← read_number (get "BOOKING_FEE_PERCENT" ps)
  cascade ← read_number (get "WAITLIST_MAX_CASCADE_ATTEMPTS" ps)
  attempts ← read_number (get "JOB_MAX_ATTEMPTS" ps)
  some (record {
    max_seats_per_booking = max_seats;
    booking_fee_percent = fee;
    waitlist_max_cascade_attempts = cascade;
    job_max_attempts = attempts;
  })
