-- ===== src/Mail.antt =====
-- server/src/mail/mailer.js: the transport that is created once, and the two mails that the program
-- sends after a booking and after a cancellation. nodemailer, ejs and qrcode are the parameter `Post`;
-- `console` is left out.
pub mod Transport
pub mod Claims
use ticket_booking_system.Common.{ℕ, ◌*◌, Option, none, some, List, [], ◌∷◌, map, ◌==◌, length}
use ticket_booking_system.Errors.{Result, ok, err, internal}
use ticket_booking_system.Sql.{first}
use ticket_booking_system.Db.{Db, Booking, ShowPrice, SeatCategory, User, WaitlistOffer}
use ticket_booking_system.Pricing.{PricedSeat}
use ticket_booking_system.Accounts.{find_user_by_id}
use ticket_booking_system.Shows.Details.{ShowDetail, find_show_detail_by_id, list_show_prices}

-- The variables of config/env.js that mail reads; an empty text is `none`.
pub record MailEnv : Type 0 where
  pub smtp_host : Option ℕ
  pub smtp_port : Option ℕ
  pub smtp_user : Option ℕ
  pub smtp_pass : Option ℕ
  pub mail_from : Option ℕ

-- The claim link is `${env.WEB_URL}/waitlist/claim/${rawToken}`, of which the token is kept.
pub record ClaimUrl : Type 0 where
  pub raw_token : ℕ

-- A template with the data that it is given.
pub data Template : Type 0 where
  booking_confirmed : Booking → List PricedSeat → ShowDetail → Template
  waitlist_offer :
      ShowDetail
      → SeatCategory
      → (seat_count total_cents : ℕ) → ClaimUrl
      → (expires_at : ℕ) → Template

pub data Subject : Type 0 where
  confirmed_subject available_subject : (title : ℕ) → Subject

-- The parameter of `sendMail`; the picture of a ticket is the one attachment.
pub record Message : Type 0 where
  pub to : ℕ
  pub subject : Subject
  pub html : ℕ
  pub attachment : Option ℕ

-- What the libraries do: the transport of a host or of a test account, the sending of a message by a
-- transport, the address of its preview, the rendering of a template, the picture of a token.
pub record Post : Type 0 where
  pub create_transport : MailEnv → ℕ
  pub test_transport : ℕ → ℕ
  pub deliver : ℕ → Option ℕ → Message → Result ℕ
  pub get_test_message_url : ℕ → Option ℕ
  pub render_file : Template → Result ℕ
  pub to_buffer : ℕ → Result ℕ

-- `transportPromise`, with what it settles to.
pub record Mailer : Type 0 where
  pub transport_promise : Option (Result ℕ)

-- A failure, or what follows a success.
infixl 5 ◌>>=◌
abbrev pub ◌>>=◌ : {A B : Type 0} → Result A → (A → Result B) → Result B
◌>>=◌ r f = elim r [ ok a ↦ f a | err e ↦ err e ]

module _ (post : Post) (env : MailEnv) where
  -- The transport of a host, or of the account that `createTestAccount` answers with.
  abbrev pub new_transport : Result ℕ → Result ℕ
  new_transport account = elim env.smtp_host [
    | some host ↦ ok (post.create_transport env)
    | none ↦ account >>= λ a. ok (post.test_transport a)
  ]

  -- `getTransport`
  unfoldable pub get_transport : Result ℕ → Mailer → Result ℕ × Mailer
  get_transport account m = elim m.transport_promise [
    | some settled ↦ (settled, m)
    | none ↦ (new_transport account, record { transport_promise = some (new_transport account) })
  ]

  -- `sendMail`
  unfoldable pub send_mail : Result ℕ → Message → Mailer → Result (Option ℕ) × Mailer
  unfolding get_transport
  send_mail account message m =
      let (transport, m') = get_transport account m in
      (
        transport >>= λ t.
            post.deliver t env.mail_from message >>= λ info. ok (post.get_test_message_url info),
        m',
      )

  -- A mail that could be composed is sent.
  abbrev pub send_composed :
      Result ℕ → Result (Option Message) → Mailer → Result (Option (Option ℕ)) × Mailer
  send_composed account (ok (some message)) m =
      let (sent, m') = send_mail account message m in (sent >>= λ url. ok (some url), m')
  send_composed account (ok none) m = (ok none, m)
  send_composed account (err e) m = (err e, m)

  -- The message of `sendBookingConfirmedEmail`; without a show the template is a TypeError.
  unfoldable pub compose_booking_confirmed :
      ℕ → Booking → List PricedSeat → Db → Result (Option Message)
  unfolding find_user_by_id find_show_detail_by_id
  compose_booking_confirmed user_id booking seats db = elim (find_user_by_id user_id db) [
    | none ↦ ok none
    | some user ↦ post.to_buffer booking.qr_token >>= λ qr.
        elim (find_show_detail_by_id booking.show_id db) [
          | none ↦ err internal
          | some show ↦ post.render_file (booking_confirmed booking seats show) >>= λ html. ok (
              some (record {
                to = user.email;
                subject = confirmed_subject show.event_title;
                html = html;
                attachment = some qr;
              }))
        ]
  ]

  -- `sendBookingConfirmedEmail`
  unfoldable pub send_booking_confirmed_email :
      Result ℕ → ℕ → Booking → List PricedSeat → Db → Mailer → Result (Option (Option ℕ)) × Mailer
  unfolding compose_booking_confirmed send_mail
  send_booking_confirmed_email account user_id booking seats db =
      send_composed account (compose_booking_confirmed user_id booking seats db)

-- `findCategoryById`
unfoldable pub find_category_by_id : ℕ → Db → Option SeatCategory
unfolding first
find_category_by_id id db = first (λ c. c.id == id) db.seat_categories

-- `priceRow?.priceCents ?? 0`
abbrev pub price_or_zero : Option ShowPrice → ℕ
price_or_zero none = 0
price_or_zero (some p) = p.price_cents

-- `totalCents`
unfoldable pub offer_total : ℕ → ℕ → ℕ → Db → ℕ
unfolding first list_show_prices
offer_total show_id category_id seat_count db =
    price_or_zero (first (λ p. p.category_id == category_id) (list_show_prices show_id db))
    * seat_count

-- The argument of `sendWaitlistOfferEmail`: an entry of `offersCreated`.
pub record OfferCreated : Type 0 where
  pub user_id : ℕ
  pub show_id : ℕ
  pub category_id : ℕ
  pub offer : WaitlistOffer
  pub raw_token : ℕ
  pub seat_count : ℕ

-- The data of the template of an offer.
abbrev pub offer_template : OfferCreated → ShowDetail → SeatCategory → Db → Template
offer_template c show category db =
    waitlist_offer show category c.seat_count (offer_total c.show_id c.category_id c.seat_count db)
      (record { raw_token = c.raw_token }) c.offer.expires_at

module _ (post : Post) (env : MailEnv) where
  -- The message of `sendWaitlistOfferEmail`; without a show or a category the template is a
  -- TypeError.
  unfoldable pub compose_waitlist_offer : OfferCreated → Db → Result (Option Message)
  unfolding find_user_by_id find_show_detail_by_id find_category_by_id offer_total
  compose_waitlist_offer c db = elim (find_user_by_id c.user_id db) [
    | none ↦ ok none
    | some user ↦ elim (find_show_detail_by_id c.show_id db) [
      | none ↦ err internal
      | some show ↦ elim (find_category_by_id c.category_id db) [
        | none ↦ err internal
        | some category ↦ post.render_file (offer_template c show category db) >>= λ html. ok (
            some (record {
              to = user.email;
              subject = available_subject show.event_title;
              html = html;
              attachment = none;
            }))
      ]
    ]
  ]

  -- `sendWaitlistOfferEmail`
  unfoldable pub send_waitlist_offer_email :
      Result ℕ → OfferCreated → Db → Mailer → Result (Option (Option ℕ)) × Mailer
  unfolding compose_waitlist_offer send_mail
  send_waitlist_offer_email account c db =
      send_composed post env account (compose_waitlist_offer c db)
