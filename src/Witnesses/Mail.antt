-- ===== src/Witnesses/Mail.antt =====
-- The theorem about the mail of an offer, after the cancellation of the small database's booking.
use ticket_booking_system.Common.{true, none, some, ◌≡◌, refl, arith, [], ◌∷◌}
use ticket_booking_system.Errors.{ok}
use ticket_booking_system.SeatStates.{offer_reserved}
use ticket_booking_system.Db.{Db, User, Event, Venue, customer, movie}
use ticket_booking_system.Offers.{get_offer_by_token}
use ticket_booking_system.Cancellation.{Released, OfferSent, cancel_booking}
use ticket_booking_system.Mail.{
  Post, MailEnv, Message, Template, compose_waitlist_offer, available_subject,
}
use ticket_booking_system.Mail.Claims.{link_token, mail_of, view_of, offer_link_opens}
use ticket_booking_system.Fixtures.{env, show}
use ticket_booking_system.Scenarios.{
  runs, crypto, held_db, booked_db, cancelled_db, cancelled, offer_mint, unlocked, offer,
}

abbrev waiting_user : User
waiting_user = record {
  id = 9;
  email = 90;
  password_hash = 91;
  name = 92;
  phone = none;
  role = customer;
  created_at = 1;
}

abbrev shown_event : Event
shown_event = record {
  id = show.event_id;
  organiser_id = 2;
  title = 40;
  type = movie;
  description = 0;
  poster_url = none;
  language = none;
  genre = none;
  duration_min = 90;
  is_published = true;
  created_at = 1;
}

abbrev shown_venue : Venue
shown_venue = record {
  id = show.venue_id;
  name = 41;
  address = 43;
  city = 42;
  layout_meta = 0;
  created_at = 1;
}

-- The tables that mail reads, beside those of the services.
abbrev with_mail : Db → Db
with_mail db = record db {
  users = waiting_user ∷ [];
  events = shown_event ∷ [];
  venues = shown_venue ∷ [];
}

-- A template is rendered as the token of its link.
abbrev post : Post
post = record {
  create_transport = λ env. 1;
  test_transport = λ account. 2;
  deliver = λ transport from message. ok 3;
  get_test_message_url = λ info. none;
  render_file = λ template. ok (link_token template);
  to_buffer = λ token. ok token;
}

abbrev mail_env : MailEnv
mail_env = record {
  smtp_host = none;
  smtp_port = none;
  smtp_user = none;
  smtp_pass = none;
  mail_from = none;
}

abbrev sent : OfferSent
sent = record { user_id = 9; offer = offer; raw_token = 84 }

abbrev to_waitlist : Released
to_waitlist = record {
  category_id = 7;
  show_seat_ids = 102 ∷ [];
  state = offer_reserved;
  offer = some sent;
}

abbrev message : Message
message = record { to = 90; subject = available_subject 40; html = 84; attachment = none }

cancels :
    cancel_booking crypto env 3000 31 unlocked offer_mint (with_mail booked_db)
    ≡ (ok cancelled, with_mail cancelled_db)
unfolding cancelled cancelled_db booked_db held_db runs
cancels = refl

composed :
    compose_waitlist_offer post mail_env (mail_of 1 to_waitlist sent) (with_mail cancelled_db)
    ≡ ok (some message)
unfolding compose_waitlist_offer cancelled_db booked_db held_db runs
composed = refl

offer_link_opens_example :
    (template : Template) × (post.render_file template ≡ ok message.html)
    × (get_offer_by_token crypto env 3500 (link_token template) (with_mail cancelled_db)
        ≡ ok (view_of crypto env 3500 (102 ∷ []) offer (with_mail cancelled_db)))
unfolding cancelled
offer_link_opens_example =
    offer_link_opens crypto env 3500 post mail_env 3000 31 unlocked offer_mint (with_mail booked_db)
      cancelled (with_mail cancelled_db) 0 to_waitlist sent 1 message cancels refl refl
      (omega arith) composed
