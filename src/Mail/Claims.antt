-- ===== src/Mail/Claims.antt =====
-- The link of a mail about an offer opens that offer.
use ticket_booking_system.Common.{
  ℕ, ◌<◌, List, Bool, true, false, some, length, ◌≡◌, refl, ap, ◌∙◌, arith, inl, inr, leb,
  get_elem?, All-get_elem?, Option-cases, some-injective,
}
use ticket_booking_system.Errors.{ok, ok-injective, Result-cases}
use ticket_booking_system.Db.{Db, WaitlistOffer, Env}
use ticket_booking_system.Pricing.{price_booking}
use ticket_booking_system.Accounts.{find_user_by_id}
use ticket_booking_system.Shows.Details.{find_show_detail_by_id}
use ticket_booking_system.Offers.{
  Crypto, OfferMint, OfferView, get_offer_by_token, find_offer_by_token_hash,
  find_offer_seats_by_ids, check_offer, is_pending, is_expired, seconds_remaining,
}
use ticket_booking_system.Cancellation.{Cancelled, Released, OfferSent, cancel_booking}
use ticket_booking_system.Cancellation.Sent.{IsSent, cancel_booking-IsSent}
use ticket_booking_system.Mail.{
  Template, waitlist_offer, booking_confirmed, OfferCreated, offer_template, compose_waitlist_offer,
  find_category_by_id, Post, Message, MailEnv, ◌>>=◌,
}

-- The token in the link of a mail about an offer.
abbrev pub link_token : Template → ℕ
link_token (waitlist_offer show category seat_count total_cents url expires_at) = url.raw_token
link_token (booking_confirmed booking seats show) = 0

-- The mail about an offer that a cancellation reports, for the show of the booking.
abbrev pub mail_of : ℕ → Released → OfferSent → OfferCreated
mail_of show_id r sent = record {
  user_id = sent.user_id;
  show_id = show_id;
  category_id = r.category_id;
  offer = sent.offer;
  raw_token = sent.raw_token;
  seat_count = length r.show_seat_ids;
}

module _ (crypto : Crypto) (env : Env) (later : ℕ) where
  -- The page of an offer of these seats.
  abbrev pub view_of : List ℕ → WaitlistOffer → Db → OfferView
  view_of seat_ids offer db =
      let seats = find_offer_seats_by_ids seat_ids db in
      record {
        seats = seats;
        subtotal_cents = (price_booking env seats).subtotal_cents;
        total_cents = (price_booking env seats).total_cents;
        seconds_left = seconds_remaining later offer;
      }

  shown :
      (raw_token : ℕ) (seat_ids : List ℕ) (offer : WaitlistOffer) (db : Db)
      → find_offer_by_token_hash (crypto.sha256 raw_token) db ≡ some offer
      → is_pending offer.status ≡ true
      → offer.show_seat_ids ≡ seat_ids
      → later < offer.expires_at
      → get_offer_by_token crypto env later raw_token db ≡ ok (view_of seat_ids offer db)
  unfolding get_offer_by_token check_offer is_expired
  shown raw_token seat_ids offer db found pending same open_still =
      let early : leb offer.expires_at later ≡ false = ground arith in
      rw (found, get_offer_by_token, check_offer)
        (rw (pending, get_offer_by_token, check_offer)
          (rw (early, get_offer_by_token, check_offer) (rw (same, get_offer_by_token) refl)))

  module _ (post : Post) (mail_env : MailEnv) where
    -- What a mail about an offer has been rendered from.
    rendered :
        (c : OfferCreated) (db : Db) (m : Message)
        → compose_waitlist_offer post mail_env c db ≡ ok (some m)
        → (template : Template) × (post.render_file template ≡ ok m.html)
          × (link_token template ≡ c.raw_token)
    unfolding compose_waitlist_offer
    rendered c db m h = elim (Option-cases (find_user_by_id c.user_id db)) [
      | inl gone ↦ absurd (cc (rw (gone, compose_waitlist_offer) at h))
      | inr (user, found) ↦
          let h₁ = rw (found, compose_waitlist_offer) at h in
          elim (Option-cases (find_show_detail_by_id c.show_id db)) [
            | inl no_show ↦ absurd (cc (rw (no_show, compose_waitlist_offer) at h₁))
            | inr (show, shows) ↦
                let h₂ = rw (shows, compose_waitlist_offer) at h₁ in
                elim (Option-cases (find_category_by_id c.category_id db)) [
                  | inl no_category ↦ absurd (cc (rw (no_category, compose_waitlist_offer) at h₂))
                  | inr (category, known) ↦
                      let h₃ = rw (known, compose_waitlist_offer) at h₂ in
                      elim (Result-cases (post.render_file (offer_template c show category db))) [
                        | inl (e, refused) ↦ absurd (cc (rw (refused, ◌>>=◌) at h₃))
                        | inr (html, drawn) ↦
                            let same = some-injective (ok-injective (rw (drawn, ◌>>=◌) at h₃)) in
                            (
                              offer_template c show category db,
                              drawn ∙ ap (λ (m : Message). ok m.html) same,
                              refl,
                            )
                      ]
                ]
          ]
    ]

    -- After a cancellation that succeeds, for each offer that it reports and until that expires: the
    -- mail about it, where it is composed, is rendered from a template with its data in which the
    -- token of the link shows the very seats that are reported, priced as they stand, and the seconds
    -- that the offer is still open.
    pub offer_link_opens :
        (now booking_id : ℕ) (locked : ℕ → Bool) (mint : ℕ → OfferMint) (db : Db) (c : Cancelled)
        (db' : Db) (i : ℕ) (r : Released) (sent : OfferSent) (show_id : ℕ) (m : Message)
        → cancel_booking crypto env now booking_id locked mint db ≡ (ok c, db')
        → get_elem? c.released i ≡ some r
        → r.offer ≡ some sent
        → later < sent.offer.expires_at
        → compose_waitlist_offer post mail_env (mail_of show_id r sent) db' ≡ ok (some m)
        → (template : Template) × (post.render_file template ≡ ok m.html)
          × (get_offer_by_token crypto env later (link_token template) db'
              ≡ ok (view_of r.show_seat_ids sent.offer db'))
    offer_link_opens now booking_id locked mint db c db' i r sent show_id m h at reported open_still
          composed =
        let (found, pending, seats) =
          All-get_elem? (IsSent crypto env now booking_id db') c.released i r
            (cancel_booking-IsSent crypto env now booking_id locked mint db c db' h) at sent
            reported in
        let (template, drawn, token) = rendered (mail_of show_id r sent) db' m composed in
        (
          template,
          drawn,
          rw token
              (shown sent.raw_token r.show_seat_ids sent.offer db' found pending seats open_still),
        )
