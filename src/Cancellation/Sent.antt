-- ===== src/Cancellation/Sent.antt =====
-- The offers that `cancelBooking` reports: each is in the table, under the digest of its token.
use mathlib.Core.Path.{subst}
use ticket_booking_system.Common.{
  ℕ, ◌≡◌, refl, inl, inr, Bool, true, false, ◌||◌, Option, some, List, [], ◌∷◌, arith, ◌==◌,
  Bool-cases, Option-cases, All, ==_refl, ==→eq, some-injective,
}
use ticket_booking_system.Errors.{ok, ok-injective, Result-cases}
use ticket_booking_system.Sql.{first, exists}
use ticket_booking_system.Sql.Counts.{first-meets, first-exists}
use ticket_booking_system.Db.{Db, ShowSeat, Show, Env, WaitlistOffer}
use ticket_booking_system.Db.Tx.{◌>>=◌, or_throw, finish-ok}
use ticket_booking_system.Waitlist.{claim_next_waiting_entry, mark_entry_offered}
use ticket_booking_system.Offers.{
  Crypto, OfferMint, InitialOffer, is_pending, create_initial_offer, insert_waitlist_offer,
  generate_offer_token, find_offer_by_token_hash,
}
use ticket_booking_system.Cancellation.{
  Released, OfferSent, Cancelled, dispatch_category, dispatch_categories, cancel_booking,
  release_booked_seats_for_category, find_booked_seats_by_booking, category_ids, seats_show_id,
  show_of_seats,
}
use ticket_booking_system.Cancellation.Outcome.{booked_seats, settled_db, dispatched}

-- What a step keeps of the offers: each is found by the digest of its token as before.
abbrev pub KeepsOffers : Db → Db → Type 0
KeepsOffers db db' =
    (h : ℕ) (o : WaitlistOffer)
    → find_offer_by_token_hash h db ≡ some o
    → find_offer_by_token_hash h db' ≡ some o

module _ (crypto : Crypto) (env : Env) (now booking_id : ℕ) where
  -- The offer that is reported is pending, is found by its token, and has the seats reported.
  abbrev pub IsSent : Db → Released → Type 0
  IsSent db r =
      (sent : OfferSent)
      → r.offer ≡ some sent
      → (find_offer_by_token_hash (crypto.sha256 sent.raw_token) db ≡ some sent.offer)
        × (is_pending sent.offer.status ≡ true)
        × (sent.offer.show_seat_ids ≡ r.show_seat_ids)

  abbrev OfferMade : Db → InitialOffer × Db → Type 0
  OfferMade db (made, db') =
      KeepsOffers db db'
      × (find_offer_by_token_hash (crypto.sha256 made.raw_token) db' ≡ some made.offer)
      × (is_pending made.offer.status ≡ true)
      × (made.offer.show_seat_ids ≡ made.show_seat_ids)

  create_initial_offer-OfferMade :
      (mint : OfferMint) (c entry_id ttl attempts : ℕ) (db : Db) (made : InitialOffer) (db' : Db)
      → create_initial_offer crypto now mint booking_id c entry_id ttl attempts db ≡ ok (made, db')
      → OfferMade db (made, db')
  unfolding create_initial_offer mark_entry_offered generate_offer_token insert_waitlist_offer
      find_offer_by_token_hash first
  create_initial_offer-OfferMade mint c entry_id ttl attempts db made db' h =
      elim (Bool-cases (
        exists (λ o. o.id == mint.offer_id || o.token_hash == (generate_offer_token crypto mint).1)
          db.waitlist_offers)) [
            | inl used ↦ absurd (cc (rw (used, ◌>>=◌) at h))
            | inr unused ↦ subst (OfferMade db) (ok-injective (rw (unused, ◌>>=◌) at h)) (
              λ k o found. elim (Bool-cases ((generate_offer_token crypto mint).1 == k)) [
                | inr other ↦ rw (other, find_offer_by_token_hash) found
                | inl same ↦
                    absurd
                      (clash k o found (==→eq (generate_offer_token crypto mint).1 k same) unused)
              ],
              rw (==_refl (generate_offer_token crypto mint).1, find_offer_by_token_hash) refl,
              refl,
              refl,
            )
          ]
    where
      clash :
          (k : ℕ) (o : WaitlistOffer)
          → first (λ o. o.token_hash == k) db.waitlist_offers ≡ some o
          → (generate_offer_token crypto mint).1 ≡ k
          → exists
              (λ o. o.id == mint.offer_id || o.token_hash == (generate_offer_token crypto mint).1)
              db.waitlist_offers
            ≡ false
          → ⊥
      clash k o found same unused =
          let used =
            first-exists (λ o. o.token_hash == k)
              (λ o. o.id == mint.offer_id || o.token_hash == (generate_offer_token crypto mint).1)
              db.waitlist_offers o found
              (ground (
                arith,
                first-meets (λ o. o.token_hash == k) db.waitlist_offers o found,
                same,
                ==→eq o.token_hash k,
              )) in
          cc

  dispatch_category-IsSent :
      (locked : ℕ → Bool) (mint : ℕ → OfferMint) (show_id : ℕ) (show? : Option Show) (c : ℕ)
      (db : Db) (released : Released) (db' : Db)
      → dispatch_category crypto env now booking_id locked mint show_id show? c db
        ≡ ok (released, db')
      → KeepsOffers db db' × IsSent db' released
  unfolding dispatch_category release_booked_seats_for_category find_offer_by_token_hash
  dispatch_category-IsSent locked mint show_id show? c db released db' h =
      elim (Option-cases (claim_next_waiting_entry locked show_id c db)) [
        | inl nobody ↦
            subst (λ (r : Released × Db). KeepsOffers db r.1 × IsSent r.1 r.0)
              (ok-injective (rw (nobody, ◌>>=◌) at h)) (λ k o found. found, λ sent e. absurd (cc))
        | inr (entry, head) ↦
            let h₁ = rw (head, ◌>>=◌) at h in
            elim (Option-cases show?) [
              | inl missing ↦ absurd (cc (rw (missing, or_throw, ◌>>=◌) at h₁))
              | inr (show, found) ↦
                  let h₂ = rw (found, or_throw, ◌>>=◌) at h₁ in
                  elim (Result-cases (
                    create_initial_offer crypto now (mint c) booking_id c entry.id
                      show.offer_ttl_seconds env.waitlist_max_cascade_attempts db)) [
                        | inl (e, refused) ↦ absurd (cc (rw (refused, ◌>>=◌) at h₂))
                        | inr ((made, offered_db), offered) ↦
                            let (keeps, opens, pending, seats) =
                              create_initial_offer-OfferMade (mint c) c entry.id
                                show.offer_ttl_seconds env.waitlist_max_cascade_attempts db made
                                offered_db offered in
                            subst (λ (r : Released × Db). KeepsOffers db r.1 × IsSent r.1 r.0)
                              (ok-injective (rw (offered, ◌>>=◌) at h₂))
                              (keeps, λ sent e. rw (← some-injective e) (opens, pending, seats))
                      ]
            ]
      ]

  pub dispatch_categories-IsSent :
      (locked : ℕ → Bool) (mint : ℕ → OfferMint) (show_id : ℕ) (show? : Option Show) (cs : List ℕ)
      (db : Db) (released : List Released) (db' : Db)
      → dispatch_categories crypto env now booking_id locked mint show_id show? cs db
        ≡ ok (released, db')
      → KeepsOffers db db' × All (IsSent db') released
  unfolding dispatch_categories
  dispatch_categories-IsSent locked mint show_id show? [] db released db' h =
      subst (λ (r : List Released × Db). KeepsOffers db r.1 × All (IsSent r.1) r.0) (ok-injective h)
        (λ k o found. found, tt)
  dispatch_categories-IsSent locked mint show_id show? (c ∷ cs) db released db' h =
      elim (Result-cases
        (dispatch_category crypto env now booking_id locked mint show_id show? c db)) [
          | inl (e, refused) ↦ absurd (cc (rw (refused, ◌>>=◌) at h))
          | inr ((one, db₁), dispatched) ↦
              let h₁ = rw (dispatched, ◌>>=◌) at h in
              elim (Result-cases
                (dispatch_categories crypto env now booking_id locked mint show_id show? cs db₁)) [
                  | inl (e, refused) ↦ absurd (cc (rw (refused, ◌>>=◌) at h₁))
                  | inr ((rest, db₂), dispatched_rest) ↦
                      let (keeps, sent) =
                        dispatch_category-IsSent locked mint show_id show? c db one db₁
                          dispatched in
                      let (keeps', all) =
                        dispatch_categories-IsSent locked mint show_id show? cs db₁ rest db₂
                          dispatched_rest in
                      subst (λ (r : List Released × Db). KeepsOffers db r.1 × All (IsSent r.1) r.0)
                        (ok-injective (rw (dispatched_rest, ◌>>=◌) at h₁))
                        (
                          λ k o found. keeps' k o (keeps k o found),
                          (
                            λ s e.
                                let (opens, pending, seats) = sent s e in
                                (keeps' (crypto.sha256 s.raw_token) s.offer opens, pending, seats),
                            all,
                          ),
                        )
                ]
        ]

  -- Every offer that a cancellation reports is found in the database that it leaves.
  pub cancel_booking-IsSent :
      (locked : ℕ → Bool) (mint : ℕ → OfferMint) (db : Db) (c : Cancelled) (db' : Db)
      → cancel_booking crypto env now booking_id locked mint db ≡ (ok c, db')
      → All (IsSent db') c.released
  unfolding cancel_booking find_booked_seats_by_booking
  cancel_booking-IsSent locked mint db c db' h =
      elim (Result-cases (
        dispatch_categories crypto env now booking_id locked mint (seats_show_id seats)
          (show_of_seats seats after) (category_ids [] seats) after)) [
            | inl (e, refused) ↦ absurd (cc (rw (refused, ◌>>=◌) at ran))
            | inr ((released, released_db), done) ↦
                subst (λ (r : Cancelled × Db). All (IsSent r.1) r.0.released)
                  (ok-injective (rw (done, ◌>>=◌) at ran))
                  (dispatch_categories-IsSent locked mint _ _ _ _ _ _ done).1
          ]
    where
      seats : List ShowSeat
      seats = booked_seats crypto env now booking_id locked mint db c db'

      after : Db
      after = settled_db crypto env now booking_id locked mint db c db'

      ran : dispatched crypto env now booking_id locked mint db c db' after ≡ ok (c, db')
      ran = finish-ok db (dispatched crypto env now booking_id locked mint db c db' after) h
