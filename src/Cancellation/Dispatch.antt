-- ===== src/Cancellation/Dispatch.antt =====
-- The dispatch of the freed seats of a cancelled booking: each category goes to the public or to an
-- offer, and no other seat changes.
use mathlib.Core.Path.{subst}
use ticket_booking_system.Common.{
  ℕ, ◌+◌, ◌*◌, none, some, All, All-mono, ==_refl, ◌≡◌, refl, sym, ap, ◌∙◌, ◌⊎◌, inl, inr, Bool,
  true, false, ◌&&◌, ◌||◌, Option, List, [], ◌∷◌, map, arith, ◌==◌, Bool-cases, Option-cases,
  contains, All-unit,
}
use ticket_booking_system.Errors.{Error, ok, err, ok-injective, Result-cases, sql, unique_violation}
use ticket_booking_system.Sql.{select, update_where, exists}
use ticket_booking_system.Sql.Laws.{Rows, Rows-update_where, Rows-trans, Rows-refl}
use ticket_booking_system.Sql.Keys.{All-contains-select}
use ticket_booking_system.SeatStates.{available, offer_reserved}
use ticket_booking_system.Db.{Db, ShowSeat, Show, Env, WaitlistOffer}
use ticket_booking_system.Db.Tx.{◌>>=◌, or_throw}
use ticket_booking_system.Waitlist.{claim_next_waiting_entry, mark_entry_offered}
use ticket_booking_system.Offers.{
  is_pending, Crypto, OfferMint, InitialOffer, is_booked_in, reserved_row, insert_waitlist_offer,
  create_initial_offer, reserved_until_seconds, new_offer, generate_offer_token,
}
use ticket_booking_system.Cancellation.{
  Released, is_booked_under, released_row, dispatch_category, dispatch_categories,
}

-- An offer that is pending, has the seat, and expires when the time to live has passed.
abbrev pub covers : ℕ → ℕ → ℕ → WaitlistOffer → Bool
covers now ttl seat_id o =
    contains o.show_seat_ids seat_id && is_pending o.status && o.expires_at == now + ttl * 1000000

-- A freed seat is back with the public, or reserved under a pending offer that has it, until that
-- offer expires.
abbrev pub IsReleased : List WaitlistOffer → ℕ → ℕ → ShowSeat → ShowSeat → Type 0
IsReleased offers attempts now r t =
    (t ≡ record r {
      state = available;
      booking_id = none;
      version = r.version + 1;
      updated_at = now;
    })
    ⊎ ((ttl : ℕ) × (t ≡ record r {
      state = offer_reserved;
      booking_id = none;
      expires_at = some (now + ttl * 1000000);
      reserved_until = some (now + reserved_until_seconds ttl attempts * 1000000);
      version = r.version + 1;
      updated_at = now;
    })
        × (exists (covers now ttl r.id) offers ≡ true))

abbrev pub is_booked_among : ℕ → List ℕ → ShowSeat → Bool
is_booked_among booking_id cats r = is_booked_under booking_id r && contains cats r.category_id

-- What the dispatch of the categories does to a row: a seat that the booking has in one of them is
-- released, any other row stays.
abbrev pub IsDispatched : List WaitlistOffer → ℕ → ℕ → ℕ → List ℕ → ShowSeat → ShowSeat → Type 0
IsDispatched offers attempts now booking_id cats r t =
    (is_booked_among booking_id cats r ≡ true → IsReleased offers attempts now r t)
    × (is_booked_among booking_id cats r ≡ false → t ≡ r)

-- What a dispatch that succeeds leaves: the seats, the offers that were there, and the tables of
-- bookings and payments.
pub record Dispatched (attempts now booking_id : ℕ) (cats : List ℕ) (db db' : Db) : Type 0 where
  pub seats :
      Rows
        (IsDispatched db'.waitlist_offers attempts now booking_id cats)
        db.show_seats
        db'.show_seats
  pub offers :
      (p : WaitlistOffer → Bool)
      → exists p db.waitlist_offers ≡ true
      → exists p db'.waitlist_offers ≡ true
  pub bookings : db'.bookings ≡ db.bookings
  pub payments : db'.payments ≡ db.payments

pub insert_waitlist_offer_cases :
    (now id entry_id : ℕ) (seat_ids : List ℕ) (token_hash attempt_no ttl : ℕ) (db : Db)
    → ((e : Error) × (insert_waitlist_offer now id entry_id seat_ids token_hash attempt_no ttl db
          ≡ err e))
      ⊎ (insert_waitlist_offer now id entry_id seat_ids token_hash attempt_no ttl db
          ≡ ok (
            new_offer now id entry_id seat_ids token_hash attempt_no ttl,
            record db {
              waitlist_offers =
                  new_offer now id entry_id seat_ids token_hash attempt_no ttl ∷ db.waitlist_offers;
            },
          ))
unfolding insert_waitlist_offer
insert_waitlist_offer_cases now id entry_id seat_ids token_hash attempt_no ttl db =
    elim (Bool-cases (exists (λ o. o.id == id || o.token_hash == token_hash) db.waitlist_offers)) [
      | inl used ↦ inl (sql unique_violation, rw used)
      | inr fresh ↦ inr (rw fresh refl)
    ]

module _ (now booking_id : ℕ) where
  -- One category, moved by one UPDATE.
  update_where-IsDispatched :
      (offers : List WaitlistOffer) (attempts c : ℕ) (f : ShowSeat → ShowSeat)
      (rows : List ShowSeat)
      → All
          (λ (r : ShowSeat).
            is_booked_in booking_id c r ≡ true → IsReleased offers attempts now r (f r))
          rows
      → Rows
          (IsDispatched offers attempts now booking_id (c ∷ []))
          rows
          (update_where (is_booked_in booking_id c) f rows)
  update_where-IsDispatched offers attempts c f rows released =
      Rows-update_where
        (λ r. is_booked_in booking_id c r ≡ true → IsReleased offers attempts now r (f r))
        (IsDispatched offers attempts now booking_id (c ∷ [])) (is_booked_in booking_id c) f rows
        (λ r p e. (λ _. p e, λ no. absurd (ground arith)))
        (λ r _ e. (λ hit. absurd (ground arith), λ _. refl)) released

  -- The seats that an offer reserves are covered by it.
  offer_covers :
      (id entry_id token_hash ttl attempts c : ℕ) (rows : List ShowSeat)
      (offers : List WaitlistOffer)
      → All
          (λ (r : ShowSeat).
            is_booked_in booking_id c r ≡ true
            → IsReleased
                (new_offer now id entry_id
                    (map (λ (s : ShowSeat). s.id) (select (is_booked_in booking_id c) rows))
                    token_hash
                    1
                    ttl
                  ∷ offers)
                attempts
                now
                r
                (reserved_row now ttl (reserved_until_seconds ttl attempts) r))
          rows
  unfolding exists
  offer_covers id entry_id token_hash ttl attempts c rows offers =
      All-mono
        (λ r.
          is_booked_in booking_id c r ≡ true
          → contains (map (λ (s : ShowSeat). s.id) (select (is_booked_in booking_id c) rows)) r.id
            ≡ true)
        _ rows (λ r there hit. inr (ttl, refl, rw (there hit, ==_refl (now + ttl * 1000000)) refl))
        (All-contains-select (λ (r : ShowSeat). r.id) (is_booked_in booking_id c) rows
          (map (λ (s : ShowSeat). s.id) (select (is_booked_in booking_id c) rows)) (λ a m. m))

  module _ (crypto : Crypto) (env : Env) where
    create_initial_offer-Dispatched :
        (mint : OfferMint) (c entry_id ttl attempts : ℕ) (db : Db) (made : InitialOffer) (db' : Db)
        → create_initial_offer crypto now mint booking_id c entry_id ttl attempts db
          ≡ ok (made, db')
        → Dispatched attempts now booking_id (c ∷ []) db db'
    unfolding create_initial_offer mark_entry_offered exists
    create_initial_offer-Dispatched mint c entry_id ttl attempts db made db' h =
        elim (insert_waitlist_offer_cases now mint.offer_id entry_id
          (map (λ (s : ShowSeat). s.id) (select (is_booked_in booking_id c) db.show_seats))
          (generate_offer_token crypto mint).1 1 ttl
          (record db {
            show_seats =
                update_where (is_booked_in booking_id c)
                  (reserved_row now ttl (reserved_until_seconds ttl attempts)) db.show_seats;
          })) [
            | inl (e, refused) ↦ absurd (cc (rw (refused, ◌>>=◌) at h))
            | inr inserted ↦
                let state = sym (ap (λ r. r.1) (ok-injective (rw (inserted, ◌>>=◌) at h))) in
                rw state (record {
                  seats =
                      update_where-IsDispatched
                        (new_offer now mint.offer_id entry_id
                            (map (λ (s : ShowSeat). s.id)
                              (select (is_booked_in booking_id c) db.show_seats))
                            (generate_offer_token crypto mint).1 1 ttl
                          ∷ db.waitlist_offers)
                        attempts c (reserved_row now ttl (reserved_until_seconds ttl attempts))
                        db.show_seats
                        (offer_covers mint.offer_id entry_id (generate_offer_token crypto mint).1
                          ttl attempts c db.show_seats db.waitlist_offers);
                  offers = λ p h. ground (arith, h);
                  bookings = refl;
                  payments = refl;
                })
          ]

    dispatch_category-Dispatched :
        (locked : ℕ → Bool) (mint : ℕ → OfferMint) (show_id : ℕ) (show? : Option Show) (c : ℕ)
        (db : Db) (released : Released) (db' : Db)
        → dispatch_category crypto env now booking_id locked mint show_id show? c db
          ≡ ok (released, db')
        → Dispatched env.waitlist_max_cascade_attempts now booking_id (c ∷ []) db db'
    unfolding dispatch_category
    dispatch_category-Dispatched locked mint show_id show? c db released db' h =
        elim (Option-cases (claim_next_waiting_entry locked show_id c db)) [
          | inl nobody ↦
              let state = sym (ap (λ r. r.1) (ok-injective (rw (nobody, ◌>>=◌) at h))) in
              rw state (record {
                seats =
                    update_where-IsDispatched db.waitlist_offers env.waitlist_max_cascade_attempts c
                      (released_row now) db.show_seats
                      (All-mono (λ r. Unit {0}) _ db.show_seats (λ r _ _. inl refl)
                        (All-unit db.show_seats));
                offers = λ p h. h;
                bookings = refl;
                payments = refl;
              })
          | inr (entry, head) ↦
              let h₁ = rw (head, ◌>>=◌) at h in
              elim (Option-cases show?) [
                | inl missing ↦ absurd (cc (rw (missing, or_throw, ◌>>=◌) at h₁))
                | inr (show, found) ↦
                    let h₂ = rw (found, or_throw, ◌>>=◌) at h₁ in
                    elim (Result-cases (
                      create_initial_offer crypto now (mint c) booking_id c entry.id
                        show.offer_ttl_seconds env.waitlist_max_cascade_attempts db)) [
                          | inl (e, refused) ↦ absurd (cc (rw (refused, ◌>>=◌) at h₂))
                          | inr ((made, offered_db), offered) ↦
                              let state =
                                ap (λ r. r.1) (ok-injective (rw (offered, ◌>>=◌) at h₂)) in
                              subst
                                (Dispatched env.waitlist_max_cascade_attempts now booking_id
                                  (c ∷ []) db)
                                state
                                (create_initial_offer-Dispatched (mint c) c entry.id
                                  show.offer_ttl_seconds env.waitlist_max_cascade_attempts db made
                                  offered_db offered)
                        ]
              ]
        ]

    -- A released seat is no longer the booking's, so no later category moves it.
    IsReleased-stays :
        (offers offers' : List WaitlistOffer) (cs : List ℕ) (r s t : ShowSeat)
        → ((p : WaitlistOffer → Bool) → exists p offers ≡ true → exists p offers' ≡ true)
        → IsReleased offers env.waitlist_max_cascade_attempts now r s
        → IsDispatched offers' env.waitlist_max_cascade_attempts now booking_id cs s t
        → IsReleased offers' env.waitlist_max_cascade_attempts now r t
    IsReleased-stays offers offers' cs r s t kept (inl free) k = inl (k.1 (rw free refl) ∙ free)
    IsReleased-stays offers offers' cs r s t kept (inr (ttl, reserved, offered)) k =
        inr (ttl, k.1 (rw reserved refl) ∙ reserved, kept (covers now ttl r.id) offered)

    -- One category after another.
    IsDispatched-trans :
        (offers offers' : List WaitlistOffer)
        → ((p : WaitlistOffer → Bool) → exists p offers ≡ true → exists p offers' ≡ true)
        → (c : ℕ) (cs : List ℕ) (r s t : ShowSeat)
        → IsDispatched offers env.waitlist_max_cascade_attempts now booking_id (c ∷ []) r s
        → IsDispatched offers' env.waitlist_max_cascade_attempts now booking_id cs s t
        → IsDispatched offers' env.waitlist_max_cascade_attempts now booking_id (c ∷ cs) r t
    IsDispatched-trans offers offers' kept c cs r s t h k =
        elim (Bool-cases (is_booked_among booking_id (c ∷ []) r)) [
          | inl moved ↦ (
            λ _. IsReleased-stays offers offers' cs r s t kept (h.0 moved) k,
            λ no. absurd (ground arith),
          )
          | inr stays ↦
              let k' =
                subst
                  (λ s.
                    IsDispatched offers' env.waitlist_max_cascade_attempts now booking_id cs s t)
                  (h.1 stays) k in
              (λ hit. k'.0 (ground arith), λ no. k'.1 (ground arith))
        ]

    pub dispatch_categories-Dispatched :
        (locked : ℕ → Bool) (mint : ℕ → OfferMint) (show_id : ℕ) (show? : Option Show) (cs : List ℕ)
        (db : Db) (released : List Released) (db' : Db)
        → dispatch_categories crypto env now booking_id locked mint show_id show? cs db
          ≡ ok (released, db')
        → Dispatched env.waitlist_max_cascade_attempts now booking_id cs db db'
    unfolding dispatch_categories
    dispatch_categories-Dispatched locked mint show_id show? [] db released db' h =
        subst (Dispatched env.waitlist_max_cascade_attempts now booking_id [] db)
          (ap (λ r. r.1) (ok-injective h))
          (record {
            seats =
                Rows-refl
                  (IsDispatched db.waitlist_offers env.waitlist_max_cascade_attempts now booking_id
                    [])
                  db.show_seats (λ r. (λ hit. absurd (ground arith), λ _. refl));
            offers = λ p h. h;
            bookings = refl;
            payments = refl;
          })
    dispatch_categories-Dispatched locked mint show_id show? (c ∷ cs) db released db' h =
        elim (Result-cases
          (dispatch_category crypto env now booking_id locked mint show_id show? c db)) [
            | inl (e, refused) ↦ absurd (cc (rw (refused, ◌>>=◌) at h))
            | inr ((one, db₁), dispatched) ↦
                let h₁ = rw (dispatched, ◌>>=◌) at h in
                elim (Result-cases (
                  dispatch_categories crypto env now booking_id locked mint show_id show? cs db₁)) [
                    | inl (e, refused) ↦ absurd (cc (rw (refused, ◌>>=◌) at h₁))
                    | inr ((rest, db₂), dispatched_rest) ↦
                        let state =
                          ap (λ r. r.1) (ok-injective (rw (dispatched_rest, ◌>>=◌) at h₁)) in
                        let k =
                          dispatch_category-Dispatched locked mint show_id show? c db one db₁
                            dispatched in
                        let k' =
                          dispatch_categories-Dispatched locked mint show_id show? cs db₁ rest db₂
                            dispatched_rest in
                        subst
                          (Dispatched env.waitlist_max_cascade_attempts now booking_id (c ∷ cs) db)
                          state
                          (record {
                            seats =
                                Rows-trans
                                  (IsDispatched db₁.waitlist_offers
                                    env.waitlist_max_cascade_attempts now booking_id (c ∷ []))
                                  (IsDispatched db₂.waitlist_offers
                                    env.waitlist_max_cascade_attempts now booking_id cs)
                                  (IsDispatched db₂.waitlist_offers
                                    env.waitlist_max_cascade_attempts now booking_id (c ∷ cs))
                                  db.show_seats db₁.show_seats db₂.show_seats
                                  (IsDispatched-trans db₁.waitlist_offers db₂.waitlist_offers
                                    k'.offers c cs)
                                  k.seats k'.seats;
                            offers = λ p h. k'.offers p (k.offers p h);
                            bookings = k'.bookings ∙ k.bookings;
                            payments = k'.payments ∙ k.payments;
                          })
                  ]
          ]
