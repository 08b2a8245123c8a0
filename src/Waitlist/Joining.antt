-- ===== src/Waitlist/Joining.antt =====
-- `joinWaitlist`: who gets into the queue, and the position that is reported.
use mathlib.Core.Path.{subst}
use ticket_booking_system.Common.{
  ℕ, suc, ◌+◌, ◌∙◌, leb, ==_refl, ◌&&◌, ◌≤◌, ◌<◌, ◌≡◌, refl, sym, ap, inl, inr, Bool, true, false,
  ◌||◌, some, List, [], ◌∷◌, arith, ltb, ◌==◌, Bool-cases, Option-cases, length, is_some,
}
use ticket_booking_system.Errors.{ok, Result-cases, ok-injective}
use ticket_booking_system.Sql.{Ties, select, first, exists}
use ticket_booking_system.Sql.Keys.{exists_mono}
use ticket_booking_system.Db.{Db, WaitlistEntry, WaitlistStatus, Env}
use ticket_booking_system.Seatmap.{find_show_by_id}
use ticket_booking_system.Waitlist.{
  is_ahead, is_queued, is_entry_of, count_before, find_queue_position, Joined, join_waitlist,
  insert_waitlist_entry, count_effective_available_seats, read_position,
}

-- The entries before another are those enqueued earlier, and some of those enqueued at its instant.
count_before-earlier :
    (ties : Ties) (p : WaitlistEntry → Bool) (e : WaitlistEntry) (es : List WaitlistEntry)
    → length (select (λ x. p x && ltb x.enqueued_at e.enqueued_at) es)
      ≤ count_before ties e (select p es)
unfolding count_before select
count_before-earlier ties p e [] = omega arith
count_before-earlier ties p e (x ∷ es) = elim (Bool-cases (p x)) [
  | inl takes ↦ rw takes (ground (arith, count_before-earlier ties p e es))
  | inr skips ↦ rw skips (count_before-earlier ties p e es)
]

count_before-until :
    (ties : Ties) (p : WaitlistEntry → Bool) (e : WaitlistEntry) (es : List WaitlistEntry)
    → count_before ties e (select p es)
      ≤ length (select (λ x. p x && leb x.enqueued_at e.enqueued_at) es)
unfolding count_before select
count_before-until ties p e [] = omega arith
count_before-until ties p e (x ∷ es) = elim (Bool-cases (p x)) [
  | inl takes ↦ rw takes (ground (arith, count_before-until ties p e es))
  | inr skips ↦ rw skips (count_before-until ties p e es)
]

not_before_itself : (ties : Ties) (e : WaitlistEntry) → is_ahead ties e e ≡ false
not_before_itself ties e = ground (arith, ==_refl e.id)

count_before-itself :
    (ties : Ties) (e : WaitlistEntry) (es : List WaitlistEntry)
    → count_before ties e (e ∷ es) ≡ count_before ties e es
unfolding count_before
count_before-itself ties e es = ground (arith, not_before_itself ties e)

-- The entry that a call adds.
abbrev pub added : (now id show_id category_id user_id quantity : ℕ) → WaitlistEntry
added now id show_id category_id user_id quantity = record {
  id = id;
  show_id = show_id;
  category_id = category_id;
  user_id = user_id;
  quantity = quantity;
  status = WaitlistStatus.waiting;
  enqueued_at = now;
}

-- It waits for its category.
select-added :
    (now id show_id category_id user_id quantity : ℕ) (es : List WaitlistEntry)
    → select
        (is_queued show_id category_id)
        (added now id show_id category_id user_id quantity ∷ es)
      ≡ added now id show_id category_id user_id quantity
        ∷ select (is_queued show_id category_id) es
unfolding select
select-added now id show_id category_id user_id quantity es =
    rw (==_refl show_id, ==_refl category_id) refl

-- The position of an entry that has just been added.
added_position :
    (ties : Ties) (now id show_id category_id user_id quantity : ℕ) (db : Db)
    → let entry = added now id show_id category_id user_id quantity in
      let queue = select (is_queued show_id category_id) db.waitlist_entries in
      find_queue_position ties show_id category_id user_id
        (record db { waitlist_entries = entry ∷ db.waitlist_entries })
      ≡ some (record { position = suc (count_before ties entry queue); total = suc (length queue) })
unfolding find_queue_position first count_before
added_position ties now id show_id category_id user_id quantity db =
    rw
      (
        select-added now id show_id category_id user_id quantity db.waitlist_entries,
        find_queue_position,
      )
      (rw (==_refl user_id, find_queue_position)
        (rw (select-added now id show_id category_id user_id quantity db.waitlist_entries) (
          rw
            (count_before-itself ties (added now id show_id category_id user_id quantity)
              (select (is_queued show_id category_id) db.waitlist_entries))
            refl)))

pub insert_waitlist_entry_cases :
    (now id show_id category_id user_id quantity : ℕ) (db : Db) (entry : WaitlistEntry) (db' : Db)
    → insert_waitlist_entry now id show_id category_id user_id quantity db ≡ ok (entry, db')
    → (exists (is_entry_of show_id category_id user_id) db.waitlist_entries ≡ false)
      × (exists (λ c. c.id == category_id) db.seat_categories ≡ true)
      × (db' ≡ record db { waitlist_entries = entry ∷ db.waitlist_entries })
      × (entry ≡ added now id show_id category_id user_id quantity)
unfolding insert_waitlist_entry
insert_waitlist_entry_cases now id show_id category_id user_id quantity db entry db' h =
    elim (Bool-cases
      (exists (λ e. e.id == id || is_entry_of show_id category_id user_id e) db.waitlist_entries)) [
        | inl used ↦ absurd (cc (rw (used, insert_waitlist_entry) at h))
        | inr fresh ↦ elim (Bool-cases (exists (λ c. c.id == category_id) db.seat_categories)) [
          | inr unknown ↦
              absurd
                (cc (rw (unknown, insert_waitlist_entry) at rw (fresh, insert_waitlist_entry) at h))
          | inl known ↦
              let done =
                ok-injective
                  (rw (known, insert_waitlist_entry) at rw (fresh, insert_waitlist_entry) at h) in
              let same = ap (λ r. r.0) done in
              (
                exists_mono (is_entry_of show_id category_id user_id)
                    (λ e. e.id == id || is_entry_of show_id category_id user_id e)
                    db.waitlist_entries (λ r p. ground arith) fresh,
                known,
                subst (λ e. db' ≡ record db { waitlist_entries = e ∷ db.waitlist_entries }) same
                    (sym (ap (λ r. r.1) done)),
                sym same,
              )
        ]
      ]

module _ (env : Env) (ties : Ties) (now fresh_id show_id category_id user_id quantity : ℕ)
    (db : Db) where
  -- What a call that joins has found, added and reported.
  abbrev pub IsJoined : Joined → Db → Type 0
  IsJoined j db' =
      (quantity ≤ env.max_seats_per_booking)
      × (is_some (find_show_by_id show_id db) ≡ true)
      × (count_effective_available_seats now show_id category_id db ≡ 0)
      × (exists (is_entry_of show_id category_id user_id) db.waitlist_entries ≡ false)
      × (exists (λ c. c.id == category_id) db.seat_categories ≡ true)
      × (db' ≡ record db { waitlist_entries = j.entry ∷ db.waitlist_entries })
      × (j.entry ≡ record {
        id = fresh_id;
        show_id = show_id;
        category_id = category_id;
        user_id = user_id;
        quantity = quantity;
        status = WaitlistStatus.waiting;
        enqueued_at = now;
      })
      × (j.total ≡ 1 + length (select (is_queued show_id category_id) db.waitlist_entries))
      × (length (
            select (λ x. is_queued show_id category_id x && ltb x.enqueued_at now)
              db.waitlist_entries)
          < j.position)
      × (j.position
          ≤ 1
            + length (
                select (λ x. is_queued show_id category_id x && leb x.enqueued_at now)
                  db.waitlist_entries))

  -- The entry is in; its position is read back.
  placed_joins :
      (entry : WaitlistEntry) (db₁ : Db) (j : Joined) (db' : Db)
      → ltb env.max_seats_per_booking quantity ≡ false
      → is_some (find_show_by_id show_id db) ≡ true
      → ltb 0 (count_effective_available_seats now show_id category_id db) ≡ false
      → insert_waitlist_entry now fresh_id show_id category_id user_id quantity db ≡ ok (entry, db₁)
      → read_position ties entry db₁ ≡ ok j
      → db₁ ≡ db'
      → IsJoined j db'
  placed_joins entry db₁ j db' within known sold_out inserted read state =
      let (alone, category, after, is) =
        insert_waitlist_entry_cases now fresh_id show_id category_id user_id quantity db entry db₁
          inserted in
      let entry' = added now fresh_id show_id category_id user_id quantity in
      let after' : db₁ ≡ record db { waitlist_entries = entry' ∷ db.waitlist_entries } =
        rw is at after in
      let read' = rw after' at (rw is at read) in
      let placed = added_position ties now fresh_id show_id category_id user_id quantity db in
      let joined = ok-injective (rw (placed, read_position) at read') in
      subst (λ j. IsJoined j db') joined
        (
          ground arith,
          known,
          ground arith,
          alone,
          category,
          sym state ∙ after',
          refl,
          omega arith,
          omega (
            arith,
            count_before-earlier ties (is_queued show_id category_id) entry' db.waitlist_entries,
          ),
          omega (
            arith,
            count_before-until ties (is_queued show_id category_id) entry' db.waitlist_entries,
          ),
        )

  -- Joining succeeds only for a known show and category, within the limit on seats, where the
  -- category has no effectively available seat and the user no entry; it then adds one entry that
  -- waits for the category from now on, for the user and the quantity asked for, and changes nothing
  -- else. The total that it reports is the number of entries that wait for the category with the new
  -- one; the position is behind every entry enqueued before, and behind none enqueued later.
  pub join_waitlist_joins :
      (j : Joined) (db' : Db)
      → join_waitlist env ties now fresh_id show_id category_id user_id quantity db ≡ (ok j, db')
      → IsJoined j db'
  unfolding join_waitlist
  join_waitlist_joins j db' h = elim (Bool-cases (ltb env.max_seats_per_booking quantity)) [
    | inl over ↦ absurd (cc (rw over at h))
    | inr within ↦ elim (Option-cases (find_show_by_id show_id db)) [
      | inl missing ↦ absurd (cc (rw missing at rw within at h))
      | inr (show, found) ↦
          let h₁ = rw found at rw within at h in
          elim (Bool-cases (ltb 0 (count_effective_available_seats now show_id category_id db))) [
            | inl left ↦ absurd (cc (rw left at h₁))
            | inr sold_out ↦
                let h₂ = rw sold_out at h₁ in
                elim (Result-cases
                  (insert_waitlist_entry now fresh_id show_id category_id user_id quantity db)) [
                    | inl (e, refused) ↦ absurd (cc (ap (λ r. r.0) (rw refused at h₂)))
                    | inr ((entry, db₁), inserted) ↦
                        let h₃ = rw inserted at h₂ in
                        placed_joins entry db₁ j db' within (rw found refl) sold_out inserted
                          (ap (λ r. r.0) h₃) (ap (λ r. r.1) h₃)
                  ]
          ]
    ]
  ]
