-- ===== src/Waitlist/Queue.antt =====
-- The order of the waitlist: which entry is claimed next, and the position that it is shown.
use mathlib.Core.Path.{subst}
use ticket_booking_system.Common.{
  ℕ, ◌≤◌, ◌≡◌, refl, inl, inr, Bool, true, false, ◌&&◌, Option, none, some, List, [], ◌∷◌, arith,
  leb, ◌==◌, if◌then◌else◌, Bool-cases, Option-cases, length, All, All-mono, leb→le, ==_refl, ==→eq,
  and_true, some-injective,
}
use ticket_booking_system.Sql.{Ties, select, first, exists}
use ticket_booking_system.Sql.Keys.{IsUnique}
use ticket_booking_system.Db.{Db, WaitlistEntry}
use ticket_booking_system.Waitlist.{
  is_queued, is_entry_of, oldest, earlier, claim_next_waiting_entry, count_before, is_ahead,
  find_queue_position,
}

-- An entry that waits for the category, and that no other open transaction has locked.
abbrev pub is_claimable_entry : (ℕ → Bool) → ℕ → ℕ → WaitlistEntry → Bool
is_claimable_entry locked show_id category_id e =
    is_queued show_id category_id e && (if locked e.id then false else true)

-- What the claim reports: none where no entry can be claimed, and otherwise one that can, before
-- which no other was enqueued.
abbrev pub IsHead : (WaitlistEntry → Bool) → List WaitlistEntry → Option WaitlistEntry → Type 0
IsHead p es none = All (λ x. p x ≡ false) es
IsHead p es (some e) = (p e ≡ true) × All (λ x. p x ≡ true → e.enqueued_at ≤ x.enqueued_at) es

-- One more entry in front.
IsHead-cons :
    (p : WaitlistEntry → Bool) (e : WaitlistEntry) (es : List WaitlistEntry)
    (o : Option WaitlistEntry)
    → IsHead p es o
    → IsHead p (e ∷ es) (if p e then some (earlier e o) else o)
IsHead-cons p e es none h = elim (Bool-cases (p e)) [
  | inl takes ↦ rw takes (
    takes,
    (
      λ _. omega arith,
      All-mono (λ x. p x ≡ false) (λ x. p x ≡ true → e.enqueued_at ≤ x.enqueued_at) es
          (λ x miss hit. absurd (cc)) h,
    ),
  )
  | inr skips ↦ rw skips (skips, h)
]
IsHead-cons p e es (some best) h = elim (Bool-cases (p e)) [
  | inl takes ↦ rw takes (elim (Bool-cases (leb e.enqueued_at best.enqueued_at)) [
    | inl sooner ↦
        subst (λ w. IsHead p (e ∷ es) (some w)) (rw sooner refl)
          (
            takes,
            (
              λ _. omega arith,
              All-mono (λ x. p x ≡ true → best.enqueued_at ≤ x.enqueued_at)
                  (λ x. p x ≡ true → e.enqueued_at ≤ x.enqueued_at) es
                  (λ x later hit.
                    omega (arith, later hit, leb→le e.enqueued_at best.enqueued_at sooner))
                  h.1,
            ),
          )
    | inr later ↦
        subst (λ w. IsHead p (e ∷ es) (some w)) (rw later refl) (h.0, (λ _. ground arith, h.1))
  ])
  | inr skips ↦ rw skips (h.0, (λ takes. absurd (cc), h.1))
]

oldest-IsHead : (p : WaitlistEntry → Bool) (es : List WaitlistEntry) → IsHead p es (oldest p es)
unfolding oldest
oldest-IsHead p [] = tt
oldest-IsHead p (e ∷ es) = IsHead-cons p e es (oldest p es) (oldest-IsHead p es)

oldest_meets :
    (p : WaitlistEntry → Bool) (es : List WaitlistEntry) (e : WaitlistEntry)
    → oldest p es ≡ some e
    → p e ≡ true
oldest_meets p es e h = (subst (IsHead p es) h (oldest-IsHead p es)).0

-- The claim takes the head of the queue: an entry that waits for the category and is not locked,
-- before which no other such entry was enqueued; and none only where there is no such entry.
pub claim_next_waiting_entry-IsHead :
    (locked : ℕ → Bool) (show_id category_id : ℕ) (db : Db)
    → IsHead
        (is_claimable_entry locked show_id category_id)
        db.waitlist_entries
        (claim_next_waiting_entry locked show_id category_id db)
unfolding claim_next_waiting_entry
claim_next_waiting_entry-IsHead locked show_id category_id db =
    oldest-IsHead (is_claimable_entry locked show_id category_id) db.waitlist_entries

-- UNIQUE (show_id, category_id, user_id)
abbrev pub same_member : WaitlistEntry → WaitlistEntry → Bool
same_member a b = is_entry_of a.show_id a.category_id a.user_id b

-- What a SELECT finds of a unique member is none of the rows it was compared with.
first-select_other :
    (p q : WaitlistEntry → Bool) (a : WaitlistEntry) (es : List WaitlistEntry) (e : WaitlistEntry)
    → exists (same_member a) es ≡ false
    → first q (select p es) ≡ some e
    → same_member a e ≡ false
unfolding exists first select
first-select_other p q a [] e u h = absurd (cc)
first-select_other p q a (x ∷ es) e u h = elim (Bool-cases (p x)) [
  | inr skips ↦ first-select_other p q a es e (ground arith) (rw skips at h)
  | inl takes ↦ elim (Bool-cases (q x)) [
    | inl here ↦ ground (arith, rw (takes, here) at h)
    | inr past ↦ first-select_other p q a es e (ground arith) (rw past at rw takes at h)
  ]
]

-- No other entry that meets the test was enqueued at the same instant.
abbrev pub IsAlone : (WaitlistEntry → Bool) → WaitlistEntry → WaitlistEntry → Type 0
IsAlone p e x = p x ≡ true → x.enqueued_at ≡ e.enqueued_at → x.id ≡ e.id

not_ahead :
    (ties : Ties) (e x : WaitlistEntry)
    → e.enqueued_at ≤ x.enqueued_at
    → (x.enqueued_at ≡ e.enqueued_at → x.id ≡ e.id)
    → is_ahead ties e x ≡ false
not_ahead ties e x le alone = elim (Bool-cases (x.enqueued_at == e.enqueued_at)) [
  | inr apart ↦ ground (arith, le, apart)
  | inl tied ↦ ground (arith, le, alone (==→eq x.enqueued_at e.enqueued_at tied), ==_refl e.id)
]

count_before-head :
    (ties : Ties) (p : WaitlistEntry → Bool) (e : WaitlistEntry) (es : List WaitlistEntry)
    → All (λ x. p x ≡ true → e.enqueued_at ≤ x.enqueued_at) es
    → All (IsAlone p e) es
    → count_before ties e (select p es) ≡ 0
unfolding count_before select
count_before-head ties p e [] h alone = refl
count_before-head ties p e (x ∷ es) h alone = elim (Bool-cases (p x)) [
  | inl takes ↦ rw takes (
      rw (not_ahead ties e x (h.0 takes) (alone.0 takes))
        (rw (count_before-head ties p e es h.1 alone.1) refl))
  | inr skips ↦ rw skips (count_before-head ties p e es h.1 alone.1)
]

-- Among the selected rows the one claimed is found by its user.
oldest-first :
    (p : WaitlistEntry → Bool) (es : List WaitlistEntry) (e : WaitlistEntry)
    → ((x y : WaitlistEntry)
        → p x ≡ true
        → p y ≡ true
        → (x.user_id == y.user_id) ≡ true
        → same_member x y ≡ true)
    → IsUnique same_member es
    → oldest p es ≡ some e
    → first (λ x. x.user_id == e.user_id) (select p es) ≡ some e
unfolding oldest first select
oldest-first p [] e agree u h = absurd (cc)
oldest-first p (x ∷ es) e agree u h = elim (Bool-cases (p x)) [
  | inr skips ↦ rw skips (oldest-first p es e agree u.1 (rw skips at h))
  | inl takes ↦ elim (Option-cases (oldest p es)) [
    | inl none_left ↦
        let same : x ≡ e = some-injective (rw none_left at rw takes at h) in
        rw (takes, same, ==_refl e.user_id)
    | inr (best, others) ↦ elim (Bool-cases (leb x.enqueued_at best.enqueued_at)) [
      | inl sooner ↦
          let same : x ≡ e = some-injective (rw sooner at rw others at rw takes at h) in
          rw (takes, same, ==_refl e.user_id)
      | inr later ↦
          let same : best ≡ e = some-injective (rw later at rw others at rw takes at h) in
          let found = oldest-first p es e agree u.1 (rw same at others) in
          rw takes (elim (Bool-cases (x.user_id == e.user_id)) [
            | inl one_user ↦ absurd (
                cc (
                  first-select_other p (λ x. x.user_id == e.user_id) x es e u.0 found,
                  agree x e takes (oldest_meets p es e (rw same at others)) one_user,
                ))
            | inr two_users ↦ rw two_users found
          ])
    ]
  ]
]

-- With every entry unlocked, the claim is by the test of the queue alone.
claimable-queued :
    (show_id category_id : ℕ)
    → is_claimable_entry (λ i. false) show_id category_id ≡ is_queued show_id category_id
claimable-queued show_id category_id = λ i. λ e. and_true (is_queued show_id category_id e) i

-- Where no entry is locked, a user has at most one entry for a category, and no other entry that
-- waits for it was enqueued at the instant of the one that is claimed next: the user of the latter is
-- shown position 1 in the queue, out of all that wait for the category.
pub claim-find_queue_position :
    (ties : Ties) (show_id category_id : ℕ) (db : Db) (e : WaitlistEntry)
    → IsUnique same_member db.waitlist_entries
    → All (IsAlone (is_queued show_id category_id) e) db.waitlist_entries
    → claim_next_waiting_entry (λ i. false) show_id category_id db ≡ some e
    → find_queue_position ties show_id category_id e.user_id db
      ≡ some (record {
        position = 1;
        total = length (select (is_queued show_id category_id) db.waitlist_entries);
      })
unfolding claim_next_waiting_entry find_queue_position
claim-find_queue_position ties show_id category_id db e unique alone h =
    let claimed =
      subst (λ p. oldest p db.waitlist_entries ≡ some e) (claimable-queued show_id category_id) h in
    let found =
      oldest-first (is_queued show_id category_id) db.waitlist_entries e (λ x y p q r. ground arith)
        unique claimed in
    let ahead =
      count_before-head ties (is_queued show_id category_id) e db.waitlist_entries
        (subst (IsHead (is_queued show_id category_id) db.waitlist_entries) claimed
          (oldest-IsHead (is_queued show_id category_id) db.waitlist_entries)).1
        alone in
    rw (found, find_queue_position) (rw (ahead, find_queue_position) refl)
