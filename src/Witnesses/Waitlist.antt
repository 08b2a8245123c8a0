-- ===== src/Witnesses/Waitlist.antt =====
-- The theorem about joining the waitlist of a category that is sold out.
use ticket_booking_system.Common.{ltb, refl, ◌∷◌}
use ticket_booking_system.Sql.{Ties}
use ticket_booking_system.Db.{Db, WaitlistStatus}
use ticket_booking_system.Waitlist.{Joined, join_waitlist}
use ticket_booking_system.Waitlist.Joining.{IsJoined, join_waitlist_joins}
use ticket_booking_system.Fixtures.{env}
use ticket_booking_system.Scenarios.{booked_db}

-- Ties go by the key.
abbrev tie : Ties
tie a b = ltb a b

abbrev joined : Joined
joined = record {
  entry = record {
    id = 60;
    show_id = 1;
    category_id = 8;
    user_id = 9;
    quantity = 2;
    status = WaitlistStatus.waiting;
    enqueued_at = 2500;
  };
  position = 1;
  total = 1;
}

abbrev joined_db : Db
joined_db = record booked_db { waitlist_entries = joined.entry ∷ booked_db.waitlist_entries }

join_waitlist_joins_example : IsJoined env tie 2500 60 1 8 9 2 booked_db joined joined_db
unfolding join_waitlist booked_db
join_waitlist_joins_example =
    join_waitlist_joins env tie 2500 60 1 8 9 2 booked_db joined joined_db refl
