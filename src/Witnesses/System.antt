-- ===== src/Witnesses/System.antt =====
-- The theorems about connections, migrations, mail and the routes of the application.
use ticket_booking_system.Common.{
  ℕ, get_elem?, true, none, some, [], ◌∷◌, ◌++◌, ◌≡◌, refl, inl, arith, All,
}
use ticket_booking_system.Errors.{Result, ok, err, internal}
use ticket_booking_system.Db.Tx.{Tx}
use ticket_booking_system.Db.Connections.{
  Server, Session, begin, set_timeout, commit, rollback, IsPostgres, Pool, transact_on_client,
}
use ticket_booking_system.Db.Connections.Atomic.{IsSafe, transact_on_client-IsSafe}
use ticket_booking_system.Migrations.{
  up, down, Runner, applied, reverted, nothing_to, mode_reset, migrate,
}
use ticket_booking_system.Migrations.Reset.{IsRunner, push_all, migrate_reset_ends}
use ticket_booking_system.Mail.{MailEnv, Message, Post, confirmed_subject}
use ticket_booking_system.Mail.Transport.{Sending, send_all, send_all-lost}
use ticket_booking_system.Application.{get, Row, row, lit, param, documented, get_seat_map}
use ticket_booking_system.Application.Routers.{app, api}
use ticket_booking_system.Application.Unique.{app_reaches, url, ending}
use ticket_booking_system.Fixtures.{fresh_db}

-- A server that never fails.
abbrev server : Server
server begin s = (ok tt, record s { working = some s.committed })
server set_timeout s = (ok tt, s)
server commit s = elim s.working [
  | none ↦ (ok tt, s)
  | some work ↦ (ok tt, record { committed = work; working = none })
]
server rollback s = (ok tt, record s { working = none })

server-IsPostgres : IsPostgres server
server-IsPostgres = record {
  begins = λ db. inl refl;
  times = λ s. inl refl;
  commits = λ db work. inl refl;
  rolls_back = λ s. inl refl;
}

-- A statement that empties a table.
abbrev clear : Tx ℕ
clear db = ok (7, record db { waitlist_entries = [] })

abbrev small_pool : Pool
small_pool = record { max = 10; out = 3 }

transact_on_client-IsSafe_example :
    (r : Result ℕ × (Pool × Session)) × ((transact_on_client server true clear small_pool
          (record { committed = fresh_db; working = none })
        ≡ some r)
      × IsSafe server server-IsPostgres clear fresh_db true small_pool r)
transact_on_client-IsSafe_example =
    transact_on_client-IsSafe server server-IsPostgres clear fresh_db true small_pool (ground arith)

-- A runner that runs what it is asked for.
abbrev runner : Runner
runner up count l = ok (l.pending, record { applied = push_all l.pending l.applied; pending = [] })
runner down count l = elim l.applied [
  | [] ↦ ok ([], record l { applied = [] })
  | m ∷ ms ↦ ok (m ∷ [], record { applied = ms; pending = m ∷ l.pending })
]

runner-IsRunner : IsRunner runner
runner-IsRunner = record { up_all = λ l. refl; down_one = λ m ms p. refl; down_none = λ p. refl }

migrate_reset_ends_example :
    migrate runner 3 mode_reset (record { applied = 2 ∷ 1 ∷ []; pending = 3 ∷ [] })
    ≡ some (record {
      status = 0;
      lines = reverted 2 ∷ reverted 1 ∷ nothing_to down ∷ applied 1 ∷ applied 2 ∷ applied 3 ∷ [];
      ledger = record { applied = 3 ∷ 2 ∷ 1 ∷ []; pending = [] };
    })
migrate_reset_ends_example =
    migrate_reset_ends runner runner-IsRunner 3 (record { applied = 2 ∷ 1 ∷ []; pending = 3 ∷ [] })
      (omega arith)

abbrev post_office : Post
post_office = record {
  create_transport = λ e. 1;
  test_transport = λ a. a;
  deliver = λ t from m. ok 5;
  get_test_message_url = λ info. some info;
  render_file = λ t. ok 6;
  to_buffer = λ token. ok 7;
}

abbrev no_host : MailEnv
no_host = record {
  smtp_host = none;
  smtp_port = none;
  smtp_user = none;
  smtp_pass = none;
  mail_from = none;
}

abbrev message : Message
message = record { to = 70; subject = confirmed_subject 40; html = 6; attachment = none }

abbrev offline : Sending
offline = record { account = err internal; message = message }

abbrev online : Sending
online = record { account = ok 3; message = message }

send_all-lost_example :
    All
      (λ r. r ≡ err internal)
      (send_all post_office no_host (offline ∷ online ∷ []) (record { transport_promise = none })).0
send_all-lost_example = send_all-lost post_office no_host offline (online ∷ []) internal refl refl

-- `GET /api/v1/shows/17/seatmap`, the twenty-second route.
abbrev seat_map_row : Row
seat_map_row = row get (api (lit "shows" ∷ param "id" ∷ lit "seatmap" ∷ [])) get_seat_map

seat_map_row_at : get_elem? app 21 ≡ some seat_map_row
unfolding app
seat_map_row_at = refl

app_reaches_example :
    documented (λ s. s) app get (url (λ s. s) seat_map_row.path ("17" ∷ []) ++ ending true)
    ≡ some (get_seat_map, "17" ∷ [])
app_reaches_example =
    app_reaches (λ s. s) refl (documented (λ s. s)) (λ rows m path. refl) (λ s. s) true 21
      seat_map_row ("17" ∷ []) seat_map_row_at (refl, (refl, (refl, (refl, tt)))) refl (refl, tt)
