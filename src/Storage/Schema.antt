-- ===== src/Storage/Schema.antt =====
-- NewPostgresStore of internal/storage/postgres.go: what it makes of the tables that it finds. Each
-- of its three Exec calls runs a script without arguments, which PostgreSQL takes as one
-- transaction. The indexes are left out: they change no result.
pub mod Opened
pub mod Boots
pub mod Restarts
pub mod Tests
use distq_go.Common.{
  ℕ, String, Bool, true, false, Option, none, some, List, [], ◌&&◌, if◌then◌else◌,
}
use distq_go.Storage.Row.{Row, LeaderRow, Db, is_processing}
use distq_go.Storage.Statement.{update_where}
use distq_go.Storage.Reply.{Error, wrapped, Result, ok, err, Link, exec}

-- Which of the columns that were added later the table `jobs` has.
pub record Columns : Type 0 where
  pub next_run_at : Bool
  pub worker_id : Bool
  pub lease_expires_at : Bool
  pub claim_term : Bool

-- A row's entry under a column that the table lacks stands for nothing.
pub record JobTable : Type 0 where
  pub columns : Columns
  pub rows : List Row

-- The tables of a database, where they exist; `leadership` has one row at most, as its primary key
-- is checked to be TRUE.
pub record Tables : Type 0 where
  pub jobs : Option JobTable
  pub leadership : Option (Option LeaderRow)

abbrev pub first_columns : Columns
first_columns = record {
  next_run_at = false;
  worker_id = false;
  lease_expires_at = false;
  claim_term = false;
}

abbrev pub all_columns : Columns
all_columns = record {
  next_run_at = true;
  worker_id = true;
  lease_expires_at = true;
  claim_term = true;
}

-- The script `schema`: CREATE TABLE IF NOT EXISTS jobs.
abbrev pub table_or_new : Option JobTable → JobTable
table_or_new none = record { columns = first_columns; rows = [] }
table_or_new (some t) = t

unfoldable pub create_jobs : Tables → Tables
create_jobs ts = record ts { jobs = some (table_or_new ts.jobs) }

-- ADD COLUMN IF NOT EXISTS: a column that is new holds its default in every row.
abbrev pub add_columns : Columns → Row → Row
add_columns c r = record r {
  next_run_at = (if c.next_run_at then r.next_run_at else none);
  worker_id = (if c.worker_id then r.worker_id else "");
  lease_expires_at = (if c.lease_expires_at then r.lease_expires_at else none);
  claim_term = (if c.claim_term then r.claim_term else 0);
}

abbrev pub is_null : Option ℕ → Bool
is_null none = true
is_null (some t) = false

-- UPDATE jobs SET next_run_at = created_at WHERE next_run_at IS NULL
abbrev pub is_undue : Row → Bool
is_undue r = is_null r.next_run_at

abbrev pub due_at_once : Row → Row
due_at_once r = record r { next_run_at = some r.created_at }

-- UPDATE jobs SET lease_expires_at = created_at
-- WHERE state = 'processing' AND lease_expires_at IS NULL
abbrev pub is_unleased : Row → Bool
is_unleased r = is_processing r.state && is_null r.lease_expires_at

abbrev pub leased_out : Row → Row
leased_out r = record r { lease_expires_at = some r.created_at }

unfoldable pub migrate_table : JobTable → JobTable
migrate_table t = record {
  columns = all_columns;
  rows =
      update_where is_unleased leased_out (
        update_where is_undue due_at_once
          (update_where (λ r. true) (add_columns t.columns) t.rows));
}

-- The script `migrations`. There is a table by then: the script before has seen to it.
unfoldable pub migrate : Tables → Tables
migrate ts = elim ts.jobs [ none ↦ ts | some t ↦ record ts { jobs = some (migrate_table t) } ]

-- The column defaults of the table `leadership`; 'epoch' is 0.
abbrev pub no_leader : LeaderRow
no_leader = record { leader_id = ""; term = 0; lease_expires_at = 0 }

abbrev pub leader_or_new : Option (Option LeaderRow) → LeaderRow
leader_or_new (some (some l)) = l
leader_or_new _ = no_leader

-- The script `leadershipSchema`: CREATE TABLE IF NOT EXISTS, INSERT … ON CONFLICT DO NOTHING.
unfoldable pub create_leadership : Tables → Tables
create_leadership ts = record ts { leadership = some (some (leader_or_new ts.leadership)) }

-- What becomes of the connection pool.
pub data Pool : Type 0 where
  unopened opened closed : Pool

abbrev pub Opening : Type 0
Opening = Tables × Pool × Result (Unit {0})

-- What sql.Open answers, and the fate of each Exec.
pub record Answers : Type 0 where
  pub sql_open : Result (Unit {0})
  pub schema : Link
  pub migrations : Link
  pub leadership : Link

-- `if _, err := db.Exec(…); err != nil { db.Close(); return nil, … }`
abbrev pub or_close : Tables × Result (Unit {0}) → (Tables → Opening) → Opening
or_close (ts, err e) rest = (ts, closed, err e)
or_close (ts, ok u) rest = rest ts

unfoldable pub opened_store : Answers → Tables → Opening
opened_store a ts =
    or_close (exec a.schema "create postgres schema" ts (create_jobs ts)) (λ created.
      or_close (exec a.migrations "migrate postgres schema" created (migrate created)) (λ migrated.
        or_close (exec a.leadership "create leadership table" migrated (create_leadership migrated))
          (λ ready. (ready, opened, ok tt))))

unfoldable pub after_open : Result (Unit {0}) → Answers → Tables → Opening
unfolding opened_store
after_open (err e) a ts = (ts, unopened, err (wrapped "open postgres" e))
after_open (ok u) a ts = opened_store a ts

unfoldable pub new_postgres_store : Answers → Tables → Opening
unfolding after_open
new_postgres_store a ts = after_open a.sql_open a ts

-- The tables as the other statements of postgres.go read them, once all is there.
abbrev pub has_all_columns : Columns → Bool
has_all_columns c = c.next_run_at && (c.worker_id && (c.lease_expires_at && c.claim_term))

unfoldable pub database : Tables → Option Db
database ts = elim ts.jobs [
  | none ↦ none
  | some t ↦ elim ts.leadership [
    | none ↦ none
    | some row ↦ elim row [
      | none ↦ none
      | some l ↦
          if has_all_columns t.columns then some (record { jobs = t.rows; leader = l }) else none
    ]
  ]
]
