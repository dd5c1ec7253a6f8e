-- ===== src/Storage/Schema/Tests.antt =====
-- The theorems about NewPostgresStore at concrete tables.
use distq_go.Common.{◌≡◌, refl, true, none, some, [], ◌∷◌}
use distq_go.Storage.Row.{Row}
use distq_go.Storage.Statement.{find_job, update_where, find_where}
use distq_go.Storage.Reply.{answered, cut, ok}
use distq_go.Storage.Jobs.{new_row, dequeue_job, fail_job, pick}
use distq_go.Storage.Step.{step, run}
use distq_go.Storage.Schema.{
  JobTable, Tables, first_columns, all_columns, Answers, new_postgres_store, database,
  migrate_table,
}
use distq_go.Storage.Schema.Opened.{ready, ready_db, IsEnded}
use distq_go.Storage.Schema.Boots.{is_timed, opened_run-timed}
use distq_go.Storage.Schema.Restarts.{Keeps, new_postgres_store-Keeps}
use distq_go.Storage.Tests.{email, waiting_row, failures, n1_leads}

-- A pool that opens and three scripts that run.
abbrev pub no_trouble : Answers
no_trouble = record {
  sql_open = ok tt;
  schema = answered;
  migrations = answered;
  leadership = answered;
}

-- The job "a" in the table of the first version, with no later column.
abbrev pub first_version : Tables
first_version = record {
  jobs = some (record { columns = first_columns; rows = waiting_row ∷ [] });
  leadership = none;
}

-- The row of "a" after the attempts of `failures`.
last_found : (r : Row) × (find_job "a" (run failures (ready_db first_version)).jobs ≡ some r)
unfolding run step dequeue_job fail_job pick update_where find_where find_job migrate_table
last_found = (_, refl)

opened_run-timed_example :
    (database (new_postgres_store no_trouble first_version).0 ≡ some (ready_db first_version))
    × (is_timed last_found.0 ≡ true)
unfolding new_postgres_store find_job
opened_run-timed_example =
    opened_run-timed no_trouble first_version failures "a" {r = last_found.0} refl (refl, tt)
      (refl, (refl, (refl, (refl, (refl, tt))))) last_found.1

-- The second script is cut off.
abbrev trouble : Answers
trouble = record no_trouble { migrations = cut "connection reset" }

new_postgres_store-Keeps_example :
    Keeps "a" waiting_row (new_postgres_store trouble first_version).0
    × IsEnded (λ x. Unit {0}) (ready first_version) (new_postgres_store trouble first_version)
unfolding find_job
new_postgres_store-Keeps_example =
    new_postgres_store-Keeps trouble first_version
      (record { columns = first_columns; rows = waiting_row ∷ [] }) "a" waiting_row refl refl

-- A job that was enqueued as 'processing'.
abbrev stuck_row : Row
stuck_row = new_row 10 (record email { status = "processing" })

abbrev stuck_table : JobTable
stuck_table = record { columns = all_columns; rows = stuck_row ∷ [] }

abbrev stuck_tables : Tables
stuck_tables = record { jobs = some stuck_table; leadership = some (some n1_leads) }
