-- ===== src/Storage/Schema/Boots.antt =====
-- NewPostgresStore of internal/storage/postgres.go with the statements that follow it: the tables
-- that a server finds when it starts, and what it makes of the jobs in them.
use distq_go.Common.{
  ℕ, ◌≡◌, refl, ap, ◌∙◌, subst, String, Bool, true, not, Option, none, some, [], ◌∷◌, ◌==◌, eq_iff,
  arith, All,
}
use distq_go.Proto.{Job}
use distq_go.Storage.Row.{Row, State, pending, processing, failed}
use distq_go.Storage.Statement.{find_job}
use distq_go.Storage.Reply.{Turn, ok}
use distq_go.Storage.Jobs.{new_row}
use distq_go.Storage.Step.{Call, creates, History, run}
use distq_go.Storage.Rows.{Unique}
use distq_go.Storage.Moves.{Move, stay, claimed, completed, failed, renewed, reaped}
use distq_go.Storage.Births.{Everywhere, Yields, run-Everywhere}
use distq_go.Storage.Schema.{
  JobTable, Tables, table_or_new, is_null, Answers, new_postgres_store, database,
}
use distq_go.Storage.Schema.Opened.{
  ready_db, database-ready, new_postgres_store-ready, migrated_row, find_job-migrate_table,
  migrate_table-Unique,
}

-- Whether a row that is not finished has the time that the next statement on it asks for: a pending
-- row the time at which it is due, a row in processing the end of its lease.
abbrev timed_in : State → Row → Bool
timed_in pending r = not (is_null r.next_run_at)
timed_in processing r = not (is_null r.lease_expires_at)
timed_in _ r = true

abbrev pub is_timed : Row → Bool
is_timed r = timed_in r.state r

-- Whether a call enqueues no job as 'processing'.
abbrev pub enqueues_waiting : Call → Bool
enqueues_waiting (creates j) = not (j.status == "processing")
enqueues_waiting _ = true

abbrev pub EnqueuesWaiting : Turn × Call → Type 0
EnqueuesWaiting (t, c) = enqueues_waiting c ≡ true

migrated_row-timed : (t : JobTable) (r : Row) → is_timed (migrated_row t r) ≡ true
migrated_row-timed t r = ground arith

Move-timed :
    {t : Turn} {c : Call} {r r' : Row} → Move t c r r' → is_timed r ≡ true → is_timed r' ≡ true
Move-timed (stay e) h = ground (arith, e, h)
Move-timed (claimed term worker lease _ v _ e) h = ground (arith, e, h)
Move-timed (completed worker c o e) h = ground (arith, e, h)
Move-timed (failed worker message base c o e) h = ground (arith, e, h)
Move-timed (renewed worker lease c o e) h = ground (arith, e, h)
Move-timed (reaped term c a e) h = ground (arith, e, h)

new_row-timed :
    (now : ℕ) (j : Job) → enqueues_waiting (creates j) ≡ true → is_timed (new_row now j) ≡ true
new_row-timed now j e = ground (arith, e, eq_iff j.status "processing")

timed_calls : (h : History) → All EnqueuesWaiting h → All (Yields (λ r. is_timed r ≡ true)) h
timed_calls [] w = tt
timed_calls ((t, c) ∷ h) w = (
  (
    (λ r r' timed m. Move-timed m timed),
    (λ j made. new_row-timed t.now j (subst (λ x. enqueues_waiting x ≡ true) made w.0)),
  ),
  timed_calls h w.1,
)

ready-Everywhere : (ts : Tables) → Everywhere (λ r. is_timed r ≡ true) (ready_db ts)
ready-Everywhere ts k r here = found (find_job k (table_or_new ts.jobs).rows) refl
  where
    found : (o : Option Row) → find_job k (table_or_new ts.jobs).rows ≡ o → is_timed r ≡ true
    found none e = absurd (ground (arith, here, e, find_job-migrate_table (table_or_new ts.jobs) k))
    found (some x) e =
        subst (λ y. is_timed y ≡ true)
          (ground (arith, here, e, find_job-migrate_table (table_or_new ts.jobs) k))
          (migrated_row-timed (table_or_new ts.jobs) x)

-- On the tables of a store that NewPostgresStore returned, whatever they were before, and after any
-- calls of any servers that enqueue no job as 'processing', every pending row has a time at which
-- it is due, and every row in processing has an end of its lease. (The ids of the table were
-- distinct.)
pub opened_run-timed :
    (a : Answers) (ts : Tables) (h : History) (k : String) {r : Row}
    → (new_postgres_store a ts).2 ≡ ok tt
    → Unique (table_or_new ts.jobs).rows
    → All EnqueuesWaiting h
    → find_job k (run h (ready_db ts)).jobs ≡ some r
    → (database (new_postgres_store a ts).0 ≡ some (ready_db ts)) × (is_timed r ≡ true)
opened_run-timed a ts h k {r} e u waiting here = (
  ap database (new_postgres_store-ready a ts e) ∙ database-ready ts,
  run-Everywhere (λ x. is_timed x ≡ true) h (ready_db ts) (timed_calls h waiting)
      (migrate_table-Unique (table_or_new ts.jobs) u) (ready-Everywhere ts) k r here,
)
