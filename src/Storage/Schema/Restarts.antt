-- ===== src/Storage/Schema/Restarts.antt =====
-- NewPostgresStore of internal/storage/postgres.go on tables that are there already: what a start
-- keeps, and what it does for a job that stands in processing under no lease.
use distq_go.Common.{
  ℕ, ◌≡◌, ◌<◌, refl, sym, ap, ◌∙◌, subst, inl, inr, String, none, some, List, [], ◌∷◌, arith,
}
use distq_go.Storage.Row.{Row}
use distq_go.Storage.Statement.{update_where, find_job}
use distq_go.Storage.Reply.{Turn, answered, ok}
use distq_go.Storage.Leader.{campaign, campaign_row}
use distq_go.Storage.Rows.{rewrite, map_row}
use distq_go.Storage.Schema.{
  JobTable, Tables, all_columns, table_or_new, create_jobs, add_columns, is_undue, due_at_once,
  is_unleased, leased_out, migrate_table, migrate, create_leadership, no_leader, Answers,
  new_postgres_store, database,
}
use distq_go.Storage.Schema.Opened.{
  ready, ready_db, database-ready, IsEnded, new_postgres_store-IsEnded, new_postgres_store-ready,
  migrated_row, find_job-migrate_table,
}

-- The migrations leave a row that they have been over as it is.
migrated_row_twice :
    (t : JobTable) (r : Row)
    → rewrite is_unleased leased_out
        (rewrite is_undue due_at_once (add_columns all_columns (migrated_row t r)))
      ≡ migrated_row t r
migrated_row_twice t r = ground arith

migrate_table_twice : (t : JobTable) → migrate_table (migrate_table t) ≡ migrate_table t
unfolding migrate_table update_where
migrate_table_twice t = ap (λ rows. record { columns = all_columns; rows = rows }) (again t.rows)
  where
    again :
        (rows : List Row)
        → (migrate_table (migrate_table (record { columns = t.columns; rows = rows }))).rows
          ≡ (migrate_table (record { columns = t.columns; rows = rows })).rows
    again [] = refl
    again (r ∷ rs) =
        ap
          (λ x.
            x ∷ (migrate_table (migrate_table (record { columns = t.columns; rows = rs }))).rows)
          (migrated_row_twice t r)
        ∙ ap (◌∷◌ (migrated_row t r)) (again rs)

ready_twice : (ts : Tables) → ready (ready ts) ≡ ready ts
unfolding create_leadership migrate create_jobs
ready_twice ts =
    ap (λ t. record { jobs = some t; leadership = (ready ts).leadership })
      (migrate_table_twice (table_or_new ts.jobs))

reopened : (a : Answers) (ts : Tables) → (new_postgres_store a (ready ts)).0 ≡ ready ts
unfolding create_leadership migrate create_jobs
reopened a ts =
    elim (new_postgres_store-IsEnded (λ x. x ≡ ready ts) a (ready ts) refl refl (ready_twice ts)
      (ready_twice ts)) [
        | inl (whole, pool, res) ↦ whole ∙ ready_twice ts
        | inr (pool, why, same) ↦ same
      ]

-- A server that starts on the tables that another has opened changes nothing, whatever becomes of
-- its own start.
reopened-same :
    (a a' : Answers) (ts : Tables)
    → (new_postgres_store a ts).2 ≡ ok tt
    → (new_postgres_store a' (new_postgres_store a ts).0).0 ≡ (new_postgres_store a ts).0
reopened-same a a' ts e =
    let ready = new_postgres_store-ready a ts e in
    subst (λ x. (new_postgres_store a' x).0 ≡ x) (sym ready) (reopened a' ts)

-- The row `r` stands in the table, as it was but for the columns that were added later.
abbrev pub Keeps : String → Row → Tables → Type 0
Keeps k r ts =
    (t : JobTable) × (r' : Row) × (ts.jobs ≡ some t)
    × (find_job k t.rows ≡ some r')
    × (r' ≡ record r {
      next_run_at = r'.next_run_at;
      worker_id = r'.worker_id;
      lease_expires_at = r'.lease_expires_at;
      claim_term = r'.claim_term;
    })

migrated-Keeps :
    (ts : Tables) (t : JobTable) (k : String) (r : Row)
    → ts.jobs ≡ some t
    → find_job k t.rows ≡ some r
    → Keeps k r (migrate (create_jobs ts))
unfolding migrate create_jobs
migrated-Keeps ts t k r there here = (
  migrate_table t,
  migrated_row t r,
  rw there refl,
  find_job-migrate_table t k ∙ ap (map_row (migrated_row t)) here,
  ground arith,
)

-- However a start ends, no job is lost, and the columns that every version of the table has are as
-- they were; and it ends with a store, or with an error and no pool that is left open.
pub new_postgres_store-Keeps :
    (a : Answers) (ts : Tables) (t : JobTable) (k : String) (r : Row)
    → ts.jobs ≡ some t
    → find_job k t.rows ≡ some r
    → Keeps k r (new_postgres_store a ts).0
      × IsEnded (λ x. Unit {0}) (ready ts) (new_postgres_store a ts)
unfolding create_leadership create_jobs
new_postgres_store-Keeps a ts t k r there here = (
  elim (new_postgres_store-IsEnded (Keeps k r) a ts (t, r, there, here, refl)
      (t, r, rw there refl, here, refl) m m) [
        | inl (whole, pool, res) ↦ subst (Keeps k r) (sym whole) m
        | inr (pool, why, kept) ↦ kept
      ],
  new_postgres_store-IsEnded (λ x. Unit {0}) a ts tt tt tt tt,
)
  where
    m : Keeps k r (migrate (create_jobs ts))
    m = migrated-Keeps ts t k r there here

-- The first Campaign on a new database wins the first term at once, at any time after the epoch.
first_campaign :
    (a : Answers) (ts : Tables) (t : Turn) (node : String) (lease : ℕ)
    → (new_postgres_store a ts).2 ≡ ok tt
    → ts.leadership ≡ none
    → t.link ≡ answered
    → 0 < t.now
    → (database (new_postgres_store a ts).0 ≡ some (ready_db ts))
      × (campaign t node lease (ready_db ts) ≡ (
        record (ready_db ts) { leader = campaign_row t.now node lease no_leader },
        ok (some 1),
      ))
unfolding campaign
first_campaign a ts t node lease e new up late =
    (ap database (new_postgres_store-ready a ts e) ∙ database-ready ts, rw up (ground (arith, new)))
