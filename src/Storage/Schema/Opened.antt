-- ===== src/Storage/Schema/Opened.antt =====
-- NewPostgresStore of internal/storage/postgres.go: how it ends, and what it leaves in the tables.
use distq_go.Common.{
  ◌≡◌, ◌≢◌, refl, ap, ◌∙◌, inl, inr, ◌⊎◌, String, true, Option, none, some, arith,
}
use distq_go.Storage.Row.{Row, Db}
use distq_go.Storage.Statement.{find_job}
use distq_go.Storage.Reply.{Error, Result, ok, err, Link, answered, refused, cut, uncounted, exec}
use distq_go.Storage.Rows.{Unique, rewrite, map_row, find_job-update_where, update_where-Unique}
use distq_go.Storage.Schema.{
  JobTable, Tables, table_or_new, create_jobs, add_columns, is_undue, due_at_once, is_unleased,
  leased_out, migrate_table, migrate, leader_or_new, create_leadership, opened, Opening, Answers,
  or_close, opened_store, after_open, new_postgres_store, database,
}

-- The tables once the three scripts have run.
abbrev pub ready : Tables → Tables
ready ts = create_leadership (migrate (create_jobs ts))

-- The database that the other statements then find.
abbrev pub ready_db : Tables → Db
ready_db ts = record {
  jobs = (migrate_table (table_or_new ts.jobs)).rows;
  leader = leader_or_new ts.leadership;
}

pub database-ready : (ts : Tables) → database (ready ts) ≡ some (ready_db ts)
unfolding database create_leadership migrate create_jobs migrate_table
database-ready ts = refl

-- How a call ends: with the store, and the tables `done`; or with an error and no open pool, and
-- tables of which `P` holds.
abbrev pub IsEnded {ℓ} : (Tables → Type ℓ) → Tables → Opening → Type ℓ
IsEnded P done (ts, pool, res) =
    ((ts ≡ done) × (pool ≡ opened) × (res ≡ ok tt))
    ⊎ ((pool ≢ opened) × ((e : Error) × (res ≡ err e)) × P ts)

module _ {ℓ} (P : Tables → Type ℓ) (done : Tables) where
  -- One Exec, and what follows it.
  or_close-IsEnded :
      (l : Link) (prefix : String) (before after : Tables) (rest : Tables → Opening)
      → P before
      → P after
      → IsEnded P done (rest after)
      → IsEnded P done (or_close (exec l prefix before after) rest)
  or_close-IsEnded answered prefix before after rest p p' ends = ends
  or_close-IsEnded (uncounted e) prefix before after rest p p' ends = ends
  or_close-IsEnded (refused e) prefix before after rest p p' ends =
      inr ((λ same. ground (arith, same)), (_, refl), p)
  or_close-IsEnded (cut e) prefix before after rest p p' ends =
      inr ((λ same. ground (arith, same)), (_, refl), p')

-- However the call ends.
pub new_postgres_store-IsEnded {ℓ} :
    (P : Tables → Type ℓ) (a : Answers) (ts : Tables)
    → P ts
    → P (create_jobs ts)
    → P (migrate (create_jobs ts))
    → P (ready ts)
    → IsEnded P (ready ts) (new_postgres_store a ts)
unfolding new_postgres_store after_open opened_store
new_postgres_store-IsEnded P a ts p created migrated done = begun a.sql_open
  where
    begun : (r : Result (Unit {0})) → IsEnded P (ready ts) (after_open r a ts)
    begun (err e) = inr ((λ same. ground (arith, same)), (_, refl), p)
    begun (ok u) = or_close-IsEnded P (ready ts) a.schema _ ts _ _ p created (
        or_close-IsEnded P (ready ts) a.migrations _ _ _ _ created migrated (
          or_close-IsEnded P (ready ts) a.leadership _ _ (ready ts) _ migrated done
            (inl (refl, refl, refl))))

-- A call that returns a store.
pub new_postgres_store-ready :
    (a : Answers) (ts : Tables)
    → (new_postgres_store a ts).2 ≡ ok tt
    → (new_postgres_store a ts).0 ≡ ready ts
new_postgres_store-ready a ts e =
    elim (new_postgres_store-IsEnded (λ x. Unit {0}) a ts tt tt tt tt) [
      | inl (done, pool, res) ↦ done
      | inr (pool, (x, failed), p) ↦ ground (arith, e, failed)
    ]

-- The row that the migrations leave for a row.
abbrev pub migrated_row : JobTable → Row → Row
migrated_row t r =
    rewrite is_unleased leased_out (rewrite is_undue due_at_once (add_columns t.columns r))

pub find_job-migrate_table :
    (t : JobTable) (k : String)
    → find_job k (migrate_table t).rows ≡ map_row (migrated_row t) (find_job k t.rows)
unfolding migrate_table
find_job-migrate_table t k =
    find_job-update_where is_unleased leased_out (λ r. refl) k _
    ∙ ap (map_row (rewrite is_unleased leased_out)) (
        find_job-update_where is_undue due_at_once (λ r. refl) k _
        ∙ ap (map_row (rewrite is_undue due_at_once))
            (find_job-update_where (λ r. true) (add_columns t.columns) (λ r. refl) k t.rows))
    ∙ composed (find_job k t.rows)
  where
    composed :
        (o : Option Row)
        → map_row
            (rewrite is_unleased leased_out)
            (map_row (rewrite is_undue due_at_once) (map_row (add_columns t.columns) o))
          ≡ map_row (migrated_row t) o
    composed none = refl
    composed (some r) = refl

pub migrate_table-Unique : (t : JobTable) → Unique t.rows → Unique (migrate_table t).rows
unfolding migrate_table
migrate_table-Unique t u =
    update_where-Unique is_unleased leased_out (λ r. refl) _
      (update_where-Unique is_undue due_at_once (λ r. refl) _
        (update_where-Unique (λ r. true) (add_columns t.columns) (λ r. refl) t.rows u))
