-- ===== src/Storage/Commute.antt =====
-- Complete, FailJob and HeartbeatJob of internal/storage/postgres.go for two different jobs, in
-- either order: the database is the same, and so is each reply.
use distq_go.Common.{ℕ, ◌≡◌, ◌≢◌, refl, sym, ap, ◌∙◌, String, Bool, List, [], ◌∷◌, eq_iff, arith}
use distq_go.Storage.Row.{Row, Db}
use distq_go.Storage.Statement.{update_where, count_where, find_where}
use distq_go.Storage.Reply.{Turn, Result, Link, answered, refused, cut, uncounted}
use distq_go.Storage.Rows.{rewrite}
use distq_go.Storage.Jobs.{
  complete, fail_job, heartbeat_job, is_owned_by, complete_row, fail_row, heartbeat_row,
}

-- A report of a worker on its job.
pub data Report : Type 0 where
  completion : Report
  failure : (message : String) (base : ℕ) → Report
  beat : (lease : ℕ) → Report

-- What the worker is told.
pub data Told : Type 0 where
  settled : Result (Unit {0}) → Told
  continues : Result Bool → Told

abbrev pub report : Turn → (id worker : String) → Report → Db → Db × Told
report t id worker completion db = let (db', res) = complete t id worker db in (db', settled res)
report t id worker (failure message base) db =
    let (db', res) = fail_job t id worker message base db in (db', continues res)
report t id worker (beat lease) db =
    let (db', res) = heartbeat_job t id worker lease db in (db', continues res)

-- What a report sets in the row that it is about.
abbrev set_by : ℕ → Report → Row → Row
set_by now completion = complete_row now
set_by now (failure message base) = fail_row now message base
set_by now (beat lease) = heartbeat_row now lease

module _ (k k' worker worker' : String) (f f' : Row → Row) (apart : k ≢ k')
    (keeps : (r : Row) → (f r).id ≡ r.id) (keeps' : (r : Row) → (f' r).id ≡ r.id) where
  rewrite_comm :
      (r : Row)
      → rewrite (is_owned_by k worker) f (rewrite (is_owned_by k' worker') f' r)
        ≡ rewrite (is_owned_by k' worker') f' (rewrite (is_owned_by k worker) f r)
  rewrite_comm r = ground (
    arith,
    keeps r,
    keeps' r,
    eq_iff r.id k,
    eq_iff r.id k',
    eq_iff (f r).id k',
    eq_iff (f' r).id k,
  )

  update_where_comm :
      (rows : List Row)
      → update_where (is_owned_by k worker) f (update_where (is_owned_by k' worker') f' rows)
        ≡ update_where (is_owned_by k' worker') f' (update_where (is_owned_by k worker) f rows)
  unfolding update_where
  update_where_comm [] = refl
  update_where_comm (r ∷ rs) =
      ap
        (λ x.
          x ∷ update_where (is_owned_by k worker) f (update_where (is_owned_by k' worker') f' rs))
        (rewrite_comm r)
      ∙ ap (◌∷◌ (rewrite (is_owned_by k' worker') f' (rewrite (is_owned_by k worker) f r)))
          (update_where_comm rs)

  count_where-update_where :
      (rows : List Row)
      → count_where (is_owned_by k worker) (update_where (is_owned_by k' worker') f' rows)
        ≡ count_where (is_owned_by k worker) rows
  unfolding update_where count_where
  count_where-update_where [] = refl
  count_where-update_where (r ∷ rs) =
      ground (arith, eq_iff r.id k, eq_iff r.id k', keeps' r, count_where-update_where rs)

  find_where-update_where :
      (rows : List Row)
      → find_where (is_owned_by k worker) (update_where (is_owned_by k' worker') f' rows)
        ≡ find_where (is_owned_by k worker) rows
  unfolding update_where find_where
  find_where-update_where [] = refl
  find_where-update_where (r ∷ rs) =
      ground (arith, eq_iff r.id k, eq_iff r.id k', keeps' r, find_where-update_where rs)

-- The database after a statement that may not run.
abbrev after_link {ℓ} : {S : Type ℓ} → Link → S → S → S
after_link (refused e) before after = before
after_link _ before after = after

report-db :
    (t : Turn) (id worker : String) (c : Report) (db : Db)
    → (report t id worker c db).0 ≡ record db {
      jobs =
          after_link t.link db.jobs (update_where (is_owned_by id worker) (set_by t.now c) db.jobs);
    }
unfolding complete fail_job heartbeat_job
report-db t id worker completion db = ground arith
report-db t id worker (failure message base) db = ground arith
report-db t id worker (beat lease) db = ground arith

-- What is told depends on the rows that the fence matches.
report-told :
    (t : Turn) (id worker : String) (c : Report) (db db' : Db)
    → count_where (is_owned_by id worker) db.jobs ≡ count_where (is_owned_by id worker) db'.jobs
    → find_where (is_owned_by id worker) db.jobs ≡ find_where (is_owned_by id worker) db'.jobs
    → (report t id worker c db).1 ≡ (report t id worker c db').1
unfolding complete fail_job heartbeat_job
report-told t id worker completion db db' counted found = ground (arith, counted, found)
report-told t id worker (failure message base) db db' counted found = ground (arith, counted, found)
report-told t id worker (beat lease) db db' counted found = ground (arith, counted, found)

set_by-id : (now : ℕ) (c : Report) (r : Row) → (set_by now c r).id ≡ r.id
set_by-id now completion r = refl
set_by-id now (failure message base) r = refl
set_by-id now (beat lease) r = refl

-- Two statements that may not run, in either order.
after_link_comm :
    {S : Type 0} (l l' : Link) (f f' : S → S) (s : S)
    → f (f' s) ≡ f' (f s)
    → after_link l (after_link l' s (f' s)) (f (after_link l' s (f' s)))
      ≡ after_link l' (after_link l s (f s)) (f' (after_link l s (f s)))
after_link_comm l l' f f' s e = ground (arith, e)

-- What a statement leaves as it is, if it runs.
after_link-same :
    {S A : Type 0} (g : S → A) (l : Link) (s s' : S) → g s' ≡ g s → g (after_link l s s') ≡ g s
after_link-same g answered s s' e = e
after_link-same g (uncounted m) s s' e = e
after_link-same g (cut m) s s' e = e
after_link-same g (refused m) s s' e = refl

module _ (t t' : Turn) (k k' worker worker' : String) (c c' : Report) (db : Db)
    (apart : k ≢ k') where
  -- What the fence of another job's report matches, and so what is told.
  told-same : (report t k worker c (report t' k' worker' c' db).0).1 ≡ (report t k worker c db).1
  told-same =
      report-told t k worker c (report t' k' worker' c' db).0 db
        (ap (λ d. count_where (is_owned_by k worker) d.jobs) (report-db t' k' worker' c' db)
          ∙ after_link-same (count_where (is_owned_by k worker)) t'.link db.jobs _ (
              count_where-update_where k k' worker worker' (set_by t.now c) (set_by t'.now c') apart
                (set_by-id t.now c) (set_by-id t'.now c') db.jobs))
        (ap (λ d. find_where (is_owned_by k worker) d.jobs) (report-db t' k' worker' c' db)
          ∙ after_link-same (find_where (is_owned_by k worker)) t'.link db.jobs _ (
              find_where-update_where k k' worker worker' (set_by t.now c) (set_by t'.now c') apart
                (set_by-id t.now c) (set_by-id t'.now c') db.jobs))

  db-same :
      (report t k worker c (report t' k' worker' c' db).0).0
      ≡ (report t' k' worker' c' (report t k worker c db).0).0
  db-same =
      report-db t k worker c (report t' k' worker' c' db).0
      ∙ ap after_first (report-db t' k' worker' c' db)
      ∙ ap (λ rows. record db { jobs = rows })
          (after_link_comm t.link t'.link (update_where (is_owned_by k worker) (set_by t.now c))
            (update_where (is_owned_by k' worker') (set_by t'.now c')) db.jobs
            (update_where_comm k k' worker worker' (set_by t.now c) (set_by t'.now c') apart
              (set_by-id t.now c) (set_by-id t'.now c') db.jobs))
      ∙ sym (ap after_second (report-db t k worker c db))
      ∙ sym (report-db t' k' worker' c' (report t k worker c db).0)
    where
      after_first : Db → Db
      after_first d = record d {
        jobs =
            after_link t.link d.jobs (update_where (is_owned_by k worker) (set_by t.now c) d.jobs);
      }

      after_second : Db → Db
      after_second d = record d {
        jobs =
            after_link t'.link d.jobs
              (update_where (is_owned_by k' worker') (set_by t'.now c') d.jobs);
      }

-- Reports on two different jobs commute, whatever the connection does to either: a completion, a
-- failure or a heartbeat of one worker and one of another, or of the same, leave the same database
-- in either order, and each worker is told the same as if it had reported first.
pub reports_commute :
    (t t' : Turn) (k k' worker worker' : String) (c c' : Report) (db : Db)
    → k ≢ k'
    → ((report t k worker c (report t' k' worker' c' db).0).0
        ≡ (report t' k' worker' c' (report t k worker c db).0).0)
      × ((report t k worker c (report t' k' worker' c' db).0).1 ≡ (report t k worker c db).1)
      × ((report t' k' worker' c' (report t k worker c db).0).1 ≡ (report t' k' worker' c' db).1)
reports_commute t t' k k' worker worker' c c' db apart = (
  db-same t t' k k' worker worker' c c' db apart,
  told-same t t' k k' worker worker' c c' db apart,
  told-same t' t k' k worker' worker c' c db (λ e. apart (sym e)),
)
