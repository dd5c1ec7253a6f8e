-- ===== src/Storage/Reports.antt =====
-- The reports of a worker on a job, Complete, FailJob and HeartbeatJob: whom they are refused,
-- and what they do for the owner.
use distq_go.Common.{
  ℕ, suc, ◌-◌, ◌≡◌, ◌≢◌, refl, ◌⊎◌, inl, inr, String, true, false, none, some, ◌==◌, eq_iff, arith,
  Option-cases, if◌then◌else◌,
}
use distq_go.Storage.Row.{Row, Db, processing, is_processing, has_retries_left}
use distq_go.Storage.Statement.{update_where, count_where, find_where, find_job}
use distq_go.Storage.Reply.{Turn, answered, ok, err, lease_lost}
use distq_go.Storage.Jobs.{
  complete, fail_job, heartbeat_job, is_owned_by, complete_row, fail_row, heartbeat_row,
}
use distq_go.Storage.Rows.{
  Unique, find_job-update_where, find_job-update_where_ne, count_where-pos, count_where-absent,
  count_where-refused, update_where-absent, update_where-refused, find_where-find_job,
  find_where-refused, find_job-id,
}

-- No row under `id` is in processing under the worker's name: the id is unknown, or somebody
-- else's, or nobody's.
abbrev pub IsNotOwner : String → String → Db → Type 0
IsNotOwner id worker db =
    (r : Row)
    → find_job id db.jobs ≡ some r
    → (r.worker_id ≢ worker) ⊎ (is_processing r.state ≡ false)

asks : (id worker : String) (r : Row) → is_owned_by id worker r ≡ true → r.id ≡ id
asks id worker r h = ground (arith, eq_iff r.id id)

-- The fence matches no row for such a worker.
module _ (id worker : String) (db : Db) (u : Unique db.jobs) (n : IsNotOwner id worker db) where
  fence_counts_none : count_where (is_owned_by id worker) db.jobs ≡ 0
  fence_counts_none = elim (Option-cases (find_job id db.jobs)) [
    | inl absent ↦ count_where-absent (is_owned_by id worker) id (asks id worker) db.jobs u absent
    | inr (r, e) ↦
        count_where-refused (is_owned_by id worker) id (asks id worker) db.jobs {r = r} u e
          (ground (arith, n r e, eq_iff r.worker_id worker))
  ]

  fence_changes_none : (f : Row → Row) → update_where (is_owned_by id worker) f db.jobs ≡ db.jobs
  fence_changes_none f = elim (Option-cases (find_job id db.jobs)) [
    | inl absent ↦ update_where-absent (is_owned_by id worker) id (asks id worker) f db.jobs absent
    | inr (r, e) ↦
        update_where-refused (is_owned_by id worker) id (asks id worker) f db.jobs {r = r} u e
          (ground (arith, n r e, eq_iff r.worker_id worker))
  ]

  fence_finds_none : find_where (is_owned_by id worker) db.jobs ≡ none
  fence_finds_none =
      find_where-refused (is_owned_by id worker) id (asks id worker) db.jobs fence_counts_none

-- A worker that does not hold the job is told so and changes nothing: its completion and its
-- failure are refused with ErrLeaseLost, and its heartbeat is answered with false. (The ids of
-- the table are distinct, and the calls are answered.)
pub reports_refused :
    (t : Turn) (id worker message : String) (base lease : ℕ) (db : Db)
    → Unique db.jobs
    → IsNotOwner id worker db
    → t.link ≡ answered
    → (complete t id worker db ≡ (db, err lease_lost))
      × (fail_job t id worker message base db ≡ (db, err lease_lost))
      × (heartbeat_job t id worker lease db ≡ (db, ok false))
unfolding complete fail_job heartbeat_job
reports_refused t id worker message base lease db u n a = (
  rw (
    a,
    fence_counts_none id worker db u n,
    fence_changes_none id worker db u n (complete_row t.now),
  ),
  rw (
    a,
    fence_finds_none id worker db u n,
    fence_changes_none id worker db u n (fail_row t.now message base),
  ),
  rw (
    a,
    fence_counts_none id worker db u n,
    fence_changes_none id worker db u n (heartbeat_row t.now lease),
  ),
)

-- The row under `id` is now `r'`, and every other row is as it was.
abbrev pub OnlyChanged : String → Row → Db → Db → Type 0
OnlyChanged id r' before after =
    (find_job id after.jobs ≡ some r')
    × ((k : String) → find_job k after.jobs ≡ (if k == id then some r' else find_job k before.jobs))
    × (after.leader ≡ before.leader)

module _ (t : Turn) (id worker : String) (db : Db) {r : Row} (e : find_job id db.jobs ≡ some r)
    (o : r.worker_id ≡ worker) (p : r.state ≡ processing) (a : t.link ≡ answered) where
  owns : is_owned_by id worker r ≡ true
  owns = ground (arith, eq_iff r.id id, eq_iff r.worker_id worker, find_job-id id db.jobs e)

  fence_counts_one : (n : ℕ) × (count_where (is_owned_by id worker) db.jobs ≡ suc n)
  fence_counts_one =
      let some_row = count_where-pos (is_owned_by id worker) id db.jobs {r = r} e owns in
      (count_where (is_owned_by id worker) db.jobs - 1, omega arith)

  fence_changes_one :
      (f : Row → Row)
      → ((x : Row) → (f x).id ≡ x.id)
      → OnlyChanged id
          (f r)
          db
          (record db { jobs = update_where (is_owned_by id worker) f db.jobs })
  fence_changes_one f keeps = (
    ground (arith, owns, find_job-update_where (is_owned_by id worker) f keeps id db.jobs),
    (λ k. ground (
      arith,
      eq_iff k id,
      owns,
      find_job-update_where (is_owned_by id worker) f keeps id db.jobs,
      find_job-update_where_ne (is_owned_by id worker) id (asks id worker) f k db.jobs keeps,
    )),
    refl,
  )

  -- The worker that holds a job completes it: the job is done, its lease is gone, and no other row
  -- changes.
  pub complete-OnlyChanged :
      ((complete t id worker db).1 ≡ ok tt)
      × OnlyChanged id (complete_row t.now r) db (complete t id worker db).0
  unfolding complete
  complete-OnlyChanged =
      rw (a, fence_counts_one.1) (refl, fence_changes_one (complete_row t.now) (λ x. refl))

  -- The failure that the holder of a job reports, in a call that is answered, is recorded in one
  -- step: the job goes back to pending with its backoff exactly while it has retries left, the
  -- call says which, and no other row changes.
  pub fail_job-OnlyChanged :
      (message : String) (base : ℕ)
      → ((fail_job t id worker message base db).1 ≡ ok (has_retries_left r))
        × OnlyChanged id (fail_row t.now message base r) db (fail_job t id worker message base db).0
  unfolding fail_job
  fail_job-OnlyChanged message base =
      rw (a, find_where-find_job (is_owned_by id worker) id (asks id worker) db.jobs {r = r} e owns)
        (ground arith, fence_changes_one (fail_row t.now message base) (λ x. refl))

  -- The holder's heartbeat moves its lease to a full lease from now, and changes nothing else.
  pub heartbeat_job-OnlyChanged :
      (lease : ℕ)
      → ((heartbeat_job t id worker lease db).1 ≡ ok true)
        × OnlyChanged id (heartbeat_row t.now lease r) db (heartbeat_job t id worker lease db).0
  unfolding heartbeat_job
  heartbeat_job-OnlyChanged lease =
      rw (a, fence_counts_one.1)
        (ground arith, fence_changes_one (heartbeat_row t.now lease) (λ x. refl))
