-- ===== src/Storage/Jobs.antt =====
-- The statements on the table `jobs`: CreateJob, DequeueJob, Complete, FailJob, HeartbeatJob,
-- NextVisible and ReapExpiredLeases of internal/storage/postgres.go. Each takes the turn that
-- the environment chose, and returns the database as it leaves it with the call's result.
-- Durations and timestamps count nanoseconds, with no rounding and no upper end.
use distq_go.Common.{
  ℕ, zero, suc, ◌+◌, ◌*◌, ◌%◌, ◌^◌, String, Bool, not, ◌&&◌, Option, none, some, List, [], ◌∷◌,
  ◌==◌, if◌then◌else◌, length, select, get_elem?, max, min, ltb,
}
use distq_go.Common.Int.{ℤ, pos, sub_ℕ}
use distq_go.Proto.{Job}
use distq_go.Storage.Row.{
  Row, Db, pending, processing, done, state_of_text, text_of_state, is_pending, is_processing,
  retry_decision, done_at_decision, has_retries_left,
}
use distq_go.Storage.Statement.{
  at_or_before, is_before, update_where, count_where, find_where, find_job,
}
use distq_go.Storage.Reply.{
  lease_lost, driver, wrapped, Result, ok, err, Turn, Link, refused, cut, scan, exec, exec_counted,
}

-- `if maxRetries == 0 { maxRetries = 3 }`
abbrev pub max_retries_or_default : ℤ → ℤ
max_retries_or_default (pos zero) = pos 3
max_retries_or_default z = z

-- The row that CreateJob inserts: the columns that the INSERT does not name have their defaults.
abbrev pub new_row : ℕ → Job → Row
new_row now j = record {
  id = j.id;
  kind = j.kind;
  payload = j.payload;
  state = (if j.status == "" then pending else state_of_text j.status);
  retry_count = 0;
  max_retries = max_retries_or_default j.max_retries;
  last_error = some j.error;
  created_at = now;
  started_at = none;
  done_at = none;
  next_run_at = some now;
  worker_id = "";
  lease_expires_at = none;
  claim_term = 0;
}

-- What ExecContext reports of a second row under the same primary key, which is refused.
abbrev taken_error : Link → String
taken_error (refused e) = e
taken_error (cut e) = e
taken_error _ = "duplicate key"

insert_row : Turn → Row → Option Row → Db → Db × Result (Unit {0})
insert_row t r none db = exec t.link "create job" db (record db { jobs = r ∷ db.jobs })
insert_row t r (some _) db = (db, err (wrapped "create job" (driver (taken_error t.link))))

unfoldable pub create_job : Turn → Job → Db → Db × Result (Unit {0})
unfolding insert_row
create_job t j db = insert_row t (new_row t.now j) (find_job j.id db.jobs) db

-- WHERE state = 'pending' AND next_run_at <= CURRENT_TIMESTAMP
abbrev pub is_visible : ℕ → Row → Bool
is_visible now r = is_pending r.state && at_or_before r.next_run_at now

-- The subquery of DequeueJob: FOR UPDATE SKIP LOCKED LIMIT 1, with no ORDER BY, gives any one of
-- the visible rows that nobody has locked.
abbrev pub candidates : Turn → List Row → List Row
candidates t = select (λ r. is_visible t.now r && not (t.locked r.id))

unfoldable pub pick : Turn → List Row → Option Row
pick t rows = get_elem? (candidates t rows) (t.order % length (candidates t rows))

abbrev pub claim_row : ℕ → ℕ → String → ℕ → Row → Row
claim_row now term worker lease r = record r {
  state = processing;
  started_at = some now;
  worker_id = worker;
  claim_term = max r.claim_term term;
  lease_expires_at = some (now + lease);
}

abbrev text_or_empty : Option String → String
text_or_empty none = ""
text_or_empty (some s) = s

-- RETURNING id, type, payload, state, coalesce(last_error, ''), retry_count, max_retries
abbrev pub job_of_row : Row → Job
job_of_row r = record {
  id = r.id;
  kind = r.kind;
  payload = r.payload;
  status = text_of_state r.state;
  error = text_or_empty r.last_error;
  retry_count = r.retry_count;
  max_retries = r.max_retries;
}

abbrev claimed_job : Option Row → Result (Option Job)
claimed_job none = ok none
claimed_job (some r) = ok (some (job_of_row r))

claim : Turn → ℕ → String → ℕ → Option Row → Db → Db × Result (Option Job)
claim t term worker lease none db = scan t.link "dequeue job" db db none claimed_job
claim t term worker lease (some r) db =
    let set = claim_row t.now term worker lease in
    let rows = update_where (λ x. x.id == r.id) set db.jobs in
    scan t.link "dequeue job" db (record db { jobs = rows }) (some (set r)) claimed_job

unfoldable pub dequeue_job : Turn → ℕ → String → ℕ → Db → Db × Result (Option Job)
unfolding claim
dequeue_job t term worker lease db = claim t term worker lease (pick t db.jobs) db

-- WHERE id = $1 AND worker_id = $2 AND state = 'processing': the fence of the calls below.
abbrev pub is_owned_by : String → String → Row → Bool
is_owned_by id worker r = r.id == id && (r.worker_id == worker && is_processing r.state)

abbrev pub complete_row : ℕ → Row → Row
complete_row now r = record r {
  state = done;
  done_at = some now;
  worker_id = "";
  lease_expires_at = none;
}

abbrev affected_or_lost : ℕ → Result (Unit {0})
affected_or_lost zero = err lease_lost
affected_or_lost (suc n) = ok tt

unfoldable pub complete : Turn → String → String → Db → Db × Result (Unit {0})
complete t id worker db =
    let rows = update_where (is_owned_by id worker) (complete_row t.now) db.jobs in
    exec_counted t.link "mark done" db (record db { jobs = rows })
      (count_where (is_owned_by id worker) db.jobs) affected_or_lost

-- CASE WHEN retry_count < max_retries THEN now + base * 2^retry_count ELSE next_run_at END
abbrev pub backoff : ℕ → ℕ → Row → Option ℕ
backoff now base r =
    if has_retries_left r then some (now + base * 2 ^ r.retry_count) else r.next_run_at

abbrev pub fail_row : ℕ → String → ℕ → Row → Row
fail_row now message base r = record r {
  state = retry_decision r;
  retry_count = suc r.retry_count;
  last_error = some message;
  worker_id = "";
  lease_expires_at = none;
  done_at = done_at_decision r now;
  next_run_at = backoff now base r;
}

-- RETURNING state, of the row as it was before the UPDATE set `f`.
abbrev retrying_or_lost : (Row → Row) → Option Row → Result Bool
retrying_or_lost f none = err lease_lost
retrying_or_lost f (some r) = ok (is_pending (f r).state)

unfoldable pub fail_job : Turn → String → String → String → ℕ → Db → Db × Result Bool
fail_job t id worker message base db =
    let set = fail_row t.now message base in
    let rows = update_where (is_owned_by id worker) set db.jobs in
    scan t.link "fail job" db (record db { jobs = rows })
      (find_where (is_owned_by id worker) db.jobs) (retrying_or_lost set)

abbrev pub heartbeat_row : ℕ → ℕ → Row → Row
heartbeat_row now lease r = record r { lease_expires_at = some (now + lease) }

unfoldable pub heartbeat_job : Turn → String → String → ℕ → Db → Db × Result Bool
heartbeat_job t id worker lease db =
    let rows = update_where (is_owned_by id worker) (heartbeat_row t.now lease) db.jobs in
    exec_counted t.link "heartbeat job" db (record db { jobs = rows })
      (count_where (is_owned_by id worker) db.jobs) (λ n. ok (ltb 0 n))

-- min(next_run_at) of the pending rows: NULLs do not count, and no row gives NULL.
abbrev min_nullable : Option ℕ → Option ℕ → Option ℕ
min_nullable none b = b
min_nullable (some a) none = some a
min_nullable (some a) (some b) = some (min a b)

unfoldable pub oldest_pending : List Row → Option ℕ
oldest_pending [] = none
oldest_pending (r ∷ rs) =
    if is_pending r.state then min_nullable r.next_run_at (oldest_pending rs) else oldest_pending rs

-- coalesce(extract(epoch FROM (min - now)), 0)
abbrev wait_until : ℕ → Option ℕ → ℤ
wait_until now none = pos 0
wait_until now (some due) = sub_ℕ due now

abbrev pub wait_and_pending : ℕ → List Row → ℤ × Bool
wait_and_pending now rows =
    (wait_until now (oldest_pending rows), ltb 0 (count_where (λ r. is_pending r.state) rows))

abbrev scanned : Option (ℤ × Bool) → Result (ℤ × Bool)
scanned none = err (wrapped "next visible job" (driver "no rows"))
scanned (some answer) = ok answer

unfoldable pub next_visible : Turn → Db → Db × Result (ℤ × Bool)
next_visible t db =
    scan t.link "next visible job" db db (some (wait_and_pending t.now db.jobs)) scanned

-- WHERE state = 'processing' AND lease_expires_at < CURRENT_TIMESTAMP AND claim_term <= $1
abbrev pub is_abandoned : ℕ → ℕ → Row → Bool
is_abandoned now term r =
    is_processing r.state && (is_before r.lease_expires_at now && not (ltb term r.claim_term))

abbrev pub reap_row : ℕ → Row → Row
reap_row now r = record r {
  state = retry_decision r;
  retry_count = suc r.retry_count;
  last_error = some "lease expired";
  worker_id = "";
  lease_expires_at = none;
  done_at = done_at_decision r now;
  next_run_at = some now;
}

unfoldable pub reap_expired_leases : Turn → ℕ → Db → Db × Result ℕ
reap_expired_leases t term db =
    let rows = update_where (is_abandoned t.now term) (reap_row t.now) db.jobs in
    exec_counted t.link "reap expired leases" db (record db { jobs = rows })
      (count_where (is_abandoned t.now term) db.jobs) ok
