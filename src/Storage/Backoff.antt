-- ===== src/Storage/Backoff.antt =====
-- The backoff that FailJob sets, over the calls that follow.
use distq_go.Common.{ℕ, suc, ◌+◌, ◌*◌, ◌^◌, ◌≡◌, String, true, some, All, arith}
use distq_go.Storage.Row.{Row, Db, pending, processing, has_retries_left}
use distq_go.Storage.Statement.{find_job}
use distq_go.Storage.Reply.{Turn, answered, ok}
use distq_go.Storage.Jobs.{fail_job, fail_row}
use distq_go.Storage.Step.{fails, step, History, run}
use distq_go.Storage.Rows.{Unique}
use distq_go.Storage.Moves.Calls.{step-Unique}
use distq_go.Storage.Leases.{BeforeDue, waiting-run}
use distq_go.Storage.Reports.{fail_job-OnlyChanged}
use distq_go.Storage.Effects.{IsFailedFrom, fail_row-IsFailedFrom}

-- A failure that the holder of a job with retries left reports, in a call that is answered, returns
-- true, and then nobody is handed the job before base * 2^retry_count has passed: until then every
-- history of calls leaves its row as the failure left it, pending, with one more retry counted, no
-- worker, and the columns that a failure does not set as they were before it. (The ids of the table
-- are distinct.)
pub fail_job_backs_off :
    (t : Turn) (id worker message : String) (base : ℕ) (h : History) (db : Db) {r : Row}
    → Unique db.jobs
    → find_job id db.jobs ≡ some r
    → r.worker_id ≡ worker
    → r.state ≡ processing
    → has_retries_left r ≡ true
    → t.link ≡ answered
    → All (BeforeDue id (t.now + base * 2 ^ r.retry_count)) h
    → ((fail_job t id worker message base db).1 ≡ ok true)
      × ((r' : Row) × (find_job id (run h (fail_job t id worker message base db).0).jobs ≡ some r')
          × (r'.state ≡ pending)
          × (r'.retry_count ≡ suc r.retry_count)
          × (r'.worker_id ≡ "")
          × IsFailedFrom t.now message base r r')
fail_job_backs_off t id worker message base h db {r} u e o p left a before =
    let (said, only) = fail_job-OnlyChanged t id worker db {r = r} e o p a message base in
    let due : ℕ = t.now + base * 2 ^ r.retry_count in
    (
      ground (arith, said),
      (
        fail_row t.now message base r,
        waiting-run id due h (fail_job t id worker message base db).0
            {r = fail_row t.now message base r}
            (unfold step in (step-Unique t db u (fails id worker message base))) only.0
            (ground arith, ground arith) before,
        ground arith,
        ground arith,
        ground arith,
        fail_row-IsFailedFrom t.now message base r,
      ),
    )
