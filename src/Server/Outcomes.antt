-- ===== src/Server/Outcomes.antt =====
-- What answer of internal/server/stream.go comes to over the PostgreSQL store.
use distq_go.Common.{
  ℕ, suc, ◌≡◌, ap, String, true, false, none, some, ◌∙◌, inl, inr, Bool-cases, if◌then◌else◌,
}
use distq_go.Proto.{
  Outcome, result, heartbeat, completed, failed, accepted, refused, retrying, dead_lettered, lost,
}
use distq_go.Storage.Row.{Row, processing, has_retries_left}
use distq_go.Storage.Statement.{find_job}
use distq_go.Storage.Reply.{answered, lease_lost, ok}
use distq_go.Storage.Jobs.{complete_row, fail_row, heartbeat_row}
use distq_go.Storage.Rows.{Unique}
use distq_go.Storage.Reports.{
  IsNotOwner, OnlyChanged, reports_refused, complete-OnlyChanged, fail_job-OnlyChanged,
  heartbeat_job-OnlyChanged,
}
use distq_go.Common.Int.{ltz}
use distq_go.Storage.Effects.{
  IsDoneFrom, IsFailedFrom, IsRenewedFrom, complete_row-IsDoneFrom, fail_row-IsFailedFrom,
  heartbeat_row-IsRenewedFrom,
}
use distq_go.Storage.Postgres.{World, postgres_store}
use distq_go.Queue
use distq_go.Queue.{Queue}
use distq_go.Server.Answer.{Verdict, answer, reply_to}

-- A queue over the PostgreSQL store.
abbrev pub postgres_queue : ℕ → ℕ → Queue World
postgres_queue delay lease = record {
  store = postgres_store;
  retry_delay = delay;
  lease_for = lease;
}

module _ (delay lease : ℕ) (id worker message : String) (w : World) (u : Unique w.db.jobs)
    (a : (w.turns w.calls).link ≡ answered) where
  -- A worker that does not hold the job is answered so, and the database stays as it is: its
  -- completion and its failure are refused, its heartbeat is answered with Lost, and each of the
  -- three frees the worker for the next job. (The ids of the table are distinct, and the store's
  -- call is answered.)
  pub answer_refused :
      IsNotOwner id worker w.db
      → (answer (postgres_queue delay lease) worker (completed id) w ≡ (
        record w { calls = suc w.calls },
        (some (reply_to id refused (some lease_lost)), true),
      ))
        × (answer (postgres_queue delay lease) worker (failed id message) w ≡ (
          record w { calls = suc w.calls },
          (some (reply_to id refused (some lease_lost)), true),
        ))
        × (answer (postgres_queue delay lease) worker (heartbeat id) w
            ≡ (record w { calls = suc w.calls }, (some (lost id), true)))
  unfolding answer Queue.complete Queue.fail Queue.heartbeat
  answer_refused n =
      let (c, f, h) = reports_refused (w.turns w.calls) id worker message delay lease w.db u n a in
      (rw c, rw f, rw h)

  -- The worker that holds a job is answered by what became of it. Its completion is accepted and
  -- the job is done; its failure is answered with Retrying exactly if the job is pending again,
  -- and with DeadLettered otherwise; both free the worker. Its heartbeat renews the lease in
  -- silence and leaves it busy. No other job changes. (The ids of the table are distinct, and the
  -- store's call is answered.)
  pub answer_owner :
      {r : Row}
      → find_job id w.db.jobs ≡ some r
      → r.worker_id ≡ worker
      → r.state ≡ processing
      → ((answer (postgres_queue delay lease) worker (completed id) w).1
          ≡ (some (reply_to id accepted none), true))
        × OnlyChanged id
            (complete_row (w.turns w.calls).now r)
            w.db
            (answer (postgres_queue delay lease) worker (completed id) w).0.db
        × ((answer (postgres_queue delay lease) worker (failed id message) w).1 ≡ (
          some (reply_to id (if has_retries_left r then retrying else dead_lettered) none),
          true,
        ))
        × OnlyChanged id
            (fail_row (w.turns w.calls).now message delay r)
            w.db
            (answer (postgres_queue delay lease) worker (failed id message) w).0.db
        × ((answer (postgres_queue delay lease) worker (heartbeat id) w).1 ≡ (none, false))
        × OnlyChanged id
            (heartbeat_row (w.turns w.calls).now lease r)
            w.db
            (answer (postgres_queue delay lease) worker (heartbeat id) w).0.db
  unfolding answer Queue.complete Queue.fail Queue.heartbeat
  answer_owner {r} e o p =
      let t = w.turns w.calls in
      let (c, cs) = complete-OnlyChanged t id worker w.db {r = r} e o p a in
      let (f, fs) = fail_job-OnlyChanged t id worker w.db {r = r} e o p a message delay in
      let (h, hs) = heartbeat_job-OnlyChanged t id worker w.db {r = r} e o p a lease in
      elim (Bool-cases (has_retries_left r)) [
        | inl left ↦ (rw c, rw c cs, rw (f, left), rw (f ∙ ap ok left) fs, rw h, rw h hs)
        | inr spent ↦ (rw c, rw c cs, rw (f, spent), rw (f ∙ ap ok spent) fs, rw h, rw h hs)
      ]

  -- The reply to a report of the job, by its outcome.
  abbrev pub Replied : Outcome → Verdict
  Replied outcome = (some (result (record { job_id = id; outcome = outcome; error = "" })), true)

  -- The worker that holds a job is answered by what became of it. Its completion is accepted and
  -- the job is done, with no owner and no lease. Its failure is counted and recorded with its
  -- message; while the retries counted before are fewer than those allowed, it is answered with
  -- Retrying and the job is pending again, due after a backoff of the base delay doubled once for
  -- each of them, and else it is answered with DeadLettered and the job has failed. Both free the
  -- worker. Its heartbeat moves the end of the lease to a full lease from the time of the call, in
  -- silence, and leaves it busy. No other column and no other row changes. (The ids of the table
  -- are distinct, and the store's call is answered.)
  pub answer_settles :
      {r : Row}
      → find_job id w.db.jobs ≡ some r
      → r.worker_id ≡ worker
      → r.state ≡ processing
      → ((r' : Row) × IsDoneFrom (w.turns w.calls).now r r'
          × ((answer (postgres_queue delay lease) worker (completed id) w).1 ≡ Replied accepted)
          × OnlyChanged id r' w.db
              (answer (postgres_queue delay lease) worker (completed id) w).0.db)
        × ((r' : Row) × IsFailedFrom (w.turns w.calls).now message delay r r'
            × ((answer (postgres_queue delay lease) worker (failed id message) w).1
                ≡ Replied (if ltz r.retry_count r.max_retries then retrying else dead_lettered))
            × OnlyChanged id r' w.db
                (answer (postgres_queue delay lease) worker (failed id message) w).0.db)
        × ((r' : Row) × IsRenewedFrom (w.turns w.calls).now lease r r'
            × ((answer (postgres_queue delay lease) worker (heartbeat id) w).1 ≡ (none, false))
            × OnlyChanged id r' w.db
                (answer (postgres_queue delay lease) worker (heartbeat id) w).0.db)
  answer_settles {r} e o p =
      let now = (w.turns w.calls).now in
      let (c, cs, f, fs, h, hs) = answer_owner {r = r} e o p in
      (
        (complete_row now r, complete_row-IsDoneFrom now r, c, cs),
        (fail_row now message delay r, fail_row-IsFailedFrom now message delay r, f, fs),
        (heartbeat_row now lease r, heartbeat_row-IsRenewedFrom now lease r, h, hs),
      )
