-- ===== src/Server/Delivery/Enqueued.antt =====
-- From Enqueue of internal/server/server.go to the worker's stream: what comes of a job that meets a
-- waiting worker.
use distq_go.Common.{ℕ, ◌≡◌, Option, none, [], ◌∷◌}
use distq_go.Proto.{Job}
use distq_go.Storage.Row.{Row, Db}
use distq_go.Storage.Statement.{find_job}
use distq_go.Storage.Reply.{Turn, answered, ok}
use distq_go.Storage.Jobs.{create_job, new_row, max_retries_or_default}
use distq_go.Storage.Postgres.{World}
use distq_go.Queue
use distq_go.Server.Dispatcher.{Waiter, Channels, State}

-- A job as a worker first sees it.
abbrev pub first_seen : Job → Job
first_seen j = record j {
  status = "processing";
  retry_count = 0;
  max_retries = max_retries_or_default j.max_retries;
}

-- CreateJob of a new id, answered.
pub create_job_answered :
    (t : Turn) (j : Job) (db : Db)
    → find_job j.id db.jobs ≡ none
    → t.link ≡ answered
    → create_job t j db ≡ (record db { jobs = new_row t.now j ∷ db.jobs }, ok tt)
unfolding create_job
create_job_answered t j db absent a = rw (absent, a)

-- One worker waits.
abbrev pub one_waits : Waiter → Option ℕ → Channels → World → State World
one_waits w timer ch s = record { waiters = w ∷ []; timer = timer; channels = ch; store = s }
