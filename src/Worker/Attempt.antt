-- ===== src/Worker/Attempt.antt =====
-- One attempt at a job, from the claim over the worker of cmd/worker/main.go to the answer of
-- internal/server/stream.go.
use distq_go.Common.{ℕ, ◌≡◌, String, Bool, true, some, ◌==◌, ltb, if◌then◌else◌}
use distq_go.Proto.{Outcome, result, WorkerMessage}
use distq_go.Storage.Row.{Row, Db}
use distq_go.Storage.Reports.{OnlyChanged}
use distq_go.Storage.Postgres.{World}
use distq_go.Queue
use distq_go.Server.Answer.{answer}
use distq_go.Server.Outcomes.{postgres_queue}
use distq_go.Worker.{Worker}

-- Whether the simulated work fails: a flaky job twice, a doomed one always.
abbrev pub fails_at : String → ℕ → Bool
fails_at kind retries = if kind == "flaky" then ltb retries 2 else kind == "doomed"

-- What the server then holds of the job `id`: it answers the message with this outcome, and of the
-- whole database only the row of the job has changed, into `r'`.
abbrev pub Settles :
    (delay lease : ℕ) (name : String) (m : WorkerMessage) (id : String) (outcome : Outcome)
    (r' : Row) (db : Db) (s : World)
    → Type 0
Settles delay lease name m id outcome r' db s =
    ((answer (postgres_queue delay lease) name m s).1
      ≡ (some (result (record { job_id = id; outcome = outcome; error = "" })), true))
    × OnlyChanged id r' db (answer (postgres_queue delay lease) name m s).0.db
