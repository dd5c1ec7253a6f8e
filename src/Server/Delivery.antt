-- ===== src/Server/Delivery.antt =====
-- The dispatcher of internal/server/dispatcher.go over the PostgreSQL store: what stands in the
-- delivery channels against the leases in the table.
pub mod Enqueued
mod Tests
use distq_go.Common.{
  ℕ, suc, ◌+◌, ◌≡◌, ◌≢◌, String, Bool, true, false, Option, none, some, List, ◌++◌, All,
}
use distq_go.Proto.{Assigned}
use distq_go.Storage.Row.{Row, Db, processing}
use distq_go.Storage.Statement.{find_job}
use distq_go.Storage.Reply.{Turn, Result, err}
use distq_go.Storage.Jobs.{job_of_row}
use distq_go.Storage.Rows.{find_job-id}
use distq_go.Storage.Postgres.{World}
use distq_go.Queue
use distq_go.Queue.{Queue}
use distq_go.Server.Outcomes.{postgres_queue}
use distq_go.Server.Dispatcher.{Waiter, Channels, assignment}
use distq_go.Server.Line.{NotAmong}

module _ (delay lease : ℕ) where
  abbrev pub q : Queue World
  q = postgres_queue delay lease

  -- The waiter's channel holds a job that is in processing under its name, as the table has it,
  -- with a full lease from the time of a call.
  abbrev pub Delivered : (ℕ → Turn) → Channels → Db → Waiter → Type 0
  Delivered turns ch db w =
      (r : Row) × (ch w.stream ≡ some (assignment q (job_of_row r)))
      × (find_job r.id db.jobs ≡ some r)
      × (r.state ≡ processing)
      × (r.worker_id ≡ w.worker_id)
      × ((n : ℕ) × (r.lease_expires_at ≡ some ((turns n).now + lease)))

  -- How a pass over a line `ws` ends: those who left it have a job delivered, and the channels of
  -- all others, of those who stay in line as well, are as they were.
  abbrev pub Deliveries : (ℕ → Turn) → List Waiter → Channels → List Waiter → Channels → Db → Type 0
  Deliveries turns ws ch ws' ch' db' =
      (served : List Waiter) × (ws ≡ served ++ ws')
      × All (Delivered turns ch' db') served
      × ((i : ℕ) → NotAmong i served → ch' i ≡ ch i)

  module _ (term : ℕ) where
    after : String → World → World
    after worker s = (Queue.dequeue q term worker s).0
