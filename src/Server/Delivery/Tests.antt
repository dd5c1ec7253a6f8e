-- ===== src/Server/Delivery/Tests.antt =====
-- The theorems about deliveries at a line of one worker and a table of one job.
use distq_go.Common.{none}
use distq_go.Proto.{Job}
use distq_go.Storage.Row.{Row}
use distq_go.Storage.Tests.{email, waiting_db}
use distq_go.Server.Tests.{world, in_line}
use distq_go.Server.Dispatcher.{State}
use distq_go.Storage.Postgres.{World}
use distq_go.Server.Delivery.Enqueued.{one_waits}

abbrev line_of_one : State World
line_of_one = one_waits in_line none (λ k. none) (world waiting_db)

-- A second job, next to one that is in processing.
abbrev report : Job
report = record email { id = "b"; kind = "slow" }
