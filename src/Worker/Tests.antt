-- ===== src/Worker/Tests.antt =====
-- The theorems about the worker at concrete messages and leases.
use distq_go.Common.{
  ℕ, get_elem?, eq_iff, true, false, arith, ◌*◌, ◌+◌, ◌<◌, ◌≤◌, ◌≡◌, refl, ◌⊎◌, none, some, List,
  [], ◌∷◌,
}
use distq_go.Proto.{Job, WorkerMessage, assigned, lost}
use distq_go.Storage.Tests.{email, waiting_db}
use distq_go.Storage.Postgres.{World}
use distq_go.Queue.{Queue, second}
use distq_go.Server.Dispatcher.{assignment}
use distq_go.Server.Outcomes.{postgres_queue}
use distq_go.Worker.{
  idle_worker, receive, finish, Event, gets, returns, reconnects, event, events, report_of,
  assumed_lease, beat_interval,
}
use distq_go.Worker.Orphans.{reconnect_orphans}
use distq_go.Storage.Row.{Row}
use distq_go.Storage.Jobs.{new_row, claim_row, job_of_row}
use distq_go.Server.Tests.{world, leader, idle}
use distq_go.Server.Stream.{greet}
use distq_go.Storage.Reply.{ok, driver}
use distq_go.Worker.Life.{Wire, Round, run, main_loop, is_admitted, finds_leader}
use distq_go.Queue
use distq_go.Worker.Beat.{beats_in_time}

abbrev thirty : Queue World
thirty = postgres_queue second (30 * second)

-- One job is done, and the next is in flight.
abbrev two_jobs : List Event
two_jobs =
    gets (assigned (record { job = email; lease_seconds = 30 }))
    ∷ returns 0 none
    ∷ gets (assigned (record { job = record email { id = "b" }; lease_seconds = 30 }))
    ∷ []

beats_in_time_example :
    ((second ≤ 30 * second)
      × (0 < beat_interval (assumed_lease (assignment thirty email).lease_seconds))
      × (beat_interval (assumed_lease (assignment thirty email).lease_seconds) * 3 ≤ 30 * second))
    ⊎ ((30 * second < second)
        × (30 * second + 9 * second
            < beat_interval (assumed_lease (assignment thirty email).lease_seconds)))
beats_in_time_example = beats_in_time thirty email

-- The worker runs a job on its first stream, and meets the loss of it on the next, beside a new job.
abbrev one_job : List Event
one_job = gets (assigned (record { job = email; lease_seconds = 30 })) ∷ []

abbrev next_stream : List Event
next_stream =
    gets (lost "a")
    ∷ gets (assigned (record { job = record email { id = "b" }; lease_seconds = 30 }))
    ∷ returns 1 none
    ∷ []

reconnect_orphans_example :
    ((events next_stream (event reconnects (events one_job idle_worker))).cause 0 ≡ none)
    × ((finish 0 none (events next_stream (event reconnects (events one_job idle_worker)))).1
        ≡ some (report_of email none))
unfolding events receive
reconnect_orphans_example =
    reconnect_orphans (events one_job idle_worker) 0 next_stream none {job = email} (omega arith)
      refl refl (tt, (tt, ((λ e. omega arith), tt)))

-- A job that fails on its first attempt.
abbrev flaky_row : Row
flaky_row = new_row 10 (record email { kind = "flaky" })

abbrev flaky_world : World
flaky_world = world (record waiting_db { jobs = flaky_row ∷ [] })

abbrev flaky_job : Job
flaky_job = job_of_row (claim_row 10 3 "w1" 30 flaky_row)

abbrev claimed_world : World
claimed_world = (Queue.dequeue (postgres_queue 2 30) 3 "w1" flaky_world).0

-- Two streams that are opened, greeted and break at once, on two servers.
abbrev brief : Wire
brief = record { opening = ok tt; greeting = ok tt; messages = []; broken = driver "EOF" }

abbrev round : Round
round = record { wire = brief; stops = false; stops_waiting = false }

finds_leader_example :
    ((m : ℕ) × (m < 2)
      × (get_elem? (main_loop "w1" 2 5 (round ∷ round ∷ []) idle_worker) m ≡ some (some 0)))
    × ((greeting : WorkerMessage) × ((run "w1" brief idle_worker).1 ≡ greeting ∷ [])
        × (is_admitted (greet thirty leader 0 greeting (idle waiting_db)).1 ≡ true))
finds_leader_example =
    finds_leader thirty leader (idle waiting_db) 0 "w1" 2 5 0 (round ∷ round ∷ []) brief idle_worker
      (λ e. ground (arith, e, eq_iff "w1" "")) (omega arith) (omega arith)
      ((refl, refl), ((refl, refl), tt)) refl refl refl
