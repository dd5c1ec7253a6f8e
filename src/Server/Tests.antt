-- ===== src/Server/Tests.antt =====
-- The theorems about the queue and the server at concrete queues, lines and messages.
use distq_go.Common.{
  ◌+◌, ◌≤◌, ◌≡◌, refl, String, true, false, none, some, List, [], ◌∷◌, ◌==◌, arith, if◌then◌else◌,
}
use distq_go.Common.Int.{pos}
use distq_go.Proto.{Job, hello, heartbeat, completed, failed, accepted, retrying}
use distq_go.Storage.Row.{Row, Db}
use distq_go.Storage.Statement.{find_job, update_where, count_where}
use distq_go.Storage.Reply.{ok}
use distq_go.Storage.Jobs.{
  dequeue_job, complete, next_visible, pick, oldest_pending, job_of_row, claim_row,
}
use distq_go.Storage.Leader.{campaign}
use distq_go.Storage.Reports.{OnlyChanged}
use distq_go.Storage.Effects.{IsDoneFrom, IsFailedFrom, IsRenewedFrom}
use distq_go.Storage.Postgres.{World}
use distq_go.Storage.Tests.{at_time, waiting_row, running_row, waiting_db, running_db, two_db}
use distq_go.Queue
use distq_go.Queue.{Options, Queue, new, new_lem, default_lease_for, default_retry_base_delay}
use distq_go.Server.Answer.{answer, reply_to}
use distq_go.Server.Dispatcher.{
  Waiter, State, drained, Lead, serve, arm_locked, arm_after, push_locked, register, is_in_line,
  forget, assignment, min_arm,
}
use distq_go.Server.Stream.{greet, receive, stuck}
use distq_go.Server.Outcomes.{postgres_queue, answer_settles}
use distq_go.Server.Deadlock.{receive-stuck, reconnect_strands}
use distq_go.Server.Wakeup.{opened_wakes}
use distq_go.Storage.Step.{run}
use distq_go.Storage.Schema.{new_postgres_store, migrate_table}
use distq_go.Storage.Schema.Opened.{ready_db}
use distq_go.Storage.Schema.Tests.{no_trouble, first_version}
use distq_go.Server.Leadership.{new_leadership, become_lead}
use distq_go.Server.Cluster.{
  Cluster, set_node, Event, opens, here, next, TellsApart, Reach-TellsApart,
}
use distq_go.Server.Election.{Poll}

-- A database whose calls are all answered, at the times 10, 11, 12 and so on.
abbrev pub world : Db → World
world db = record { db = db; turns = λ n. at_time (10 + n); calls = 0 }

abbrev pub leader : Lead
leader = record { leading = true; term = 3 }

abbrev q : Queue World
q = postgres_queue 2 30

abbrev pub idle : Db → State World
idle db = record { waiters = []; timer = none; channels = λ k. none; store = world db }

abbrev pub in_line : Waiter
in_line = record { worker_id = "w2"; stream = 1 }

abbrev newcomer : Waiter
newcomer = record { worker_id = "w1"; stream = 0 }

abbrev one_waits : State World
one_waits = record (idle waiting_db) { waiters = in_line ∷ [] }

answer_settles_example :
    ((r' : Row) × IsDoneFrom 10 running_row r'
      × ((answer q "w1" (completed "a") (world running_db)).1
          ≡ (some (reply_to "a" accepted none), true))
      × OnlyChanged "a" r' running_db (answer q "w1" (completed "a") (world running_db)).0.db)
    × ((r' : Row) × IsFailedFrom 10 "boom" 2 running_row r'
        × ((answer q "w1" (failed "a" "boom") (world running_db)).1
            ≡ (some (reply_to "a" retrying none), true))
        × OnlyChanged "a" r' running_db (answer q "w1" (failed "a" "boom") (world running_db)).0.db)
    × ((r' : Row) × IsRenewedFrom 10 30 running_row r'
        × ((answer q "w1" (heartbeat "a") (world running_db)).1 ≡ (none, false))
        × OnlyChanged "a" r' running_db (answer q "w1" (heartbeat "a") (world running_db)).0.db)
unfolding find_job
answer_settles_example =
    answer_settles 2 30 "a" "w1" "boom" (world running_db) (refl, tt) refl {r = running_row} refl
      refl refl

-- The worker w1 has just been admitted, and the job "a" waits in its channel; "b" is due as well.
abbrev admitted_state : State World
admitted_state = (greet q leader 0 (hello "w1") (idle two_db)).0

receive-stuck_example : (receive q leader newcomer true (completed "x") admitted_state).2 ≡ stuck
unfolding greet register is_in_line push_locked serve arm_after arm_locked Queue.dequeue
    Queue.next_visible Queue.complete dequeue_job complete pick update_where count_where
    oldest_pending next_visible answer
receive-stuck_example =
    receive-stuck q leader newcomer admitted_state (completed "x")
      {a = assignment q (job_of_row running_by_3)}
      {j = job_of_row (claim_row 13 3 "w1" 30 (record waiting_row { id = "b" }))} refl refl refl
      refl refl
  where
    running_by_3 : Row
    running_by_3 = claim_row 10 3 "w1" 30 waiting_row

abbrev again : Waiter
again = record { worker_id = "w2"; stream = 7 }

reconnect_strands_example :
    (register q leader again one_waits ≡ (one_waits, drained))
    × ((name : String)
        → is_in_line name (forget "w2" (register q leader again one_waits).0).waiters
          ≡ (if name == "w2" then false else is_in_line name (in_line ∷ [])))
unfolding is_in_line
reconnect_strands_example = reconnect_strands q leader in_line again one_waits (refl, tt) refl refl

-- At 3 the job that is due at 10 is 7 away, which is less than min_arm.
abbrev early_world : World
early_world = record (world (ready_db first_version)) { turns = λ n. at_time 3 }

abbrev early : State World
early = record one_waits { store = early_world }

opened_wakes_example :
    ((arm_locked q early).timer ≡ some min_arm)
    × (min_arm ≤ min_arm)
    × ((j : Job) × ((dequeue_job (at_time (3 + min_arm)) 3 "w2" 30 (ready_db first_version)).1
          ≡ ok (some j)))
unfolding new_postgres_store migrate_table update_where next_visible oldest_pending count_where
    find_job run
opened_wakes_example =
    opened_wakes no_trouble first_version [] 2 30 in_line [] early {wait = pos 7}
      (at_time (3 + min_arm)) 3 "w2" refl (refl, tt) tt refl refl refl refl (omega arith) refl
      (λ id. refl)

abbrev quiet_cluster : Cluster
quiet_cluster = record { db = running_db; node = λ n. new_leadership }

abbrev led_cluster : Cluster
led_cluster = record {
  db = (campaign (at_time 60) "n2" 9 running_db).0;
  node = set_node "n2" (become_lead 4 new_leadership) (λ n. new_leadership);
}

n2_opens : Event quiet_cluster led_cluster
unfolding campaign
n2_opens = opens (at_time 60) "n2" 9 4 refl

Reach-TellsApart_example : TellsApart led_cluster
unfolding new_leadership
Reach-TellsApart_example =
    Reach-TellsApart {c = quiet_cluster} {d = led_cluster} (λ n. refl) (next here n2_opens)

abbrev pub patient : List Poll
patient = record { ended = false; ends = false } ∷ record { ended = false; ends = false } ∷ []
