-- ===== src/Server/System/Tests.antt =====
-- The theorems about a server as a whole at concrete schedules of its events.
use distq_go.Common.{◌≡◌, refl, inr, true, false, List, [], ◌∷◌, All}
use distq_go.Proto.{hello, completed}
use distq_go.Storage.Statement.{find_job, update_where, count_where}
use distq_go.Storage.Jobs.{dequeue_job, complete, pick}
use distq_go.Storage.Postgres.{World}
use distq_go.Storage.Tests.{waiting_db}
use distq_go.Queue
use distq_go.Queue.{Queue}
use distq_go.Server.Answer.{answer}
use distq_go.Server.Dispatcher.{
  serve, arm_locked, arm_after, push_locked, push, register, is_in_line,
}
use distq_go.Server.Line.{Distinct}
use distq_go.Server.Outcomes.{postgres_queue}
use distq_go.Server.Stream.{deliver}
use distq_go.Server.System.{
  Event, greets, registers, hears, delivers, hangs_up, pushes, handle, turn, run, booted,
}
use distq_go.Server.System.Open.{IsOpen, reached-IsOpen}
use distq_go.Server.System.Calm.{AllTimely, never_blocks}
use distq_go.Server.Tests.{leader, world}

abbrev q : Queue World
q = postgres_queue 2 30

-- w1 greets twice and waits; its first stream ends; w2 comes, and a push finds the job for it.
abbrev reconnection : List (Event World)
reconnection =
    greets (hello "w1")
    ∷ registers 0
    ∷ greets (hello "w1")
    ∷ registers 1
    ∷ hangs_up 0
    ∷ greets (hello "w2")
    ∷ registers 2
    ∷ pushes false
    ∷ []

reached-IsOpen_example :
    Distinct (run q reconnection (booted leader (world waiting_db))).server.waiters
    × All
        (IsOpen (run q reconnection (booted leader (world waiting_db))).streams)
        (run q reconnection (booted leader (world waiting_db))).server.waiters
reached-IsOpen_example = reached-IsOpen q leader (world waiting_db) reconnection

-- A worker gets its job, completes it and registers again.
abbrev shift : List (Event World)
shift =
    greets (hello "w1")
    ∷ registers 0
    ∷ delivers 0 true
    ∷ hears 0 true (completed "a")
    ∷ registers 0
    ∷ pushes false
    ∷ []

shift-timely : AllTimely q shift (booted leader (world waiting_db))
unfolding turn handle register is_in_line push_locked push serve arm_after arm_locked deliver answer
    dequeue_job pick update_where find_job complete count_where Queue.dequeue
shift-timely = (tt, (tt, (tt, (inr (refl, tt), (tt, (tt, tt))))))

never_blocks_example : (run q shift (booted leader (world waiting_db))).halted ≡ false
never_blocks_example = never_blocks q leader (world waiting_db) shift shift-timely
