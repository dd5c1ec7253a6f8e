-- ===== src/Server/Wakeup.antt =====
-- The timer of internal/server/dispatcher.go, over the PostgreSQL store.
use distq_go.Common.{ℕ, ◌+◌, ◌≤◌, ◌≡◌, String, true, false, some, List, ◌∷◌, arith, All, subst, sym}
use distq_go.Common.Int.{ℤ, pos, negsuc, pos_part}
use distq_go.Proto.{Job}
use distq_go.Storage.Row.{Row}
use distq_go.Storage.Statement.{find_job}
use distq_go.Storage.Reply.{Turn, answered, ok}
use distq_go.Storage.Jobs.{dequeue_job, next_visible}
use distq_go.Storage.Rows.{Unique}
use distq_go.Storage.Schedule.{HasDue, in_time}
use distq_go.Storage.Step.{History, run}
use distq_go.Storage.History.{run-Unique}
use distq_go.Storage.Schema.{Tables, Answers, table_or_new, new_postgres_store}
use distq_go.Storage.Schema.Opened.{ready_db, migrate_table-Unique}
use distq_go.Storage.Schema.Boots.{is_timed, EnqueuesWaiting, opened_run-timed}
use distq_go.Storage.Postgres.{World}
use distq_go.Queue
use distq_go.Queue.{Queue}
use distq_go.Server.Outcomes.{postgres_queue}
use distq_go.Server.Dispatcher.{Waiter, State, min_arm, arm_delay, arm_locked}

arm_delay-le : (wait : ℤ) → (min_arm ≤ arm_delay wait) × (pos_part wait ≤ arm_delay wait)
arm_delay-le (pos n) = ground arith
arm_delay-le (negsuc n) = ground arith

-- With somebody in line, and NextVisible answering that something is pending, the timer is armed
-- for a delay of at least min_arm, and a claim that is made once the delay has passed, is
-- answered and meets no locked row returns a job, if the table is as it was. (Its ids are
-- distinct, and its pending rows have a due time.)
arm_locked-wakes :
    (delay lease : ℕ) (w : Waiter) (ws : List Waiter) (d : State World) {wait : ℤ} (t' : Turn)
    (term : ℕ) (worker : String)
    → d.waiters ≡ w ∷ ws
    → Unique d.store.db.jobs
    → ((k : String) (r : Row) → find_job k d.store.db.jobs ≡ some r → HasDue r)
    → (d.store.turns d.store.calls).link ≡ answered
    → (next_visible (d.store.turns d.store.calls) d.store.db).1 ≡ ok (wait, true)
    → (d.store.turns d.store.calls).now + arm_delay wait ≤ t'.now
    → t'.link ≡ answered
    → ((id : String) → t'.locked id ≡ false)
    → ((arm_locked (postgres_queue delay lease) d).timer ≡ some (arm_delay wait))
      × (min_arm ≤ arm_delay wait)
      × ((j : Job) × ((dequeue_job t' term worker lease d.store.db).1 ≡ ok (some j)))
unfolding arm_locked Queue.next_visible
arm_locked-wakes delay lease w ws d {wait} t' term worker line u due a looked late a' free =
    let (floor, enough) = arm_delay-le wait in
    (
      rw (line, looked),
      floor,
      in_time (d.store.turns d.store.calls) t' d.store.db term worker lease u due a a' {wait = wait}
          looked (omega arith) free,
    )

timed-HasDue : (r : Row) → is_timed r ≡ true → HasDue r
timed-HasDue r timed p n = ground (arith, timed, p, n)

-- On the tables of a store that NewPostgresStore returned, whatever they were before, after any
-- calls of any servers that enqueue no job as 'processing': a server with somebody in line to which
-- NextVisible answers that something is pending arms its timer for a delay of at least min_arm; and
-- a claim that is made once the delay has passed, is answered and meets no locked row returns a
-- job, if the table is as it was. (The ids of the tables were distinct, and NextVisible was
-- answered.)
pub opened_wakes :
    (a : Answers) (ts : Tables) (h : History) (delay lease : ℕ) (w : Waiter) (ws : List Waiter)
    (d : State World) {wait : ℤ} (t' : Turn) (term : ℕ) (worker : String)
    → (new_postgres_store a ts).2 ≡ ok tt
    → Unique (table_or_new ts.jobs).rows
    → All EnqueuesWaiting h
    → d.store.db ≡ run h (ready_db ts)
    → d.waiters ≡ w ∷ ws
    → (d.store.turns d.store.calls).link ≡ answered
    → (next_visible (d.store.turns d.store.calls) d.store.db).1 ≡ ok (wait, true)
    → (d.store.turns d.store.calls).now + arm_delay wait ≤ t'.now
    → t'.link ≡ answered
    → ((id : String) → t'.locked id ≡ false)
    → ((arm_locked (postgres_queue delay lease) d).timer ≡ some (arm_delay wait))
      × (min_arm ≤ arm_delay wait)
      × ((j : Job) × ((dequeue_job t' term worker lease d.store.db).1 ≡ ok (some j)))
opened_wakes a ts h delay lease w ws d {wait} t' term worker opened u waiting same line =
    arm_locked-wakes delay lease w ws d {wait = wait} t' term worker line
      (subst (λ db. Unique db.jobs) (sym same)
        (run-Unique h (ready_db ts) (migrate_table-Unique (table_or_new ts.jobs) u)))
      (λ k r found.
        timed-HasDue r
          (opened_run-timed a ts h k {r = r} opened u waiting
            (subst (λ db. find_job k db.jobs ≡ some r) same found)).1)
