-- ===== src/Worker.antt =====
-- cmd/worker/main.go: the read loop of a worker with its slot for the job in flight, what its
-- handlers report, and what a new stream and the worker's shutdown do to them. A handler's context
-- is a number; the events are the environment's. What the worker logs is left out.
pub mod Slot
pub mod Orphans
pub mod Beat
pub mod Rotation
pub mod Life
pub mod Handler
pub mod Attempt
mod Tests
use distq_go.Common.{
  ℕ, suc, ◌/◌, ◌*◌, String, Bool, true, false, ◌&&◌, Option, none, some, List, [], ◌∷◌, ◌==◌,
  if◌then◌else◌, ltb,
}
use Prim.Native.Nat.{compare, Ordering}
use distq_go.Proto.{
  Job, Assigned, ServerMessage, assigned, result, lost, WorkerMessage, completed, failed,
}
use distq_go.Queue.{second}

-- Why a context was cancelled: cancel(nil) by its handler, cancel(errLeaseLost), or the end of the
-- worker's own context, which every handler's context is derived from.
pub data Cause : Type 0 where
  finished lease_lost stopped : Cause

-- The variables of run, the causes of the contexts that were cancelled, and the job of each context.
pub record Worker : Type 0 where
  pub job_id : String
  pub cancel : Option ℕ
  pub fresh : ℕ
  pub cause : ℕ → Option Cause
  pub jobs : ℕ → Option Job

abbrev pub idle_worker : Worker
idle_worker = record { job_id = ""; cancel = none; fresh = 0; cause = λ k. none; jobs = λ k. none }

abbrev pub same_ctx : ℕ → ℕ → Bool
same_ctx a b = elim (compare a b) [ Ordering.eq ↦ true | _ ↦ false ]

-- A CancelCauseFunc: the first cause is kept.
abbrev or_else : Option Cause → Cause → Option Cause
or_else none c = some c
or_else (some d) c = some d

abbrev pub cancel_ctx : ℕ → Cause → (ℕ → Option Cause) → ℕ → Option Cause
cancel_ctx n c causes k = if same_ctx n k then or_else (causes k) c else causes k

abbrev pub start : Assigned → Worker → Worker
start a w = record {
  job_id = a.job.id;
  cancel = some w.fresh;
  fresh = suc w.fresh;
  cause = w.cause;
  jobs = λ k. if same_ctx w.fresh k then some a.job else w.jobs k;
}

abbrev pub take_away : String → Option ℕ → Worker → Worker
take_away id none w = w
take_away id (some n) w =
    if id == w.job_id
    then record w { job_id = ""; cancel = none; cause = cancel_ctx n lease_lost w.cause }
    else w

-- One turn of the read loop.
unfoldable pub receive : ServerMessage → Worker → Worker
receive (assigned a) w = start a w
receive (lost id) w = take_away id w.cancel w
receive (result r) w = if r.job_id == w.job_id then record w { job_id = ""; cancel = none } else w

-- The report on a job, by the error that its handler returned.
abbrev pub report_of : Job → Option String → WorkerMessage
report_of job none = completed job.id
report_of job (some message) = failed job.id message

abbrev report_unless : Option Cause → Option Job → Option String → Option WorkerMessage
report_unless (some lease_lost) job error = none
report_unless (some finished) none error = none
report_unless (some finished) (some job) error = some (report_of job error)
report_unless (some stopped) none error = none
report_unless (some stopped) (some job) error = some (report_of job error)
report_unless none job error = none

-- The handler of the context `n` returns: it cancels its context, and reports unless the lease was
-- lost.
unfoldable pub finish : ℕ → Option String → Worker → Worker × Option WorkerMessage
finish n error w =
    let causes = cancel_ctx n finished w.cause in
    (record w { cause = causes }, report_unless (causes n) (w.jobs n) error)

-- run has returned and is called again: it starts with an empty slot, and the handlers go on.
abbrev pub reconnect : Worker → Worker
reconnect w = record w { job_id = ""; cancel = none }

-- The context of main ends, and with it the contexts derived from it, those to come included.
abbrev pub shut_down : Worker → Worker
shut_down w = record w { cause = λ k. or_else (w.cause k) stopped }

pub data Event : Type 0 where
  gets : ServerMessage → Event
  returns : (ctx : ℕ) (error : Option String) → Event
  reconnects shuts_down : Event

abbrev pub event : Event → Worker → Worker
event (gets m) w = receive m w
event (returns n error) w = (finish n error w).0
event reconnects w = reconnect w
event shuts_down w = shut_down w

unfoldable pub events : List Event → Worker → Worker
events [] w = w
events (e ∷ es) w = events es (event e w)

-- `if lease <= 0 { lease = defaultLeaseFor }`
abbrev pub assumed_lease : ℕ → ℕ
assumed_lease seconds = if ltb 0 (seconds * second) then seconds * second else 30 * second

-- `interval := lease / 3; if interval <= 0 { interval = time.Second }`
abbrev pub beat_interval : ℕ → ℕ
beat_interval lease = if ltb 0 (lease / 3) then lease / 3 else second
