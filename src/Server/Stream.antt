-- ===== src/Server/Stream.antt =====
-- The handlers of internal/server/stream.go and server.go: a job stream from its greeting to its
-- end, and Enqueue. A stream's select loop is given by its cases, and the order in which they come
-- is the environment's.
use distq_go.Common.{ℕ, String, Bool, true, false, Option, none, some, ◌==◌, if◌then◌else◌}
use distq_go.Proto.{
  Job, EnqueueRequest, EnqueueResponse, WorkerMessage, get_worker_id, ServerMessage, assigned,
}
use distq_go.Storage.Reply.{Result, ok, err}
use distq_go.Queue
use distq_go.Queue.{Queue}
use distq_go.Server.Answer.{Verdict, answer, error_text}
use distq_go.Server.Dispatcher.{
  Waiter, Channels, State, End, drained, errored, blocked, Lead, push, register, forget,
  same_stream,
}

-- What a handler comes to: it goes on waiting, it returned, or it is stuck in a send to a full
-- channel, with the dispatcher's mutex held.
pub data Next : Type 0 where
  waits ended stuck : Next

pub data Admission : Type 0 where
  invalid_argument unavailable : Admission
  admitted : Next → Admission

abbrev pub next_of : End → Next
next_of blocked = stuck
next_of _ = waits

abbrev pub take_from : ℕ → Channels → Channels
take_from i ch k = if same_stream i k then none else ch k

-- A reply that cannot be sent ends the stream.
abbrev reply_next : Option ServerMessage → Bool → Next
reply_next none sent = waits
reply_next (some m) true = waits
reply_next (some m) false = ended

-- `if job.Id == "" { job.Id = uuid.New().String() }`; the new id is the uuid library's.
abbrev pub with_id : String → Job → Job
with_id fresh job = if job.id == "" then record job { id = fresh } else job

-- `case job := <-w.deliveries`: the message that is sent down the stream; `sent` is whether
-- stream.Send succeeded.
unfoldable pub deliver :
    {S : Type 0} → Waiter → Bool → State S → State S × Option ServerMessage × Next
deliver w sent d = elim (d.channels w.stream) [
  | none ↦ (d, none, waits)
  | some a ↦ (
    record d { channels = take_from w.stream d.channels },
    some (assigned a),
    reply_next (some (assigned a)) sent,
  )
]

-- The deferred call when the handler returns, for whatever reason.
unfoldable pub hang_up : {S : Type 0} → Waiter → State S → State S
hang_up w d = forget w.worker_id d

module _ {S : Type 0} (q : Queue S) where
  unfoldable pub admit : Lead → Waiter → State S → State S × Admission
  admit lead w d =
      let (d', end) = register q lead w (record d { channels = take_from w.stream d.channels }) in
      (d', admitted (next_of end))

  -- The greeting on the stream `i`: who is admitted, with a new and empty channel.
  unfoldable pub greet : Lead → ℕ → WorkerMessage → State S → State S × Admission
  unfolding admit
  greet lead i greeting d =
      if get_worker_id greeting == ""
      then (d, invalid_argument)
      else if lead.leading
      then admit lead (record { worker_id = get_worker_id greeting; stream = i }) d
      else (d, unavailable)

  -- `case msg := <-incoming`.
  unfoldable pub after_answer :
      Lead → Waiter → Bool → State S → S × Verdict → State S × Option ServerMessage × Next
  after_answer lead w sent d (s, (reply, false)) =
      (record d { store = s }, reply, reply_next reply sent)
  after_answer lead w sent d (s, (none, true)) =
      let (d', end) = register q lead w (record d { store = s }) in (d', none, next_of end)
  after_answer lead w true d (s, (some m, true)) =
      let (d', end) = register q lead w (record d { store = s }) in (d', some m, next_of end)
  after_answer lead w false d (s, (some m, true)) = (record d { store = s }, some m, ended)

  unfoldable pub receive :
      Lead → Waiter → Bool → WorkerMessage → State S → State S × Option ServerMessage × Next
  unfolding after_answer
  receive lead w sent msg d = after_answer lead w sent d (answer q w.worker_id msg d.store)

  -- `none` is a handler that never returns.
  respond : String → State S × End → State S × Option EnqueueResponse
  respond id (d, blocked) = (d, none)
  respond id (d, drained) = (d, some (record { job_id = id; error = "" }))
  respond id (d, errored) = (d, some (record { job_id = id; error = "" }))

  after_enqueue :
      Bool → Lead → String → State S → S × Result (Unit {0}) → State S × Option EnqueueResponse
  unfolding respond
  after_enqueue down lead id d (s, err e) =
      (record d { store = s }, some (record { job_id = ""; error = error_text e }))
  after_enqueue down lead id d (s, ok u) = respond id (push q down lead (record d { store = s }))

  enqueue_job : Bool → Lead → String → Option Job → State S → State S × Option EnqueueResponse
  unfolding after_enqueue
  enqueue_job down lead fresh none d =
      (d, some (record { job_id = ""; error = "missing job data" }))
  enqueue_job down lead fresh (some job) d =
      after_enqueue down lead (with_id fresh job).id d (Queue.enqueue q (with_id fresh job) d.store)

  unfoldable pub enqueue :
      Bool → Lead → String → EnqueueRequest → State S → State S × Option EnqueueResponse
  unfolding enqueue_job
  enqueue down lead fresh req d = enqueue_job down lead fresh req.job d
