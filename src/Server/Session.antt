-- ===== src/Server/Session.antt =====
-- JobStream of internal/server/stream.go from the greeting to its return: the loop of the handler
-- over its select cases. Which case comes next, and what other streams do in between, is the
-- environment's.
pub mod Leaves
use distq_go.Common.{ℕ, Bool, Option, none, some, List, [], ◌∷◌}
use distq_go.Proto.{WorkerMessage, get_worker_id, ServerMessage}
use distq_go.Queue.{Queue}
use distq_go.Server.Dispatcher.{Waiter, State, Lead}
use distq_go.Server.Stream.{
  Next, waits, ended, stuck, Admission, invalid_argument, unavailable, admitted, greet, deliver,
  receive, hang_up,
}

-- A turn of the loop: a delivery, a message of the worker, or the end of the stream, of its context
-- or of the reign. `others` is what the other streams and the clients do to the server's state.
pub data Turn (S : Type 0) : Type 0 where
  delivers : (sent : Bool) → Turn S
  hears : (lead : Lead) (sent : Bool) (msg : WorkerMessage) → Turn S
  ends : Turn S
  others : (change : State S → State S) → Turn S

with_message : Option ServerMessage → List ServerMessage → List ServerMessage
with_message none ms = ms
with_message (some m) ms = m ∷ ms

-- The rest of the loop, unless the turn returned or is stuck.
unfoldable pub continue :
    {S : Type 0}
    → State S × Option ServerMessage × Next
    → State S × List ServerMessage × Next
    → State S × List ServerMessage × Next
unfolding with_message
continue (d, m, waits) (d', ms, next) = (d', with_message m ms, next)
continue (d, m, ended) rest = (d, with_message m [], ended)
continue (d, m, stuck) rest = (d, with_message m [], stuck)

-- The deferred forget.
unfoldable pub returning :
    {S : Type 0}
    → Waiter
    → State S × List ServerMessage × Next
    → State S × List ServerMessage × Next
returning w (d, ms, waits) = (d, ms, waits)
returning w (d, ms, ended) = (hang_up w d, ms, ended)
returning w (d, ms, stuck) = (d, ms, stuck)

module _ {S : Type 0} (q : Queue S) where
  -- The messages are those handed to Send.
  unfoldable pub stream_loop :
      Waiter → List (Turn S) → State S → State S × List ServerMessage × Next
  stream_loop w [] d = (d, [], waits)
  stream_loop w (delivers sent ∷ turns) d =
      let now = deliver w sent d in let rest = stream_loop w turns now.0 in continue now rest
  stream_loop w (hears lead sent msg ∷ turns) d =
      let now = receive q lead w sent msg d in
      let rest = stream_loop w turns now.0 in continue now rest
  stream_loop w (ends ∷ turns) d = (d, [], ended)
  stream_loop w (others change ∷ turns) d = stream_loop w turns (change d)

  pub welcomed : Waiter → List (Turn S) → State S × Admission → State S × List ServerMessage × Next
  welcomed w turns (d, invalid_argument) = (d, [], ended)
  welcomed w turns (d, unavailable) = (d, [], ended)
  welcomed w turns (d, admitted waits) = returning w (stream_loop w turns d)
  welcomed w turns (d, admitted ended) = returning w (d, [], ended)
  welcomed w turns (d, admitted stuck) = (d, [], stuck)

  -- JobStream on the stream `i`, whose first message is the greeting.
  unfoldable pub job_stream :
      Lead → ℕ → WorkerMessage → List (Turn S) → State S → State S × List ServerMessage × Next
  unfolding welcomed
  job_stream lead i greeting turns d =
      welcomed (record { worker_id = get_worker_id greeting; stream = i }) turns
        (greet q lead i greeting d)
