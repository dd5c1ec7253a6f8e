-- ===== src/Worker/Handler.antt =====
-- The handler of a job in cmd/worker/main.go: what its simulated work comes to, and the loop that
-- sends its heartbeats. When a context ends is the environment's.
use Prim.Native.String.{◌++◌}
use distq_go.Common.{
  ℕ, suc, String, Bool, true, false, Option, none, some, List, [], ◌∷◌, ◌==◌, leb, if◌then◌else◌,
}
use distq_go.Proto.{Job, WorkerMessage, heartbeat}

-- Whether the work is done before the handler's context ends, and else the context's error.
pub data Work : Type 0 where
  is_done : Work
  is_cut : (error : String) → Work

-- `attempt := int(job.RetryCount) + 1`
abbrev pub attempt_of : Job → ℕ
attempt_of job = suc job.retry_count

-- What fmt prints for the first and the second attempt.
abbrev digit : ℕ → String
digit attempt = if leb attempt 1 then "1" else "2"

-- The select at the end of handle.
abbrev pub working : Work → Option String
working is_done = none
working (is_cut error) = some error

-- The error that handle returns.
abbrev pub handle : String → ℕ → Work → Option String
handle kind attempt work =
    if kind == "flaky"
    then (if leb attempt 2
        then some ("transient failure (simulated), attempt " ++ digit attempt)
        else none)
    else if kind == "doomed"
    then some "this job never succeeds (simulated)"
    else working work

-- One turn of the loop of beatLease: the context has ended, or the ticker fires and Send works or
-- fails.
pub data Beat : Type 0 where
  stops : Beat
  fires : (sent : Bool) → Beat

-- The messages that beatLease hands to Send, and whether it has returned.
unfoldable pub beat_lease : String → List Beat → List WorkerMessage × Bool
beat_lease id [] = ([], false)
beat_lease id (stops ∷ beats) = ([], true)
beat_lease id (fires true ∷ beats) =
    let (sent, over) = beat_lease id beats in (heartbeat id ∷ sent, over)
beat_lease id (fires false ∷ beats) = (heartbeat id ∷ [], true)
