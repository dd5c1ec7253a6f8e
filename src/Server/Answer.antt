-- ===== src/Server/Answer.antt =====
-- The reply of a job stream to one message of its worker: answer and result of
-- internal/server/stream.go. What it logs is left out.
use Prim.Native.String.{◌++◌}
use distq_go.Common.{String, Bool, true, false, Option, none, some}
use distq_go.Proto.{
  WorkerMessage, hello, heartbeat, completed, failed, unset, Outcome, accepted, refused, retrying,
  dead_lettered, ServerMessage, result, lost,
}
use distq_go.Storage.Reply.{Error, lease_lost, driver, wrapped, Result, ok, err}
use distq_go.Queue
use distq_go.Queue.{Queue}

-- err.Error()
pub error_text : Error → String
error_text lease_lost = "job lease lost or expired"
error_text (driver e) = e
error_text (wrapped prefix e) = prefix ++ (": " ++ error_text e)

abbrev pub reason_text : Option Error → String
reason_text none = ""
reason_text (some e) = error_text e

-- The reply to a report; the reason is `none` unless the report was refused.
abbrev pub reply_to : String → Outcome → Option Error → ServerMessage
reply_to id outcome reason =
    result (record { job_id = id; outcome = outcome; error = reason_text reason })

-- The reply to send, if any, and whether the worker is free for more work.
abbrev pub Verdict : Type 0
Verdict = Option ServerMessage × Bool

module _ {S : Type 0} where
  after_heartbeat : String → S × Result Bool → S × Verdict
  after_heartbeat id (s, err e) = (s, (none, false))
  after_heartbeat id (s, ok true) = (s, (none, false))
  after_heartbeat id (s, ok false) = (s, (some (lost id), true))

  after_complete : String → S × Result (Unit {0}) → S × Verdict
  after_complete id (s, err e) = (s, (some (reply_to id refused (some e)), true))
  after_complete id (s, ok u) = (s, (some (reply_to id accepted none), true))

  after_fail : String → S × Result Bool → S × Verdict
  after_fail id (s, err e) = (s, (some (reply_to id refused (some e)), true))
  after_fail id (s, ok true) = (s, (some (reply_to id retrying none), true))
  after_fail id (s, ok false) = (s, (some (reply_to id dead_lettered none), true))

  unfoldable pub answer : Queue S → String → WorkerMessage → S → S × Verdict
  unfolding after_heartbeat after_complete after_fail
  answer q worker (hello name) s = (s, (none, false))
  answer q worker (heartbeat id) s = after_heartbeat id (Queue.heartbeat q id worker s)
  answer q worker (completed id) s = after_complete id (Queue.complete q id worker s)
  answer q worker (failed id message) s = after_fail id (Queue.fail q id worker message s)
  answer q worker unset s = (s, (none, false))
