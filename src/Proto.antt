-- ===== src/Proto.antt =====
-- The messages of api/proto/distq.proto, with the fields and getters of internal/pb/distq.pb.go
-- that the server and the workers use. Bytes are numbers; an unset message is `none`.
use distq_go.Common.{ℕ, String, Option, List}
use distq_go.Common.Int.{ℤ}

pub record Job : Type 0 where
  pub id : String
  pub kind : String
  pub payload : List ℕ
  pub status : String
  pub error : String
  pub retry_count : ℕ
  pub max_retries : ℤ

pub record EnqueueRequest : Type 0 where
  pub job : Option Job

pub record EnqueueResponse : Type 0 where
  pub job_id : String
  pub error : String

-- The oneof of a WorkerMessage; `unset` is a message in which none is set.
pub data WorkerMessage : Type 0 where
  hello : (worker_id : String) → WorkerMessage
  heartbeat : (job_id : String) → WorkerMessage
  completed : (job_id : String) → WorkerMessage
  failed : (job_id error_message : String) → WorkerMessage
  unset : WorkerMessage

-- GetHello().GetWorkerId(): empty when the message is not a Hello.
abbrev pub get_worker_id : WorkerMessage → String
get_worker_id (hello worker_id) = worker_id
get_worker_id _ = ""

pub data Outcome : Type 0 where
  unspecified accepted refused retrying dead_lettered : Outcome

pub record Assigned : Type 0 where
  pub job : Job
  pub lease_seconds : ℕ

pub record JobResult : Type 0 where
  pub job_id : String
  pub outcome : Outcome
  pub error : String

pub data ServerMessage : Type 0 where
  assigned : Assigned → ServerMessage
  result : JobResult → ServerMessage
  lost : (job_id : String) → ServerMessage
