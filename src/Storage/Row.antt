-- ===== src/Storage/Row.antt =====
-- The columns of the tables that internal/storage/postgres.go creates (NewPostgresStore), and
-- the two CASE expressions that its statements share. A column that may be NULL is an `Option`;
-- a timestamp counts nanoseconds since the epoch.
use distq_go.Common.{ℕ, String, Bool, true, false, Option, none, some, List, ◌==◌, if◌then◌else◌}
use distq_go.Common.Int.{ℤ, ltz}

-- The text of the column `state`; `other` is any text but the four that the statements name.
pub data State : Type 0 where
  pending processing done failed : State
  other : String → State

abbrev pub state_of_text : String → State
state_of_text s =
    if s == "pending"
    then pending
    else if s == "processing"
    then processing
    else if s == "done"
    then done
    else if s == "failed"
    then failed
    else other s

abbrev pub text_of_state : State → String
text_of_state pending = "pending"
text_of_state processing = "processing"
text_of_state done = "done"
text_of_state failed = "failed"
text_of_state (other s) = s

abbrev pub is_pending : State → Bool
is_pending pending = true
is_pending _ = false

abbrev pub is_processing : State → Bool
is_processing processing = true
is_processing _ = false

-- A row of the table `jobs`.
pub record Row : Type 0 where
  pub id : String
  pub kind : String
  pub payload : List ℕ
  pub state : State
  pub retry_count : ℕ
  pub max_retries : ℤ
  pub last_error : Option String
  pub created_at : ℕ
  pub started_at : Option ℕ
  pub done_at : Option ℕ
  pub next_run_at : Option ℕ
  pub worker_id : String
  pub lease_expires_at : Option ℕ
  pub claim_term : ℕ

-- The one row of the table `leadership`.
pub record LeaderRow : Type 0 where
  pub leader_id : String
  pub term : ℕ
  pub lease_expires_at : ℕ

pub record Db : Type 0 where
  pub jobs : List Row
  pub leader : LeaderRow

abbrev pub has_retries_left : Row → Bool
has_retries_left r = ltz r.retry_count r.max_retries

-- CASE WHEN retry_count < max_retries THEN 'pending' ELSE 'failed' END
abbrev pub retry_decision : Row → State
retry_decision r = if has_retries_left r then pending else failed

-- CASE WHEN retry_count < max_retries THEN NULL ELSE CURRENT_TIMESTAMP END
abbrev pub done_at_decision : Row → ℕ → Option ℕ
done_at_decision r now = if has_retries_left r then none else some now
