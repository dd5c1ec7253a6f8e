-- ===== src/Storage/Lifecycle.antt =====
-- The columns of a row of `jobs` over any history of calls.
use distq_go.Common.{ℕ, ◌≤◌, ◌≡◌, ◌≢◌, true, refl, String, false, ◌||◌, none, some, arith}
use distq_go.Proto.{Job}
use distq_go.Storage.Row.{Row, Db, is_pending, is_processing}
use distq_go.Storage.Statement.{find_job}
use distq_go.Storage.Reply.{Turn, runs}
use distq_go.Storage.Jobs.{create_job, new_row}
use distq_go.Storage.Moves.Calls.{create_job-Unique, find_job-create_job}
use distq_go.Storage.Step.{Call, History, run}
use distq_go.Storage.Rows.{Unique}
use distq_go.Storage.Moves.{Move, stay, claimed, completed, failed, renewed, reaped}
use distq_go.Storage.History.{Holds, run-Holds_always}

-- Neither pending nor processing.
abbrev pub IsSettled : Row → Type 0
IsSettled r = (is_pending r.state || is_processing r.state) ≡ false

Move-IsSettled : {t : Turn} {c : Call} {r r' : Row} → Move t c r r' → IsSettled r → r' ≡ r
Move-IsSettled (stay e) h = e
Move-IsSettled (claimed term worker lease _ v _ e) h = ground arith
Move-IsSettled (completed worker _ o e) h = ground arith
Move-IsSettled (failed worker message base _ o e) h = ground arith
Move-IsSettled (renewed worker lease _ o e) h = ground arith
Move-IsSettled (reaped term _ a e) h = ground arith

-- A job that is done, failed, or in a state that no statement names is left as it is, in every
-- column, by every history of calls. (The ids of the table are distinct.)
pub settled-run :
    (h : History) (db : Db) (k : String) {r : Row}
    → Unique db.jobs
    → find_job k db.jobs ≡ some r
    → IsSettled r
    → find_job k (run h db).jobs ≡ some r
settled-run h db k {r} u e s =
    let (r', end, same) =
      run-Holds_always (λ x. x ≡ r) k h db (λ t c x x' i p m. ground (arith, Move-IsSettled m)) u
        (r, e, refl) in
    ground (arith, end, same)

-- `r'` is `r` at a later time.
pub record IsLater (r r' : Row) : Type 0 where
  pub same_kind : r'.kind ≡ r.kind
  pub same_payload : r'.payload ≡ r.payload
  pub same_budget : r'.max_retries ≡ r.max_retries
  pub same_birth : r'.created_at ≡ r.created_at
  pub retries_grow : r.retry_count ≤ r'.retry_count
  pub terms_grow : r.claim_term ≤ r'.claim_term

Move-IsLater : {t : Turn} {c : Call} {r₀ r r' : Row} → Move t c r r' → IsLater r₀ r → IsLater r₀ r'
Move-IsLater (stay e) l = ground arith
Move-IsLater (claimed term worker lease _ v _ e) l = ground arith
Move-IsLater (completed worker _ o e) l = ground arith
Move-IsLater (failed worker message base _ o e) l = ground arith
Move-IsLater (renewed worker lease _ o e) l = ground arith
Move-IsLater (reaped term _ a e) l = ground arith

-- No history loses a job: its row stays, with the kind, the payload, the retry limit and the
-- creation time that it was given, and its retry count and its claim term never fall. (The ids of
-- the table are distinct.)
pub run-IsLater :
    (h : History) (db : Db) (k : String) {r : Row}
    → Unique db.jobs
    → find_job k db.jobs ≡ some r
    → Holds (IsLater r) k (run h db)
run-IsLater h db k {r} u e =
    run-Holds_always (IsLater r) k h db (λ t c x x' i p m. Move-IsLater m p) u (r, e, ground arith)

-- The columns of a row agree with its state.
pub record IsWf (r : Row) : Type 0 where
  pub owned : is_processing r.state ≡ false → r.worker_id ≡ ""
  pub leased : is_processing r.state ≡ false → r.lease_expires_at ≡ none
  pub due : is_pending r.state ≡ true → r.next_run_at ≢ none

Move-IsWf : {t : Turn} {c : Call} {r r' : Row} → Move t c r r' → IsWf r → IsWf r'
Move-IsWf (stay e) w = ground arith
Move-IsWf (claimed term worker lease _ v _ e) w = ground arith
Move-IsWf (completed worker _ o e) w = ground arith
Move-IsWf (failed worker message base _ o e) w = ground arith
Move-IsWf (renewed worker lease _ o e) w = ground arith
Move-IsWf (reaped term _ a e) w = ground arith

new_row-IsWf : (now : ℕ) (j : Job) → IsWf (new_row now j)
new_row-IsWf now j = ground arith

-- After a CreateJob that took effect and any history of calls, the job, while it is not in
-- processing, names no worker and has no lease, and while it is pending it has a time at which it
-- is due. (The ids of the table are distinct, and the job's is new.)
pub run-IsWf :
    (t : Turn) (j : Job) (h : History) (db : Db)
    → Unique db.jobs
    → find_job j.id db.jobs ≡ none
    → runs t.link ≡ true
    → Holds IsWf j.id (run h (create_job t j db).0)
run-IsWf t j h db u absent up =
    run-Holds_always IsWf j.id h (create_job t j db).0 (λ _ c x x' i p m. Move-IsWf m p)
      (create_job-Unique t db u j)
      (new_row t.now j, find_job-create_job t j db absent up, new_row-IsWf t.now j)
