-- ===== src/Storage/Stranded.antt =====
-- CreateJob stores the status that the caller sends. What becomes of a job that arrives as
-- 'processing'.
use distq_go.Common.{◌≡◌, refl, String, true, false, none, some, [], ◌∷◌, eq_iff, arith, All}
use distq_go.Proto.{Job}
use distq_go.Storage.Row.{Row, Db, processing}
use distq_go.Storage.Statement.{find_job}
use distq_go.Storage.Reply.{Turn, runs}
use distq_go.Storage.Jobs.{create_job, new_row}
use distq_go.Storage.Step.{Call, History, run}
use distq_go.Storage.Rows.{Unique}
use distq_go.Storage.Moves.{Move, stay, claimed, completed, failed, renewed, reaped}
use distq_go.Storage.Moves.Calls.{create_job-Unique, find_job-create_job}
use distq_go.Storage.History.{Keeps, run-Holds}
use distq_go.Storage.Leases.{reports_on}

-- A call that is no report under the empty worker name, which the server refuses to admit.
abbrev pub NamesAWorker : String → Turn × Call → Type 0
NamesAWorker k (t, c) = reports_on k "" c ≡ false

-- In processing for nobody, under no lease.
abbrev IsUnowned : Row → Type 0
IsUnowned r = (r.state ≡ processing) × (r.worker_id ≡ "") × (r.lease_expires_at ≡ none)

Move-IsUnowned :
    (k : String) {t : Turn} {c : Call} {r r' : Row}
    → NamesAWorker k (t, c)
    → r.id ≡ k
    → Move t c r r'
    → IsUnowned r
    → r' ≡ r
Move-IsUnowned k w i (stay e) l = e
Move-IsUnowned k w i (claimed term other lease _ v _ e) l = ground arith
Move-IsUnowned k {r = r} w i (completed other c o e) l =
    ground (arith, eq_iff r.id k, eq_iff other "", eq_iff r.worker_id other)
Move-IsUnowned k {r = r} w i (failed other message base c o e) l =
    ground (arith, eq_iff r.id k, eq_iff other "", eq_iff r.worker_id other)
Move-IsUnowned k {r = r} w i (renewed other lease c o e) l =
    ground (arith, eq_iff r.id k, eq_iff other "", eq_iff r.worker_id other)
Move-IsUnowned k w i (reaped term _ a e) l = ground arith

-- A job that is enqueued with the status 'processing' is stranded: no history of calls that holds
-- no report under the empty worker name changes its row. (The ids of the table are distinct, the
-- job's is new, and its INSERT took effect.)
pub stranded-run :
    (t : Turn) (j : Job) (h : History) (db : Db)
    → Unique db.jobs
    → find_job j.id db.jobs ≡ none
    → runs t.link ≡ true
    → j.status ≡ "processing"
    → All (NamesAWorker j.id) h
    → find_job j.id (run h (create_job t j db).0).jobs ≡ some (new_row t.now j)
stranded-run t j h db u absent up status named =
    let (r', end, same) =
      run-Holds (λ x. x ≡ new_row t.now j) j.id h (create_job t j db).0 (keeps h named)
        (create_job-Unique t db u j)
        (new_row t.now j, find_job-create_job t j db absent up, refl) in
    ground (arith, end, same)
  where
    starts : (new_row t.now j).state ≡ processing
    starts = rw status

    keeps :
        (g : History) → All (NamesAWorker j.id) g → All (Keeps (λ x. x ≡ new_row t.now j) j.id) g
    keeps [] w = tt
    keeps (ev ∷ g) w = (
      (λ x x' i p m. ground (arith, starts, Move-IsUnowned j.id {r = x} {r' = x'} w.0 i m)),
      keeps g w.1,
    )
