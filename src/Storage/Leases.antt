-- ===== src/Storage/Leases.antt =====
-- A lease and a backoff window, over the calls of everybody else.
use distq_go.Common.{
  ℕ, ◌≤◌, ◌<◌, ◌≡◌, refl, String, Bool, false, ◌&&◌, some, [], ◌∷◌, ◌==◌, eq_iff, arith, All,
}
use distq_go.Storage.Row.{Row, Db, pending, processing}
use distq_go.Storage.Statement.{find_job}
use distq_go.Storage.Reply.{Turn}
use distq_go.Storage.Step.{Call, completes, fails, heartbeats, History, run}
use distq_go.Storage.Rows.{Unique}
use distq_go.Storage.Moves.{Move, stay, claimed, completed, failed, renewed, reaped}
use distq_go.Storage.History.{Keeps, run-Holds}

-- Whether a call is a report or a heartbeat of one worker on one job.
abbrev pub reports_on : String → String → Call → Bool
reports_on k worker (completes id w) = id == k && w == worker
reports_on k worker (fails id w message base) = id == k && w == worker
reports_on k worker (heartbeats id w lease) = id == k && w == worker
reports_on k worker _ = false

module _ (k worker : String) (until : ℕ) where
  -- A call no later than the lease, and not the owner's own.
  abbrev pub WithinLease : Turn × Call → Type 0
  WithinLease (t, c) = (t.now ≤ until) × (reports_on k worker c ≡ false)

  abbrev pub IsLeased : Row → Type 0
  IsLeased r = (r.state ≡ processing) × (r.worker_id ≡ worker) × (r.lease_expires_at ≡ some until)

  pub Move-IsLeased :
      {t : Turn} {c : Call} {r r' : Row}
      → WithinLease (t, c)
      → r.id ≡ k
      → Move t c r r'
      → IsLeased r
      → r' ≡ r
  Move-IsLeased w i (stay e) l = e
  Move-IsLeased w i (claimed term other lease _ v _ e) l = ground arith
  Move-IsLeased {r} w i (completed other c o e) l =
      ground (arith, eq_iff r.id k, eq_iff other worker, eq_iff r.worker_id other)
  Move-IsLeased {r} w i (failed other message base c o e) l =
      ground (arith, eq_iff r.id k, eq_iff other worker, eq_iff r.worker_id other)
  Move-IsLeased {r} w i (renewed other lease c o e) l =
      ground (arith, eq_iff r.id k, eq_iff other worker, eq_iff r.worker_id other)
  Move-IsLeased w i (reaped term _ a e) l = ground arith

  -- While a worker's lease on a job in processing lasts, no call of anybody else touches the job:
  -- no claim, no sweep by a leader of any term, and no report or heartbeat under another worker's
  -- name. (The ids of the table are distinct.)
  pub leased-run :
      (h : History) (db : Db) {r : Row}
      → Unique db.jobs
      → find_job k db.jobs ≡ some r
      → IsLeased r
      → All WithinLease h
      → find_job k (run h db).jobs ≡ some r
  leased-run h db {r} u e l within =
      let (r', end, same) = run-Holds (λ x. x ≡ r) k h db (keeps h within) u (r, e, refl) in
      ground (arith, end, same)
    where
      keeps : (g : History) → All WithinLease g → All (Keeps (λ x. x ≡ r) k) g
      keeps [] w = tt
      keeps (ev ∷ g) w =
          ((λ x x' i p m. ground (arith, Move-IsLeased {r = x} {r' = x'} w.0 i m)), keeps g w.1)

-- A pending job that is due later than every call of a history is left alone by it: a backoff
-- window cannot be cut short.
module _ (k : String) (due : ℕ) where
  abbrev pub BeforeDue : Turn × Call → Type 0
  BeforeDue (t, c) = t.now < due

  abbrev pub IsWaiting : Row → Type 0
  IsWaiting r = (r.state ≡ pending) × (r.next_run_at ≡ some due)

  Move-IsWaiting :
      {t : Turn} {c : Call} {r r' : Row} → BeforeDue (t, c) → Move t c r r' → IsWaiting r → r' ≡ r
  Move-IsWaiting w (stay e) l = e
  Move-IsWaiting w (claimed term other lease _ v _ e) l = ground arith
  Move-IsWaiting w (completed other c o e) l = ground arith
  Move-IsWaiting w (failed other message base c o e) l = ground arith
  Move-IsWaiting w (renewed other lease c o e) l = ground arith
  Move-IsWaiting w (reaped term _ a e) l = ground arith

  pub waiting-run :
      (h : History) (db : Db) {r : Row}
      → Unique db.jobs
      → find_job k db.jobs ≡ some r
      → IsWaiting r
      → All BeforeDue h
      → find_job k (run h db).jobs ≡ some r
  waiting-run h db {r} u e l before =
      let (r', end, same) = run-Holds (λ x. x ≡ r) k h db (keeps h before) u (r, e, refl) in
      ground (arith, end, same)
    where
      keeps : (g : History) → All BeforeDue g → All (Keeps (λ x. x ≡ r) k) g
      keeps [] w = tt
      keeps (ev ∷ g) w =
          ((λ x x' i p m. ground (arith, Move-IsWaiting {r = x} {r' = x'} w.0 m)), keeps g w.1)
