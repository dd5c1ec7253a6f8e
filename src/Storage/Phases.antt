-- ===== src/Storage/Phases.antt =====
-- The life of a job as the store promises it, without the table: a machine of phases, and the
-- statements of internal/storage/postgres.go as steps of it.
use distq_go.Common.{
  ℕ, suc, ◌+◌, ◌*◌, ◌^◌, ◌-◌, ◌≤◌, ◌<◌, ◌≡◌, refl, inl, inr, String, true, Option, some, [], ◌∷◌,
  eq_iff, arith, ap, Bool-cases, Option-cases,
}
use distq_go.Common.Int.{pos_part}
use distq_go.Storage.Row.{Row, Db, State, pending, processing, done, failed, has_retries_left}
use distq_go.Storage.Statement.{find_job}
use distq_go.Storage.Reply.{Turn}
use distq_go.Storage.Jobs.{is_visible, is_owned_by, is_abandoned, claim_row, fail_row, reap_row}
use distq_go.Storage.Step.{Call, dequeues, completes, fails, heartbeats, reaps, step, History, run}
use distq_go.Storage.Rows.{Unique, find_job-id}
use distq_go.Storage.Moves.{Move, stay, claimed, completed, failed, renewed, reaped}
use distq_go.Storage.Moves.Calls.{step-Moved, step-Unique}

-- A job waits until it is due; or it runs for a worker under a lease; or it is over. `tried` counts
-- the attempts that failed, and `left` the retries that are left.
pub data Phase : Type 0 where
  waits : (due : Option ℕ) (tried left : ℕ) → Phase
  runs_for : (worker : String) (until : Option ℕ) (tried left : ℕ) → Phase
  over : State → Phase

-- The phase that a row stands for: it forgets the payload, the times and the terms.
abbrev pub phase_in : State → Row → Phase
phase_in pending r = waits r.next_run_at r.retry_count (pos_part r.max_retries - r.retry_count)
phase_in processing r =
    runs_for r.worker_id r.lease_expires_at r.retry_count (pos_part r.max_retries - r.retry_count)
phase_in s r = over s

abbrev pub phase_of : Row → Phase
phase_of r = phase_in r.state r

-- What one call may make of the job `k`.
pub data Promise (t : Turn) (c : Call) (k : String) (p p' : Phase) : Type 0 where
  -- Any call may leave the job alone.
  unchanged : p' ≡ p → Promise t c k p p'
  -- A claim takes a job that is due.
  starts :
      (term : ℕ) (worker : String) (lease due tried left : ℕ)
      → c ≡ dequeues term worker lease
      → due ≤ t.now
      → p ≡ waits (some due) tried left
      → p' ≡ runs_for worker (some (t.now + lease)) tried left
      → Promise t c k p p'
  -- Only the worker that it runs for completes it, fails it or extends its lease.
  succeeds :
      (worker : String) (until : Option ℕ) (tried left : ℕ)
      → c ≡ completes k worker
      → p ≡ runs_for worker until tried left
      → p' ≡ over done
      → Promise t c k p p'
  retries :
      (worker message : String) (until : Option ℕ) (base tried left : ℕ)
      → c ≡ fails k worker message base
      → p ≡ runs_for worker until tried (suc left)
      → p' ≡ waits (some (t.now + base * 2 ^ tried)) (suc tried) left
      → Promise t c k p p'
  gives_up :
      (worker message : String) (until : Option ℕ) (base tried : ℕ)
      → c ≡ fails k worker message base
      → p ≡ runs_for worker until tried 0
      → p' ≡ over failed
      → Promise t c k p p'
  extends :
      (worker : String) (until : Option ℕ) (lease tried left : ℕ)
      → c ≡ heartbeats k worker lease
      → p ≡ runs_for worker until tried left
      → p' ≡ runs_for worker (some (t.now + lease)) tried left
      → Promise t c k p p'
  -- A sweep takes it from its worker only once the lease has ended, and at the cost of a retry.
  expires :
      (term : ℕ) (worker : String) (until tried left : ℕ)
      → c ≡ reaps term
      → until < t.now
      → p ≡ runs_for worker (some until) tried (suc left)
      → p' ≡ waits (some t.now) (suc tried) left
      → Promise t c k p p'
  expires_last :
      (term : ℕ) (worker : String) (until tried : ℕ)
      → c ≡ reaps term
      → until < t.now
      → p ≡ runs_for worker (some until) tried 0
      → p' ≡ over failed
      → Promise t c k p p'

-- One step of the machine for each call of a history.
abbrev pub KeepsPromises : String → History → Phase → Phase → Type 0
KeepsPromises k [] p p' = p' ≡ p
KeepsPromises k ((t, c) ∷ h) p p' =
    (next : Phase) × Promise t c k p next × KeepsPromises k h next p'

-- The retries that a row has left.
abbrev left_of : Row → ℕ
left_of r = pos_part r.max_retries - r.retry_count

module _ (t : Turn) (c : Call) (k : String) (r r' : Row) (i : r.id ≡ k) where
  -- A fence that has asked for a row.
  owned :
      (worker : String)
      → is_owned_by r.id worker r ≡ true
      → (r.state ≡ processing) × (worker ≡ r.worker_id)
  owned worker o = ground (arith, eq_iff r.worker_id worker)

  runs :
      r.state ≡ processing
      → phase_of r ≡ runs_for r.worker_id r.lease_expires_at r.retry_count (left_of r)
  runs p = ground arith

  claim-Promise :
      (term : ℕ) (worker : String) (lease : ℕ)
      → c ≡ dequeues term worker lease
      → is_visible t.now r ≡ true
      → r' ≡ claim_row t.now term worker lease r
      → Promise t c k (phase_of r) (phase_of r')
  claim-Promise term worker lease e v same = elim (Option-cases r.next_run_at) [
    | inl never ↦ absurd (ground arith)
    | inr (due, at) ↦
        starts term worker lease due r.retry_count (left_of r) e (ground arith) (ground arith)
          (rw same)
  ]

  fail-Promise :
      (worker message : String) (base : ℕ)
      → c ≡ fails r.id worker message base
      → is_owned_by r.id worker r ≡ true
      → r' ≡ fail_row t.now message base r
      → Promise t c k (phase_of r) (phase_of r')
  fail-Promise worker message base e o same =
      let (running, mine) = owned worker o in
      let call : c ≡ fails k r.worker_id message base = ground (arith, e, i, mine) in
      elim (Bool-cases (has_retries_left r)) [
        | inl more ↦
            retries r.worker_id message r.lease_expires_at base r.retry_count (left_of r - 1) call
              (ground arith) (ground arith)
        | inr spent ↦
            gives_up r.worker_id message r.lease_expires_at base r.retry_count call (ground arith)
              (ground arith)
      ]

  reap-Promise :
      (term : ℕ)
      → c ≡ reaps term
      → is_abandoned t.now term r ≡ true
      → r' ≡ reap_row t.now r
      → Promise t c k (phase_of r) (phase_of r')
  reap-Promise term e a same = elim (Option-cases r.lease_expires_at) [
    | inl never ↦ absurd (ground arith)
    | inr (until, at) ↦ elim (Bool-cases (has_retries_left r)) [
      | inl more ↦
          expires term r.worker_id until r.retry_count (left_of r - 1) e (ground arith)
            (ground arith) (ground arith)
      | inr spent ↦
          expires_last term r.worker_id until r.retry_count e (ground arith) (ground arith)
            (ground arith)
    ]
  ]

  Move-Promise : Move t c r r' → Promise t c k (phase_of r) (phase_of r')
  Move-Promise (stay e) = unchanged (ap phase_of e)
  Move-Promise (claimed term worker lease e v _ same) = claim-Promise term worker lease e v same
  Move-Promise (completed worker e o same) =
      let (running, mine) = owned worker o in
      succeeds r.worker_id r.lease_expires_at r.retry_count (left_of r) (ground (arith, e, i, mine))
        (runs running) (rw same)
  Move-Promise (failed worker message base e o same) = fail-Promise worker message base e o same
  Move-Promise (renewed worker lease e o same) =
      let (running, mine) = owned worker o in
      extends r.worker_id r.lease_expires_at lease r.retry_count (left_of r)
        (ground (arith, e, i, mine)) (runs running) (ground arith)
  Move-Promise (reaped term e a same) = reap-Promise term e a same

-- The store keeps its promises: over any history of calls, the row of a job goes through the phases
-- of the machine, one step for each call. (The ids of the table are distinct.)
pub run-KeepsPromises :
    (h : History) (db : Db) (k : String) {r : Row}
    → Unique db.jobs
    → find_job k db.jobs ≡ some r
    → (r' : Row) × (find_job k (run h db).jobs ≡ some r')
      × KeepsPromises k h (phase_of r) (phase_of r')
unfolding run
run-KeepsPromises [] db k {r} u e = (r, e, refl)
run-KeepsPromises ((t, c) ∷ h) db k {r} u e =
    let (s, found, m) = step-Moved t k {r = r} db e c u in
    let (r', end, kept) =
      run-KeepsPromises h (step t c db) k {r = s} (step-Unique t db u c) found in
    (r', end, (phase_of s, Move-Promise t c k r s (find_job-id k db.jobs e) m, kept))
