-- ===== src/Storage/Heartbeats.antt =====
-- A worker that keeps its lease alive by heartbeats, over the calls of everybody else.
use distq_go.Common.{ℕ, ◌+◌, ◌≤◌, ◌≡◌, refl, ap, ◌∙◌, inl, inr, ◌⊎◌, String, false, some, [], ◌∷◌}
use distq_go.Storage.Row.{Row, Db, processing}
use distq_go.Storage.Statement.{find_job}
use distq_go.Storage.Reply.{Turn, answered}
use distq_go.Storage.Jobs.{heartbeat_row}
use distq_go.Storage.Step.{heartbeats, step, History, run}
use distq_go.Storage.Rows.{Unique, find_job-id}
use distq_go.Storage.Moves.Calls.{step-Moved, step-Unique}
use distq_go.Storage.Leases.{reports_on, IsLeased, Move-IsLeased}
use distq_go.Storage.Reports.{heartbeat_job-OnlyChanged}

-- A history in which every call comes before the lease has ended that the worker's last heartbeat
-- set, or is the worker's next heartbeat, answered. The worker makes no report on the job.
abbrev pub BeatenInTime : String → String → ℕ → ℕ → History → Type 0
BeatenInTime k worker lease until [] = Unit {0}
BeatenInTime k worker lease until ((t, c) ∷ h) =
    ((t.now ≤ until) × (reports_on k worker c ≡ false) × BeatenInTime k worker lease until h)
    ⊎ ((c ≡ heartbeats k worker lease)
        × (t.link ≡ answered)
        × BeatenInTime k worker lease (t.now + lease) h)

module _ (k worker : String) (lease : ℕ) where
  -- A heartbeat of the holder.
  beat :
      (t : Turn) (db : Db) {r : Row} {until : ℕ}
      → find_job k db.jobs ≡ some r
      → IsLeased k worker until r
      → t.link ≡ answered
      → find_job k (step t (heartbeats k worker lease) db).jobs ≡ some (heartbeat_row t.now lease r)
  unfolding step
  beat t db {r} e l a = (heartbeat_job-OnlyChanged t k worker db {r = r} e l.1 l.0 a lease).1.0

  -- A worker that keeps its lease alive keeps its job: whatever the others do, at the end of a
  -- history in which no call comes after the end of the lease that its last heartbeat set, other
  -- than its next heartbeat, the job is in processing under its name still. (The ids of the table
  -- are distinct, the heartbeats are answered, and the worker makes no report on the job.)
  pub beaten-run :
      (h : History) (db : Db) {r : Row} (until : ℕ)
      → Unique db.jobs
      → find_job k db.jobs ≡ some r
      → IsLeased k worker until r
      → BeatenInTime k worker lease until h
      → (r' : Row) × (find_job k (run h db).jobs ≡ some r')
        × (r'.state ≡ processing)
        × (r'.worker_id ≡ worker)
  unfolding run
  beaten-run [] db {r} until u e l b = (r, e, l.0, l.1)
  beaten-run ((t, c) ∷ h) db {r} until u e l (inl (within, no_report, rest)) =
      let (s, found, m) = step-Moved t k {r = r} db e c u in
      let same : s ≡ r =
        Move-IsLeased k worker until (within, no_report) (find_job-id k db.jobs e) m l in
      beaten-run h (step t c db) {r = r} until (step-Unique t db u c) (found ∙ ap some same) l rest
  beaten-run ((t, c) ∷ h) db {r} until u e l (inr (own, a, rest)) =
      beaten-run h (step t c db) {r = heartbeat_row t.now lease r} (t.now + lease)
        (step-Unique t db u c) (rw own (beat t db {r = r} e l a)) (l.0, l.1, refl) rest
