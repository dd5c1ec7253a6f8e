-- ===== src/Storage/Attempts.antt =====
-- How often a job is attempted: the retry budget over any history of calls.
use distq_go.Common.{
  ℕ, suc, ◌+◌, ◌≤◌, ◌≡◌, refl, ◌∙◌, String, true, ◌&&◌, Option, none, some, [], ◌∷◌, if◌then◌else◌,
  arith,
}
use distq_go.Common.Int.{pos_part}
use distq_go.Proto.{Job}
use distq_go.Storage.Row.{
  Row, Db, State, pending, processing, done, failed, is_pending, is_processing,
}
use distq_go.Storage.Statement.{find_job}
use distq_go.Storage.Reply.{Turn, runs}
use distq_go.Storage.Jobs.{create_job, new_row, max_retries_or_default}
use distq_go.Storage.Step.{Call, step, History, run}
use distq_go.Storage.Rows.{Unique}
use distq_go.Storage.Moves.{Move, stay, claimed, completed, failed as failed_move, renewed, reaped}
use distq_go.Storage.Moves.Calls.{step-Moved, step-Unique, create_job-Unique, find_job-create_job}
use distq_go.Storage.History.{run-Holds_always}

-- An attempt begins when a row turns from 'pending' to 'processing'.
abbrev pub begins : Option Row → Option Row → ℕ
begins (some r) (some r') = if is_pending r.state && is_processing r'.state then 1 else 0
begins _ _ = 0

-- How many attempts of the job under `k` begin in a history.
pub attempts : String → History → Db → ℕ
attempts k [] db = 0
attempts k ((t, c) ∷ h) db =
    begins (find_job k db.jobs) (find_job k (step t c db).jobs) + attempts k h (step t c db)

-- The attempts that a row has used: its retry count, and the one in progress or successful.
abbrev spent_in : State → ℕ → ℕ
spent_in processing n = suc n
spent_in done n = suc n
spent_in _ n = n

abbrev pub spent : Row → ℕ
spent r = spent_in r.state r.retry_count

-- A row is within its budget, and a pending one has an attempt left.
abbrev pub Fits : Row → Type 0
Fits r = spent r + (if is_pending r.state then 1 else 0) ≤ pos_part r.max_retries + 1

-- A failed row has used its budget up.
abbrev pub Exhausted : Row → Type 0
Exhausted r = r.state ≡ failed → r.retry_count ≡ pos_part r.max_retries + 1

-- One move: what begins is spent, and the budget is kept.
Move-Fits :
    {t : Turn} {c : Call} {r r' : Row}
    → Move t c r r'
    → Fits r
    → (begins (some r) (some r') + spent r ≡ spent r') × Fits r' × (r'.max_retries ≡ r.max_retries)
Move-Fits (stay e) f = ground arith
Move-Fits (claimed term worker lease _ v _ e) f = ground arith
Move-Fits (completed worker _ o e) f = ground arith
Move-Fits (failed_move worker message base _ o e) f = ground arith
Move-Fits (renewed worker lease _ o e) f = ground arith
Move-Fits (reaped term _ a e) f = ground arith

new_row-Fits : (now : ℕ) (j : Job) → Fits (new_row now j)
new_row-Fits now j = ground arith

-- The row at the end of a history, its budget, and the attempts that the history began.
pub attempts-spent :
    (h : History) (db : Db) (k : String) {r : Row}
    → Unique db.jobs
    → find_job k db.jobs ≡ some r
    → Fits r
    → (r' : Row) × (find_job k (run h db).jobs ≡ some r')
      × (attempts k h db + spent r ≡ spent r')
      × Fits r'
      × (r'.max_retries ≡ r.max_retries)
unfolding run attempts
attempts-spent [] db k {r} u e f = (r, e, omega arith, f, refl)
attempts-spent ((t, c) ∷ h) db k {r} u e f =
    let (s, found, m) = step-Moved t k db e c u in
    let first = Move-Fits m f in
    let (r', end, sum, fits, same) =
      attempts-spent h (step t c db) k {r = s} (step-Unique t db u c) found first.1 in
    (r', end, rw (e, found) (omega (arith, first.0, sum)), fits, same ∙ first.2)

-- However the servers and workers of a cluster interleave their calls, and whatever calls or
-- replies fail, a job that CreateJob has inserted is attempted at most max_retries + 1 times,
-- where a max_retries of 0 stands for 3 and a negative one for none. (The ids of the table are
-- distinct, the job's is new, and its INSERT took effect.)
pub attempts-le :
    (t : Turn) (j : Job) (h : History) (db : Db)
    → Unique db.jobs
    → find_job j.id db.jobs ≡ none
    → runs t.link ≡ true
    → attempts j.id h (create_job t j db).0 ≤ pos_part (max_retries_or_default j.max_retries) + 1
attempts-le t j h db u absent up =
    let (r', end, sum, fits, same) =
      attempts-spent h (create_job t j db).0 j.id (create_job-Unique t db u j)
        (find_job-create_job t j db absent up) (new_row-Fits t.now j) in
    ground (arith, sum, fits, same)

Move-Exhausted :
    {t : Turn} {c : Call} {r r' : Row} → Move t c r r' → Fits r → Exhausted r → Exhausted r'
Move-Exhausted (stay e) f x = ground arith
Move-Exhausted (claimed term worker lease _ v _ e) f x = ground arith
Move-Exhausted (completed worker _ o e) f x = ground arith
Move-Exhausted (failed_move worker message base _ o e) f x = ground arith
Move-Exhausted (renewed worker lease _ o e) f x = ground arith
Move-Exhausted (reaped term _ a e) f x = ground arith

-- A pending job with no retry counted that is in the state 'failed' at the end of a history,
-- whatever the history, was attempted exactly max_retries + 1 times in it (a negative max_retries
-- counts as 0). (The ids of the table are distinct.)
pub attempts_of_failed :
    (h : History) (db : Db) (k : String) {r r' : Row}
    → Unique db.jobs
    → find_job k db.jobs ≡ some r
    → r.state ≡ pending
    → r.retry_count ≡ 0
    → find_job k (run h db).jobs ≡ some r'
    → r'.state ≡ failed
    → attempts k h db ≡ pos_part r.max_retries + 1
attempts_of_failed h db k {r} {r'} u e p z end d =
    let fresh : Fits r = ground arith in
    let (s, found, sum, fits, same) = attempts-spent h db k {r = r} u e fresh in
    let (s', found', both) =
      run-Holds_always (λ x. Fits x × Exhausted x) k h db
        (λ t c x x' i f m. ((Move-Fits m f.0).1, Move-Exhausted m f.0 f.1)) u
        (r, e, (fresh, ground arith)) in
    ground (arith, found, found', sum, same, both)
