-- ===== src/Storage/Claims.antt =====
-- What DequeueJob hands out, when it hands out nothing, and whose claims it admits.
use distq_go.Common.{
  ℕ, ◌+◌, ◌%◌, ◌≤◌, ◌<◌, ◌≡◌, ◌≢◌, refl, subst, inl, inr, String, Bool, true, false, ◌&&◌, not,
  none, some, List, ◌==◌, eq_iff, arith, Option-cases, All, length, get_elem?-lt,
}
use distq_go.Proto.{Job}
use distq_go.Storage.Row.{Row, Db, processing}
use distq_go.Storage.Statement.{update_where, find_job}
use distq_go.Storage.Reply.{Turn, answered, ok}
use distq_go.Storage.Jobs.{
  dequeue_job, pick, candidates, is_visible, claim_row, job_of_row, is_abandoned,
}
use distq_go.Storage.Step.{dequeues, step, History, run}
use distq_go.Storage.Rows.{
  Unique, find_job-update_where, find_job-update_where_ne, length-select-pos,
}
use distq_go.Storage.Moves.{pick-visible}
use distq_go.Storage.Moves.Calls.{step-Unique}
use distq_go.Storage.History.{run-Unique}
use distq_go.Storage.Leases.{WithinLease, leased-run}
use distq_go.Storage.Reports.{OnlyChanged}

-- A row that a claim may take.
abbrev pub IsClaimable : Turn → Row → Type 0
IsClaimable t r = (is_visible t.now r ≡ true) × (t.locked r.id ≡ false)

-- The database after the claim of the row `r`.
abbrev after_claim : Turn → ℕ → String → ℕ → Row → Db → Db
after_claim t term worker lease r db = record db {
  jobs = update_where (λ x. x.id == r.id) (claim_row t.now term worker lease) db.jobs;
}

-- Setting the columns of a claim on the row that was picked changes that row alone.
claim-OnlyChanged :
    (t : Turn) (term : ℕ) (worker : String) (lease : ℕ) (db : Db) (r : Row)
    → find_job r.id db.jobs ≡ some r
    → OnlyChanged r.id
        (claim_row t.now term worker lease r)
        db
        (after_claim t term worker lease r db)
claim-OnlyChanged t term worker lease db r e =
    let p : Row → Bool = λ x. x.id == r.id in
    let f = claim_row t.now term worker lease in
    (
      ground (arith, find_job-update_where p f (λ x. refl) r.id db.jobs, eq_iff r.id r.id),
      (λ k. ground (
        arith,
        eq_iff k r.id,
        eq_iff r.id r.id,
        find_job-update_where p f (λ x. refl) r.id db.jobs,
        find_job-update_where_ne p r.id (λ x h. (eq_iff x.id r.id).0 h) f k db.jobs (λ x. refl),
      )),
      refl,
    )

-- The row that the subquery picks, where the statement takes effect and is answered.
dequeue_job-picked :
    (t : Turn) (term : ℕ) (worker : String) (lease : ℕ) (db : Db) {r : Row}
    → Unique db.jobs
    → pick t db.jobs ≡ some r
    → t.link ≡ answered
    → ((dequeue_job t term worker lease db).1
        ≡ ok (some (job_of_row (claim_row t.now term worker lease r))))
      × OnlyChanged r.id
          (claim_row t.now term worker lease r)
          db
          (dequeue_job t term worker lease db).0
unfolding dequeue_job
dequeue_job-picked t term worker lease db {r} u e a =
    rw (e, a)
      (refl, claim-OnlyChanged t term worker lease db r (pick-visible t db.jobs {r = r} u e).2)

-- A claim that finds nothing leaves the table alone.
dequeue_job-nothing :
    (t : Turn) (term : ℕ) (worker : String) (lease : ℕ) (db : Db)
    → pick t db.jobs ≡ none
    → t.link ≡ answered
    → dequeue_job t term worker lease db ≡ (db, ok none)
unfolding dequeue_job
dequeue_job-nothing t term worker lease db e a = rw (e, a)

pick-some :
    (t : Turn) (k : String) (rows : List Row) {r : Row}
    → find_job k rows ≡ some r
    → IsClaimable t r
    → (x : Row) × (pick t rows ≡ some x)
unfolding pick
pick-some t k rows {r} e c =
    get_elem?-lt (candidates t rows) (t.order % length (candidates t rows)) (
      omega (
        arith,
        length-select-pos (λ x. is_visible t.now x && not (t.locked x.id)) k rows {r = r} e
            (ground arith),
      ))

-- A call that returned a job had a row picked, and took effect on it.
dequeue_job-inverted :
    (t : Turn) (term : ℕ) (worker : String) (lease : ℕ) (db : Db) {j : Job}
    → (dequeue_job t term worker lease db).1 ≡ ok (some j)
    → (r : Row) × (pick t db.jobs ≡ some r)
      × (j ≡ job_of_row (claim_row t.now term worker lease r))
      × ((dequeue_job t term worker lease db).0 ≡ after_claim t term worker lease r db)
unfolding dequeue_job
dequeue_job-inverted t term worker lease db {j} got = elim (Option-cases (pick t db.jobs)) [
  | inl e ↦ absurd (ground (arith, e))
  | inr (r, e) ↦ (r, e, ground (arith, e), ground (arith, e))
]

-- A job that a claim hands out stood in the table under its id as a row that was pending, due and
-- not locked; its row is now in processing under the worker's name with a full lease, the job is
-- that row, and no other row changed. (The ids of the table are distinct.)
pub dequeue_job-claims :
    (t : Turn) (term : ℕ) (worker : String) (lease : ℕ) (db : Db) {j : Job}
    → Unique db.jobs
    → (dequeue_job t term worker lease db).1 ≡ ok (some j)
    → (r : Row) × (find_job j.id db.jobs ≡ some r)
      × IsClaimable t r
      × (j ≡ job_of_row (claim_row t.now term worker lease r))
      × OnlyChanged j.id
          (claim_row t.now term worker lease r)
          db
          (dequeue_job t term worker lease db).0
dequeue_job-claims t term worker lease db {j} u got =
    let (r, picked, j_of, db_of) = dequeue_job-inverted t term worker lease db got in
    let (visible, unlocked, found) = pick-visible t db.jobs {r = r} u picked in
    let here : r.id ≡ j.id = ground (arith, j_of) in
    (
      r,
      subst (λ i. find_job i db.jobs ≡ some r) here found,
      (visible, unlocked),
      j_of,
      rw db_of (
          subst
            (λ i.
              OnlyChanged i (claim_row t.now term worker lease r) db
                (after_claim t term worker lease r db))
            here (claim-OnlyChanged t term worker lease db r found)),
    )

-- Whenever a row is pending, due and not locked, a claim that is answered returns a job. (The ids
-- of the table are distinct.)
pub dequeue_job-finds :
    (t : Turn) (term : ℕ) (worker : String) (lease : ℕ) (db : Db) (k : String) {r : Row}
    → Unique db.jobs
    → t.link ≡ answered
    → find_job k db.jobs ≡ some r
    → IsClaimable t r
    → (j : Job) × ((dequeue_job t term worker lease db).1 ≡ ok (some j))
dequeue_job-finds t term worker lease db k {r} u a e c =
    let (x, picked) = pick-some t k db.jobs {r = r} e c in
    (
      job_of_row (claim_row t.now term worker lease x),
      (dequeue_job-picked t term worker lease db {r = x} u picked a).0,
    )

-- Whenever no row is pending, due and not locked, a claim that is answered returns none and
-- changes nothing. (The ids of the table are distinct.)
pub dequeue_job-finds_none :
    (t : Turn) (term : ℕ) (worker : String) (lease : ℕ) (db : Db)
    → Unique db.jobs
    → t.link ≡ answered
    → ((k : String) (r : Row) → find_job k db.jobs ≡ some r → ¬ IsClaimable t r)
    → dequeue_job t term worker lease db ≡ (db, ok none)
dequeue_job-finds_none t term worker lease db u a nobody = elim (Option-cases (pick t db.jobs)) [
  | inl e ↦ dequeue_job-nothing t term worker lease db e a
  | inr (x, e) ↦
      let (visible, unlocked, found) = pick-visible t db.jobs {r = x} u e in
      absurd (nobody x.id x found (visible, unlocked))
]

-- Between a claim and the end of its lease the job is handed to nobody else: whatever the others
-- do in the meantime, and whichever servers dispatch, a second claim no later than the end of the
-- lease gives another job, as long as the first worker has not reported on it. (The ids of the
-- table are distinct.)
pub dequeue_job_twice :
    (t t' : Turn) (term term' lease lease' : ℕ) (worker worker' : String) (h : History) (db : Db)
    {j j' : Job}
    → Unique db.jobs
    → (dequeue_job t term worker lease db).1 ≡ ok (some j)
    → All (WithinLease j.id worker (t.now + lease)) h
    → t'.now ≤ t.now + lease
    → (dequeue_job t' term' worker' lease' (run h (dequeue_job t term worker lease db).0)).1
      ≡ ok (some j')
    → j'.id ≢ j.id
dequeue_job_twice t t' term term' lease lease' worker worker' h db {j} {j'} u got within le again
      same =
    let (r, found, c, j_of, only) = dequeue_job-claims t term worker lease db {j = j} u got in
    let u' = step-Unique t db u (dequeues term worker lease) in
    let still =
      leased-run j.id worker (t.now + lease) h (dequeue_job t term worker lease db).0
        {r = claim_row t.now term worker lease r} (unfold step in u') only.0 (refl, refl, refl)
        within in
    let (r', found', c', j_of', only') =
      dequeue_job-claims t' term' worker' lease' (run h (dequeue_job t term worker lease db).0)
        {j = j'} (run-Unique h _ (unfold step in u')) again in
    let one : claim_row t.now term worker lease r ≡ r' = ground (arith, still, found', same) in
    ground (arith, one, c'.0)

-- The term of a claim is recorded and not checked: where the row that is picked carries the term
-- of a newer reign, a claim by an older one that is answered still hands the job out and puts it
-- in processing under the older leader's worker, and the row keeps the newer term, so that as it
-- is no sweep of the older reign takes it back. (The ids of the table are distinct.)
pub stale_claim_lands :
    (t : Turn) (term : ℕ) (worker : String) (lease : ℕ) (db : Db) {r : Row}
    → Unique db.jobs
    → t.link ≡ answered
    → pick t db.jobs ≡ some r
    → term < r.claim_term
    → ((dequeue_job t term worker lease db).1
        ≡ ok (some (job_of_row (claim_row t.now term worker lease r))))
      × ((r' : Row) × (find_job r.id (dequeue_job t term worker lease db).0.jobs ≡ some r')
          × (r'.state ≡ processing)
          × (r'.worker_id ≡ worker)
          × (r'.claim_term ≡ r.claim_term)
          × ((now : ℕ) → is_abandoned now term r' ≡ false))
stale_claim_lands t term worker lease db {r} u a picked behind =
    let (got, only) = dequeue_job-picked t term worker lease db {r = r} u picked a in
    (
      got,
      (claim_row t.now term worker lease r, only.0, refl, refl, omega arith, (λ now. ground arith)),
    )
