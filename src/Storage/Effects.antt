-- ===== src/Storage/Effects.antt =====
-- What a claim, a report and a heartbeat have to make of a row, column by column, apart from the
-- statements of internal/storage/postgres.go; and that these do.
use distq_go.Common.{
  ℕ, suc, ◌+◌, ◌*◌, ◌^◌, ◌≤◌, ◌≡◌, refl, ap, inl, inr, ◌⊎◌, String, true, false, none, some, arith,
  Bool-cases,
}
use distq_go.Common.Int.{ltz}
use distq_go.Proto.{Job}
use distq_go.Storage.Row.{Row, Db, pending, processing, done, failed, has_retries_left}
use distq_go.Storage.Statement.{find_job}
use distq_go.Storage.Reply.{Turn, ok}
use distq_go.Storage.Jobs.{dequeue_job, claim_row, complete_row, fail_row, heartbeat_row}
use distq_go.Storage.Rows.{Unique}
use distq_go.Storage.Reports.{OnlyChanged}
use distq_go.Storage.Claims.{IsClaimable, dequeue_job-claims}

-- The row `r'` is `r` in processing for the worker under a full lease from `now`, and its term is
-- behind neither the row's nor the claim's.
abbrev pub IsLeasedFrom : (now term : ℕ) → String → (lease : ℕ) → (r r' : Row) → Type 0
IsLeasedFrom now term worker lease r r' =
    (r'.state ≡ processing)
    × (r'.worker_id ≡ worker)
    × (r'.lease_expires_at ≡ some (now + lease))
    × (r'.started_at ≡ some now)
    × (r.claim_term ≤ r'.claim_term)
    × (term ≤ r'.claim_term)
    × (r' ≡ record r {
      state = r'.state;
      worker_id = r'.worker_id;
      lease_expires_at = r'.lease_expires_at;
      started_at = r'.started_at;
      claim_term = r'.claim_term;
    })

-- The row `r'` is `r` done at `now`, with no owner and no lease.
abbrev pub IsDoneFrom : ℕ → (r r' : Row) → Type 0
IsDoneFrom now r r' =
    (r'.state ≡ done)
    × (r'.done_at ≡ some now)
    × (r'.worker_id ≡ "")
    × (r'.lease_expires_at ≡ none)
    × (r' ≡ record r {
      state = r'.state;
      done_at = r'.done_at;
      worker_id = r'.worker_id;
      lease_expires_at = r'.lease_expires_at;
    })

-- What becomes of a job whose attempt failed: it is pending with its backoff if its retries counted
-- so far are fewer than it may have, and has failed for good else.
abbrev pub IsDecided : (now base : ℕ) → (r r' : Row) → Type 0
IsDecided now base r r' =
    ((ltz r.retry_count r.max_retries ≡ true)
      × (r'.state ≡ pending)
      × (r'.next_run_at ≡ some (now + base * 2 ^ r.retry_count))
      × (r'.done_at ≡ none))
    ⊎ ((ltz r.retry_count r.max_retries ≡ false)
        × (r'.state ≡ failed)
        × (r'.next_run_at ≡ r.next_run_at)
        × (r'.done_at ≡ some now))

-- The row `r'` is `r` after a failed attempt, which is counted, with no owner and no lease.
abbrev pub IsFailedFrom : ℕ → String → (base : ℕ) → (r r' : Row) → Type 0
IsFailedFrom now message base r r' =
    IsDecided now base r r'
    × (r'.retry_count ≡ suc r.retry_count)
    × (r'.last_error ≡ some message)
    × (r'.worker_id ≡ "")
    × (r'.lease_expires_at ≡ none)
    × (r' ≡ record r {
      state = r'.state;
      next_run_at = r'.next_run_at;
      done_at = r'.done_at;
      retry_count = r'.retry_count;
      last_error = r'.last_error;
      worker_id = r'.worker_id;
      lease_expires_at = r'.lease_expires_at;
    })

-- The row `r'` is `r` with a full lease from `now`.
abbrev pub IsRenewedFrom : (now lease : ℕ) → (r r' : Row) → Type 0
IsRenewedFrom now lease r r' = r' ≡ record r { lease_expires_at = some (now + lease) }

pub claim_row-IsLeasedFrom :
    (now term : ℕ) (worker : String) (lease : ℕ) (r : Row)
    → IsLeasedFrom now term worker lease r (claim_row now term worker lease r)
claim_row-IsLeasedFrom now term worker lease r =
    (refl, refl, refl, refl, omega arith, omega arith, refl)

pub complete_row-IsDoneFrom : (now : ℕ) (r : Row) → IsDoneFrom now r (complete_row now r)
complete_row-IsDoneFrom now r = (refl, refl, refl, refl, refl)

pub fail_row-IsFailedFrom :
    (now : ℕ) (message : String) (base : ℕ) (r : Row)
    → IsFailedFrom now message base r (fail_row now message base r)
fail_row-IsFailedFrom now message base r = (
  elim (Bool-cases (has_retries_left r)) [
    | inl left ↦ inl (left, ground (arith, left), ground (arith, left), ground (arith, left))
    | inr spent ↦ inr (spent, ground (arith, spent), ground (arith, spent), ground (arith, spent))
  ],
  refl,
  refl,
  refl,
  refl,
  refl,
)

pub heartbeat_row-IsRenewedFrom :
    (now lease : ℕ) (r : Row) → IsRenewedFrom now lease r (heartbeat_row now lease r)
heartbeat_row-IsRenewedFrom now lease r = refl

-- A job that a claim hands out stood in the table under its id as a row that was pending, due and
-- not locked; its row is now in processing under the worker's name with a full lease from the time
-- of the call, its term is behind neither the claim's nor its own before, its other columns are as
-- they were, and no other row changed. The job has the kind, the payload, the retries counted and
-- the retries allowed of that row, and the status 'processing'. (The ids of the table are distinct.)
pub dequeue_job-leases :
    (t : Turn) (term : ℕ) (worker : String) (lease : ℕ) (db : Db) {j : Job}
    → Unique db.jobs
    → (dequeue_job t term worker lease db).1 ≡ ok (some j)
    → (r : Row) × (r' : Row) × (find_job j.id db.jobs ≡ some r)
      × IsClaimable t r
      × IsLeasedFrom t.now term worker lease r r'
      × OnlyChanged j.id r' db (dequeue_job t term worker lease db).0
      × ((j.kind ≡ r.kind)
          × (j.payload ≡ r.payload)
          × (j.status ≡ "processing")
          × (j.retry_count ≡ r.retry_count)
          × (j.max_retries ≡ r.max_retries))
dequeue_job-leases t term worker lease db {j} u got =
    let (r, found, claimable, same, only) =
      dequeue_job-claims t term worker lease db {j = j} u got in
    (
      r,
      claim_row t.now term worker lease r,
      found,
      claimable,
      claim_row-IsLeasedFrom t.now term worker lease r,
      only,
      (
        ap (λ x. x.kind) same,
        ap (λ x. x.payload) same,
        ap (λ x. x.status) same,
        ap (λ x. x.retry_count) same,
        ap (λ x. x.max_retries) same,
      ),
    )
