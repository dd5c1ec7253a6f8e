-- ===== src/Storage/Reaper.antt =====
-- The sweep of expired leases: which rows it takes, what it makes of them, and how many it counts.
use distq_go.Common.{ℕ, suc, ◌≤◌, ◌≡◌, refl, String, true, false, some, List, [], ◌∷◌, arith}
use distq_go.Storage.Row.{Row, Db, has_retries_left}
use distq_go.Storage.Statement.{update_where, count_where, find_job}
use distq_go.Storage.Reply.{Turn, answered, ok}
use distq_go.Storage.Jobs.{reap_expired_leases, is_abandoned, reap_row}
use distq_go.Storage.Rows.{Unique, find_job-update_where, rewrite, map_row}
use distq_go.Storage.Claims.{IsClaimable}

-- A sweep that is answered treats each row by itself: one that is in processing, whose lease ended
-- before now and whose claim term is not newer than the sweep's, is taken back, and any other
-- is left as it is; it reports how many rows it took.
pub find_job-reap_expired_leases :
    (t : Turn) (term : ℕ) (db : Db) (k : String)
    → t.link ≡ answered
    → ((reap_expired_leases t term db).1 ≡ ok (count_where (is_abandoned t.now term) db.jobs))
      × (find_job k (reap_expired_leases t term db).0.jobs
          ≡ map_row (rewrite (is_abandoned t.now term) (reap_row t.now)) (find_job k db.jobs))
unfolding reap_expired_leases
find_job-reap_expired_leases t term db k a =
    rw a
      (refl, find_job-update_where (is_abandoned t.now term) (reap_row t.now) (λ x. refl) k db.jobs)

count_where-reaped_again :
    (now term : ℕ) (rows : List Row)
    → count_where (is_abandoned now term) (update_where (is_abandoned now term) (reap_row now) rows)
      ≡ 0
unfolding count_where update_where
count_where-reaped_again now term [] = refl
count_where-reaped_again now term (r ∷ rs) = ground (arith, count_where-reaped_again now term rs)

update_where-reaped_again :
    (now term : ℕ) (rows : List Row)
    → update_where
        (is_abandoned now term)
        (reap_row now)
        (update_where (is_abandoned now term) (reap_row now) rows)
      ≡ update_where (is_abandoned now term) (reap_row now) rows
unfolding update_where
update_where-reaped_again now term [] = refl
update_where-reaped_again now term (r ∷ rs) = ground (arith, update_where-reaped_again now term rs)

-- A sweep takes back every lease that has expired, and each once: repeated at the same time it
-- releases nothing and leaves the database as it is.
pub reap_expired_leases_twice :
    (t t' : Turn) (term : ℕ) (db : Db)
    → t.link ≡ answered
    → t'.link ≡ answered
    → t'.now ≡ t.now
    → reap_expired_leases t' term (reap_expired_leases t term db).0
      ≡ ((reap_expired_leases t term db).0, ok 0)
unfolding reap_expired_leases
reap_expired_leases_twice t t' term db a a' same = rw (
  a,
  a',
  same,
  count_where-reaped_again t.now term db.jobs,
  update_where-reaped_again t.now term db.jobs,
)

-- Failover: a job whose lease has ended, and which has retries left, is pending again after a
-- sweep that is answered, of a reign no older than the one that claimed it, with one more retry
-- counted and no worker; from the time of the sweep on a claim may take it, unless another
-- statement has locked its row. (The ids of the table are distinct.)
pub reaped-IsClaimable :
    (t t' : Turn) (term : ℕ) (db : Db) (k : String) {r : Row}
    → Unique db.jobs
    → find_job k db.jobs ≡ some r
    → is_abandoned t.now term r ≡ true
    → has_retries_left r ≡ true
    → t.link ≡ answered
    → t.now ≤ t'.now
    → t'.locked r.id ≡ false
    → (r' : Row) × (find_job k (reap_expired_leases t term db).0.jobs ≡ some r')
      × IsClaimable t' r'
      × (r'.retry_count ≡ suc r.retry_count)
      × (r'.worker_id ≡ "")
reaped-IsClaimable t t' term db k {r} u e gone left a le free = (
  reap_row t.now r,
  ground (arith, find_job-reap_expired_leases t term db k a),
  (ground arith, free),
  refl,
  refl,
)
