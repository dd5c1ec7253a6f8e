-- ===== src/Storage/Moves/Calls.antt =====
-- Every call of the store moves each row by one of the moves, keeps the ids distinct, and loses
-- no row.
use distq_go.Common.{
  ℕ, ◌≡◌, refl, ap, subst, inl, inr, String, Bool, true, false, none, some, ◌==◌, eq_iff, eq_refl,
  arith, Bool-cases, Option-cases,
}
use distq_go.Proto.{Job}
use distq_go.Storage.Row.{Row, Db}
use distq_go.Storage.Statement.{update_where, find_job}
use distq_go.Storage.Reply.{Turn, runs, scan_cases, exec_cases, exec_counted_cases}
use distq_go.Storage.Jobs.{
  create_job, dequeue_job, complete, fail_job, heartbeat_job, next_visible, reap_expired_leases,
  pick, is_visible, claim_row, is_owned_by, complete_row, fail_row, heartbeat_row, is_abandoned,
  reap_row, new_row,
}
use distq_go.Storage.Leader.{jobs-campaign, jobs-renew_leadership, jobs-resign_leadership}
use distq_go.Storage.Step.{
  Call, creates, dequeues, completes, fails, heartbeats, looks, reaps, campaigns, renews, resigns,
  step,
}
use distq_go.Storage.Rows.{Unique, find_job-update_where, update_where-Unique, find_job-id}
use distq_go.Storage.Moves.{
  Move, stay, claimed, completed, failed, renewed, reaped, Moved, pick-visible,
}

-- An UPDATE whose rewriting of `r` is a move.
updated :
    (t : Turn) (c : Call) (k : String) {r : Row} (db : Db) (p : Row → Bool) (f : Row → Row)
    → ((x : Row) → (f x).id ≡ x.id)
    → find_job k db.jobs ≡ some r
    → (p r ≡ true → Move t c r (f r))
    → Moved t c k r (record db { jobs = update_where p f db.jobs })
updated t c k {r} db p f keeps e moves = elim (Bool-cases (p r)) [
  | inl h ↦ (f r, ground (arith, find_job-update_where p f keeps k db.jobs), moves h)
  | inr h ↦ (r, ground (arith, find_job-update_where p f keeps k db.jobs), stay refl)
]

module _ (t : Turn) (k : String) {r : Row} (db : Db) (e : find_job k db.jobs ≡ some r) where
  unmoved : (c : Call) → Moved t c k r db
  unmoved c = (r, e, stay refl)

  create_job-Moved : (j : Job) → Moved t (creates j) k r (create_job t j db).0
  unfolding create_job find_job
  create_job-Moved j = elim (Option-cases (find_job j.id db.jobs)) [
    | inl absent ↦ rw absent (
        exec_cases (Moved t (creates j) k r) (unmoved (creates j))
          (r, ground (arith, eq_iff j.id k), stay refl) t.link "create job")
    | inr (x, taken) ↦ rw taken (unmoved (creates j))
  ]

  dequeue_job-Moved :
      (term : ℕ) (worker : String) (lease : ℕ)
      → Unique db.jobs
      → Moved t (dequeues term worker lease) k r (dequeue_job t term worker lease db).0
  unfolding dequeue_job
  dequeue_job-Moved term worker lease u = elim (Option-cases (pick t db.jobs)) [
    | inl none_visible ↦
        rw none_visible
          (scan_cases (Moved t c k r) (unmoved c) (unmoved c) t.link "dequeue job" none _)
    | inr (x, picked) ↦
        let facts = pick-visible t db.jobs {r = x} u picked in
        rw picked (
          scan_cases (Moved t c k r) (unmoved c)
            (updated t c k db (λ y. y.id == x.id) (claim_row t.now term worker lease) (λ y. refl) e
              (λ h.
                let same : x ≡ r = ground (arith, eq_iff r.id x.id, find_job-id k db.jobs e) in
                claimed term worker lease refl (subst (λ y. is_visible t.now y ≡ true) same facts.0)
                  (subst (λ y. t.locked y.id ≡ false) same facts.1) refl))
            t.link "dequeue job" _ _)
  ]
    where
      c : Call
      c = dequeues term worker lease

  -- The row's own id, where a fence has asked for it.
  own_id : (id worker : String) → is_owned_by id worker r ≡ true → id ≡ r.id
  own_id id worker h = ground (arith, eq_iff r.id id)

  complete-Moved :
      (id worker : String) → Moved t (completes id worker) k r (complete t id worker db).0
  unfolding complete
  complete-Moved id worker =
      exec_counted_cases (Moved t c k r) (unmoved c)
        (updated t c k db (is_owned_by id worker) (complete_row t.now) (λ x. refl) e
          (λ h.
            let same = own_id id worker h in
            completed worker (ap (λ i. completes i worker) same)
              (subst (λ i. is_owned_by i worker r ≡ true) same h) refl))
        t.link "mark done" _ _
    where
      c : Call
      c = completes id worker

  fail_job-Moved :
      (id worker message : String) (base : ℕ)
      → Moved t (fails id worker message base) k r (fail_job t id worker message base db).0
  unfolding fail_job
  fail_job-Moved id worker message base =
      scan_cases (Moved t c k r) (unmoved c)
        (updated t c k db (is_owned_by id worker) (fail_row t.now message base) (λ x. refl) e
          (λ h.
            let same = own_id id worker h in
            failed worker message base (ap (λ i. fails i worker message base) same)
              (subst (λ i. is_owned_by i worker r ≡ true) same h) refl))
        t.link "fail job" _ _
    where
      c : Call
      c = fails id worker message base

  heartbeat_job-Moved :
      (id worker : String) (lease : ℕ)
      → Moved t (heartbeats id worker lease) k r (heartbeat_job t id worker lease db).0
  unfolding heartbeat_job
  heartbeat_job-Moved id worker lease =
      exec_counted_cases (Moved t c k r) (unmoved c)
        (updated t c k db (is_owned_by id worker) (heartbeat_row t.now lease) (λ x. refl) e
          (λ h.
            let same = own_id id worker h in
            renewed worker lease (ap (λ i. heartbeats i worker lease) same)
              (subst (λ i. is_owned_by i worker r ≡ true) same h) refl))
        t.link "heartbeat job" _ _
    where
      c : Call
      c = heartbeats id worker lease

  next_visible-Moved : Moved t looks k r (next_visible t db).0
  unfolding next_visible
  next_visible-Moved =
      scan_cases (Moved t looks k r) (unmoved looks) (unmoved looks) t.link "next visible job" _ _

  reap_expired_leases-Moved :
      (term : ℕ) → Moved t (reaps term) k r (reap_expired_leases t term db).0
  unfolding reap_expired_leases
  reap_expired_leases-Moved term =
      exec_counted_cases (Moved t (reaps term) k r) (unmoved (reaps term))
        (updated t (reaps term) k db (is_abandoned t.now term) (reap_row t.now) (λ x. refl) e
          (λ h. reaped term refl h refl))
        t.link "reap expired leases" _ _

  -- Every call makes one of the moves on every row.
  pub step-Moved : (c : Call) → Unique db.jobs → Moved t c k r (step t c db)
  unfolding step
  step-Moved (creates j) u = create_job-Moved j
  step-Moved (dequeues term worker lease) u = dequeue_job-Moved term worker lease u
  step-Moved (completes id worker) u = complete-Moved id worker
  step-Moved (fails id worker message base) u = fail_job-Moved id worker message base
  step-Moved (heartbeats id worker lease) u = heartbeat_job-Moved id worker lease
  step-Moved looks u = next_visible-Moved
  step-Moved (reaps term) u = reap_expired_leases-Moved term
  step-Moved (campaigns node lease) u = (r, rw (jobs-campaign t node db lease) e, stay refl)
  step-Moved (renews node lease) u = (r, rw (jobs-renew_leadership t node db lease) e, stay refl)
  step-Moved (resigns node) u = (r, rw (jobs-resign_leadership t node db) e, stay refl)

-- Every call keeps the ids distinct.
module _ (t : Turn) (db : Db) (u : Unique db.jobs) where
  abbrev Distinct : Db → Type 0
  Distinct d = Unique d.jobs

  pub create_job-Unique : (j : Job) → Unique (create_job t j db).0.jobs
  unfolding create_job
  create_job-Unique j = elim (Option-cases (find_job j.id db.jobs)) [
    | inl absent ↦ rw absent (exec_cases Distinct u (absent, u) t.link "create job")
    | inr (x, taken) ↦ rw taken u
  ]

  dequeue_job-Unique :
      (term : ℕ) (worker : String) (lease : ℕ) → Unique (dequeue_job t term worker lease db).0.jobs
  unfolding dequeue_job
  dequeue_job-Unique term worker lease = elim (Option-cases (pick t db.jobs)) [
    | inl e ↦ rw e (scan_cases Distinct u u t.link "dequeue job" none _)
    | inr (x, e) ↦ rw e (
        scan_cases Distinct u
          (update_where-Unique (λ y. y.id == x.id) (claim_row t.now term worker lease) (λ y. refl)
            db.jobs u)
          t.link "dequeue job" _ _)
  ]

  fenced-Unique :
      (p : Row → Bool) (f : Row → Row)
      → ((x : Row) → (f x).id ≡ x.id)
      → Unique (update_where p f db.jobs)
  fenced-Unique p f keeps = update_where-Unique p f keeps db.jobs u

  pub step-Unique : (c : Call) → Unique (step t c db).jobs
  unfolding step complete fail_job heartbeat_job next_visible reap_expired_leases
  step-Unique (creates j) = create_job-Unique j
  step-Unique (dequeues term worker lease) = dequeue_job-Unique term worker lease
  step-Unique (completes id worker) =
      exec_counted_cases Distinct u (fenced-Unique _ (complete_row t.now) (λ x. refl)) t.link _ _ _
  step-Unique (fails id worker message base) =
      scan_cases Distinct u (fenced-Unique _ (fail_row t.now message base) (λ x. refl)) t.link _ _ _
  step-Unique (heartbeats id worker lease) =
      exec_counted_cases Distinct u (fenced-Unique _ (heartbeat_row t.now lease) (λ x. refl)) t.link
        _ _ _
  step-Unique looks = scan_cases Distinct u u t.link _ _ _
  step-Unique (reaps term) =
      exec_counted_cases Distinct u (fenced-Unique _ (reap_row t.now) (λ x. refl)) t.link _ _ _
  step-Unique (campaigns node lease) = rw (jobs-campaign t node db lease) u
  step-Unique (renews node lease) = rw (jobs-renew_leadership t node db lease) u
  step-Unique (resigns node) = rw (jobs-resign_leadership t node db) u

-- The row that CreateJob inserts, where the statement takes effect.
pub find_job-create_job :
    (t : Turn) (j : Job) (db : Db)
    → find_job j.id db.jobs ≡ none
    → runs t.link ≡ true
    → find_job j.id (create_job t j db).0.jobs ≡ some (new_row t.now j)
unfolding create_job find_job
find_job-create_job t j db absent up = ground (arith, absent, eq_refl j.id)
