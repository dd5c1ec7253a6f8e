-- ===== src/Storage/Births.antt =====
-- Where the rows of `jobs` come from: CreateJob alone adds one. Induction over a history of calls,
-- for what holds of every row of the table.
use distq_go.Common.{
  ℕ, ◌≡◌, refl, subst, inl, inr, ◌⊎◌, String, Bool, none, some, [], ◌∷◌, ◌==◌, arith, All,
  Option-cases, Bool-cases, true, false,
}
use distq_go.Proto.{Job}
use distq_go.Storage.Row.{Row, Db}
use distq_go.Storage.Statement.{update_where, find_job}
use distq_go.Storage.Reply.{Turn, scan_cases, exec_cases, exec_counted_cases}
use distq_go.Storage.Jobs.{
  create_job, dequeue_job, complete, fail_job, heartbeat_job, next_visible, reap_expired_leases,
  pick, claim_row, complete_row, fail_row, heartbeat_row, reap_row, new_row,
}
use distq_go.Storage.Leader.{jobs-campaign, jobs-renew_leadership, jobs-resign_leadership}
use distq_go.Storage.Step.{
  Call, creates, dequeues, completes, fails, heartbeats, looks, reaps, campaigns, renews, resigns,
  step, History, run,
}
use distq_go.Storage.Rows.{Unique, find_job-update_where}
use distq_go.Storage.Moves.{Move}
use distq_go.Storage.Moves.Calls.{step-Moved, step-Unique}

-- After the call there is no row under `k`, or the call created it.
abbrev Born : Turn → Call → String → Db → Type 0
Born t c k db =
    (find_job k db.jobs ≡ none)
    ⊎ ((j : Job) × (c ≡ creates j) × (find_job k db.jobs ≡ some (new_row t.now j)))

module _ (t : Turn) (k : String) (db : Db) (e : find_job k db.jobs ≡ none) where
  create_job-Born : (j : Job) → Born t (creates j) k (create_job t j db).0
  unfolding create_job find_job
  create_job-Born j = elim (Option-cases (find_job j.id db.jobs)) [
    | inr (x, taken) ↦ rw taken (inl e)
    | inl absent ↦ rw absent (
        exec_cases (Born t (creates j) k) (inl e) (inserted (Bool-cases (j.id == k))) t.link
          "create job")
  ]
    where
      inserted :
          ((j.id == k) ≡ true) ⊎ ((j.id == k) ≡ false)
          → Born t (creates j) k (record db { jobs = new_row t.now j ∷ db.jobs })
      inserted (inl own) = inr (j, refl, rw own refl)
      inserted (inr other) = inl (rw other e)

  updated_absent :
      (c : Call) (p : Row → Bool) (f : Row → Row)
      → ((x : Row) → (f x).id ≡ x.id)
      → Born t c k (record db { jobs = update_where p f db.jobs })
  updated_absent c p f keeps = inl (ground (arith, find_job-update_where p f keeps k db.jobs, e))

  dequeue_job-Born :
      (term : ℕ) (worker : String) (lease : ℕ)
      → Born t (dequeues term worker lease) k (dequeue_job t term worker lease db).0
  unfolding dequeue_job
  dequeue_job-Born term worker lease = elim (Option-cases (pick t db.jobs)) [
    | inl e' ↦ rw e' (
        scan_cases (Born t (dequeues term worker lease) k) (inl e) (inl e) t.link "dequeue job" none
          _)
    | inr (x, e') ↦ rw e' (
        scan_cases (Born t (dequeues term worker lease) k) (inl e)
          (updated_absent _ (λ y. y.id == x.id) (claim_row t.now term worker lease) (λ y. refl))
          t.link "dequeue job" _ _)
  ]

  -- Only CreateJob adds a row.
  pub step-Born : (c : Call) → Born t c k (step t c db)
  unfolding step complete fail_job heartbeat_job next_visible reap_expired_leases
  step-Born (creates j) = create_job-Born j
  step-Born (dequeues term worker lease) = dequeue_job-Born term worker lease
  step-Born (completes id worker) =
      exec_counted_cases (Born t (completes id worker) k) (inl e)
        (updated_absent _ _ (complete_row t.now) (λ x. refl)) t.link _ _ _
  step-Born (fails id worker message base) =
      scan_cases (Born t (fails id worker message base) k) (inl e)
        (updated_absent _ _ (fail_row t.now message base) (λ x. refl)) t.link _ _ _
  step-Born (heartbeats id worker lease) =
      exec_counted_cases (Born t (heartbeats id worker lease) k) (inl e)
        (updated_absent _ _ (heartbeat_row t.now lease) (λ x. refl)) t.link _ _ _
  step-Born looks = scan_cases (Born t looks k) (inl e) (inl e) t.link _ _ _
  step-Born (reaps term) =
      exec_counted_cases (Born t (reaps term) k) (inl e)
        (updated_absent _ _ (reap_row t.now) (λ x. refl)) t.link _ _ _
  step-Born (campaigns node lease) = inl (rw (jobs-campaign t node db lease) e)
  step-Born (renews node lease) = inl (rw (jobs-renew_leadership t node db lease) e)
  step-Born (resigns node) = inl (rw (jobs-resign_leadership t node db) e)

-- `P` holds of every row of the table.
abbrev pub Everywhere {ℓ} : (Row → Type ℓ) → Db → Type ℓ
Everywhere P db = (k : String) (r : Row) → find_job k db.jobs ≡ some r → P r

-- A call leaves rows with `P`: those that it moves and the one that it creates.
abbrev pub Yields {ℓ} : (Row → Type ℓ) → Turn × Call → Type ℓ
Yields P (t, c) =
    ((r r' : Row) → P r → Move t c r r' → P r') × ((j : Job) → c ≡ creates j → P (new_row t.now j))

module _ {ℓ} (P : Row → Type ℓ) where
  step-Everywhere :
      (t : Turn) (c : Call) (db : Db)
      → Yields P (t, c)
      → Unique db.jobs
      → Everywhere P db
      → Everywhere P (step t c db)
  step-Everywhere t c db (moves, births) u all k r here = elim (Option-cases (find_job k db.jobs)) [
    | inr (x, before) ↦
        let (x', after, m) = step-Moved t k db before c u in
        subst P (ground (arith, after, here)) (moves x x' (all k x before) m)
    | inl absent ↦ elim (step-Born t k db absent c) [
      | inl still ↦ absurd (ground (arith, still, here))
      | inr (j, made, after) ↦ subst P (ground (arith, after, here)) (births j made)
    ]
  ]

  pub run-Everywhere :
      (h : History) (db : Db)
      → All (Yields P) h
      → Unique db.jobs
      → Everywhere P db
      → Everywhere P (run h db)
  unfolding run
  run-Everywhere [] db yields u all = all
  run-Everywhere ((t, c) ∷ h) db yields u all =
      run-Everywhere h (step t c db) yields.1 (step-Unique t db u c)
        (step-Everywhere t c db yields.0 u all)
