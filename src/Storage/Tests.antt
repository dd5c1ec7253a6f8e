-- ===== src/Storage/Tests.antt =====
-- The theorems about the store at concrete tables.
use distq_go.Common.{
  ℕ, ◌≤◌, ◌≡◌, ◌≢◌, refl, inl, inr, true, false, some, [], ◌∷◌, eq_iff, arith, All,
}
use distq_go.Common.Int.{pos}
use distq_go.Proto.{Job}
use distq_go.Storage.Row.{Row, LeaderRow, Db, pending, processing, failed}
use distq_go.Storage.Statement.{find_job, update_where, count_where, find_where}
use distq_go.Storage.Reply.{Turn, answered, ok, err, lease_lost}
use distq_go.Storage.Jobs.{
  create_job, dequeue_job, complete, fail_job, heartbeat_job, reap_expired_leases, new_row, pick,
  claim_row, job_of_row, is_abandoned, reap_row,
}
use distq_go.Storage.Leader.{campaign, resign_leadership}
use distq_go.Storage.Step.{
  dequeues, completes, fails, heartbeats, reaps, campaigns, resigns, step, History, run,
}
use distq_go.Storage.History.{Holds}
use distq_go.Storage.Commute.{report, completion, failure, reports_commute}
use distq_go.Storage.Attempts.{attempts, attempts-le, attempts_of_failed}
use distq_go.Storage.Lifecycle.{IsWf, run-IsWf}
use distq_go.Storage.Leases.{WithinLease, leased-run}
use distq_go.Storage.Backoff.{fail_job_backs_off}
use distq_go.Storage.Reports.{OnlyChanged, reports_refused}
use distq_go.Storage.Claims.{IsClaimable, dequeue_job-finds, dequeue_job_twice, stale_claim_lands}
use distq_go.Storage.Effects.{IsLeasedFrom, IsFailedFrom, dequeue_job-leases}
use distq_go.Storage.Reaper.{reaped-IsClaimable}
use distq_go.Storage.Reigns.{WithinReign, reign-run}
use distq_go.Storage.Handover.{resign_hands_over}
use distq_go.Storage.Stranded.{stranded-run}
use distq_go.Storage.Phases.{KeepsPromises, phase_of, run-KeepsPromises}
use distq_go.Storage.Heartbeats.{BeatenInTime, beaten-run}

-- A call at time `n` that is answered.
abbrev pub at_time : ℕ → Turn
at_time n = record { now = n; link = answered; locked = λ id. false; order = 0 }

abbrev pub email : Job
email = record {
  id = "a";
  kind = "normal";
  payload = [];
  status = "";
  error = "";
  retry_count = 0;
  max_retries = pos 1;
}

abbrev pub nobody : LeaderRow
nobody = record { leader_id = ""; term = 0; lease_expires_at = 0 }

abbrev pub n1_leads : LeaderRow
n1_leads = record { leader_id = "n1"; term = 3; lease_expires_at = 50 }

abbrev pub empty_db : Db
empty_db = record { jobs = []; leader = nobody }

-- Pending, due at 10.
abbrev pub waiting_row : Row
waiting_row = new_row 10 email

-- In processing for w1 until 40, claimed by the reign 2.
abbrev pub running_row : Row
running_row = claim_row 10 2 "w1" 30 waiting_row

abbrev pub waiting_db : Db
waiting_db = record { jobs = waiting_row ∷ []; leader = n1_leads }

abbrev pub running_db : Db
running_db = record { jobs = running_row ∷ []; leader = n1_leads }

-- Every attempt fails: the budget of 1 retry allows two.
abbrev pub failures : History
failures =
    (at_time 10, dequeues 1 "w1" 30)
    ∷ (at_time 12, fails "a" "w1" "boom" 2)
    ∷ (at_time 20, dequeues 1 "w2" 30)
    ∷ (at_time 22, fails "a" "w2" "boom" 2)
    ∷ (at_time 90, dequeues 1 "w1" 30)
    ∷ []

attempts-le_example : attempts "a" failures (create_job (at_time 10) email empty_db).0 ≤ 2
unfolding find_job
attempts-le_example = attempts-le (at_time 10) email failures empty_db tt refl refl

failures_fail :
    (r : Row) × (find_job "a" (run failures waiting_db).jobs ≡ some r) × (r.state ≡ failed)
unfolding run step dequeue_job fail_job pick update_where find_where find_job
failures_fail = (_, refl, refl)

attempts_of_failed_example : attempts "a" failures waiting_db ≡ 2
unfolding find_job
attempts_of_failed_example =
    attempts_of_failed failures waiting_db "a" {r = waiting_row} {r' = failures_fail.0} (refl, tt)
      refl refl refl failures_fail.1 failures_fail.2

-- What the others do while w1 runs the job: a sweep, a claim and reports under another name.
abbrev others : History
others =
    (at_time 15, reaps 9)
    ∷ (at_time 20, dequeues 3 "w2" 30)
    ∷ (at_time 25, completes "a" "w2")
    ∷ (at_time 39, fails "a" "w2" "boom" 2)
    ∷ []

others-WithinLease : All (WithinLease "a" "w1" 40) others
others-WithinLease =
    ((omega arith, refl), ((omega arith, refl), ((omega arith, refl), ((omega arith, refl), tt))))

leased-run_example : find_job "a" (run others running_db).jobs ≡ some running_row
unfolding find_job
leased-run_example =
    leased-run "a" "w1" 40 others running_db {r = running_row} (refl, tt) refl (refl, refl, refl)
      others-WithinLease

-- A second job, due as soon as the first.
abbrev other_row : Row
other_row = new_row 10 (record email { id = "b" })

abbrev pub two_db : Db
two_db = record { jobs = waiting_row ∷ other_row ∷ []; leader = n1_leads }

dequeue_job_twice_example : other_row.id ≢ waiting_row.id
unfolding run step dequeue_job fail_job complete reap_expired_leases pick update_where find_where
    count_where find_job
dequeue_job_twice_example =
    dequeue_job_twice (at_time 10) (at_time 40) 2 3 30 30 "w1" "w2"
      ((at_time 15, reaps 9) ∷ (at_time 25, completes "a" "w2") ∷ []) two_db
      {j = job_of_row running_row} {j' = job_of_row (claim_row 40 3 "w2" 30 other_row)}
      (refl, (refl, tt)) refl ((omega arith, refl), ((omega arith, refl), tt)) (omega arith) refl

reports_refused_example :
    (complete (at_time 20) "a" "w2" running_db ≡ (running_db, err lease_lost))
    × (fail_job (at_time 20) "a" "w2" "boom" 2 running_db ≡ (running_db, err lease_lost))
    × (heartbeat_job (at_time 20) "a" "w2" 30 running_db ≡ (running_db, ok false))
unfolding find_job
reports_refused_example =
    reports_refused (at_time 20) "a" "w2" "boom" 2 30 running_db (refl, tt)
      (λ r e. inl (λ w. ground (arith, e, eq_iff "w1" "w2"))) refl

dequeue_job-leases_example :
    (r : Row) × (r' : Row) × (find_job "a" waiting_db.jobs ≡ some r)
    × IsClaimable (at_time 10) r
    × IsLeasedFrom 10 2 "w1" 30 r r'
    × OnlyChanged "a" r' waiting_db (dequeue_job (at_time 10) 2 "w1" 30 waiting_db).0
    × (("normal" ≡ r.kind)
        × ([] ≡ r.payload)
        × ((job_of_row running_row).status ≡ "processing")
        × (0 ≡ r.retry_count)
        × (pos 1 ≡ r.max_retries))
unfolding find_job dequeue_job pick update_where
dequeue_job-leases_example =
    dequeue_job-leases (at_time 10) 2 "w1" 30 waiting_db {j = job_of_row running_row} (refl, tt)
      refl

dequeue_job-finds_example :
    (j : Job) × ((dequeue_job (at_time 10) 2 "w1" 30 waiting_db).1 ≡ ok (some j))
unfolding find_job
dequeue_job-finds_example =
    dequeue_job-finds (at_time 10) 2 "w1" 30 waiting_db "a" {r = waiting_row} (refl, tt) refl refl
      (refl, refl)

-- Swept by the reign 5, and pending again.
abbrev swept_row : Row
swept_row = reap_row 41 (claim_row 10 5 "w1" 30 waiting_row)

abbrev swept_db : Db
swept_db = record { jobs = swept_row ∷ []; leader = n1_leads }

stale_claim_lands_example :
    ((dequeue_job (at_time 50) 2 "w9" 30 swept_db).1
      ≡ ok (some (job_of_row (claim_row 50 2 "w9" 30 swept_row))))
    × ((r' : Row) × (find_job "a" (dequeue_job (at_time 50) 2 "w9" 30 swept_db).0.jobs ≡ some r')
        × (r'.state ≡ processing)
        × (r'.worker_id ≡ "w9")
        × (r'.claim_term ≡ 5)
        × ((now : ℕ) → is_abandoned now 2 r' ≡ false))
unfolding find_job pick
stale_claim_lands_example =
    stale_claim_lands (at_time 50) 2 "w9" 30 swept_db {r = swept_row} (refl, tt) refl refl
      (omega arith)

run-IsWf_example : Holds IsWf "a" (run failures (create_job (at_time 10) email empty_db).0)
unfolding find_job
run-IsWf_example = run-IsWf (at_time 10) email failures empty_db tt refl refl

-- A worker and a sweep come before the backoff is over.
abbrev hasty : History
hasty = (at_time 13, dequeues 3 "w2" 30) ∷ (at_time 21, reaps 9) ∷ []

fail_job_backs_off_example :
    ((fail_job (at_time 20) "a" "w1" "boom" 2 running_db).1 ≡ ok true)
    × ((r' : Row) × (find_job "a"
            (run hasty (fail_job (at_time 20) "a" "w1" "boom" 2 running_db).0).jobs
          ≡ some r')
        × (r'.state ≡ pending)
        × (r'.retry_count ≡ 1)
        × (r'.worker_id ≡ "")
        × IsFailedFrom 20 "boom" 2 running_row r')
unfolding find_job
fail_job_backs_off_example =
    fail_job_backs_off (at_time 20) "a" "w1" "boom" 2 hasty running_db {r = running_row} (refl, tt)
      refl refl refl refl refl (omega arith, (omega arith, tt))

reaped-IsClaimable_example :
    (r' : Row) × (find_job "a" (reap_expired_leases (at_time 41) 2 running_db).0.jobs ≡ some r')
    × IsClaimable (at_time 41) r'
    × (r'.retry_count ≡ 1)
    × (r'.worker_id ≡ "")
unfolding find_job
reaped-IsClaimable_example =
    reaped-IsClaimable (at_time 41) (at_time 41) 2 running_db "a" {r = running_row} (refl, tt) refl
      refl refl refl (omega arith) refl

-- Other nodes try while n1's lease lasts.
abbrev rivals : History
rivals = (at_time 20, campaigns "n2" 9) ∷ (at_time 50, resigns "n3") ∷ []

rivals-WithinReign : All (WithinReign "n1" 50) rivals
rivals-WithinReign = ((omega arith, refl), ((omega arith, refl), tt))

reign-run_example : (run rivals running_db).leader ≡ n1_leads
reign-run_example = reign-run rivals running_db rivals-WithinReign

resign_hands_over_example :
    (campaign (at_time 21) "n2" 9 (resign_leadership (at_time 20) "n1" running_db).0).1
    ≡ ok (some 4)
resign_hands_over_example =
    resign_hands_over (at_time 20) (at_time 21) "n1" "n2" 9 running_db refl refl (omega arith) refl

abbrev claimed_to_run : Job
claimed_to_run = record email { status = "processing" }

stranded-run_example :
    find_job "a" (run others (create_job (at_time 10) claimed_to_run empty_db).0).jobs
    ≡ some (new_row 10 claimed_to_run)
unfolding find_job
stranded-run_example =
    stranded-run (at_time 10) claimed_to_run others empty_db tt refl refl refl
      (refl, (refl, (refl, (refl, tt))))

run-KeepsPromises_example :
    (r' : Row) × (find_job "a" (run failures waiting_db).jobs ≡ some r')
    × KeepsPromises "a" failures (phase_of waiting_row) (phase_of r')
unfolding find_job
run-KeepsPromises_example =
    run-KeepsPromises failures waiting_db "a" {r = waiting_row} (refl, tt) refl

-- The lease that ends at 40 is extended at 35 to 65, and a sweep and a claim come at 60.
abbrev beaten : History
beaten =
    (at_time 20, dequeues 3 "w2" 30)
    ∷ (at_time 35, heartbeats "a" "w1" 30)
    ∷ (at_time 60, reaps 9)
    ∷ (at_time 60, dequeues 9 "w2" 30)
    ∷ []

beaten-BeatenInTime : BeatenInTime "a" "w1" 30 40 beaten
beaten-BeatenInTime =
    inl (omega arith, refl, inr (refl, refl, inl (omega arith, refl, inl (omega arith, refl, tt))))

beaten-run_example :
    (r' : Row) × (find_job "a" (run beaten running_db).jobs ≡ some r')
    × (r'.state ≡ processing)
    × (r'.worker_id ≡ "w1")
unfolding find_job
beaten-run_example =
    beaten-run "a" "w1" 30 beaten running_db {r = running_row} 40 (refl, tt) refl (refl, refl, refl)
      beaten-BeatenInTime

-- w1 runs the job "a" and w2 the job "b".
abbrev busy_db : Db
busy_db = record { jobs = running_row ∷ claim_row 12 2 "w2" 30 other_row ∷ []; leader = n1_leads }

reports_commute_example :
    ((report
        (at_time 20)
        "a"
        "w1"
        completion
        (report (at_time 21) "b" "w2" (failure "boom" 2) busy_db).0).0
      ≡ (report
          (at_time 21)
          "b"
          "w2"
          (failure "boom" 2)
          (report (at_time 20) "a" "w1" completion busy_db).0).0)
    × ((report
          (at_time 20)
          "a"
          "w1"
          completion
          (report (at_time 21) "b" "w2" (failure "boom" 2) busy_db).0).1
        ≡ (report (at_time 20) "a" "w1" completion busy_db).1)
    × ((report
          (at_time 21)
          "b"
          "w2"
          (failure "boom" 2)
          (report (at_time 20) "a" "w1" completion busy_db).0).1
        ≡ (report (at_time 21) "b" "w2" (failure "boom" 2) busy_db).1)
reports_commute_example =
    reports_commute (at_time 20) (at_time 21) "a" "b" "w1" "w2" completion (failure "boom" 2)
      busy_db (λ e. ground (arith, e, eq_iff "a" "b"))
