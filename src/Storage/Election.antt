-- ===== src/Storage/Election.antt =====
-- What one call of internal/storage/store.go can do to the row of `leadership`.
use distq_go.Common.{
  ℕ, ◌+◌, ◌≡◌, refl, inl, inr, String, true, none, ◌==◌, eq_iff, Option-cases, Bool-cases,
}
use distq_go.Proto.{Job}
use distq_go.Storage.Row.{Db, LeaderRow}
use distq_go.Storage.Statement.{find_job}
use distq_go.Storage.Reply.{Turn, scan_cases, exec_cases, exec_counted_cases}
use distq_go.Storage.Jobs.{
  create_job, dequeue_job, complete, fail_job, heartbeat_job, next_visible, reap_expired_leases,
  pick,
}
use distq_go.Storage.Leader.{
  campaign, renew_leadership, resign_leadership, is_lapsed, campaign_row, is_held_by, held,
}
use distq_go.Storage.Step.{
  Call, creates, dequeues, completes, fails, heartbeats, looks, reaps, campaigns, renews, resigns,
  step,
}

-- `l` is the leadership row before a call and `l'` the row after it.
pub data Turnover (t : Turn) (c : Call) (l l' : LeaderRow) : Type 0 where
  stands : l' ≡ l → Turnover t c l l'
  wins :
      (node : String) (lease : ℕ)
      → c ≡ campaigns node lease
      → is_lapsed t.now l ≡ true
      → l' ≡ campaign_row t.now node lease l
      → Turnover t c l l'
  extends :
      (node : String) (lease : ℕ)
      → c ≡ renews node lease
      → is_held_by node t.now l ≡ true
      → l' ≡ record l { lease_expires_at = t.now + lease }
      → Turnover t c l l'
  leaves :
      (node : String)
      → c ≡ resigns node
      → l.leader_id ≡ node
      → l' ≡ record l { leader_id = ""; lease_expires_at = 0 }
      → Turnover t c l l'

-- The calls on jobs leave the leadership row alone, and an election turns it over.
module _ (t : Turn) (db : Db) where
  abbrev SameLeader : Call → Db → Type 0
  SameLeader c d = Turnover t c db.leader d.leader

  create_job-Turnover : (j : Job) → SameLeader (creates j) (create_job t j db).0
  unfolding create_job
  create_job-Turnover j = elim (Option-cases (find_job j.id db.jobs)) [
    | inl absent ↦
        rw absent (exec_cases (SameLeader (creates j)) (stands refl) (stands refl) t.link _)
    | inr (x, taken) ↦ rw taken (stands refl)
  ]

  dequeue_job-Turnover :
      (term : ℕ) (worker : String) (lease : ℕ)
      → SameLeader (dequeues term worker lease) (dequeue_job t term worker lease db).0
  unfolding dequeue_job
  dequeue_job-Turnover term worker lease =
      let c = dequeues term worker lease in
      elim (Option-cases (pick t db.jobs)) [
        | inl e ↦ rw e (scan_cases (SameLeader c) (stands refl) (stands refl) t.link _ none _)
        | inr (x, e) ↦ rw e (scan_cases (SameLeader c) (stands refl) (stands refl) t.link _ _ _)
      ]

  campaign-Turnover :
      (node : String) (lease : ℕ) → SameLeader (campaigns node lease) (campaign t node lease db).0
  unfolding campaign
  campaign-Turnover node lease =
      let c = campaigns node lease in
      elim (Bool-cases (is_lapsed t.now db.leader)) [
        | inl h ↦
            rw h (
              scan_cases (SameLeader c) (stands refl) (wins node lease refl h refl) t.link _ _ held)
        | inr h ↦ rw h (scan_cases (SameLeader c) (stands refl) (stands refl) t.link _ _ held)
      ]

  renew_leadership-Turnover :
      (node : String) (lease : ℕ)
      → SameLeader (renews node lease) (renew_leadership t node lease db).0
  unfolding renew_leadership
  renew_leadership-Turnover node lease =
      let c = renews node lease in
      elim (Bool-cases (is_held_by node t.now db.leader)) [
        | inl h ↦ rw h (
            scan_cases (SameLeader c) (stands refl) (extends node lease refl h refl) t.link _ _
              held)
        | inr h ↦ rw h (scan_cases (SameLeader c) (stands refl) (stands refl) t.link _ _ held)
      ]

  resign_leadership-Turnover :
      (node : String) → SameLeader (resigns node) (resign_leadership t node db).0
  unfolding resign_leadership
  resign_leadership-Turnover node = elim (Bool-cases (db.leader.leader_id == node)) [
    | inl h ↦
        exec_cases (SameLeader (resigns node)) (stands refl)
          (rw h (leaves node refl ((eq_iff db.leader.leader_id node).0 h) refl)) t.link _
    | inr h ↦ exec_cases (SameLeader (resigns node)) (stands refl) (rw h (stands refl)) t.link _
  ]

  pub step-Turnover : (c : Call) → SameLeader c (step t c db)
  unfolding step complete fail_job heartbeat_job next_visible reap_expired_leases
  step-Turnover (creates j) = create_job-Turnover j
  step-Turnover (dequeues term worker lease) = dequeue_job-Turnover term worker lease
  step-Turnover (completes id worker) =
      exec_counted_cases (SameLeader _) (stands refl) (stands refl) t.link _ _ _
  step-Turnover (fails id worker message base) =
      scan_cases (SameLeader _) (stands refl) (stands refl) t.link _ _ _
  step-Turnover (heartbeats id worker lease) =
      exec_counted_cases (SameLeader _) (stands refl) (stands refl) t.link _ _ _
  step-Turnover looks = scan_cases (SameLeader _) (stands refl) (stands refl) t.link _ _ _
  step-Turnover (reaps term) =
      exec_counted_cases (SameLeader _) (stands refl) (stands refl) t.link _ _ _
  step-Turnover (campaigns node lease) = campaign-Turnover node lease
  step-Turnover (renews node lease) = renew_leadership-Turnover node lease
  step-Turnover (resigns node) = resign_leadership-Turnover node
