-- ===== src/Storage/Leader.antt =====
-- The statements on the row of the table `leadership`: Campaign, RenewLeadership and
-- ResignLeadership of internal/storage/postgres.go.
use distq_go.Common.{
  ℕ, suc, ◌+◌, String, Bool, ◌&&◌, Option, none, some, ◌==◌, if◌then◌else◌, ltb, leb, ◌≡◌, refl,
  inl, inr, Bool-cases,
}
use distq_go.Storage.Row.{Db, LeaderRow}
use distq_go.Storage.Reply.{Result, ok, Turn, scan, exec, scan_cases, exec_cases}

-- `term, won` and `term, leader`: `none` stands for (0, false, nil).
abbrev pub held : Option ℕ → Result (Option ℕ)
held term = ok term

-- WHERE lease_expires_at < CURRENT_TIMESTAMP
abbrev pub is_lapsed : ℕ → LeaderRow → Bool
is_lapsed now l = ltb l.lease_expires_at now

abbrev pub campaign_row : ℕ → String → ℕ → LeaderRow → LeaderRow
campaign_row now node lease l = record l {
  leader_id = node;
  term = suc l.term;
  lease_expires_at = now + lease;
}

unfoldable pub campaign : Turn → String → ℕ → Db → Db × Result (Option ℕ)
campaign t node lease db =
    if is_lapsed t.now db.leader
    then scan t.link "campaign" db (record db { leader = campaign_row t.now node lease db.leader })
        (some (suc db.leader.term)) held
    else scan t.link "campaign" db db none held

-- WHERE leader_id = $1 AND lease_expires_at >= CURRENT_TIMESTAMP
abbrev pub is_held_by : String → ℕ → LeaderRow → Bool
is_held_by node now l = l.leader_id == node && leb now l.lease_expires_at

unfoldable pub renew_leadership : Turn → String → ℕ → Db → Db × Result (Option ℕ)
renew_leadership t node lease db =
    if is_held_by node t.now db.leader
    then scan t.link "renew leadership" db
        (record db { leader = record db.leader { lease_expires_at = t.now + lease } })
        (some db.leader.term) held
    else scan t.link "renew leadership" db db none held

abbrev pub resign_row : String → LeaderRow → LeaderRow
resign_row node l =
    if l.leader_id == node then record l { leader_id = ""; lease_expires_at = 0 } else l

unfoldable pub resign_leadership : Turn → String → Db → Db × Result (Unit {0})
resign_leadership t node db =
    exec t.link "resign leadership" db (record db { leader = resign_row node db.leader })

-- An election leaves the jobs alone.
module _ (t : Turn) (node : String) (db : Db) where
  abbrev SameJobs : Db → Type 0
  SameJobs d = d.jobs ≡ db.jobs

  pub jobs-campaign : (lease : ℕ) → (campaign t node lease db).0.jobs ≡ db.jobs
  unfolding campaign
  jobs-campaign lease = elim (Bool-cases (is_lapsed t.now db.leader)) [
    | inl h ↦ rw h (scan_cases SameJobs refl refl t.link "campaign" _ held)
    | inr h ↦ rw h (scan_cases SameJobs refl refl t.link "campaign" _ held)
  ]

  pub jobs-renew_leadership : (lease : ℕ) → (renew_leadership t node lease db).0.jobs ≡ db.jobs
  unfolding renew_leadership
  jobs-renew_leadership lease = elim (Bool-cases (is_held_by node t.now db.leader)) [
    | inl h ↦ rw h (scan_cases SameJobs refl refl t.link "renew leadership" _ held)
    | inr h ↦ rw h (scan_cases SameJobs refl refl t.link "renew leadership" _ held)
  ]

  pub jobs-resign_leadership : (resign_leadership t node db).0.jobs ≡ db.jobs
  unfolding resign_leadership
  jobs-resign_leadership = exec_cases SameJobs refl refl t.link "resign leadership"
