-- ===== src/Storage/History.antt =====
-- Induction over a history of calls, for what holds of one row.
use distq_go.Common.{◌≡◌, String, some, [], ◌∷◌, All}
use distq_go.Storage.Row.{Row, Db}
use distq_go.Storage.Statement.{find_job}
use distq_go.Storage.Reply.{Turn}
use distq_go.Storage.Step.{Call, step, History, run}
use distq_go.Storage.Rows.{Unique, find_job-id}
use distq_go.Storage.Moves.{Move}
use distq_go.Storage.Moves.Calls.{step-Moved, step-Unique}

-- The row under `k` stands in the table and satisfies `P`.
abbrev pub Holds {ℓ} : (Row → Type ℓ) → String → Db → Type ℓ
Holds P k db = (r : Row) × (find_job k db.jobs ≡ some r) × P r

-- A call keeps `P` of the row under `k`.
abbrev pub Keeps {ℓ} : (Row → Type ℓ) → String → Turn × Call → Type ℓ
Keeps P k (t, c) = (r r' : Row) → r.id ≡ k → P r → Move t c r r' → P r'

pub run-Unique : (h : History) (db : Db) → Unique db.jobs → Unique (run h db).jobs
unfolding run
run-Unique [] db u = u
run-Unique ((t, c) ∷ h) db u = run-Unique h (step t c db) (step-Unique t db u c)

module _ {ℓ} (P : Row → Type ℓ) (k : String) where
  pub step-Holds :
      (t : Turn) (c : Call) (db : Db)
      → Keeps P k (t, c)
      → Unique db.jobs
      → Holds P k db
      → Holds P k (step t c db)
  step-Holds t c db keeps u (r, e, p) =
      let (r', e', m) = step-Moved t k db e c u in
      (r', e', keeps r r' (find_job-id k db.jobs e) p m)

  pub run-Holds :
      (h : History) (db : Db)
      → All (Keeps P k) h
      → Unique db.jobs
      → Holds P k db
      → Holds P k (run h db)
  unfolding run
  run-Holds [] db keeps u p = p
  run-Holds ((t, c) ∷ h) db keeps u p =
      run-Holds h (step t c db) keeps.1 (step-Unique t db u c) (step-Holds t c db keeps.0 u p)

  -- Where every call keeps it.
  pub run-Holds_always :
      (h : History) (db : Db)
      → ((t : Turn) (c : Call) → Keeps P k (t, c))
      → Unique db.jobs
      → Holds P k db
      → Holds P k (run h db)
  unfolding run
  run-Holds_always [] db keeps u p = p
  run-Holds_always ((t, c) ∷ h) db keeps u p =
      run-Holds_always h (step t c db) keeps (step-Unique t db u c)
        (step-Holds t c db (keeps t c) u p)
