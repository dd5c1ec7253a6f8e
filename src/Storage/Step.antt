-- ===== src/Storage/Step.antt =====
-- The calls of the interface Store (internal/storage/store.go) as data, one step of the database
-- for each, and a history of calls. The servers of a cluster share one database, so a history
-- holds the calls of all of them in the order in which PostgreSQL runs the statements.
use distq_go.Common.{ℕ, String, List, [], ◌∷◌}
use distq_go.Proto.{Job}
use distq_go.Storage.Row.{Db}
use distq_go.Storage.Reply.{Turn}
use distq_go.Storage.Jobs.{
  create_job, dequeue_job, complete, fail_job, heartbeat_job, next_visible, reap_expired_leases,
}
use distq_go.Storage.Leader.{campaign, renew_leadership, resign_leadership}

pub data Call : Type 0 where
  creates : Job → Call
  dequeues : (term : ℕ) (worker : String) (lease : ℕ) → Call
  completes : (id worker : String) → Call
  fails : (id worker message : String) (base : ℕ) → Call
  heartbeats : (id worker : String) (lease : ℕ) → Call
  looks : Call
  reaps : (term : ℕ) → Call
  campaigns : (node : String) (lease : ℕ) → Call
  renews : (node : String) (lease : ℕ) → Call
  resigns : (node : String) → Call

unfoldable pub step : Turn → Call → Db → Db
step t (creates j) db = (create_job t j db).0
step t (dequeues term worker lease) db = (dequeue_job t term worker lease db).0
step t (completes id worker) db = (complete t id worker db).0
step t (fails id worker message base) db = (fail_job t id worker message base db).0
step t (heartbeats id worker lease) db = (heartbeat_job t id worker lease db).0
step t looks db = (next_visible t db).0
step t (reaps term) db = (reap_expired_leases t term db).0
step t (campaigns node lease) db = (campaign t node lease db).0
step t (renews node lease) db = (renew_leadership t node lease db).0
step t (resigns node) db = (resign_leadership t node db).0

abbrev pub History : Type 0
History = List (Turn × Call)

unfoldable pub run : History → Db → Db
run [] db = db
run ((t, c) ∷ h) db = run h (step t c db)
