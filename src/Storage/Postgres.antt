-- ===== src/Storage/Postgres.antt =====
-- The interface Store (internal/storage/store.go) and its implementation PostgresStore.
use distq_go.Common.{ℕ, suc, String, Bool, Option}
use distq_go.Common.Int.{ℤ}
use distq_go.Proto.{Job}
use distq_go.Storage.Row.{Db}
use distq_go.Storage.Reply.{Turn, Result}
use distq_go.Storage.Jobs.{
  create_job, dequeue_job, complete, fail_job, heartbeat_job, next_visible, reap_expired_leases,
}
use distq_go.Storage.Leader.{campaign, renew_leadership, resign_leadership}

-- The methods of a store whose state is `S`. The zero values that go with an error are left out:
-- a pair of a value and an error is a `Result`, `(nil, nil)` is `ok none`, and `(0, false, nil)` of
-- an election is `ok none`.
pub record Store (S : Type 0) : Type 0 where
  pub create : Job → S → S × Result (Unit {0})
  pub dequeue : (term : ℕ) (worker : String) (lease : ℕ) → S → S × Result (Option Job)
  pub finish : (id worker : String) → S → S × Result (Unit {0})
  pub fail : (id worker message : String) (base : ℕ) → S → S × Result Bool
  pub heartbeat : (id worker : String) (lease : ℕ) → S → S × Result Bool
  pub next : S → S × Result (ℤ × Bool)
  pub reap : (term : ℕ) → S → S × Result ℕ
  pub contend : (node : String) (lease : ℕ) → S → S × Result (Option ℕ)
  pub renew : (node : String) (lease : ℕ) → S → S × Result (Option ℕ)
  pub resign : (node : String) → S → S × Result (Unit {0})

-- The database with the turns that its environment will take: one for each call to come.
pub record World : Type 0 where
  pub db : Db
  pub turns : ℕ → Turn
  pub calls : ℕ

-- A call takes the next turn.
abbrev pub on_turn {ℓ} : {A : Type ℓ} → (Turn → Db → Db × A) → World → World × A
on_turn f w =
    let (db', a) = f (w.turns w.calls) w.db in (record w { db = db'; calls = suc w.calls }, a)

abbrev pub postgres_store : Store World
postgres_store = record {
  create = λ j. on_turn (λ t. create_job t j);
  dequeue = λ term worker lease. on_turn (λ t. dequeue_job t term worker lease);
  finish = λ id worker. on_turn (λ t. complete t id worker);
  fail = λ id worker message base. on_turn (λ t. fail_job t id worker message base);
  heartbeat = λ id worker lease. on_turn (λ t. heartbeat_job t id worker lease);
  next = on_turn next_visible;
  reap = λ term. on_turn (λ t. reap_expired_leases t term);
  contend = λ node lease. on_turn (λ t. campaign t node lease);
  renew = λ node lease. on_turn (λ t. renew_leadership t node lease);
  resign = λ node. on_turn (λ t. resign_leadership t node);
}
