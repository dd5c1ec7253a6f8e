-- ===== src/Server/Cluster.antt =====
-- A cluster that elects through PostgreSQL: the servers' own views of their leadership beside the
-- database that they share. A server learns of its wins and losses by the replies to its calls, so
-- its view may be late. The election through etcd, whose terms do not come from the leadership row,
-- is in Server.Etcd.
use distq_go.Common.{
  ℕ, ◌≤◌, ◌≡◌, ◌≢◌, String, true, false, some, ◌==◌, eq_iff, arith, if◌then◌else◌,
}
use distq_go.Storage.Row.{Db}
use distq_go.Storage.Reply.{Turn, ok}
use distq_go.Storage.Leader.{campaign}
use distq_go.Storage.Step.{Call, step}
use distq_go.Storage.Election.{step-Turnover}
use distq_go.Storage.Reigns.{Turnover-le, campaign-won}
use distq_go.Server.Leadership.{Leadership, become_lead, demote, leading, current_term}

pub record Cluster : Type 0 where
  pub db : Db
  pub node : String → Leadership

abbrev pub set_node : String → Leadership → (String → Leadership) → String → Leadership
set_node n l nodes m = if m == n then l else nodes m

-- A node wins a campaign for the leadership row and opens its reign; a node ends its reign, for
-- whatever reason; or any call of anybody runs on the database, its reply being lost, late or of no
-- matter here.
pub data Event (c : Cluster) : Cluster → Type 0 where
  opens :
      (t : Turn) (n : String) (lease term : ℕ)
      → (campaign t n lease c.db).1 ≡ ok (some term)
      → Event c (record {
        db = (campaign t n lease c.db).0;
        node = set_node n (become_lead term (c.node n)) c.node;
      })
  closes :
      (n : String) → Event c (record { db = c.db; node = set_node n (demote (c.node n)) c.node })
  calls : (t : Turn) (call : Call) → Event c (record { db = step t call c.db; node = c.node })

pub data Reach (c : Cluster) : Cluster → Type 0 where
  here : Reach c c
  next : {d e : Cluster} → Reach c d → Event d e → Reach c e

-- No two nodes that believe they lead have the same term, and no such term is ahead of the row's.
pub record TellsApart (c : Cluster) : Type 0 where
  pub behind : (n : String) → leading (c.node n) ≡ true → current_term (c.node n) ≤ c.db.leader.term
  pub apart :
      (n m : String)
      → n ≢ m
      → leading (c.node n) ≡ true
      → leading (c.node m) ≡ true
      → current_term (c.node n) ≢ current_term (c.node m)

opens-TellsApart :
    (c : Cluster) (t : Turn) (n : String) (lease term : ℕ)
    → (campaign t n lease c.db).1 ≡ ok (some term)
    → TellsApart c
    → TellsApart (record {
      db = (campaign t n lease c.db).0;
      node = set_node n (become_lead term (c.node n)) c.node;
    })
unfolding become_lead
opens-TellsApart c t n lease term got s =
    let (lapsed, next_term, row) = campaign-won t n lease c.db {term = term} got in
    record {
      behind = λ m on. ground (arith, next_term, row, s.behind m);
      apart = λ m k ne on_m on_k.
          ground (arith, next_term, s.behind m, s.behind k, s.apart m k ne, eq_iff m n, eq_iff k n);
    }

closes-TellsApart :
    (c : Cluster) (n : String)
    → TellsApart c
    → TellsApart (record { db = c.db; node = set_node n (demote (c.node n)) c.node })
unfolding demote
closes-TellsApart c n s = record {
  behind = λ m on. ground (arith, s.behind m);
  apart = λ m k ne on_m on_k. ground (arith, s.apart m k ne);
}

Event-TellsApart : {c d : Cluster} → Event c d → TellsApart c → TellsApart d
Event-TellsApart {c} (opens t n lease term got) s = opens-TellsApart c t n lease term got s
Event-TellsApart {c} (closes n) s = closes-TellsApart c n s
Event-TellsApart {c} (calls t call) s = record {
  behind = λ n on. omega (arith, s.behind n on, Turnover-le (step-Turnover t c.db call));
  apart = s.apart;
}

-- Split brain is visible where servers elect through PostgreSQL: in every state that such a cluster
-- can reach from one where no server leads, two servers that both believe they lead have different
-- terms, and no believer's term is ahead of the leadership row's.
pub Reach-TellsApart :
    {c d : Cluster} → ((n : String) → leading (c.node n) ≡ false) → Reach c d → TellsApart d
Reach-TellsApart quiet here = record {
  behind = λ n on. ground (arith, quiet n);
  apart = λ n m ne on_n on_m. ground (arith, quiet n);
}
Reach-TellsApart quiet (next r ev) = Event-TellsApart ev (Reach-TellsApart quiet r)
