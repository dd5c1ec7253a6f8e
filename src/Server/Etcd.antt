-- ===== src/Server/Etcd.antt =====
-- internal/server/election_etcd.go: the election through a key in etcd. The etcd client and its
-- concurrency package are a parameter: a record of the calls that the code makes of them. A session
-- is named by a number, and an election on the key by its session. The moments at which a context
-- ends are the environment's, as in Server.Election.
pub mod Sessions
use Prim.Native.String.{◌++◌}
use distq_go.Common.{
  ℕ, ◌/◌, ◌<◌, ◌≡◌, String, Bool, true, false, Option, none, some, List, [], ◌∷◌, if◌then◌else◌,
  ltb,
}
use distq_go.Storage.Reply.{Error, wrapped, Result, ok, err}
use distq_go.Queue.{second}
use distq_go.Server.Election.{Poll, Campaigned, won, context_ended, polling, Held, lost, shut_down}

-- The calls of the client, over a state `S` that is etcd's and the client's. `ping` is the Get of
-- campaignOnce, `close` a session's Close, `campaign` and `resign` those of an election, `rev` its
-- Rev.
pub record Client (S : Type 0) : Type 0 where
  pub ping : (key : String) → S → S × Result (Unit {0})
  pub new_session : (ttl : ℕ) → S → S × Result ℕ
  pub close : (session : ℕ) → S → S × Result (Unit {0})
  pub campaign : (session : ℕ) (key node : String) → S → S × Result (Unit {0})
  pub rev : (session : ℕ) → S → ℕ
  pub resign : (session : ℕ) → S → S × Result (Unit {0})

-- The election's fields, with the state of its client.
pub record EtcdElection (S : Type 0) : Type 0 where
  pub client : S
  pub node_id : String
  pub key : String
  pub ttl : ℕ
  pub session : Option ℕ
  pub elect : Option ℕ

abbrev pub election_key : String
election_key = "/distq/leadership"

-- `ttl := int(lease.Seconds()); if ttl < 1 { ttl = 1 }`
abbrev pub session_ttl : ℕ → ℕ
session_ttl lease = if ltb (lease / second) 1 then 1 else lease / second

-- What the select of Hold received: the end of the context, or of the session.
pub data Wait : Type 0 where
  context_done session_done : Wait

module _ {S : Type 0} where
  -- The client is what clientv3.New returned, and the node's name the uuid library's.
  pub new_etcd_election :
      Result S → (endpoints name key : String) (lease : ℕ) → Result (EtcdElection S)
  new_etcd_election (err e) endpoints name key lease =
      err (wrapped ("connect to etcd at " ++ endpoints) e)
  new_etcd_election (ok client) endpoints name key lease = ok (record {
    client = client;
    node_id = name;
    key = key;
    ttl = session_ttl lease;
    session = none;
    elect = none;
  })

-- Whether a poll ends the loop of Campaign: the context is looked at before the reply.
abbrev pub after_try : Poll → Result ℕ → Option Campaigned
after_try p reply = if p.ended then some context_ended else elim reply [
  | ok term ↦ some (won term)
  | err x ↦ if p.ends then some context_ended else none
]

-- `none` is the panic of a nil session.
unfoldable pub hold : {S : Type 0} → Wait → EtcdElection S → Option Held
hold context_done e = elim e.session [ none ↦ none | some i ↦ some shut_down ]
hold session_done e = elim e.session [ none ↦ none | some i ↦ some lost ]

module _ {S : Type 0} (c : Client S) where
  close_held : Option ℕ → EtcdElection S → EtcdElection S
  close_held none e = e
  close_held (some i) e = record e { client = (c.close i e.client).0; session = none; elect = none }

  unfoldable pub close_session : EtcdElection S → EtcdElection S
  unfolding close_held
  close_session e = close_held e.session e

  -- elect.Campaign returned.
  after_campaign : ℕ → EtcdElection S → S × Result (Unit {0}) → EtcdElection S × Result ℕ
  after_campaign i e (s, err x) =
      (record e { client = (c.close i s).0 }, err (wrapped "etcd campaign" x))
  after_campaign i e (s, ok u) =
      (record e { client = s; session = some i; elect = some i }, ok (c.rev i s))

  -- NewSession returned.
  after_session : EtcdElection S → S × Result ℕ → EtcdElection S × Result ℕ
  after_session e (s, err x) = (record e { client = s }, err (wrapped "etcd session" x))
  after_session e (s, ok i) = after_campaign i e (c.campaign i e.key e.node_id s)

  -- The Get returned.
  after_ping : EtcdElection S → S × Result (Unit {0}) → EtcdElection S × Result ℕ
  after_ping e (s, err x) = (record e { client = s }, err (wrapped "etcd unreachable" x))
  after_ping e (s, ok u) = after_session e (c.new_session e.ttl s)

  try_campaign : EtcdElection S → EtcdElection S × Result ℕ
  try_campaign e = after_ping e (c.ping e.key e.client)

  unfoldable pub campaign_once : EtcdElection S → EtcdElection S × Result ℕ
  unfolding close_session try_campaign after_ping after_session after_campaign
  campaign_once e = try_campaign (close_session e)

  unfoldable pub campaign : List Poll → EtcdElection S → EtcdElection S × Campaigned
  campaign [] e = (e, polling)
  campaign (p ∷ polls) e =
      let (e', reply) = campaign_once e in
      elim (after_try p reply) [ some r ↦ (e', r) | none ↦ campaign polls e' ]

  resign_elect : Option ℕ → EtcdElection S → EtcdElection S × Result (Unit {0})
  unfolding close_session
  resign_elect none e = (e, ok tt)
  resign_elect (some i) e =
      let (s, reply) = c.resign i e.client in (close_session (record e { client = s }), reply)

  unfoldable pub resign : EtcdElection S → EtcdElection S × Result (Unit {0})
  unfolding resign_elect
  resign e = resign_elect e.elect e
