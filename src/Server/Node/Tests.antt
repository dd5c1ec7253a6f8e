-- ===== src/Server/Node/Tests.antt =====
-- The theorems about the leadership loop and the elections, with an etcd that answers every call.
use distq_go.Common.{
  ℕ, suc, ◌+◌, ◌≡◌, ◌≢◌, refl, ◌⊎◌, Bool, true, false, not, ◌&&◌, ◌||◌, none, some, List, [], ◌∷◌,
  arith,
}
use distq_go.Storage.Reply.{Result, ok}
use distq_go.Storage.Postgres.{World}
use distq_go.Storage.Tests.{at_time, running_db}
use distq_go.Server.Tests.{world, patient}
use distq_go.Queue
use distq_go.Server.Leadership
use distq_go.Server.Leadership.{new_leadership, leading, reign_is_over, current_term}
use distq_go.Server.Election
use distq_go.Server.Election.{Poll, Tick, done, PostgresElection, won, polling, lost, shut_down}
use distq_go.Server.Election.Loops.{election}
use distq_go.Server.Etcd
use distq_go.Server.Etcd.{Client, EtcdElection, Wait, context_done, session_done, campaign_once}
use distq_go.Server.Etcd.Sessions.{Keepalive, HoldsAll, campaign-HoldsAll}
use distq_go.Server.Node.{by_postgres, by_etcd, Item, goes, Ran, returned, panicked, run_node}
use distq_go.Server.Node.Calls.{Act, campaigns, holds, resigns, logged}
use distq_go.Server.Node.Sessions.{IsClean, etcd_node}
use distq_go.Server.Node.Elections.{campaign_returns, win_at_shutdown}
use distq_go.Server.Dispatcher.{same_stream}

-- How many sessions were opened, and which are alive.
record Keys : Type 0 where
  opened : ℕ
  alive : ℕ → Bool

abbrev answers : Keys → Keys × Result (Unit {0})
answers s = (s, ok tt)

abbrev small_etcd : Client Keys
small_etcd = record {
  ping = λ key s. answers s;
  new_session = λ ttl s. (
    record { opened = suc s.opened; alive = λ k. same_stream s.opened k || s.alive k },
    ok s.opened,
  );
  close = λ i s. answers (record s { alive = λ k. not (same_stream i k) && s.alive k });
  campaign = λ i key node s. answers s;
  rev = λ i s. s.opened + 7;
  resign = λ i s. answers s;
}

opened_cases :
    (s : Keys) (i k : ℕ)
    → ok s.opened ≡ ok i
    → (same_stream s.opened k || s.alive k) ≡ true
    → (k ≡ i) ⊎ (s.alive k ≡ true)
opened_cases s i k e on = ground (arith, e, on)

closed_cases :
    (s : Keys) (i k : ℕ)
    → (not (same_stream i k) && s.alive k) ≡ true
    → (k ≢ i) × (s.alive k ≡ true)
closed_cases s i k on = ground (arith, on)

small_etcd-Keepalive : Keepalive small_etcd
small_etcd-Keepalive = record {
  alive = λ s k. s.alive k;
  pinged = λ key s k on. on;
  opened = λ ttl s i k e on. opened_cases s i k e on;
  not_opened = λ ttl s x k e on. absurd (ground (arith, e));
  closed = λ i s k on. closed_cases s i k on;
  campaigned = λ i key node s k on. on;
  resigned = λ i s k on. on;
}

abbrev fresh_node : EtcdElection Keys
fresh_node = record {
  client = record { opened = 0; alive = λ k. false };
  node_id = "n1";
  key = "/distq/leadership";
  ttl = 30;
  session = none;
  elect = none;
}

fresh_node-HoldsAll : HoldsAll small_etcd small_etcd-Keepalive fresh_node
unfolding small_etcd-Keepalive
fresh_node-HoldsAll k on = absurd (ground (arith, on))

-- A reign that ends with its session, and then one that the shutdown ends.
abbrev two_rounds : List (Item Wait)
two_rounds = goes patient session_done ∷ goes patient context_done ∷ []

etcd_node_example :
    IsClean small_etcd small_etcd-Keepalive
      (run_node (logged (by_etcd small_etcd)) two_rounds new_leadership (fresh_node, []))
unfolding new_leadership
etcd_node_example =
    etcd_node small_etcd small_etcd-Keepalive two_rounds new_leadership fresh_node
      fresh_node-HoldsAll refl

campaign-HoldsAll_example :
    HoldsAll small_etcd small_etcd-Keepalive (Etcd.campaign small_etcd patient fresh_node).0
    × (((term : ℕ) → (Etcd.campaign small_etcd patient fresh_node).1 ≢ won term)
        ⊎ ((i : ℕ) × ((Etcd.campaign small_etcd patient fresh_node).1
              ≡ won ((Etcd.campaign small_etcd patient fresh_node).0.client.opened + 7))
            × ((Etcd.campaign small_etcd patient fresh_node).0.session ≡ some i)
            × ((Etcd.campaign small_etcd patient fresh_node).0.elect ≡ some i)))
campaign-HoldsAll_example =
    campaign-HoldsAll small_etcd small_etcd-Keepalive patient fresh_node fresh_node-HoldsAll

-- The calls of these rounds.
abbrev two_reigns : List Act
two_reigns =
    campaigns (won 8)
    ∷ holds (some lost)
    ∷ campaigns (won 9)
    ∷ holds (some shut_down)
    ∷ resigns
    ∷ []

abbrev over : Poll
over = record { ended = true; ends = true }

abbrev contender : PostgresElection World
contender = election 2 30 "n2" 9 3

-- At 60, when the lease of n1 has ended.
abbrev open_world : World
open_world = record (world running_db) { turns = λ n. at_time (60 + n) }

campaign_returns_example :
    ((Election.campaign contender
        (record { ended = false; ends = false } ∷ over ∷ [])
        (world running_db)).1
      ≢ polling)
    × ((Etcd.campaign small_etcd (record { ended = false; ends = false } ∷ over ∷ []) fresh_node).1
        ≢ polling)
campaign_returns_example =
    campaign_returns contender small_etcd (record { ended = false; ends = false } ∷ []) [] over
      (world running_db) fresh_node refl

win_at_shutdown_example :
    ((run_node
        (by_etcd small_etcd)
        (goes (over ∷ []) context_done ∷ [])
        new_leadership
        fresh_node).ran
      ≡ returned false)
    × ((run_node
          (by_etcd small_etcd)
          (goes (over ∷ []) context_done ∷ [])
          new_leadership
          fresh_node).election
        ≡ (campaign_once small_etcd fresh_node).0)
    × ((run_node
          (by_postgres contender)
          (goes (over ∷ []) (done ∷ []) ∷ [])
          new_leadership
          open_world).ran
        ≡ returned true)
    × ((run_node
          (by_postgres contender)
          (goes (over ∷ []) (done ∷ []) ∷ [])
          new_leadership
          open_world).election
        ≡ (Election.resign contender (Queue.campaign contender.q "n2" 9 open_world).0).0)
unfolding new_leadership campaign_once Queue.campaign distq_go.Storage.Leader.campaign
win_at_shutdown_example =
    win_at_shutdown contender small_etcd over new_leadership open_world fresh_node {term = 4}
      {won_term = 8} refl refl refl refl
