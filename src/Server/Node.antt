-- ===== src/Server/Node.antt =====
-- The loop Run of internal/server/leadership.go over an election: the interface Election of
-- internal/server/election.go is a parameter, which the election through PostgreSQL and the one
-- through etcd fill. `W` is what the environment decides of one call of Hold.
pub mod Rounds
pub mod Calls
pub mod Endings
pub mod Sessions
pub mod Elections
mod Tests
use distq_go.Common.{ℕ, Bool, true, false, Option, none, some, List, [], ◌∷◌}
use distq_go.Storage.Reply.{Result}
use distq_go.Server.Leadership.{Leadership, become_lead, demote, resign}
use distq_go.Server.Election.{
  Poll, Campaigned, won, context_ended, polling, Tick, Held, lost, shut_down, holding,
  PostgresElection,
}
use distq_go.Server.Election
use distq_go.Server.Etcd
use distq_go.Server.Etcd.{Client, EtcdElection, Wait}

-- Campaign, Hold and Resign over a state `S`. Hold is `none` where it panics.
pub record Mechanism (S W : Type 0) : Type 0 where
  pub campaign : List Poll → S → S × Campaigned
  pub hold : W → S → S × Option Held
  pub resign : S → S × Result (Unit {0})

held_by : {S : Type 0} → S × Held → S × Option Held
held_by (s, h) = (s, some h)

unfoldable pub by_postgres : {S : Type 0} → PostgresElection S → Mechanism S (List Tick)
unfolding held_by
by_postgres e = record {
  campaign = Election.campaign e;
  hold = λ ticks s. held_by (Election.hold e ticks s);
  resign = Election.resign e;
}

unfoldable pub by_etcd : {S : Type 0} → Client S → Mechanism (EtcdElection S) Wait
by_etcd c = record {
  campaign = Etcd.campaign c;
  hold = λ w e. (e, Etcd.hold w e);
  resign = Etcd.resign c;
}

-- One round of the loop: the context has ended when the loop looks at it, or it campaigns and holds.
pub data Item (W : Type 0) : Type 0 where
  quits : Item W
  goes : (polls : List Poll) (hold : W) → Item W

-- Whether Run has returned, and then whether it called the election's Resign; `running` is a loop
-- that waits still.
pub data Ran : Type 0 where
  returned : (resigned : Bool) → Ran
  running panicked : Ran

pub record Node (S : Type 0) : Type 0 where
  pub leadership : Leadership
  pub election : S
  pub ran : Ran

module _ {S W : Type 0} (m : Mechanism S W) where
  hand_over : S → Leadership × Bool → Node S
  hand_over s (l, true) = record { leadership = l; election = (m.resign s).0; ran = returned true }
  hand_over s (l, false) = record { leadership = l; election = s; ran = returned false }

  -- The deferred l.resign().
  unfoldable pub leave : Leadership → S → Node S
  unfolding hand_over
  leave l s = hand_over s (resign l)

  unfoldable pub run_node : List (Item W) → Leadership → S → Node S
  run_node [] l s = record { leadership = l; election = s; ran = running }
  run_node (quits ∷ items) l s = leave l s
  run_node (goes polls w ∷ items) l s =
      let (s', campaigned) = m.campaign polls s in
      elim campaigned [
        | polling ↦ record { leadership = l; election = s'; ran = running }
        | context_ended ↦ leave l s'
        | won term ↦
            let (s'', held) = m.hold w s' in
            elim held [
              | none ↦ record { leadership = become_lead term l; election = s''; ran = panicked }
              | some h ↦ elim h [
                | lost ↦ run_node items (demote (become_lead term l)) s''
                | shut_down ↦ leave (become_lead term l) s''
                | holding ↦ record {
                  leadership = become_lead term l;
                  election = s'';
                  ran = running;
                }
              ]
            ]
      ]
