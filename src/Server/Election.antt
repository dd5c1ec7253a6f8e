-- ===== src/Server/Election.antt =====
-- internal/server/election.go: the election through the store's leadership row. The loops of
-- Campaign and Hold run over the moments that the environment gives them; a list that ends leaves a
-- loop where it is.
pub mod Loops
use distq_go.Common.{
  ℕ, ◌/◌, String, Bool, true, false, Option, none, some, List, [], ◌∷◌, if◌then◌else◌,
}
use distq_go.Storage.Reply.{Error, Result, ok, err}
use distq_go.Queue
use distq_go.Queue.{Queue}

pub record PostgresElection (S : Type 0) : Type 0 where
  pub q : Queue S
  pub node_id : String
  pub lease : ℕ
  pub renew_every : ℕ

-- The node's name is the uuid library's.
unfoldable pub new_postgres_election : {S : Type 0} → String → Queue S → ℕ → PostgresElection S
new_postgres_election name q lease = record {
  q = q;
  node_id = name;
  lease = lease;
  renew_every = lease / 3;
}

-- One poll of Campaign: whether the context has ended when the call returns, and whether it ends
-- before the next poll is due.
pub record Poll : Type 0 where
  pub ended : Bool
  pub ends : Bool

pub data Campaigned : Type 0 where
  won : (term : ℕ) → Campaigned
  context_ended : Campaigned
  polling : Campaigned

-- A wait of Hold: the context ends, or the ticker fires, and the context has or has not ended when
-- the renewal returns.
pub data Tick : Type 0 where
  done : Tick
  fires : (ended : Bool) → Tick

pub data Held : Type 0 where
  lost shut_down holding : Held

-- Whether a poll ends the loop of Campaign: it won, or the context ended by the time that the call
-- returned or before the next poll; an error is survived.
abbrev pub after_poll : Poll → Result (Option ℕ) → Option Campaigned
after_poll p (ok (some term)) = some (won term)
after_poll p _ = if p.ended then some context_ended else if p.ends then some context_ended else none

-- Whether a renewal ends the loop of Hold: the context had ended, or it was refused; an error is
-- survived.
abbrev pub after_renewal : Bool → Result (Option ℕ) → Option Held
after_renewal true reply = some shut_down
after_renewal false (ok none) = some lost
after_renewal false _ = none

module _ {S : Type 0} (e : PostgresElection S) where
  unfoldable pub campaign : List Poll → S → S × Campaigned
  campaign [] s = (s, polling)
  campaign (p ∷ polls) s =
      let (s', reply) = Queue.campaign e.q e.node_id e.lease s in
      elim (after_poll p reply) [ some c ↦ (s', c) | none ↦ campaign polls s' ]

  unfoldable pub hold : List Tick → S → S × Held
  hold [] s = (s, holding)
  hold (done ∷ ticks) s = (s, shut_down)
  hold (fires ended ∷ ticks) s =
      let (s', reply) = Queue.renew_leadership e.q e.node_id e.lease s in
      elim (after_renewal ended reply) [ some h ↦ (s', h) | none ↦ hold ticks s' ]

  unfoldable pub resign : S → S × Result (Unit {0})
  resign s = Queue.resign_leadership e.q e.node_id s
