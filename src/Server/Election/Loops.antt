-- ===== src/Server/Election/Loops.antt =====
-- internal/server/election.go: what Campaign and Hold return over the PostgreSQL store.
use distq_go.Common.{
  ℕ, ◌+◌, ◌-◌, ◌≡◌, sym, ap, subst, ◌∙◌, inl, inr, String, Option, none, some, List, [], ◌∷◌, arith,
  Option-cases,
}
use distq_go.Storage.Reply.{Turn, Result, ok}
use distq_go.Storage.Reigns.{campaign-won}
use distq_go.Storage.Handover.{IsDeposed, renew_refused}
use distq_go.Storage.Postgres.{World}
use distq_go.Queue
use distq_go.Queue.{Queue}
use distq_go.Server.Outcomes.{postgres_queue}
use distq_go.Server.Election.{
  PostgresElection, Poll, won, Tick, done, fires, lost, campaign, hold, after_poll, after_renewal,
}

-- The turn that the last call took.
abbrev pub last_turn : World → Turn
last_turn w = w.turns (w.calls - 1)

module _ (delay job_lease : ℕ) (node : String) (lease renew_every : ℕ) where
  abbrev pub election : PostgresElection World
  election = record {
    q = postgres_queue delay job_lease;
    node_id = node;
    lease = lease;
    renew_every = renew_every;
  }

  poll : World → World × Result (Option ℕ)
  poll = Queue.campaign (postgres_queue delay job_lease) node lease

  -- A poll that wins.
  poll_wins :
      (p : Poll) (w : World) {term : ℕ}
      → after_poll p (poll w).1 ≡ some (won term)
      → (poll w).0.db.leader ≡ record {
        leader_id = node;
        term = term;
        lease_expires_at = (last_turn (poll w).0).now + lease;
      }
  unfolding poll Queue.campaign
  poll_wins p w {term} got =
      let said : (poll w).1 ≡ ok (some term) = ground (arith, got) in
      let (lapsed, next, row) = campaign-won (w.turns w.calls) node lease w.db {term = term} said in
      ground (arith, next, row)

  -- A campaign that returns a term has put this node into the leadership row under that term, with a
  -- full lease from its last poll.
  pub campaign_wins :
      (polls : List Poll) (w : World) {term : ℕ}
      → (campaign election polls w).1 ≡ won term
      → (campaign election polls w).0.db.leader ≡ record {
        leader_id = node;
        term = term;
        lease_expires_at = (last_turn (campaign election polls w).0).now + lease;
      }
  unfolding campaign poll
  campaign_wins [] w got = absurd (ground arith)
  campaign_wins (p ∷ polls) w {term} got = elim (Option-cases (after_poll p (poll w).1)) [
    | inl e ↦
        rw (e, campaign) (campaign_wins polls (poll w).0 {term = term} (rw (e, campaign) at got))
    | inr (c, e) ↦
        let this : c ≡ won term = ground (arith, e, rw (e, campaign) at got) in
        rw (e, campaign) (poll_wins p w {term = term} (e ∙ ap some this))
  ]

  renewal : World → World × Result (Option ℕ)
  renewal = Queue.renew_leadership (postgres_queue delay job_lease) node lease

  -- A renewal that is refused.
  renewal_refused :
      (w : World)
      → (renewal w).1 ≡ ok none
      → IsDeposed node (last_turn (renewal w).0).now (renewal w).0.db.leader
  unfolding renewal Queue.renew_leadership
  renewal_refused w got =
      let (same, deposed) = renew_refused (w.turns w.calls) node lease w.db got in
      subst (λ n. IsDeposed node (w.turns n).now (renewal w).0.db.leader) (omega arith)
        (subst (IsDeposed node (w.turns w.calls).now) (sym same) deposed)

  -- Hold reports that leadership is lost only where the row, at the time of its last renewal, was
  -- in other hands or its lease had run out.
  pub hold_loses :
      (ticks : List Tick) (w : World)
      → (hold election ticks w).1 ≡ lost
      → IsDeposed node (last_turn (hold election ticks w).0).now (hold election ticks w).0.db.leader
  unfolding hold renewal
  hold_loses [] w got = absurd (ground arith)
  hold_loses (done ∷ ticks) w got = absurd (ground arith)
  hold_loses (fires ended ∷ ticks) w got = elim (Option-cases (after_renewal ended (renewal w).1)) [
    | inl e ↦ rw (e, hold) (hold_loses ticks (renewal w).0 (rw (e, hold) at got))
    | inr (h, e) ↦
        let this : h ≡ lost = ground (arith, e, rw (e, hold) at got) in
        rw (e, hold) (renewal_refused w (ground (arith, e, this)))
  ]
