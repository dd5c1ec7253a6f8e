-- ===== src/Server/Node/Elections.antt =====
-- The loop Run of internal/server/leadership.go over the two elections of internal/server.
use distq_go.Common.{
  ℕ, ◌<◌, ◌≡◌, ◌≢◌, refl, ap, inl, inr, Bool, true, false, Option, none, some, List, [], ◌∷◌, ◌++◌,
  ◌∙◌, arith, Option-cases,
}
use distq_go.Storage.Reply.{Result, ok, err}
use distq_go.Queue
use distq_go.Queue.{Queue}
use distq_go.Server.Leadership.{Leadership, new_leadership, become_lead, resign, leading}
use distq_go.Server.Leadership.Reign.{run_stops}
use distq_go.Server.Election.{
  Poll, Campaigned, won, context_ended, polling, Tick, done, Held, lost, shut_down, holding,
  PostgresElection, after_poll,
}
use distq_go.Server.Election
use distq_go.Server.Etcd
use distq_go.Server.Etcd.{
  Client, EtcdElection, Wait, context_done, session_done, after_try, campaign_once,
}
use distq_go.Server.Node.{
  Mechanism, by_postgres, by_etcd, Item, goes, returned, hand_over, leave, run_node,
}
use distq_go.Server.Node.Rounds.{gives_up, shuts_down, run_node-run}

-- Whatever the election, when Run of a new node has returned, the node does not lead, and the
-- context of every reign that it opened is cancelled.
pub run_node_stops :
    {S W : Type 0} (m : Mechanism S W) (items : List (Item W)) (s : S) (k : ℕ) {resigned : Bool}
    → (run_node m items new_leadership s).ran ≡ returned resigned
    → k < (run_node m items new_leadership s).leadership.fresh
    → (leading (run_node m items new_leadership s).leadership ≡ false)
      × ((run_node m items new_leadership s).leadership.cancelled k ≡ true)
run_node_stops m items s k {resigned} e h =
    let (rounds, same) = run_node-run m items new_leadership s {resigned = resigned} e in
    let (quiet, over, _, _) = run_stops rounds k (rw same h) in (rw same at quiet, rw same at over)

-- A poll never says that the loop goes on polling, and it ends the loop if the context has ended.
after_poll-ne-polling : (p : Poll) (r : Result (Option ℕ)) → after_poll p r ≢ some polling
after_poll-ne-polling p (err x) e = ground (arith, e)
after_poll-ne-polling p (ok none) e = ground (arith, e)
after_poll-ne-polling p (ok (some term)) e = ground (arith, e)

after_poll-ne-none : (p : Poll) (r : Result (Option ℕ)) → p.ended ≡ true → after_poll p r ≢ none
after_poll-ne-none p (err x) over e = ground (arith, e)
after_poll-ne-none p (ok none) over e = ground (arith, e)
after_poll-ne-none p (ok (some term)) over e = ground (arith, e)

postgres_returns :
    {S : Type 0} (e : PostgresElection S) (before after : List Poll) (p : Poll) (s : S)
    → p.ended ≡ true
    → (Election.campaign e (before ++ p ∷ after) s).1 ≢ polling
unfolding Election.campaign
postgres_returns e [] after p s over stays =
    let reply = (Queue.campaign e.q e.node_id e.lease s).1 in
    elim (Option-cases (after_poll p reply)) [
      | inl on ↦ absurd (after_poll-ne-none p reply over on)
      | inr (r, off) ↦
          after_poll-ne-polling p reply (off ∙ ap some (rw (off, Election.campaign) at stays))
    ]
postgres_returns e (b ∷ before) after p s over stays =
    let reply = (Queue.campaign e.q e.node_id e.lease s).1 in
    elim (Option-cases (after_poll b reply)) [
      | inl on ↦
          postgres_returns e before after p (Queue.campaign e.q e.node_id e.lease s).0 over
            (rw (on, Election.campaign) at stays)
      | inr (r, off) ↦
          after_poll-ne-polling b reply (off ∙ ap some (rw (off, Election.campaign) at stays))
    ]

after_try-ne-polling : (p : Poll) (r : Result ℕ) → after_try p r ≢ some polling
after_try-ne-polling p (err x) e = ground (arith, e)
after_try-ne-polling p (ok term) e = ground (arith, e)

after_try-ne-none : (p : Poll) (r : Result ℕ) → p.ended ≡ true → after_try p r ≢ none
after_try-ne-none p r over e = ground (arith, e)

etcd_returns :
    {S : Type 0} (c : Client S) (before after : List Poll) (p : Poll) (e : EtcdElection S)
    → p.ended ≡ true
    → (Etcd.campaign c (before ++ p ∷ after) e).1 ≢ polling
unfolding Etcd.campaign
etcd_returns c [] after p e over stays =
    let reply = (campaign_once c e).1 in
    elim (Option-cases (after_try p reply)) [
      | inl on ↦ absurd (after_try-ne-none p reply over on)
      | inr (r, off) ↦
          after_try-ne-polling p reply (off ∙ ap some (rw (off, Etcd.campaign) at stays))
    ]
etcd_returns c (b ∷ before) after p e over stays =
    let reply = (campaign_once c e).1 in
    elim (Option-cases (after_try b reply)) [
      | inl on ↦
          etcd_returns c before after p (campaign_once c e).0 over (rw (on, Etcd.campaign) at stays)
      | inr (r, off) ↦
          after_try-ne-polling b reply (off ∙ ap some (rw (off, Etcd.campaign) at stays))
    ]

-- A call of Campaign returns, through either election, once a poll has found that the context ended.
pub campaign_returns :
    {S T : Type 0} (e : PostgresElection S) (c : Client T) (before after : List Poll) (p : Poll)
    (s : S) (x : EtcdElection T)
    → p.ended ≡ true
    → ((Election.campaign e (before ++ p ∷ after) s).1 ≢ polling)
      × ((Etcd.campaign c (before ++ p ∷ after) x).1 ≢ polling)
campaign_returns e c before after p s x over =
    (postgres_returns e before after p s over, etcd_returns c before after p x over)

-- What Run leaves behind, by whether the node led.
leave_quiet :
    {S W : Type 0} (m : Mechanism S W) (l : Leadership) (s : S)
    → l.is_lead ≡ false
    → ((leave m l s).ran ≡ returned false) × ((leave m l s).election ≡ s)
unfolding leave hand_over resign
leave_quiet m l s off = ground arith

leave_leading :
    {S W : Type 0} (m : Mechanism S W) (l : Leadership) (s : S)
    → l.is_lead ≡ true
    → ((leave m l s).ran ≡ returned true) × ((leave m l s).election ≡ (m.resign s).0)
unfolding leave hand_over resign
leave_leading m l s on = ground arith

-- A context that ends while a campaign is won is treated in two ways. Through etcd, Campaign drops
-- the win: Run returns without calling Resign, and the election still holds what that campaign
-- opened. Through PostgreSQL the node takes the term, and resigns it. (The call of the mechanism
-- won, the context has ended when the loop looks at it, and the node did not lead before.)
pub win_at_shutdown :
    {S T : Type 0} (e : PostgresElection S) (c : Client T) (p : Poll) (l : Leadership) (s : S)
    (x : EtcdElection T) {term won_term : ℕ}
    → p.ended ≡ true
    → l.is_lead ≡ false
    → (campaign_once c x).1 ≡ ok won_term
    → (Queue.campaign e.q e.node_id e.lease s).1 ≡ ok (some term)
    → ((run_node (by_etcd c) (goes (p ∷ []) context_done ∷ []) l x).ran ≡ returned false)
      × ((run_node (by_etcd c) (goes (p ∷ []) context_done ∷ []) l x).election
          ≡ (campaign_once c x).0)
      × ((run_node (by_postgres e) (goes (p ∷ []) (done ∷ []) ∷ []) l s).ran ≡ returned true)
      × ((run_node (by_postgres e) (goes (p ∷ []) (done ∷ []) ∷ []) l s).election
          ≡ (Election.resign e (Queue.campaign e.q e.node_id e.lease s).0).0)
unfolding by_etcd by_postgres Election.hold become_lead
win_at_shutdown e c p l s x {term} over off tried polled =
    let s' = (Queue.campaign e.q e.node_id e.lease s).0 in
    let x' = (campaign_once c x).0 in
    let dropped : Etcd.campaign c (p ∷ []) x ≡ (x', context_ended) =
      unfold Etcd.campaign in ground (arith, over) in
    let taken : Election.campaign e (p ∷ []) s ≡ (s', won term) =
      unfold Election.campaign in ground (arith, polled) in
    let (ran, kept) = leave_quiet (by_etcd c) l x' off in
    let (ran', left) = leave_leading (by_postgres e) (become_lead term l) s' refl in
    let out = gives_up (by_etcd c) (p ∷ []) context_done [] l x {s' = x'} dropped in
    let out' =
      shuts_down (by_postgres e) (p ∷ []) (done ∷ []) [] l s {s' = s'} {s'' = s'} {term = term}
        taken refl in
    (rw out ran, rw out kept, rw out' ran', rw out' left)
