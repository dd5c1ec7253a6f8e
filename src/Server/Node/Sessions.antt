-- ===== src/Server/Node/Sessions.antt =====
-- The loop Run of internal/server/leadership.go over the election through etcd: its sessions.
use distq_go.Common.{
  ℕ, ◌≡◌, ◌≢◌, refl, sym, subst, inl, inr, ◌⊎◌, Bool, true, false, none, some, List, [], ◌∷◌, ◌++◌,
  arith,
}
use distq_go.Server.Leadership.{Leadership, become_lead, demote, resign}
use distq_go.Server.Election.{Campaigned, won, context_ended, lost, shut_down, holding, Poll}
use distq_go.Server.Etcd
use distq_go.Server.Etcd.{Client, EtcdElection, Wait, context_done, session_done}
use distq_go.Server.Etcd.Sessions.{Keepalive, HoldsAll, campaign-HoldsAll, resign-NoneAlive}
use distq_go.Server.Node.{
  by_etcd, Item, quits, goes, returned, panicked, Node, hand_over, leave, run_node,
}
use distq_go.Server.Node.Rounds.{Campaigned-cases, gives_up, shuts_down, loses}
use distq_go.Server.Node.Calls.{
  Act, campaigns, holds, resigns, logged, resigned_in, logged_campaign, logged_hold, off_after,
}

-- Whether the shutdown ended a reign.
abbrev pub cut_short : List Act → Bool
cut_short [] = false
cut_short (holds (some shut_down) ∷ acts) = true
cut_short (_ ∷ acts) = cut_short acts

uncut_campaign :
    (log : List Act) (r : Campaigned)
    → cut_short log ≡ false
    → cut_short (log ++ (campaigns r ∷ [])) ≡ false
uncut_campaign [] r e = refl
uncut_campaign (campaigns x ∷ log) r e = uncut_campaign log r e
uncut_campaign (resigns ∷ log) r e = uncut_campaign log r e
uncut_campaign (holds none ∷ log) r e = uncut_campaign log r e
uncut_campaign (holds (some lost) ∷ log) r e = uncut_campaign log r e
uncut_campaign (holds (some holding) ∷ log) r e = uncut_campaign log r e
uncut_campaign (holds (some shut_down) ∷ log) r e = absurd (ground (arith, e))

uncut_lost :
    (log : List Act) → cut_short log ≡ false → cut_short (log ++ (holds (some lost) ∷ [])) ≡ false
uncut_lost [] e = refl
uncut_lost (campaigns x ∷ log) e = uncut_lost log e
uncut_lost (resigns ∷ log) e = uncut_lost log e
uncut_lost (holds none ∷ log) e = uncut_lost log e
uncut_lost (holds (some lost) ∷ log) e = uncut_lost log e
uncut_lost (holds (some holding) ∷ log) e = uncut_lost log e
uncut_lost (holds (some shut_down) ∷ log) e = absurd (ground (arith, e))

resigned_in-snoc : (log : List Act) → resigned_in (log ++ (resigns ∷ [])) ≡ true
resigned_in-snoc [] = refl
resigned_in-snoc (resigns ∷ log) = refl
resigned_in-snoc (campaigns x ∷ log) = resigned_in-snoc log
resigned_in-snoc (holds x ∷ log) = resigned_in-snoc log

module _ {S : Type 0} (c : Client S) (live : Keepalive c) where
  -- The node did not panic; and either no reign was cut short by the shutdown, or Run has returned
  -- and resigned, and no session is alive.
  abbrev pub IsClean : Node (EtcdElection S × List Act) → Type 0
  IsClean n =
      (n.ran ≢ panicked)
      × ((cut_short n.election.1 ≡ false)
          ⊎ ((n.ran ≡ returned true)
              × (resigned_in n.election.1 ≡ true)
              × ((k : ℕ) → live.alive n.election.0.client k ≡ false)))

  quiet-IsClean :
      (l : Leadership) (e : EtcdElection S) (log : List Act)
      → l.is_lead ≡ false
      → cut_short log ≡ false
      → IsClean (leave (logged (by_etcd c)) l (e, log))
  unfolding leave hand_over resign
  quiet-IsClean l e log off uncut = rw off ((λ p. ground (arith, p)), inl uncut)

  leading-IsClean :
      (l : Leadership) (e : EtcdElection S) (i : ℕ) (log : List Act)
      → HoldsAll c live e
      → e.elect ≡ some i
      → l.is_lead ≡ true
      → IsClean (leave (logged (by_etcd c)) l (e, log))
  unfolding by_etcd leave hand_over resign
  leading-IsClean l e i log all led on = rw on (
    (λ p. ground (arith, p)),
    inr (refl, resigned_in-snoc log, resign-NoneAlive c live e i all led),
  )

  hold_ends :
      (e : EtcdElection S) (i : ℕ) → e.session ≡ some i → Etcd.hold context_done e ≡ some shut_down
  unfolding Etcd.hold
  hold_ends e i here = ground (arith, here)

  hold_loses :
      (e : EtcdElection S) (i : ℕ) → e.session ≡ some i → Etcd.hold session_done e ≡ some lost
  unfolding Etcd.hold
  hold_loses e i here = ground (arith, here)

  -- A reign that was won, whatever ends it.
  won_case :
      (polls : List Poll) (w : Wait) (items : List (Item Wait)) (l : Leadership)
      (e : EtcdElection S) (log : List Act) (term i : ℕ)
      → ((l' : Leadership) (e' : EtcdElection S) (log' : List Act)
          → HoldsAll c live e'
          → l'.is_lead ≡ false
          → cut_short log' ≡ false
          → IsClean (run_node (logged (by_etcd c)) items l' (e', log')))
      → (Etcd.campaign c polls e).1 ≡ won term
      → HoldsAll c live (Etcd.campaign c polls e).0
      → (Etcd.campaign c polls e).0.session ≡ some i
      → (Etcd.campaign c polls e).0.elect ≡ some i
      → cut_short log ≡ false
      → IsClean (run_node (logged (by_etcd c)) (goes polls w ∷ items) l (e, log))
  unfolding by_etcd become_lead
  won_case polls context_done items l e log term i rest r held here led uncut =
      let e' = (Etcd.campaign c polls e).0 in
      let log1 = log ++ (campaigns (won term) ∷ []) in
      subst IsClean
        (sym (
          shuts_down (logged (by_etcd c)) polls context_done items l (e, log) {s' = (e', log1)}
            {term = term} (logged_campaign (by_etcd c) polls e log {r = won term} r)
            (logged_hold (by_etcd c) context_done e' log1 {h = some shut_down}
              (hold_ends e' i here))))
        (leading-IsClean (become_lead term l) e' i (log1 ++ (holds (some shut_down) ∷ [])) held led
          refl)
  won_case polls session_done items l e log term i rest r held here led uncut =
      let e' = (Etcd.campaign c polls e).0 in
      let log1 = log ++ (campaigns (won term) ∷ []) in
      subst IsClean
        (sym (
          loses (logged (by_etcd c)) polls session_done items l (e, log) {s' = (e', log1)}
            {term = term} (logged_campaign (by_etcd c) polls e log {r = won term} r)
            (logged_hold (by_etcd c) session_done e' log1 {h = some lost} (hold_loses e' i here))))
        (rest (demote (become_lead term l)) e' (log1 ++ (holds (some lost) ∷ [])) held
          (off_after term l) (uncut_lost log1 (uncut_campaign log (won term) uncut)))

  run-IsClean :
      (items : List (Item Wait)) (l : Leadership) (e : EtcdElection S) (log : List Act)
      → HoldsAll c live e
      → l.is_lead ≡ false
      → cut_short log ≡ false
      → IsClean (run_node (logged (by_etcd c)) items l (e, log))
  unfolding run_node by_etcd
  run-IsClean [] l e log all off uncut = ((λ p. ground (arith, p)), inl uncut)
  run-IsClean (quits ∷ items) l e log all off uncut = quiet-IsClean l e log off uncut
  run-IsClean (goes polls w ∷ items) l e log all off uncut =
      let (held, answer) = campaign-HoldsAll c live polls e all in
      let e' = (Etcd.campaign c polls e).0 in
      elim (Campaigned-cases (Etcd.campaign c polls e).1) [
        | inl r ↦
            rw (r, run_node)
              ((λ p. ground (arith, p)), inl (uncut_campaign log (Etcd.campaign c polls e).1 uncut))
        | inr (inl r) ↦
            subst IsClean
              (sym (
                gives_up (logged (by_etcd c)) polls w items l (e, log)
                  {s' = (e', log ++ (campaigns context_ended ∷ []))}
                  (logged_campaign (by_etcd c) polls e log {r = context_ended} r)))
              (quiet-IsClean l e' (log ++ (campaigns context_ended ∷ [])) off
                (uncut_campaign log context_ended uncut))
        | inr (inr (term, r)) ↦ elim answer [
          | inl never ↦ absurd (never term r)
          | inr (i, _, here, led) ↦
              won_case polls w items l e log term i (run-IsClean items) r held here led uncut
        ]
      ]

  -- A node that elects through etcd never calls Hold without a session. And where the shutdown ends
  -- a reign, Run returns, it has called Resign, and no session is alive. (At the start the node
  -- does not lead, and no session but the one held is alive.)
  pub etcd_node :
      (items : List (Item Wait)) (l : Leadership) (e : EtcdElection S)
      → HoldsAll c live e
      → l.is_lead ≡ false
      → IsClean (run_node (logged (by_etcd c)) items l (e, []))
  etcd_node items l e all off = run-IsClean items l e [] all off refl
