-- ===== src/Server/Node/Calls.antt =====
-- The calls that Run of internal/server/leadership.go makes to the election, in their order: what
-- they have to be, apart from the code, and that they are.
use distq_go.Common.{
  ℕ, ◌≡◌, refl, sym, subst, ap, ◌∙◌, inl, inr, Bool, true, false, Option, some, List, [], ◌∷◌, ◌++◌,
  arith,
}
use distq_go.Server.Leadership.{
  Leadership, new_leadership, become_lead, demote, resign, leading, current_term, reign_is_over,
}
use distq_go.Server.Election.{Poll, Campaigned, won, context_ended, Held, lost, shut_down}
use distq_go.Server.Node.{Mechanism, Item, quits, goes, Node, returned, hand_over, leave, run_node}
use distq_go.Server.Node.Rounds.{Campaigned-cases, Held-cases, gives_up, shuts_down, loses}

-- A call of the election, with what it returned.
pub data Act : Type 0 where
  campaigns : Campaigned → Act
  holds : Option Held → Act
  resigns : Act

-- An election that keeps a log of the calls that it gets.
abbrev pub logged : {S W : Type 0} → Mechanism S W → Mechanism (S × List Act) W
logged m = record {
  campaign =
      λ polls (s, log). let (s', r) = m.campaign polls s in ((s', log ++ (campaigns r ∷ [])), r);
  hold = λ w (s, log). let (s', h) = m.hold w s in ((s', log ++ (holds h ∷ [])), h);
  resign = λ (s, log). let (s', r) = m.resign s in ((s', log ++ (resigns ∷ [])), r);
}

-- The calls of a Run that has returned: reigns that were won and held until they were lost; and then
-- nothing, a campaign that the context ended, or a reign that the shutdown ended and one Resign.
abbrev pub is_orderly : List Act → Bool
is_orderly [] = true
is_orderly (campaigns context_ended ∷ []) = true
is_orderly (campaigns (won term) ∷ holds (some lost) ∷ acts) = is_orderly acts
is_orderly (campaigns (won term) ∷ holds (some shut_down) ∷ resigns ∷ []) = true
is_orderly _ = false

-- Whether Resign was called.
abbrev pub resigned_in : List Act → Bool
resigned_in [] = false
resigned_in (resigns ∷ acts) = true
resigned_in (_ ∷ acts) = resigned_in acts

-- The term that was won last, or else `term`.
abbrev pub last_term : ℕ → List Act → ℕ
last_term term [] = term
last_term term (campaigns (won next) ∷ acts) = last_term next acts
last_term term (_ ∷ acts) = last_term term acts

++-[] : (acts : List Act) → acts ≡ acts ++ []
++-[] [] = refl
++-[] (a ∷ acts) = ap (◌∷◌ a) (++-[] acts)

++-assoc : (a b c : List Act) → (a ++ b) ++ c ≡ a ++ (b ++ c)
++-assoc [] b c = refl
++-assoc (x ∷ a) b c = ap (◌∷◌ x) (++-assoc a b c)

pub new_off : new_leadership.is_lead ≡ false
unfolding new_leadership
new_off = refl

pub new_over : reign_is_over new_leadership ≡ true
unfolding new_leadership
new_over = refl

pub new_term : new_leadership.term ≡ 0
unfolding new_leadership
new_term = refl

over_after : (term : ℕ) (l : Leadership) → reign_is_over (demote (become_lead term l)) ≡ true
unfolding demote become_lead
over_after term l = ground arith

pub off_after : (term : ℕ) (l : Leadership) → (demote (become_lead term l)).is_lead ≡ false
unfolding demote
off_after term l = refl

term_after : (term : ℕ) (l : Leadership) → (demote (become_lead term l)).term ≡ term
unfolding demote become_lead
term_after term l = refl

module _ {S W : Type 0} (m : Mechanism S W) where
  -- What a Run that has returned has done since the log was `log` and the last term `term`.
  abbrev pub Ended : List Act → ℕ → Bool → Node (S × List Act) → Type 0
  Ended log term resigned n =
      (acts : List Act) × (n.election.1 ≡ log ++ acts)
      × (is_orderly acts ≡ true)
      × (resigned_in acts ≡ resigned)
      × (leading n.leadership ≡ false)
      × (reign_is_over n.leadership ≡ true)
      × (current_term n.leadership ≡ last_term term acts)

  -- The ways out of the loop.
  leave_quiet :
      (l : Leadership) (s : S) (log : List Act) (resigned : Bool)
      → l.is_lead ≡ false
      → reign_is_over l ≡ true
      → (leave (logged m) l (s, log)).ran ≡ returned resigned
      → (resigned ≡ false)
        × ((leave (logged m) l (s, log)).election.1 ≡ log)
        × (leading (leave (logged m) l (s, log)).leadership ≡ false)
        × (reign_is_over (leave (logged m) l (s, log)).leadership ≡ true)
        × (current_term (leave (logged m) l (s, log)).leadership ≡ l.term)
  unfolding leave hand_over resign demote
  leave_quiet l s log resigned off over e = (
    ground (arith, off, e),
    ground (arith, off),
    ground (arith, off),
    ground (arith, off, over),
    ground (arith, off),
  )

  leave_leading :
      (l : Leadership) (s : S) (log : List Act) (resigned : Bool) (term : ℕ)
      → (leave (logged m) (become_lead term l) (s, log)).ran ≡ returned resigned
      → (resigned ≡ true)
        × ((leave (logged m) (become_lead term l) (s, log)).election.1 ≡ log ++ (resigns ∷ []))
        × (leading (leave (logged m) (become_lead term l) (s, log)).leadership ≡ false)
        × (reign_is_over (leave (logged m) (become_lead term l) (s, log)).leadership ≡ true)
        × (current_term (leave (logged m) (become_lead term l) (s, log)).leadership ≡ term)
  unfolding leave hand_over resign demote become_lead
  leave_leading l s log resigned term e = (ground (arith, e), refl, refl, ground arith, refl)

  pub logged_campaign :
      (polls : List Poll) (s : S) (log : List Act) {r : Campaigned}
      → (m.campaign polls s).1 ≡ r
      → (logged m).campaign polls (s, log)
        ≡ (((m.campaign polls s).0, log ++ (campaigns r ∷ [])), r)
  logged_campaign polls s log c =
      ap (λ x. (((m.campaign polls s).0, log ++ (campaigns x ∷ [])), x)) c

  pub logged_hold :
      (w : W) (s : S) (log : List Act) {h : Option Held}
      → (m.hold w s).1 ≡ h
      → (logged m).hold w (s, log) ≡ (((m.hold w s).0, log ++ (holds h ∷ [])), h)
  logged_hold w s log c = ap (λ x. (((m.hold w s).0, log ++ (holds x ∷ [])), x)) c

  -- One reign that was won, held and lost, before the rest.
  lost_first :
      (log acts : List Act) (term : ℕ) (end : List Act)
      → end ≡ ((log ++ (campaigns (won term) ∷ [])) ++ (holds (some lost) ∷ [])) ++ acts
      → end ≡ log ++ (campaigns (won term) ∷ holds (some lost) ∷ acts)
  lost_first log acts term end e =
      e
      ∙ ++-assoc (log ++ (campaigns (won term) ∷ [])) (holds (some lost) ∷ []) acts
      ∙ ++-assoc log (campaigns (won term) ∷ []) (holds (some lost) ∷ acts)

  pub run_node-Ended :
      (items : List (Item W)) (l : Leadership) (s : S) (log : List Act) (resigned : Bool)
      → l.is_lead ≡ false
      → reign_is_over l ≡ true
      → (run_node (logged m) items l (s, log)).ran ≡ returned resigned
      → Ended log l.term resigned (run_node (logged m) items l (s, log))
  unfolding run_node
  run_node-Ended [] l s log resigned off over e = absurd (ground (arith, e))
  run_node-Ended (quits ∷ items) l s log resigned off over e =
      let (r, acts, quiet, done, term) = leave_quiet l s log resigned off over e in
      ([], acts ∙ ++-[] log, refl, ground (arith, r), quiet, done, term)
  run_node-Ended (goes polls w ∷ items) l s log resigned off over e =
      let s1 = (m.campaign polls s).0 in
      elim (Campaigned-cases (m.campaign polls s).1) [
        | inl c ↦ absurd (ground (arith, e, c))
        | inr (inl c) ↦
            let log1 = log ++ (campaigns context_ended ∷ []) in
            let turn =
              gives_up (logged m) polls w items l (s, log) {s' = (s1, log1)}
                (logged_campaign polls s log c) in
            let (r, acts, quiet, done, term) =
              leave_quiet l s1 log1 resigned off over (ap (λ n. n.ran) (sym turn) ∙ e) in
            subst (Ended log l.term resigned) (sym turn)
              (campaigns context_ended ∷ [], acts, refl, ground (arith, r), quiet, done, term)
        | inr (inr (term, c)) ↦
            let log1 = log ++ (campaigns (won term) ∷ []) in
            let won_it = logged_campaign polls s log {r = won term} c in
            let s2 = (m.hold w s1).0 in
            elim (Held-cases (m.hold w s1).1) [
              | inl h ↦ absurd (ground (arith, e, c, h))
              | inr (inl h) ↦
                  let turn =
                    loses (logged m) polls w items l (s, log) {s' = (s1, log1)} {term = term} won_it
                      (logged_hold w s1 log1 h) in
                  let (acts, all, fine, r, quiet, done, last) =
                    run_node-Ended items (demote (become_lead term l)) s2
                      (log1 ++ (holds (some lost) ∷ [])) resigned (off_after term l)
                      (over_after term l) (ap (λ n. n.ran) (sym turn) ∙ e) in
                  subst (Ended log l.term resigned) (sym turn) (
                    campaigns (won term) ∷ holds (some lost) ∷ acts,
                    lost_first log acts term _ all,
                    fine,
                    r,
                    quiet,
                    done,
                    last ∙ ap (λ x. last_term x acts) (term_after term l),
                  )
              | inr (inr (inl h)) ↦
                  let turn =
                    shuts_down (logged m) polls w items l (s, log) {s' = (s1, log1)} {term = term}
                      won_it (logged_hold w s1 log1 h) in
                  let (r, acts, quiet, done, last) =
                    leave_leading l s2 (log1 ++ (holds (some shut_down) ∷ [])) resigned term
                      (ap (λ n. n.ran) (sym turn) ∙ e) in
                  subst (Ended log l.term resigned) (sym turn) (
                    campaigns (won term) ∷ holds (some shut_down) ∷ resigns ∷ [],
                    acts
                        ∙ ++-assoc log1 (holds (some shut_down) ∷ []) (resigns ∷ [])
                        ∙ ++-assoc log (campaigns (won term) ∷ [])
                            (holds (some shut_down) ∷ resigns ∷ []),
                    refl,
                    ground (arith, r),
                    quiet,
                    done,
                    last,
                  )
              | inr (inr (inr h)) ↦ absurd (ground (arith, e, c, h))
            ]
      ]
