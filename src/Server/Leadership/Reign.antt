-- ===== src/Server/Leadership/Reign.antt =====
-- internal/server/leadership.go: the state of a node between the steps of Run, and when it returns.
use distq_go.Common.{
  ℕ, ◌≤◌, ◌<◌, ◌≡◌, ◌≢◌, refl, Bool, true, false, none, some, List, [], ◌∷◌, arith, inl, inr,
  Bool-cases,
}
use native.Mathlib.Decide.{ℕ_discrete}
use distq_go.Server.Leadership.{
  Leadership, new_leadership, become_lead, demote, resign, Round, gave_up, lost, shut_down, run,
  leading, current_term,
}

-- A node leads exactly while the context of its reign lives, it can cancel that context exactly
-- then, and the contexts of all its other reigns are cancelled.
pub record IsConsistent (l : Leadership) : Type 0 where
  pub over : l.is_lead ≡ false → l.cancelled l.lead_ctx ≡ true
  pub alive : l.is_lead ≡ true → l.cancelled l.lead_ctx ≡ false
  pub armed : l.is_lead ≡ true → l.cancel ≡ some l.lead_ctx
  pub disarmed : l.is_lead ≡ false → l.cancel ≡ none
  pub old : l.lead_ctx < l.fresh
  pub past : (k : ℕ) → k < l.fresh → k ≢ l.lead_ctx → l.cancelled k ≡ true
  pub future : (k : ℕ) → l.fresh ≤ k → l.cancelled k ≡ false

new_leadership-IsConsistent : IsConsistent new_leadership
unfolding new_leadership
new_leadership-IsConsistent = record {
  over = λ e. refl;
  alive = λ e. cc;
  armed = λ e. cc;
  disarmed = λ e. refl;
  old = omega arith;
  past = λ k h ne. ground arith;
  future = λ k h. ground arith;
}

-- A new reign is opened only where the last one is over.
become_lead-IsConsistent :
    (term : ℕ) (l : Leadership)
    → l.is_lead ≡ false
    → IsConsistent l
    → IsConsistent (become_lead term l)
unfolding become_lead
become_lead-IsConsistent term l off c = record {
  over = λ e. cc;
  alive = λ e. c.future l.fresh (omega arith);
  armed = λ e. refl;
  disarmed = λ e. cc;
  old = omega arith;
  past = λ k h ne. ground (arith, c.past k, c.over off, ℕ_discrete k l.lead_ctx);
  future = λ k h. c.future k (omega arith);
}

demote-IsConsistent : (l : Leadership) → IsConsistent l → IsConsistent (demote l)
unfolding demote
demote-IsConsistent l c = elim (Bool-cases l.is_lead) [
  | inl on ↦ record {
    over = λ e. ground (arith, c.armed on);
    alive = λ e. cc;
    armed = λ e. cc;
    disarmed = λ e. refl;
    old = c.old;
    past = λ k h ne. ground (arith, c.armed on, c.past k);
    future = λ k h. ground (arith, c.armed on, c.future k, c.old);
  }
  | inr off ↦ record {
    over = λ e. ground (arith, c.disarmed off, c.over off);
    alive = λ e. cc;
    armed = λ e. cc;
    disarmed = λ e. refl;
    old = c.old;
    past = λ k h ne. ground (arith, c.disarmed off, c.past k);
    future = λ k h. ground (arith, c.disarmed off, c.future k);
  }
]

-- A node that does not lead, in a consistent state: every context that it ever opened is cancelled.
IsOver : Leadership → Type 0
IsOver l = IsConsistent l × (l.is_lead ≡ false)

lost-IsOver : (term : ℕ) (l : Leadership) → IsOver l → IsOver (demote (become_lead term l))
unfolding IsOver
lost-IsOver term l (c, off) = (
  demote-IsConsistent (become_lead term l) (become_lead-IsConsistent term l off c),
  unfold demote in refl,
)

-- Whether a loop ends while the node leads, and the term that it won last.
abbrev pub ends_leading : List Round → Bool
ends_leading [] = false
ends_leading (gave_up ∷ rounds) = false
ends_leading (shut_down term ∷ rounds) = true
ends_leading (lost term ∷ rounds) = ends_leading rounds

abbrev pub last_term : List Round → ℕ → ℕ
last_term [] before = before
last_term (gave_up ∷ rounds) before = before
last_term (shut_down term ∷ rounds) before = term
last_term (lost term ∷ rounds) before = last_term rounds term

run-IsOver :
    (rounds : List Round) (l : Leadership)
    → IsOver l
    → IsOver (run rounds l).0
      × ((run rounds l).1 ≡ ends_leading rounds)
      × ((run rounds l).0.term ≡ last_term rounds l.term)
unfolding run resign IsOver demote become_lead
run-IsOver [] l o = ((demote-IsConsistent l o.0, refl), o.1, refl)
run-IsOver (gave_up ∷ rounds) l o = ((demote-IsConsistent l o.0, refl), o.1, refl)
run-IsOver (shut_down term ∷ rounds) l o = (lost-IsOver term l o, refl, refl)
run-IsOver (lost term ∷ rounds) l o =
    run-IsOver rounds (demote (become_lead term l)) (lost-IsOver term l o)

-- Whatever the election does, when Run returns the node does not lead and the context of every
-- reign that it opened is cancelled. It has handed leadership over exactly if the context ended
-- while it led. And it still reports the term that it won last, which need not be zero.
pub run_stops :
    (rounds : List Round) (k : ℕ)
    → k < (run rounds new_leadership).0.fresh
    → (leading (run rounds new_leadership).0 ≡ false)
      × ((run rounds new_leadership).0.cancelled k ≡ true)
      × ((run rounds new_leadership).1 ≡ ends_leading rounds)
      × (current_term (run rounds new_leadership).0 ≡ last_term rounds 0)
unfolding IsOver new_leadership
run_stops rounds k h =
    let (o, resigned, term) =
      run-IsOver rounds new_leadership (new_leadership-IsConsistent, refl) in
    (
      o.1,
      elim (ℕ_discrete k (run rounds new_leadership).0.lead_ctx) [
        | yes e ↦ rw e (o.0.over o.1)
        | no ne ↦ o.0.past k h ne
      ],
      resigned,
      term,
    )
