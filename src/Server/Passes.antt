-- ===== src/Server/Passes.antt =====
-- The passes of internal/server/dispatcher.go over any line: who is left in it, whether or not a
-- send blocks.
use distq_go.Common.{
  ◌≡◌, refl, sym, ap, ◌∙◌, inl, inr, ◌⊎◌, Bool, true, false, List, [], ◌∷◌, ◌++◌, Bool-cases,
  Option-cases, All, ℕ, subst,
}
use distq_go.Storage.Reply.{claim_cases}
use distq_go.Queue
use distq_go.Queue.{Queue}
use distq_go.Server.Dispatcher.{
  Waiter, State, Lead, End, drained, errored, blocked, serve, arm_after, push_locked, push,
  register, is_in_line, assignment, put,
}
use distq_go.Server.Line.{Distinct, Distinct-snoc, Distinct-append_right, arm_locked-line}

-- The second line is the first without some waiters at its front.
abbrev pub IsRest : List Waiter → List Waiter → Type 0
IsRest ws ws' = (served : List Waiter) × (ws ≡ served ++ ws')

abbrev none_served : (ws : List Waiter) → IsRest ws ws
none_served ws = ([], refl)

pub All-append_right {ℓ} : (P : Waiter → Type ℓ) (xs ys : List Waiter) → All P (xs ++ ys) → All P ys
All-append_right P [] ys h = h
All-append_right P (x ∷ xs) ys h = All-append_right P xs ys h.1

pub IsRest-All {ℓ} :
    (P : Waiter → Type ℓ) (ws ws' : List Waiter) → IsRest ws ws' → All P ws → All P ws'
IsRest-All P ws ws' (served, split) h = All-append_right P served ws' (subst (All P) split h)

pub IsRest-Distinct : (ws ws' : List Waiter) → IsRest ws ws' → Distinct ws → Distinct ws'
IsRest-Distinct ws ws' (served, split) h = Distinct-append_right served ws' (subst Distinct split h)

module _ {S : Type 0} (q : Queue S) where
  serve-IsRest :
      (term : ℕ) (ws : List Waiter) (d : State S) → IsRest ws (serve q term ws d).0.waiters
  unfolding serve
  serve-IsRest term [] d = none_served []
  serve-IsRest term (w ∷ ws) d = elim (claim_cases (Queue.dequeue q term w.worker_id d.store).1) [
    | inl (x, got) ↦ rw (got, serve) (none_served (w ∷ ws))
    | inr (inl got) ↦ rw (got, serve) (none_served (w ∷ ws))
    | inr (inr (job, got)) ↦ elim (Option-cases (d.channels w.stream)) [
      | inr (b, full) ↦ rw (got, full, serve) (w ∷ [], refl)
      | inl empty ↦
          let (served, split) = serve-IsRest term ws (record d {
            waiters = ws;
            store = (Queue.dequeue q term w.worker_id d.store).0;
            channels = put w.stream (assignment q job) d.channels;
          }) in
          rw (got, empty, serve) (w ∷ served, ap (◌∷◌ w) split)
    ]
  ]

  arm_after-IsRest :
      (ws : List Waiter) (res : State S × End)
      → IsRest ws res.0.waiters
      → IsRest ws (arm_after q res).0.waiters
  unfolding arm_after
  arm_after-IsRest ws (d, drained) (served, split) =
      (served, split ∙ ap (λ l. served ++ l) (sym (arm_locked-line q d.waiters d refl).0))
  arm_after-IsRest ws (d, errored) h = h
  arm_after-IsRest ws (d, blocked) h = h

  push_locked-IsRest :
      (lead : Lead) (d : State S) → IsRest d.waiters (push_locked q lead d).0.waiters
  unfolding push_locked
  push_locked-IsRest lead d = elim (Bool-cases lead.leading) [
    | inr off ↦ rw off (none_served d.waiters)
    | inl on ↦ rw on (
        arm_after-IsRest d.waiters (serve q lead.term d.waiters d)
          (serve-IsRest lead.term d.waiters d))
  ]

  pub push-IsRest :
      (down : Bool) (lead : Lead) (d : State S) → IsRest d.waiters (push q down lead d).0.waiters
  unfolding push
  push-IsRest true lead d = none_served d.waiters
  push-IsRest false lead d = push_locked-IsRest lead d

  -- A worker that is not in line joins its end first.
  pub register-IsRest :
      (lead : Lead) (w : Waiter) (d : State S)
      → ((is_in_line w.worker_id d.waiters ≡ true) × ((register q lead w d).0.waiters ≡ d.waiters))
        ⊎ ((is_in_line w.worker_id d.waiters ≡ false)
            × IsRest (d.waiters ++ w ∷ []) (register q lead w d).0.waiters)
  unfolding register
  register-IsRest lead w d = elim (Bool-cases (is_in_line w.worker_id d.waiters)) [
    | inl there ↦ inl (there, rw there)
    | inr new ↦
        inr (new, rw new (push_locked-IsRest lead (record d { waiters = d.waiters ++ w ∷ [] })))
  ]

  pub register-Distinct :
      (lead : Lead) (w : Waiter) (d : State S)
      → Distinct d.waiters
      → Distinct (register q lead w d).0.waiters
  register-Distinct lead w d h = elim (register-IsRest lead w d) [
    | inl (there, same) ↦ subst Distinct (sym same) h
    | inr (new, rest) ↦
        IsRest-Distinct (d.waiters ++ w ∷ []) (register q lead w d).0.waiters rest
          (Distinct-snoc d.waiters w h new)
  ]
