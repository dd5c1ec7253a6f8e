-- ===== src/Server/Line.antt =====
-- The line of waiting workers of internal/server/dispatcher.go: a pass over it, and who joins it.
use distq_go.Common.{
  ℕ, ◌≡◌, ◌≢◌, refl, sym, ap, subst, ◌∙◌, inl, inr, ◌⊎◌, String, true, false, none, some, List, [],
  ◌∷◌, ◌++◌, eq_iff, arith, Bool-cases, All,
}
use distq_go.Proto.{Assigned}
use distq_go.Storage.Reply.{claim_cases}
use distq_go.Queue
use distq_go.Queue.{Queue}
use distq_go.Server.Dispatcher.{
  Waiter, Channels, put, State, End, drained, errored, blocked, Lead, assignment, serve, arm_locked,
  arm_after, push_locked, is_in_line, register,
}

-- No waiter of the list has the stream `i`.
abbrev pub NotAmong : ℕ → List Waiter → Type 0
NotAmong i = All (λ w. w.stream ≢ i)

-- Every waiter has an empty channel of its own.
abbrev pub Ready : Channels → List Waiter → Type 0
Ready ch [] = Unit {0}
Ready ch (w ∷ ws) = (ch w.stream ≡ none) × NotAmong w.stream ws × Ready ch ws

-- A worker stands in line once.
abbrev pub Distinct : List Waiter → Type 0
Distinct [] = Unit {0}
Distinct (w ∷ ws) = (is_in_line w.worker_id ws ≡ false) × Distinct ws

pub put_ne : (i : ℕ) (a : Assigned) (ch : Channels) (k : ℕ) → k ≢ i → put i a ch k ≡ ch k
put_ne i a ch k ne = ground arith

pub put_self : (i : ℕ) (a : Assigned) (ch : Channels) → put i a ch i ≡ some a
put_self i a ch = ground arith

pub Ready-put :
    (i : ℕ) (a : Assigned) (ch : Channels) (ws : List Waiter)
    → NotAmong i ws
    → Ready ch ws
    → Ready (put i a ch) ws
Ready-put i a ch [] n r = tt
Ready-put i a ch (w ∷ ws) n r = (put_ne i a ch w.stream n.0 ∙ r.0, r.1, Ready-put i a ch ws n.1 r.2)

-- How a pass that ends with `end` changes a line `ws` into `ws'`, and the channels `ch` into `ch'`.
abbrev pub ServedAs : List Waiter → Channels → List Waiter → Channels → End → Type 0
ServedAs ws ch ws' ch' end =
    (served : List Waiter) × (ws ≡ served ++ ws')
    × (end ≢ blocked)
    × All (λ w. (a : Assigned) × (ch' w.stream ≡ some a)) served
    × ((i : ℕ) → NotAmong i served → ch' i ≡ ch i)
    × Ready ch' ws'

abbrev pub Served : {S : Type 0} → List Waiter → Channels → State S × End → Type 0
Served ws ch (d, end) = ServedAs ws ch d.waiters d.channels end

pub NotAmong-append_left : (i : ℕ) (xs ys : List Waiter) → NotAmong i (xs ++ ys) → NotAmong i xs
NotAmong-append_left i [] ys n = tt
NotAmong-append_left i (x ∷ xs) ys n = (n.0, NotAmong-append_left i xs ys n.1)

-- One more waiter served, before the others.
served_first :
    (w : Waiter) (ws : List Waiter) (a : Assigned) (ch : Channels) (ws' : List Waiter)
    (ch' : Channels) (end : End)
    → NotAmong w.stream ws
    → ServedAs ws (put w.stream a ch) ws' ch' end
    → ServedAs (w ∷ ws) ch ws' ch' end
served_first w ws a ch ws' ch' end n (served, split, unblocked, got, same, ready) =
    let apart = NotAmong-append_left w.stream served ws' (subst (NotAmong w.stream) split n) in
    (
      w ∷ served,
      ap (◌∷◌ w) split,
      unblocked,
      ((a, same w.stream apart ∙ put_self w.stream a ch), got),
      (λ i away. same i away.1 ∙ put_ne w.stream a ch i (λ e. away.0 (sym e))),
      ready,
    )

module _ {S : Type 0} (q : Queue S) (term : ℕ) where
  serve-Served :
      (ws : List Waiter) (d : State S)
      → Ready d.channels ws
      → Served ws d.channels (serve q term ws d)
  unfolding serve
  serve-Served [] d r = ([], refl, (λ e. cc), tt, (λ i n. refl), tt)
  serve-Served (w ∷ ws) d r = elim (claim_cases (Queue.dequeue q term w.worker_id d.store).1) [
    | inl (x, e) ↦ rw (e, serve) ([], refl, (λ b. cc), tt, (λ i n. refl), r)
    | inr (inl e) ↦ rw (e, serve) ([], refl, (λ b. cc), tt, (λ i n. refl), r)
    | inr (inr (job, e)) ↦
        rw (e, serve, r.0)
          (served_first w ws (assignment q job) d.channels _ _ _ r.1
            (serve-Served ws _ (Ready-put w.stream (assignment q job) d.channels ws r.1 r.2)))
  ]

-- Arming the timer changes neither the line nor the channels.
pub arm_locked-line :
    {S : Type 0} (q : Queue S) (ws : List Waiter) (d : State S)
    → d.waiters ≡ ws
    → ((arm_locked q d).waiters ≡ d.waiters) × ((arm_locked q d).channels ≡ d.channels)
unfolding arm_locked
arm_locked-line q [] d e = ground arith
arm_locked-line q (w ∷ ws) d e = ground arith

arm_after-Served :
    {S : Type 0} (q : Queue S) (ws : List Waiter) (ch : Channels) (res : State S × End)
    → Served ws ch res
    → Served ws ch (arm_after q res)
unfolding arm_after
arm_after-Served q ws ch (d, errored) s = s
arm_after-Served q ws ch (d, blocked) s = s
arm_after-Served q ws ch (d, drained) s =
    let (line, chans) = arm_locked-line q d.waiters d refl in
    subst (λ l. ServedAs ws ch l (arm_locked q d).channels drained) (sym line)
      (subst (λ c. ServedAs ws ch d.waiters c drained) (sym chans) s)

-- A pass over a line in which every waiter has an empty channel of its own never blocks. It serves
-- waiters from the front of the line, first come first served: each of those finds a job in its
-- channel, no other channel changes, and the rest of the line stays in order with its
-- channels empty.
pub push_locked-Served :
    {S : Type 0} (q : Queue S) (lead : Lead) (d : State S)
    → Ready d.channels d.waiters
    → Served d.waiters d.channels (push_locked q lead d)
unfolding push_locked
push_locked-Served q lead d r = elim (Bool-cases lead.leading) [
  | inr off ↦ rw off ([], refl, (λ e. cc), tt, (λ i n. refl), r)
  | inl on ↦ rw on (
      arm_after-Served q d.waiters d.channels (serve q lead.term d.waiters d)
        (serve-Served q lead.term d.waiters d r))
]

-- Who stands in line after the others have been served.
is_in_line-append :
    (id : String) (xs ys : List Waiter)
    → is_in_line id (xs ++ ys) ≡ false
    → (is_in_line id xs ≡ false) × (is_in_line id ys ≡ false)
unfolding is_in_line
is_in_line-append id [] ys h = (refl, h)
is_in_line-append id (x ∷ xs) ys h = ground (arith, is_in_line-append id xs ys)

pub Distinct-append_right : (xs ys : List Waiter) → Distinct (xs ++ ys) → Distinct ys
Distinct-append_right [] ys d = d
Distinct-append_right (x ∷ xs) ys d = Distinct-append_right xs ys d.1

is_in_line_snoc :
    (id : String) (xs : List Waiter) (w : Waiter)
    → is_in_line id xs ≡ false
    → w.worker_id ≢ id
    → is_in_line id (xs ++ w ∷ []) ≡ false
unfolding is_in_line
is_in_line_snoc id [] w h ne = ground (arith, eq_iff w.worker_id id)
is_in_line_snoc id (x ∷ xs) w h ne = ground (arith, is_in_line_snoc id xs w)

pub Distinct-snoc :
    (xs : List Waiter) (w : Waiter)
    → Distinct xs
    → is_in_line w.worker_id xs ≡ false
    → Distinct (xs ++ w ∷ [])
unfolding is_in_line
Distinct-snoc [] w d h = (refl, tt)
Distinct-snoc (x ∷ xs) w d h = (
  is_in_line_snoc x.worker_id xs w d.0 (λ s. ground (arith, eq_iff x.worker_id w.worker_id)),
  Distinct-snoc xs w d.1 (ground arith),
)

Ready-snoc :
    (ch : Channels) (xs : List Waiter) (w : Waiter)
    → Ready ch xs
    → NotAmong w.stream xs
    → ch w.stream ≡ none
    → Ready ch (xs ++ w ∷ [])
Ready-snoc ch [] w r n e = (e, tt, tt)
Ready-snoc ch (x ∷ xs) w r n e =
    (r.0, NotAmong-snoc x.stream xs w r.1 (λ s. n.0 (sym s)), Ready-snoc ch xs w r.2 n.1 e)
  where
    NotAmong-snoc :
        (i : ℕ) (ys : List Waiter) (v : Waiter)
        → NotAmong i ys
        → v.stream ≢ i
        → NotAmong i (ys ++ v ∷ [])
    NotAmong-snoc i [] v m ne = (ne, tt)
    NotAmong-snoc i (y ∷ ys) v m ne = (m.0, NotAmong-snoc i ys v m.1 ne)

-- Registering a worker with an empty channel of its own, on a line that holds nobody twice and
-- whose waiters have empty channels. Either it is in line already, and nothing changes; or it
-- joins the end of the line, the pass over it does not block, the line that is left has an empty
-- channel for each, and nobody stands in it twice.
pub register-Served :
    {S : Type 0} (q : Queue S) (lead : Lead) (w : Waiter) (d : State S)
    → Ready d.channels d.waiters
    → Distinct d.waiters
    → NotAmong w.stream d.waiters
    → d.channels w.stream ≡ none
    → ((is_in_line w.worker_id d.waiters ≡ true) × (register q lead w d ≡ (d, drained)))
      ⊎ ((is_in_line w.worker_id d.waiters ≡ false)
          × Served (d.waiters ++ w ∷ []) d.channels (register q lead w d)
          × Distinct (register q lead w d).0.waiters)
unfolding register
register-Served q lead w d r dist n e = elim (Bool-cases (is_in_line w.worker_id d.waiters)) [
  | inl h ↦ inl (h, rw h)
  | inr h ↦
      let s =
        push_locked-Served q lead (record d { waiters = d.waiters ++ w ∷ [] })
          (Ready-snoc d.channels d.waiters w r n e) in
      inr (
        h,
        rw h s,
        rw h (Distinct-append_right s.0 _ (subst Distinct s.1 (Distinct-snoc d.waiters w dist h))),
      )
]
