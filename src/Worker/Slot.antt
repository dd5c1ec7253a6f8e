-- ===== src/Worker/Slot.antt =====
-- The slot of the read loop of cmd/worker/main.go: which handlers a message takes the job away from,
-- and what such a handler reports.
use distq_go.Common.{
  ℕ, ◌<◌, ◌≡◌, refl, subst, inl, inr, ◌⊎◌, String, Option, none, some, List, [], ◌∷◌, ◌==◌, eq_iff,
  eq_refl, arith, Bool-cases,
}
use native.Mathlib.Decide.{ℕ_discrete}
use distq_go.Proto.{Job, ServerMessage, assigned, result, lost}
use distq_go.Worker.{
  lease_lost, Worker, idle_worker, receive, finish, take_away, Event, gets, returns, reconnects,
  shuts_down, event, events,
}

-- The context in the slot is one that was opened, and its job is the one that the slot names; and no
-- context beyond the last was touched.
pub record IsConsistent (w : Worker) : Type 0 where
  pub slot : (n : ℕ) → w.cancel ≡ some n → (j : Job) × (w.jobs n ≡ some j) × (j.id ≡ w.job_id)
  pub opened : (n : ℕ) → w.cancel ≡ some n → n < w.fresh

take_away-IsConsistent :
    (id : String) (slot : Option ℕ) (w : Worker)
    → w.cancel ≡ slot
    → IsConsistent w
    → IsConsistent (take_away id slot w)
take_away-IsConsistent id none w e c = c
take_away-IsConsistent id (some n) w e c = elim (Bool-cases (id == w.job_id)) [
  | inl h ↦ rw h (record {
    slot = λ k f. absurd (ground (arith, f));
    opened = λ k f. absurd (ground (arith, f));
  })
  | inr h ↦ rw h c
]

receive-IsConsistent :
    (m : ServerMessage) (w : Worker) → IsConsistent w → IsConsistent (receive m w)
unfolding receive
receive-IsConsistent (assigned a) w c = record {
  slot = λ n e. (a.job, ground (arith, e), refl);
  opened = λ n e. ground (arith, e);
}
receive-IsConsistent (lost id) w c = take_away-IsConsistent id w.cancel w refl c
receive-IsConsistent (result r) w c = elim (Bool-cases (r.job_id == w.job_id)) [
  | inl h ↦ rw h (record {
    slot = λ k f. absurd (ground (arith, f));
    opened = λ k f. absurd (ground (arith, f));
  })
  | inr h ↦ rw h c
]

events-IsConsistent : (es : List Event) (w : Worker) → IsConsistent w → IsConsistent (events es w)
unfolding events finish
events-IsConsistent [] w c = c
events-IsConsistent (gets m ∷ es) w c =
    events-IsConsistent es (receive m w) (receive-IsConsistent m w c)
events-IsConsistent (returns n error ∷ es) w c =
    events-IsConsistent es (event (returns n error) w) (record { slot = c.slot; opened = c.opened })
events-IsConsistent (reconnects ∷ es) w c = events-IsConsistent es (event reconnects w) (record {
  slot = λ n e. absurd (ground (arith, e));
  opened = λ n e. absurd (ground (arith, e));
})
events-IsConsistent (shuts_down ∷ es) w c =
    events-IsConsistent es (event shuts_down w) (record { slot = c.slot; opened = c.opened })

idle_worker-IsConsistent : IsConsistent idle_worker
idle_worker-IsConsistent = record {
  slot = λ n e. absurd (ground (arith, e));
  opened = λ n e. absurd (ground (arith, e));
}

-- Whatever a worker has received and whichever handlers have returned, a Lost that names a job
-- leaves the context of every handler as it is, except that of the handler in the slot, and that
-- one only if it runs the job that is named.
pub lost_takes_own :
    (es : List Event) (id : String) (k : ℕ)
    → ((receive (lost id) (events es idle_worker)).cause k ≡ (events es idle_worker).cause k)
      ⊎ (((events es idle_worker).cancel ≡ some k)
          × ((j : Job) × ((events es idle_worker).jobs k ≡ some j) × (j.id ≡ id)))
unfolding receive
lost_takes_own es id k =
    takes (events es idle_worker) (events-IsConsistent es idle_worker idle_worker-IsConsistent)
      (events es idle_worker).cancel refl
  where
    takes :
        (w : Worker)
        → IsConsistent w
        → (slot : Option ℕ) → w.cancel ≡ slot
        → ((take_away id slot w).cause k ≡ w.cause k)
          ⊎ ((slot ≡ some k) × ((j : Job) × (w.jobs k ≡ some j) × (j.id ≡ id)))
    takes w c none e = inl refl
    takes w c (some n) e = elim (Bool-cases (id == w.job_id)) [
      | inr h ↦ inl (rw h)
      | inl h ↦ elim (ℕ_discrete n k) [
        | no ne ↦ inl (rw h (ground arith))
        | yes same ↦
            let (j, here, named) = c.slot n e in
            inr (
              rw same,
              (
                j,
                subst (λ i. w.jobs i ≡ some j) same here,
                ground (arith, named, eq_iff id w.job_id),
              ),
            )
      ]
    ]

-- A context that was cancelled with errLeaseLost stays so.
events-lease_lost :
    (n : ℕ) (es : List Event) (w : Worker)
    → w.cause n ≡ some lease_lost
    → (events es w).cause n ≡ some lease_lost
unfolding events receive
events-lease_lost n [] w e = e
events-lease_lost n (gets m ∷ es) w e = events-lease_lost n es (receive m w) (receives m)
  where
    taken : (id : String) (slot : Option ℕ) → (take_away id slot w).cause n ≡ some lease_lost
    taken id none = e
    taken id (some k) = ground (arith, e)

    receives : (m : ServerMessage) → (receive m w).cause n ≡ some lease_lost
    receives (assigned a) = e
    receives (lost id) = taken id w.cancel
    receives (result r) = ground (arith, e)
events-lease_lost n (returns k error ∷ es) w e =
    events-lease_lost n es (event (returns k error) w) (unfold finish in ground (arith, e))
events-lease_lost n (reconnects ∷ es) w e = events-lease_lost n es (event reconnects w) e
events-lease_lost n (shuts_down ∷ es) w e =
    events-lease_lost n es (event shuts_down w) (ground (arith, e))

-- A Lost for the job in flight silences its handler, where that has not returned yet: whatever
-- the worker receives afterwards, and however the handler ends, it reports nothing.
pub lost_silences :
    (w : Worker) (n : ℕ) (es : List Event) (error : Option String)
    → w.cancel ≡ some n
    → w.cause n ≡ none
    → (finish n error (events es (receive (lost w.job_id) w))).1 ≡ none
unfolding finish
lost_silences w n es error slot alive = ground (
  arith,
  events-lease_lost n es (receive (lost w.job_id) w)
      (unfold receive in ground (arith, slot, alive, eq_refl w.job_id)),
)
