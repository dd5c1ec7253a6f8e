-- ===== src/Worker/Orphans.antt =====
-- The handlers of cmd/worker/main.go that outlive their stream: what the next stream can do to them.
use distq_go.Common.{
  ℕ, ◌<◌, ◌≡◌, ◌≢◌, ◌∙◌, ap, refl, String, Option, none, some, List, [], ◌∷◌, ◌==◌, arith,
  Bool-cases, inl, inr, All,
}
use distq_go.Proto.{Job, assigned, result, lost}
use distq_go.Worker.{
  Cause, finished, lease_lost, cancel_ctx, Worker, receive, finish, take_away, report_of, Event,
  gets, returns, reconnects, shuts_down, event, events,
}

-- The context `n` was opened for the job, is not cancelled, and is not in the slot.
pub record IsOrphan (n : ℕ) (job : Job) (w : Worker) : Type 0 where
  pub opened : n < w.fresh
  pub lives : w.cause n ≡ none
  pub runs : w.jobs n ≡ some job
  pub apart : w.cancel ≢ some n

-- Neither the end of the handler itself nor the worker's shutdown.
abbrev pub IsElsewhere : ℕ → Event → Type 0
IsElsewhere n (returns k error) = k ≢ n
IsElsewhere n shuts_down = ⊥
IsElsewhere n _ = Unit {0}

cancel_ctx-ne :
    (n k : ℕ) (c : Cause) (causes : ℕ → Option Cause)
    → k ≢ n
    → causes n ≡ none
    → cancel_ctx k c causes n ≡ none
cancel_ctx-ne n k c causes ne e = ground (arith, ne, e)

take_away-IsOrphan :
    (n : ℕ) {job : Job} (id : String) (slot : Option ℕ) (w : Worker)
    → w.cancel ≡ slot
    → IsOrphan n job w
    → IsOrphan n job (take_away id slot w)
take_away-IsOrphan n id none w e o = o
take_away-IsOrphan n id (some k) w e o = elim (Bool-cases (id == w.job_id)) [
  | inr other ↦ rw other o
  | inl named ↦ rw named (record {
    opened = o.opened;
    lives = cancel_ctx-ne n k lease_lost w.cause (λ same. o.apart (e ∙ ap some same)) o.lives;
    runs = o.runs;
    apart = λ f. ground (arith, f);
  })
]

event-IsOrphan :
    (n : ℕ) {job : Job} (e : Event) (w : Worker)
    → IsElsewhere n e
    → IsOrphan n job w
    → IsOrphan n job (event e w)
unfolding receive finish
event-IsOrphan n (gets (assigned a)) w h o = record {
  opened = ground (arith, o.opened);
  lives = o.lives;
  runs = ground (arith, o.opened, o.runs);
  apart = λ f. ground (arith, o.opened, f);
}
event-IsOrphan n (gets (lost id)) w h o = take_away-IsOrphan n id w.cancel w refl o
event-IsOrphan n (gets (result r)) w h o = elim (Bool-cases (r.job_id == w.job_id)) [
  | inr other ↦ rw other o
  | inl named ↦
      rw named (record {
        opened = o.opened;
        lives = o.lives;
        runs = o.runs;
        apart = λ f. ground (arith, f);
      })
]
event-IsOrphan n (returns k error) w h o = record {
  opened = o.opened;
  lives = cancel_ctx-ne n k finished w.cause h o.lives;
  runs = o.runs;
  apart = o.apart;
}
event-IsOrphan n reconnects w h o = record {
  opened = o.opened;
  lives = o.lives;
  runs = o.runs;
  apart = λ f. ground (arith, f);
}
event-IsOrphan n shuts_down w h o = absurd h

events-IsOrphan :
    (n : ℕ) {job : Job} (es : List Event) (w : Worker)
    → All (IsElsewhere n) es
    → IsOrphan n job w
    → IsOrphan n job (events es w)
unfolding events
events-IsOrphan n [] w h o = o
events-IsOrphan n (e ∷ es) w h o = events-IsOrphan n es (event e w) h.1 (event-IsOrphan n e w h.0 o)

-- A handler that is at work when its stream breaks cannot be stopped by the server any more:
-- whatever comes down the streams that follow, a Lost for its job included, its context is not
-- cancelled, and when it returns it reports. (Its context was not cancelled before, and the worker
-- is not shut down.)
pub reconnect_orphans :
    (w : Worker) (n : ℕ) (es : List Event) (error : Option String) {job : Job}
    → n < w.fresh
    → w.cause n ≡ none
    → w.jobs n ≡ some job
    → All (IsElsewhere n) es
    → ((events es (event reconnects w)).cause n ≡ none)
      × ((finish n error (events es (event reconnects w))).1 ≡ some (report_of job error))
unfolding finish
reconnect_orphans w n es error {job} h lives runs away =
    let o : IsOrphan n job (events es (event reconnects w)) =
      events-IsOrphan n es (event reconnects w) away
        (record { opened = h; lives = lives; runs = runs; apart = λ f. ground (arith, f) }) in
    (o.lives, ground (arith, o.lives, o.runs))
