-- ===== src/Server/Reaper.antt =====
-- The loop reapExpiredLeases of internal/server/leadership.go. The moments at which the context of
-- the reign ends are the environment's.
use distq_go.Common.{
  ℕ, suc, ◌≡◌, refl, Bool, true, false, List, [], ◌∷◌, ◌++◌, if◌then◌else◌, arith, Bool-cases, inl,
  inr, All,
}
use distq_go.Storage.Reply.{Turn, Result, ok, err}
use distq_go.Storage.Step.{reaps, step, History, run}
use distq_go.Storage.Postgres.{World}
use distq_go.Queue
use distq_go.Queue.{Queue}
use distq_go.Server.Outcomes.{postgres_queue}

-- One round: what Term() gave, whether the context has ended when the sweep returns, and whether it
-- ends before the ticker fires.
pub record Sweep : Type 0 where
  pub term : ℕ
  pub ended : Bool
  pub ends : Bool

-- An error stops the loop only if the context has ended.
abbrev pub stops_at : Sweep → Result ℕ → Bool
stops_at w (ok released) = w.ends
stops_at w (err e) = if w.ended then true else w.ends

-- The state that the loop leaves, and whether it has returned.
unfoldable pub reap_loop : {S : Type 0} → Queue S → List Sweep → S → S × Bool
reap_loop q [] s = (s, false)
reap_loop q (w ∷ sweeps) s =
    let (s', reply) = Queue.reap_expired_leases q w.term s in
    elim (stops_at w reply) [ true ↦ (s', true) | false ↦ reap_loop q sweeps s' ]

-- The calls that a world's next turns make of some sweeps.
abbrev pub sweep_calls : (ℕ → Turn) → ℕ → List Sweep → History
sweep_calls turns n [] = []
sweep_calls turns n (w ∷ sweeps) = (turns n, reaps w.term) ∷ sweep_calls turns (suc n) sweeps

-- While the context of the reign lasts the loop goes on, whatever becomes of its sweeps, and what it
-- does to the database is a history of calls, one sweep for each round.
pub reap_loop-run :
    (delay lease : ℕ) (sweeps : List Sweep) (w : World)
    → All (λ x. (x.ended ≡ false) × (x.ends ≡ false)) sweeps
    → ((reap_loop (postgres_queue delay lease) sweeps w).1 ≡ false)
      × ((reap_loop (postgres_queue delay lease) sweeps w).0.db
          ≡ run (sweep_calls w.turns w.calls sweeps) w.db)
unfolding reap_loop run step Queue.reap_expired_leases
reap_loop-run delay lease [] w on = (refl, refl)
reap_loop-run delay lease (x ∷ sweeps) w on =
    let next : World = (Queue.reap_expired_leases (postgres_queue delay lease) x.term w).0 in
    rw
      (
        goes_on x (Queue.reap_expired_leases (postgres_queue delay lease) x.term w).1 on.0.0 on.0.1,
        reap_loop,
      )
      (reap_loop-run delay lease sweeps next on.1)
  where
    goes_on :
        (x : Sweep) (reply : Result ℕ) → x.ended ≡ false → x.ends ≡ false → stops_at x reply ≡ false
    goes_on x (ok n) e f = f
    goes_on x (err n) e f = rw e f

-- The loop returns once the context has ended before a tick, however many rounds came before.
pub reap_loop_returns :
    {S : Type 0} (q : Queue S) (before after : List Sweep) (x : Sweep) (s : S)
    → x.ends ≡ true
    → (reap_loop q (before ++ x ∷ after) s).1 ≡ true
unfolding reap_loop
reap_loop_returns q [] after x s over =
    rw (stops (Queue.reap_expired_leases q x.term s).1, reap_loop)
  where
    stops : (reply : Result ℕ) → stops_at x reply ≡ true
    stops (ok n) = over
    stops (err n) = ground (arith, over)
reap_loop_returns q (w ∷ before) after x s over =
    let reply = (Queue.reap_expired_leases q w.term s).1 in
    elim (Bool-cases (stops_at w reply)) [
      | inl stop ↦ rw (stop, reap_loop)
      | inr on ↦
          rw (on, reap_loop)
            (reap_loop_returns q before after x (Queue.reap_expired_leases q w.term s).0 over)
    ]
