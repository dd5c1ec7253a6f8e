-- ===== src/Commands/Producer/Stored.antt =====
-- cmd/producer/main.go against the handler Enqueue of internal/server/server.go: what the jobs of
-- the producer become in the table, while no worker waits.
use distq_go.Common.{
  ℕ, zero, suc, ◌+◌, ◌<◌, ◌≤◌, ◌≡◌, ◌≢◌, ◌∙◌, refl, ap, inl, inr, String, false, Option, none, some,
  List, [], ◌∷◌, eq_iff, eq_refl, arith, Bool-cases,
}
use distq_go.Proto.{Job, EnqueueRequest, EnqueueResponse}
use distq_go.Storage.Statement.{find_job}
use distq_go.Storage.Reply.{answered}
use distq_go.Storage.Jobs.{new_row}
use distq_go.Storage.Postgres.{World}
use distq_go.Queue
use distq_go.Server.Dispatcher.{
  Channels, State, Lead, drained, serve, push, push_locked, arm_after, arm_locked,
}
use distq_go.Server.Stream.{enqueue}
use distq_go.Server.Delivery.{q}
use distq_go.Server.Delivery.Enqueued.{create_job_answered}
use distq_go.Commands.Producer.{demo_job, request, Told, enqueued, inject}

module _ (delay lease : ℕ) (lead : Lead) (ids : ℕ → String) (payload : String → ℕ → List ℕ)
    (kind : String) where
  -- The server that the producer calls; the ids are the uuid library's.
  abbrev pub serves : ℕ → EnqueueRequest → State World → State World × Option EnqueueResponse
  serves i req d = enqueue (q delay lease) false lead (ids i) req d

  -- The job `i` as the server stores it.
  abbrev pub job_at : ℕ → Job
  job_at i = record (demo_job kind (payload kind i)) { id = ids i }

  abbrev pub none_waits : Option ℕ → Channels → World → State World
  none_waits timer ch s = record { waiters = []; timer = timer; channels = ch; store = s }

  -- The store after the insertion of the job `i`.
  abbrev stored : ℕ → World → World
  stored i s = record s {
    db = record s.db { jobs = new_row (s.turns s.calls).now (job_at i) ∷ s.db.jobs };
    calls = suc s.calls;
  }

  push_idle :
      (timer : Option ℕ) (ch : Channels) (s : World)
      → push (q delay lease) false lead (none_waits timer ch s) ≡ (none_waits timer ch s, drained)
  unfolding push push_locked serve arm_after arm_locked
  push_idle timer ch s = elim (Bool-cases lead.leading) [ inl on ↦ rw on | inr off ↦ rw off ]

  -- One job, while nobody is in line.
  serves_stores :
      (i : ℕ) (timer : Option ℕ) (ch : Channels) (s : World)
      → find_job (ids i) s.db.jobs ≡ none
      → (s.turns s.calls).link ≡ answered
      → serves i (request kind (payload kind i)) (none_waits timer ch s)
        ≡ (none_waits timer ch (stored i s), some (record { job_id = ids i; error = "" }))
  unfolding enqueue Queue.enqueue
  serves_stores i timer ch s absent a = rw (
    create_job_answered (s.turns s.calls) (job_at i) s.db absent a,
    push_idle timer ch (stored i s),
  )

  -- What another id names is as it was.
  find_job-stored :
      (i : ℕ) (s : World) (k : String)
      → ids i ≢ k
      → find_job k (stored i s).db.jobs ≡ find_job k s.db.jobs
  unfolding find_job
  find_job-stored i s k ne = ground (arith, ne, eq_iff (ids i) k)

  -- The producer's jobs, once each: those from the job `i` on are told as enqueued.
  abbrev pub all_told : (i n : ℕ) → List (ℕ × Told)
  all_told i zero = []
  all_told i (suc n) = (i, enqueued (ids i)) ∷ all_told (suc i) n

  -- The ids are distinct, and those from `i` on are new.
  abbrev pub AreNew : ℕ → World → Type 0
  AreNew i s =
      ((m m' : ℕ) → ids m ≡ ids m' → m ≡ m') × ((m : ℕ) → i ≤ m → find_job (ids m) s.db.jobs ≡ none)

  AreNew-stored : (i : ℕ) (s : World) → AreNew i s → AreNew (suc i) (stored i s)
  AreNew-stored i s (apart, absent) = (
    apart,
    (λ m h.
        find_job-stored i s (ids m) (λ e. absurd (ground (arith, apart i m e, h)))
        ∙ absent m (omega arith)),
  )

  -- A row that none of the ids names stays.
  inject_keeps :
      (i n : ℕ) (timer : Option ℕ) (ch : Channels) (s : World) (k : String)
      → AreNew i s
      → ((c : ℕ) → (s.turns c).link ≡ answered)
      → ((m : ℕ) → i ≤ m → ids m ≢ k)
      → find_job k (inject payload serves kind i n (none_waits timer ch s)).0.store.db.jobs
        ≡ find_job k s.db.jobs
  unfolding inject
  inject_keeps i zero timer ch s k new a away = refl
  inject_keeps i (suc n) timer ch s k new a away =
      rw (serves_stores i timer ch s (new.1 i (omega arith)) (a s.calls)) (
        inject_keeps (suc i) n timer ch (stored i s) k (AreNew-stored i s new) a
          (λ m h. away m (omega arith))
        ∙ find_job-stored i s k (away i (omega arith)))

  -- The producer's jobs are all stored. Each of its calls is told as enqueued under an id of its
  -- own, and at the end the table has a row for each: pending and due at once, with the kind and
  -- the payload that the producer gave it and the default of three retries; and a row that was
  -- there before is as it was. (No worker waits, the ids are distinct and new, and the calls of the
  -- store are answered.)
  pub inject-stores :
      (i n : ℕ) (timer : Option ℕ) (ch : Channels) (s : World)
      → AreNew i s
      → ((c : ℕ) → (s.turns c).link ≡ answered)
      → ((inject payload serves kind i n (none_waits timer ch s)).1 ≡ all_told i n)
        × ((m : ℕ)
            → m < n
            → find_job
                (ids (i + m))
                (inject payload serves kind i n (none_waits timer ch s)).0.store.db.jobs
              ≡ some (new_row (s.turns (s.calls + m)).now (job_at (i + m))))
        × ((k : String)
            → ((m : ℕ) → i ≤ m → ids m ≢ k)
            → find_job k (inject payload serves kind i n (none_waits timer ch s)).0.store.db.jobs
              ≡ find_job k s.db.jobs)
  unfolding inject find_job
  inject-stores i zero timer ch s new a = (refl, (λ m h. absurd (omega arith)), (λ k away. refl))
  inject-stores i (suc n) timer ch s new a =
      let (told, rows, _) =
        inject-stores (suc i) n timer ch (stored i s) (AreNew-stored i s new) a in
      (
        rw (serves_stores i timer ch s (new.1 i (omega arith)) (a s.calls))
            (ap (◌∷◌ (i, enqueued (ids i))) told),
        rw (serves_stores i timer ch s (new.1 i (omega arith)) (a s.calls)) (row rows),
        (λ k away. inject_keeps i (suc n) timer ch s k new a away),
      )
    where
      after : State World
      after = (inject payload serves kind (suc i) n (none_waits timer ch (stored i s))).0

      found :
          find_job (ids i) (stored i s).db.jobs ≡ some (new_row (s.turns s.calls).now (job_at i))
      found = ground (arith, eq_refl (ids i))

      row :
          ((m : ℕ)
            → m < n
            → find_job (ids (suc i + m)) after.store.db.jobs
              ≡ some (new_row (s.turns (suc s.calls + m)).now (job_at (suc i + m))))
          → (m : ℕ) → m < suc n
          → find_job (ids (i + m)) after.store.db.jobs
            ≡ some (new_row (s.turns (s.calls + m)).now (job_at (i + m)))
      row rows zero h =
          let here : i + 0 ≡ i = omega arith in
          let first : s.calls + 0 ≡ s.calls = omega arith in
          rw (here, first)
            (inject_keeps (suc i) n timer ch (stored i s) (ids i) (AreNew-stored i s new) a
                (λ m later e. absurd (ground (arith, new.0 m i e, later)))
              ∙ found)
      row rows (suc m) h =
          let next : suc i + m ≡ i + suc m = omega arith in
          let turn : suc s.calls + m ≡ s.calls + suc m = omega arith in
          rw (next, turn) at (rows m (omega arith))
