-- ===== src/Server/Session/Leaves.antt =====
-- JobStream of internal/server/stream.go: who stands in line once it has returned.
use distq_go.Common.{
  ℕ, ◌≡◌, inl, inr, Bool, true, false, Option, none, some, List, [], ◌∷◌, arith, All, Bool-cases,
  ◌==◌, Option-cases,
}
use distq_go.Proto.{WorkerMessage, get_worker_id, ServerMessage}
use distq_go.Queue.{Queue}
use distq_go.Server.Answer.{Verdict, answer}
use distq_go.Server.Dispatcher.{Waiter, State, Lead, is_in_line, forget}
use distq_go.Server.Line.{Distinct}
use distq_go.Server.Passes.{register-Distinct}
use distq_go.Server.Stream.{
  Next, waits, ended, stuck, Admission, invalid_argument, unavailable, admitted, take_from,
  after_answer, greet, deliver, receive, hang_up,
}
use distq_go.Server.Departures.{leave_line-absent}
use distq_go.Server.Session.{
  Turn, delivers, hears, ends, others, continue, returning, stream_loop, welcomed, job_stream,
}

-- What the others do leaves the line without doubles.
abbrev pub IsFair : {S : Type 0} → Turn S → Type 0
IsFair {S} (others change) = (d : State S) → Distinct d.waiters → Distinct (change d).waiters
IsFair _ = Unit {0}

module _ {S : Type 0} (q : Queue S) where
  deliver-Distinct :
      (w : Waiter) (sent : Bool) (d : State S)
      → Distinct d.waiters
      → Distinct (deliver w sent d).0.waiters
  unfolding deliver
  deliver-Distinct w sent d h = elim (Option-cases (d.channels w.stream)) [
    | inl empty ↦ rw (empty, deliver, Distinct) h
    | inr (a, full) ↦ rw (full, deliver, Distinct) h
  ]

  after_answer-Distinct :
      (lead : Lead) (w : Waiter) (sent : Bool) (d : State S) (res : S × Verdict)
      → Distinct d.waiters
      → Distinct (after_answer q lead w sent d res).0.waiters
  unfolding after_answer
  after_answer-Distinct lead w sent d (s, (reply, false)) h = h
  after_answer-Distinct lead w sent d (s, (none, true)) h =
      register-Distinct q lead w (record d { store = s }) h
  after_answer-Distinct lead w true d (s, (some m, true)) h =
      register-Distinct q lead w (record d { store = s }) h
  after_answer-Distinct lead w false d (s, (some m, true)) h = h

  receive-Distinct :
      (lead : Lead) (w : Waiter) (sent : Bool) (msg : WorkerMessage) (d : State S)
      → Distinct d.waiters
      → Distinct (receive q lead w sent msg d).0.waiters
  unfolding receive
  receive-Distinct lead w sent msg d h =
      after_answer-Distinct lead w sent d (answer q w.worker_id msg d.store) h

  continue-Distinct :
      (now : State S × Option ServerMessage × Next) (rest : State S × List ServerMessage × Next)
      → Distinct now.0.waiters
      → Distinct rest.0.waiters
      → Distinct (continue now rest).0.waiters
  unfolding continue
  continue-Distinct (d, m, waits) rest h h' = h'
  continue-Distinct (d, m, ended) rest h h' = h
  continue-Distinct (d, m, stuck) rest h h' = h

  loop-Distinct :
      (w : Waiter) (turns : List (Turn S)) (d : State S)
      → All IsFair turns
      → Distinct d.waiters
      → Distinct (stream_loop q w turns d).0.waiters
  unfolding stream_loop
  loop-Distinct w [] d f h = h
  loop-Distinct w (delivers sent ∷ turns) d f h =
      let now = deliver-Distinct w sent d h in
      continue-Distinct (deliver w sent d) (stream_loop q w turns (deliver w sent d).0) now
        (loop-Distinct w turns (deliver w sent d).0 f.1 now)
  loop-Distinct w (hears lead sent msg ∷ turns) d f h =
      let now = receive-Distinct lead w sent msg d h in
      let d' = (receive q lead w sent msg d).0 in
      continue-Distinct (receive q lead w sent msg d) (stream_loop q w turns d') now
        (loop-Distinct w turns d' f.1 now)
  loop-Distinct w (ends ∷ turns) d f h = h
  loop-Distinct w (others change ∷ turns) d f h = loop-Distinct w turns (change d) f.1 (f.0 d h)

  returning-leaves :
      (w : Waiter) (res : State S × List ServerMessage × Next)
      → Distinct res.0.waiters
      → (returning w res).2 ≡ ended
      → is_in_line w.worker_id (returning w res).0.waiters ≡ false
  unfolding returning hang_up forget
  returning-leaves w (d, ms, waits) h e = absurd (ground (arith, e))
  returning-leaves w (d, ms, ended) h e = leave_line-absent w.worker_id d.waiters h
  returning-leaves w (d, ms, stuck) h e = absurd (ground (arith, e))

  welcomed-leaves :
      (w : Waiter) (turns : List (Turn S)) (res : State S × Admission) {next : Next}
      → All IsFair turns
      → Distinct res.0.waiters
      → res.1 ≡ admitted next
      → (welcomed q w turns res).2 ≡ ended
      → is_in_line w.worker_id (welcomed q w turns res).0.waiters ≡ false
  unfolding welcomed
  welcomed-leaves w turns (d, invalid_argument) f h here over = absurd (ground (arith, here))
  welcomed-leaves w turns (d, unavailable) f h here over = absurd (ground (arith, here))
  welcomed-leaves w turns (d, admitted waits) f h here over =
      returning-leaves w (stream_loop q w turns d) (loop-Distinct w turns d f h) over
  welcomed-leaves w turns (d, admitted ended) f h here over =
      returning-leaves w (d, [], ended) h over
  welcomed-leaves w turns (d, admitted stuck) f h here over = absurd (ground (arith, over))

  greet-Distinct :
      (lead : Lead) (i : ℕ) (greeting : WorkerMessage) (d : State S)
      → Distinct d.waiters
      → Distinct (greet q lead i greeting d).0.waiters
  unfolding greet
  greet-Distinct lead i greeting d h = elim (Bool-cases (get_worker_id greeting == "")) [
    | inl nameless ↦ rw nameless h
    | inr named ↦ elim (Bool-cases lead.leading) [
      | inr off ↦ rw (named, off) h
      | inl on ↦
          simp (named, on)
            (register-Distinct q lead (record { worker_id = get_worker_id greeting; stream = i })
              (record d { channels = take_from i d.channels }) h)
    ]
  ]

  -- Once the handler of an admitted stream has returned, for whatever reason, its worker stands in
  -- no line. (A worker stands in line once at most when the stream comes, and what the others do in
  -- between keeps it so.)
  pub job_stream-leaves :
      (lead : Lead) (i : ℕ) (greeting : WorkerMessage) (turns : List (Turn S)) (d : State S)
      {next : Next}
      → All IsFair turns
      → Distinct d.waiters
      → (greet q lead i greeting d).1 ≡ admitted next
      → (job_stream q lead i greeting turns d).2 ≡ ended
      → is_in_line (get_worker_id greeting) (job_stream q lead i greeting turns d).0.waiters ≡ false
  unfolding job_stream
  job_stream-leaves lead i greeting turns d {next} f h here over =
      welcomed-leaves (record { worker_id = get_worker_id greeting; stream = i }) turns
        (greet q lead i greeting d) {next = next} f (greet-Distinct lead i greeting d h) here over
