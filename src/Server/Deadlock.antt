-- ===== src/Server/Deadlock.antt =====
-- internal/server/dispatcher.go and stream.go: a worker whose channel holds a job when it is freed,
-- and a worker that reconnects.
use distq_go.Common.{
  ◌≡◌, refl, ap, String, true, false, Option, none, some, [], ◌==◌, eq_iff, if◌then◌else◌, arith,
}
use distq_go.Proto.{Job, Assigned, WorkerMessage, ServerMessage}
use distq_go.Storage.Reply.{ok}
use distq_go.Queue
use distq_go.Queue.{Queue}
use distq_go.Server.Answer.{answer}
use distq_go.Server.Dispatcher.{
  Waiter, State, drained, blocked, Lead, serve, arm_after, push_locked, is_in_line, register,
  forget,
}
use distq_go.Server.Departures.{leave_line-absent, leave_line-others}
use distq_go.Server.Line.{Distinct}
use distq_go.Server.Stream.{stuck, next_of, receive}

-- A worker at the front of the line whose channel is full, on a leader with a job for it.
register_blocks :
    {S : Type 0} (q : Queue S) (lead : Lead) (w : Waiter) (d : State S) {a : Assigned} {j : Job}
    → lead.leading ≡ true
    → d.waiters ≡ []
    → d.channels w.stream ≡ some a
    → (Queue.dequeue q lead.term w.worker_id d.store).1 ≡ ok (some j)
    → (register q lead w d).1 ≡ blocked
unfolding register is_in_line push_locked serve arm_after
register_blocks q lead w d {a} {j} on e full got = rw (e, on, got, full, serve)

-- The dispatcher's send can block: a leader's stream that has a job waiting in its channel and
-- first receives a message that frees its worker, with nobody else in line and one more job to
-- claim, is stuck in the send to its own channel.
pub receive-stuck :
    {S : Type 0} (q : Queue S) (lead : Lead) (w : Waiter) (d : State S) (msg : WorkerMessage)
    {a : Assigned} {j : Job} {s : S} {reply : Option ServerMessage}
    → lead.leading ≡ true
    → d.waiters ≡ []
    → d.channels w.stream ≡ some a
    → answer q w.worker_id msg d.store ≡ (s, (reply, true))
    → (Queue.dequeue q lead.term w.worker_id s).1 ≡ ok (some j)
    → (receive q lead w true msg d).2 ≡ stuck
unfolding receive
receive-stuck q lead w d msg {s = s} {reply = none} on e full free got =
    rw (free, receive)
      (ap next_of (register_blocks q lead w (record d { store = s }) on e full got))
receive-stuck q lead w d msg {s = s} {reply = some m} on e full free got =
    rw (free, receive)
      (ap next_of (register_blocks q lead w (record d { store = s }) on e full got))

-- A worker that reconnects can be left out of the line. While the stream that it had before is
-- still in line, registering its new stream changes nothing; and when the old one ends, nobody of
-- that name is in line any more, while every other worker that was in line still is. (Nobody stands
-- in line twice.)
pub reconnect_strands :
    {S : Type 0} (q : Queue S) (lead : Lead) (old new : Waiter) (d : State S)
    → Distinct d.waiters
    → is_in_line old.worker_id d.waiters ≡ true
    → new.worker_id ≡ old.worker_id
    → (register q lead new d ≡ (d, drained))
      × ((name : String)
          → is_in_line name (forget old.worker_id (register q lead new d).0).waiters
            ≡ (if name == old.worker_id then false else is_in_line name d.waiters))
unfolding register forget
reconnect_strands q lead old new d dist there same =
    rw (same, there)
      (
        refl,
        (λ name. ground (
          arith,
          eq_iff name old.worker_id,
          leave_line-absent old.worker_id d.waiters dist,
          leave_line-others old.worker_id name d.waiters,
        )),
      )
