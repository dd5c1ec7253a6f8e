-- ===== src/Server/Dispatcher.antt =====
-- internal/server/dispatcher.go. The delivery channel of a stream holds at most one job; a send to a
-- full one blocks, with the dispatcher's mutex held. Channels are named by their stream.
use distq_go.Common.{
  ℕ, ◌/◌, String, Bool, true, false, Option, none, some, List, [], ◌∷◌, ◌++◌, ◌==◌, if◌then◌else◌,
  ltb,
}
use distq_go.Common.Int.{ℤ, pos, negsuc}
use distq_go.Proto.{Job, Assigned}
use distq_go.Storage.Reply.{Result, ok, err}
use distq_go.Queue
use distq_go.Queue.{Queue, second}
use Prim.Native.Nat.{compare, Ordering}

-- 100 * time.Millisecond
abbrev pub min_arm : ℕ
min_arm = second / 10

pub record Waiter : Type 0 where
  pub worker_id : String
  pub stream : ℕ

-- What waits in each delivery channel.
abbrev pub Channels : Type 0
Channels = ℕ → Option Assigned

abbrev pub same_stream : ℕ → ℕ → Bool
same_stream a b = elim (compare a b) [ Ordering.eq ↦ true | _ ↦ false ]

abbrev pub put : ℕ → Assigned → Channels → Channels
put i job ch k = if same_stream i k then some job else ch k

-- The dispatcher with what its calls read and change: the waiters in line, the delay that the timer
-- was last armed for, the channels and the store.
pub record State (S : Type 0) : Type 0 where
  pub waiters : List Waiter
  pub timer : Option ℕ
  pub channels : Channels
  pub store : S

-- How a pass over the line ends: it handed out all there was, a claim failed, or a send blocked.
pub data End : Type 0 where
  drained errored blocked : End

-- What the server knows of its leadership when a pass begins: Leading() and Term().
pub record Lead : Type 0 where
  pub leading : Bool
  pub term : ℕ

-- Whether a worker is in line already.
unfoldable pub is_in_line : String → List Waiter → Bool
is_in_line id [] = false
is_in_line id (w ∷ ws) = if w.worker_id == id then true else is_in_line id ws

-- The delay to arm the timer for: at least min_arm.
abbrev pub arm_delay : ℤ → ℕ
arm_delay (pos n) = if ltb n min_arm then min_arm else n
arm_delay (negsuc n) = min_arm

module _ {S : Type 0} (q : Queue S) where
  -- `pb.Assigned{Job: job, LeaseSeconds: int32(d.q.LeaseFor().Seconds())}`
  abbrev pub assignment : Job → Assigned
  assignment job = record { job = job; lease_seconds = q.lease_for / second }

  -- The loop of pushLocked over the waiters in line.
  unfoldable pub serve : ℕ → List Waiter → State S → State S × End
  serve term [] d = (record d { waiters = [] }, drained)
  serve term (w ∷ ws) d =
      let (s, got) = Queue.dequeue q term w.worker_id d.store in
      elim got [
        | err e ↦ (record d { waiters = w ∷ ws; store = s }, errored)
        | ok found ↦ elim found [
          | none ↦ (record d { waiters = w ∷ ws; store = s }, drained)
          | some job ↦ elim (d.channels w.stream) [
            | some waiting ↦ (record d { waiters = ws; store = s }, blocked)
            | none ↦ serve term ws (record d {
              waiters = ws;
              store = s;
              channels = put w.stream (assignment job) d.channels;
            })
          ]
        ]
      ]

  armed : State S → S × Result (ℤ × Bool) → State S
  armed d (s, err e) = record d { store = s }
  armed d (s, ok (wait, false)) = record d { store = s }
  armed d (s, ok (wait, true)) = record d { store = s; timer = some (arm_delay wait) }

  arm_locked_for : List Waiter → State S → State S
  unfolding armed
  arm_locked_for [] d = d
  arm_locked_for (w ∷ ws) d = armed d (Queue.next_visible q d.store)

  -- time.AfterFunc(wait, d.Push) or d.timer.Reset(wait): either way a push is due after the delay.
  unfoldable pub arm_locked : State S → State S
  unfolding arm_locked_for
  arm_locked d = arm_locked_for d.waiters d

  unfoldable pub arm_after : State S × End → State S × End
  arm_after (d, drained) = (arm_locked d, drained)
  arm_after (d, errored) = (d, errored)
  arm_after (d, blocked) = (d, blocked)

  unfoldable pub push_locked : Lead → State S → State S × End
  unfolding arm_after
  push_locked lead d =
      if lead.leading then arm_after (serve lead.term d.waiters d) else (d, drained)

  -- `down` is d.ctx.Err() != nil.
  unfoldable pub push : Bool → Lead → State S → State S × End
  push down lead d = if down then (d, drained) else push_locked lead d

  unfoldable pub register : Lead → Waiter → State S → State S × End
  register lead w d =
      if is_in_line w.worker_id d.waiters
      then (d, drained)
      else push_locked lead (record d { waiters = d.waiters ++ w ∷ [] })

-- Drops the first waiter of that worker.
unfoldable pub leave_line : String → List Waiter → List Waiter
leave_line id [] = []
leave_line id (w ∷ ws) = if w.worker_id == id then ws else w ∷ leave_line id ws

unfoldable pub forget : {S : Type 0} → String → State S → State S
forget id d = record d { waiters = leave_line id d.waiters }
