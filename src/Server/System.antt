-- ===== src/Server/System.antt =====
-- A server of internal/server as a whole: its streams (stream.go), its dispatcher (dispatcher.go)
-- and its view of the leadership, interleaved in any order. What holds the dispatcher's mutex is
-- one event: a call of register, forget or Push. A handler that frees its worker answers the
-- message first, and registers in a later event. After a send that blocked with the mutex held
-- nothing more is modelled.
pub mod Open
pub mod Apart
pub mod Calm
pub mod Turns
pub mod Tests
use distq_go.Common.{
  ℕ, suc, String, Bool, true, false, Option, none, some, List, [], ◌∷◌, ◌==◌, if◌then◌else◌,
}
use distq_go.Proto.{WorkerMessage, get_worker_id, ServerMessage}
use distq_go.Queue.{Queue}
use distq_go.Server.Answer.{Verdict, answer}
use distq_go.Server.Dispatcher.{
  Waiter, Channels, same_stream, State, End, drained, errored, blocked, Lead, push, register,
  forget,
}
use distq_go.Server.Stream.{Next, waits, ended, stuck, take_from, deliver}

-- Where the handler of a stream is: before a call of register, in its select, or past its loop.
pub data Handler : Type 0 where
  joining listening leaving : Handler

pub record Stream : Type 0 where
  pub worker_id : String
  pub handler : Handler

-- `fresh` is the number of the next stream; `halted` says that a send has blocked.
pub record System (S : Type 0) : Type 0 where
  pub server : State S
  pub lead : Lead
  pub streams : ℕ → Option Stream
  pub fresh : ℕ
  pub halted : Bool

-- A first message on a new stream; register's turn; a message of the worker, and whether the reply
-- could be sent; a delivery; the end of a stream that listens or leaves; Push, by Enqueue or by the
-- timer; what the leadership loop changes; and what others do to the store.
pub data Event (S : Type 0) : Type 0 where
  greets : (greeting : WorkerMessage) → Event S
  registers : (stream : ℕ) → Event S
  hears : (stream : ℕ) (sent : Bool) (msg : WorkerMessage) → Event S
  delivers : (stream : ℕ) (sent : Bool) → Event S
  hangs_up : (stream : ℕ) → Event S
  pushes : (down : Bool) → Event S
  leads : Lead → Event S
  stores : (change : S → S) → Event S

abbrev pub waiter_of : ℕ → Stream → Waiter
waiter_of i t = record { worker_id = t.worker_id; stream = i }

abbrev pub set_stream : ℕ → Option Stream → (ℕ → Option Stream) → ℕ → Option Stream
set_stream i o streams k = if same_stream i k then o else streams k

abbrev pub is_blocked : End → Bool
is_blocked blocked = true
is_blocked _ = false

-- The handler after a reply: it returns if the reply could not be sent, and else registers its
-- worker if that is free.
abbrev pub after_reply : Option ServerMessage → Bool → Bool → Handler
after_reply (some m) false free = leaving
after_reply (some m) true true = joining
after_reply (some m) true false = listening
after_reply none sent true = joining
after_reply none sent false = listening

abbrev pub after_delivery : Next → Handler
after_delivery ended = leaving
after_delivery _ = listening

abbrev pub is_joining : Handler → Bool
is_joining joining = true
is_joining _ = false

abbrev pub is_listening : Handler → Bool
is_listening listening = true
is_listening _ = false

module _ {S : Type 0} where
  abbrev pub move : ℕ → Stream → Handler → System S → System S
  move i t h s = record s { streams = set_stream i (some (record t { handler = h })) s.streams }

  abbrev pub finish_pass : System S → State S × End → System S
  finish_pass s (d, end) = record s { server = d; halted = is_blocked end }

  -- A stream is admitted only by a server that leads, and gets a new and empty channel.
  abbrev pub admit : WorkerMessage → System S → System S
  admit m s =
      if get_worker_id m == ""
      then s
      else if s.lead.leading
      then record s {
        server = record s.server { channels = take_from s.fresh s.server.channels };
        streams =
            set_stream s.fresh (some (record { worker_id = get_worker_id m; handler = joining }))
              s.streams;
        fresh = suc s.fresh;
      }
      else s

  abbrev pub hang_up_on : ℕ → Stream → System S → System S
  hang_up_on i t s = record s {
    server = forget t.worker_id s.server;
    streams = set_stream i none s.streams;
  }

  abbrev pub finish_answer : ℕ → Stream → Bool → System S → S × Verdict → System S
  finish_answer i t sent s (st, (reply, free)) =
      move i t (after_reply reply sent free) (record s { server = record s.server { store = st } })

  abbrev pub finish_delivery :
      ℕ → Stream → System S → State S × Option ServerMessage × Next → System S
  finish_delivery i t s (d, m, next) = move i t (after_delivery next) (record s { server = d })

module _ {S : Type 0} (q : Queue S) where
  -- What becomes of an event on the stream `i`, which is open.
  abbrev pub register_on : ℕ → Stream → System S → System S
  register_on i t s =
      if is_joining t.handler
      then finish_pass (move i t listening s) (register q s.lead (waiter_of i t) s.server)
      else s

  abbrev pub hear_on : ℕ → Bool → WorkerMessage → Stream → System S → System S
  hear_on i sent msg t s =
      if is_listening t.handler
      then finish_answer i t sent s (answer q t.worker_id msg s.server.store)
      else s

  abbrev pub deliver_on : ℕ → Bool → Stream → System S → System S
  deliver_on i sent t s =
      if is_listening t.handler
      then finish_delivery i t s (deliver (waiter_of i t) sent s.server)
      else s

  abbrev pub close_on : ℕ → Stream → System S → System S
  close_on i t s = if is_joining t.handler then s else hang_up_on i t s

  abbrev pub on_open : Option Stream → (Stream → System S → System S) → System S → System S
  on_open none act s = s
  on_open (some t) act s = act t s

  unfoldable pub handle : Event S → System S → System S
  handle (greets m) s = admit m s
  handle (registers i) s = on_open (s.streams i) (register_on i) s
  handle (hears i sent msg) s = on_open (s.streams i) (hear_on i sent msg) s
  handle (delivers i sent) s = on_open (s.streams i) (deliver_on i sent) s
  handle (hangs_up i) s = on_open (s.streams i) (close_on i) s
  handle (pushes down) s = finish_pass s (push q down s.lead s.server)
  handle (leads lead) s = record s { lead = lead }
  handle (stores change) s = record s { server = record s.server { store = change s.server.store } }

  unfoldable pub turn : Event S → System S → System S
  turn e s = if s.halted then s else handle e s

  unfoldable pub run : List (Event S) → System S → System S
  run [] s = s
  run (e ∷ es) s = run es (turn e s)

-- A server that has just started.
abbrev pub booted : {S : Type 0} → Lead → S → System S
booted lead st = record {
  server = record { waiters = []; timer = none; channels = λ i. none; store = st };
  lead = lead;
  streams = λ i. none;
  fresh = 0;
  halted = false;
}
