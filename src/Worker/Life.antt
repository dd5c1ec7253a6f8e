-- ===== src/Worker/Life.antt =====
-- cmd/worker/main.go: main's loop over the streams of a worker, and run on one of them, up to the
-- server that leads. What it logs, and how long it waits, are left out.
use distq_go.Common.{
  ℕ, zero, suc, ◌+◌, ◌%◌, ◌<◌, ◌≤◌, ◌≡◌, ◌≢◌, refl, String, Bool, true, false, Option, none, some,
  List, [], ◌∷◌, eq_iff, if◌then◌else◌, arith, get_elem?, length, All,
}
use distq_go.Proto.{ServerMessage, WorkerMessage, hello}
use distq_go.Storage.Reply.{Error, Result, ok, err}
use distq_go.Queue.{Queue}
use distq_go.Server.Dispatcher.{State, Lead}
use distq_go.Server.Stream.{Admission, admitted, greet, admit}
use distq_go.Worker.{Worker, receive, reconnect}
use distq_go.Worker.Rotation.{client, away, away_reaches}

-- What comes of a stream: of its opening and of the first send, the messages that come down, and the
-- error that ends it. stream.Recv goes on until it returns one.
pub record Wire : Type 0 where
  pub opening : Result (Unit {0})
  pub greeting : Result (Unit {0})
  pub messages : List ServerMessage
  pub broken : Error

unfoldable pub receive_all : List ServerMessage → Worker → Worker
receive_all [] w = w
receive_all (m ∷ ms) w = receive_all ms (receive m w)

-- What run sends of its own, and the error that it returns; it always returns one. The handlers'
-- messages are sent by the handlers.
abbrev pub Ran : Type 0
Ran = Worker × List WorkerMessage × Error

abbrev greeted : String → Wire → Result (Unit {0}) → Worker → Ran
greeted id s (err e) w = (w, [], e)
greeted id s (ok u) w = (receive_all s.messages w, hello id ∷ [], s.broken)

abbrev opened : String → Wire → Result (Unit {0}) → Worker → Ran
opened id s (err e) w = (w, [], e)
opened id s (ok u) w = greeted id s s.greeting w

unfoldable pub run : String → Wire → Worker → Ran
run id s w = opened id s s.opening (reconnect w)

-- A round of main's loop: its stream, and whether the worker is told to stop while run is at work,
-- or in the pause that follows.
pub record Round : Type 0 where
  pub wire : Wire
  pub stops : Bool
  pub stops_waiting : Bool

-- The servers that main opens its streams on, one for each round that it comes to; a worker that
-- knows no server panics.
unfoldable pub main_loop : String → (servers next : ℕ) → List Round → Worker → List (Option ℕ)
main_loop id servers next [] w = []
main_loop id servers next (r ∷ rs) w =
    let rest = main_loop id servers (if r.stops then next else suc next) rs (run id r.wire w).0 in
    elim (client servers next) [
      | none ↦ none ∷ []
      | some i ↦ some i ∷ (if r.stops then [] else if r.stops_waiting then [] else rest)
    ]

-- Whether the reply to a greeting is that the worker is admitted.
abbrev pub is_admitted : Admission → Bool
is_admitted (admitted n) = true
is_admitted _ = false

abbrev pub GoesOn : Round → Type 0
GoesOn r = (r.stops ≡ false) × (r.stops_waiting ≡ false)

main_loop-next :
    (id : String) (n next : ℕ) (rs : List Round) (w : Worker) (m : ℕ)
    → All GoesOn rs
    → m < length rs
    → get_elem? (main_loop id (suc n) next rs w) m ≡ some (some ((next + m) % suc n))
unfolding main_loop client
main_loop-next id n next [] w m g h = absurd (omega arith)
main_loop-next id n next (r ∷ rs) w zero g h = ground arith
main_loop-next id n next (r ∷ rs) w (suc m) g h =
    ground (arith, g.0, main_loop-next id n (suc next) rs (run id r.wire w).0 m g.1)

-- A worker that is not told to stop comes to every server that it knows within as many streams as
-- there are servers, whatever ends them and wherever it starts; what it sends first on a stream is
-- one message, and a server that leads admits it for that message. (The worker has a name, and the
-- opening of the stream and the first send succeed.)
pub finds_leader :
    {S : Type 0} (q : Queue S) (lead : Lead) (d : State S) (stream : ℕ) (id : String)
    (servers next i : ℕ) (rs : List Round) (s : Wire) (w : Worker)
    → id ≢ ""
    → i < servers
    → servers ≤ length rs
    → All GoesOn rs
    → lead.leading ≡ true
    → s.opening ≡ ok tt
    → s.greeting ≡ ok tt
    → ((m : ℕ) × (m < servers) × (get_elem? (main_loop id servers next rs w) m ≡ some (some i)))
      × ((greeting : WorkerMessage) × ((run id s w).1 ≡ greeting ∷ [])
          × (is_admitted (greet q lead stream greeting d).1 ≡ true))
unfolding run greet admit
finds_leader q lead d stream id zero next i rs s w named h enough g on up sent =
    absurd (omega arith)
finds_leader q lead d stream id (suc n) next i rs s w named h enough g on up sent =
    let (near, there) = away_reaches n next i h in
    (
      (
        away (suc n) next i,
        near,
        ground (arith, main_loop-next id n next rs w (away (suc n) next i) g, there),
      ),
      (hello id, rw (up, sent) refl, ground (arith, named, on, eq_iff id "")),
    )
