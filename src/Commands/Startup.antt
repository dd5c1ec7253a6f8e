-- ===== src/Commands/Startup.antt =====
-- cmd/distq/main.go: how the server starts and how it shuts down. The database, etcd, the listener
-- and the gRPC server are the environment's: a `Boot` holds what they answer.
use distq_go.Common.{◌*◌, ℕ, ◌≡◌, refl, Bool, true, false, Option, none, some, List, [], ◌∷◌, ◌++◌}
use distq_go.Common.Int.{pos}
use distq_go.Storage.Reply.{Error, Result, ok, err}
use distq_go.Storage.Postgres.{Store}
use distq_go.Queue.{Queue, Options, new, second}
use distq_go.Config.{Text, Environment, postgres_dsn, listen_addr, etcd_endpoints}

abbrev pub lease_for : ℕ
lease_for = 30 * second

abbrev pub reap_interval : ℕ
reap_interval = 5 * second

-- Which election newElection makes.
pub data Chosen : Type 0 where
  by_row : Chosen
  by_key : (endpoints : List Text) → Chosen

pub data Resource : Type 0 where
  database election signals : Resource

-- What the command does, in its order. `leads` starts Run of the leadership loop, and
-- `awaits_handover` waits for the end of it.
pub data Action : Type 0 where
  opens closes : Resource → Action
  leads : Chosen → (reap_every : ℕ) → Action
  listens : Text → Action
  serves drains forces_stop awaits_handover : Action

-- How serving ends: the gRPC server stops by itself, or a signal comes, and then the calls in
-- flight end within shutdownGrace or not.
pub data Ending : Type 0 where
  serving_failed : Error → Ending
  signalled : (in_time : Bool) → Ending

pub record Boot (S : Type 0) : Type 0 where
  pub env : Environment
  pub connect : Text → Result (Store S)
  pub dial_etcd : List Text → Result (Unit {0})
  pub listen : Text → Result (Unit {0})
  pub ending : Ending

-- What run returns.
pub data Exit : Type 0 where
  done : Exit
  no_dsn no_database no_queue no_election grpc_stopped : Error → Exit
  no_listener : (addr : Text) → Error → Exit

-- main
abbrev pub exit_code : Exit → ℕ
exit_code done = 0
exit_code _ = 1

abbrev Run : Type 0
Run = List Action × Exit

-- A resource that is opened, and closed by a `defer` once the rest has returned.
abbrev pub deferring : Resource → Run → Run
deferring r (actions, exit) = (opens r ∷ (actions ++ (closes r ∷ [])), exit)

abbrev after : List Action → Run → Run
after before (actions, exit) = (before ++ actions, exit)

chosen_etcd : List Text → Result (Unit {0}) → Result Chosen
chosen_etcd endpoints (err e) = err e
chosen_etcd endpoints (ok u) = ok (by_key endpoints)

graceful_stop : Bool → List Action
graceful_stop true = drains ∷ []
graceful_stop false = drains ∷ forces_stop ∷ []

-- The end of run, from the select on.
served : Ending → Run
unfolding graceful_stop
served (serving_failed e) = ([], grpc_stopped e)
served (signalled in_time) = (graceful_stop in_time ++ (awaits_handover ∷ []), done)

listened : Text → Ending → Result (Unit {0}) → Run
unfolding served
listened addr ending (err e) = ([], no_listener addr e)
listened addr ending (ok u) = after (listens addr ∷ serves ∷ []) (served ending)

module _ {S : Type 0} (b : Boot S) where
  abbrev pub queue_options : Store S → Options S
  queue_options store = record {
    store = some store;
    retry_base_delay = pos 0;
    lease_for = pos lease_for;
  }

  unfoldable pub new_election : List Text → Result Chosen
  unfolding chosen_etcd
  new_election [] = ok by_row
  new_election (e ∷ endpoints) = chosen_etcd (e ∷ endpoints) (b.dial_etcd (e ∷ endpoints))

  -- From signal.NotifyContext on.
  serving : Chosen → Run
  unfolding listened
  serving c = deferring signals (
      after (leads c reap_interval ∷ [])
        (listened (listen_addr b.env) b.ending (b.listen (listen_addr b.env))))

  elected : Result Chosen → Run
  unfolding serving
  elected (err e) = ([], no_election e)
  elected (ok c) = deferring election (serving c)

  queued : Result (Queue S) → Run
  unfolding elected
  queued (err e) = ([], no_queue e)
  queued (ok q) = elected (new_election (etcd_endpoints b.env))

  connected : Result (Store S) → Run
  unfolding queued
  connected (err e) = ([], no_database e)
  connected (ok store) = deferring database (queued (new (queue_options store)))

  configured : Result Text → Run
  unfolding connected
  configured (err e) = ([], no_dsn e)
  configured (ok dsn) = connected (b.connect dsn)

  unfoldable pub run : Run
  unfolding configured
  run = configured (postgres_dsn b.env)

-- The resources that are open after the actions, the latest first: `none` if one of them closes
-- what is not the latest that is open.
closed_by : Resource → List Resource → Option (List Resource)
closed_by database (database ∷ held) = some held
closed_by election (election ∷ held) = some held
closed_by signals (signals ∷ held) = some held
closed_by _ _ = none

unfoldable pub open_after : List Resource → List Action → Option (List Resource)
unfolding closed_by
open_after held [] = some held
open_after held (opens r ∷ actions) = open_after (r ∷ held) actions
open_after held (closes r ∷ actions) = elim (closed_by r held) [
  | none ↦ none
  | some left ↦ open_after left actions
]
open_after held (a ∷ actions) = open_after held actions

unfoldable pub waits : List Action → Bool
waits [] = false
waits (awaits_handover ∷ actions) = true
waits (a ∷ actions) = waits actions

-- A run that succeeds ends with the wait for the handover of the leadership and then the closing of
-- what is open; one that fails does not wait.
abbrev pub IsOrderly : List Action → Exit → Type 0
IsOrderly actions done =
    (before : List Action) × (actions
      ≡ before ++ (awaits_handover ∷ closes signals ∷ closes election ∷ closes database ∷ []))
IsOrderly actions _ = waits actions ≡ false

abbrev IsSound : Run → Type 0
IsSound (actions, exit) = (open_after [] actions ≡ some []) × IsOrderly actions exit

listened-IsSound :
    {S : Type 0} (b : Boot S) (c : Chosen) (r : Result (Unit {0})) (ending : Ending)
    → IsSound (
        deferring database (
          deferring election (
            deferring signals
              (after (leads c reap_interval ∷ []) (listened (listen_addr b.env) ending r)))))
unfolding listened open_after waits
listened-IsSound b c (err e) ending = (refl, refl)
listened-IsSound b c (ok u) (serving_failed e) = (refl, refl)
listened-IsSound b c (ok u) (signalled true) = (
  refl,
  (
    opens database
        ∷ opens election
        ∷ opens signals
        ∷ leads c reap_interval
        ∷ listens (listen_addr b.env)
        ∷ serves
        ∷ drains
        ∷ [],
    refl,
  ),
)
listened-IsSound b c (ok u) (signalled false) = (
  refl,
  (
    opens database
        ∷ opens election
        ∷ opens signals
        ∷ leads c reap_interval
        ∷ listens (listen_addr b.env)
        ∷ serves
        ∷ drains
        ∷ forces_stop
        ∷ [],
    refl,
  ),
)

elected-IsSound :
    {S : Type 0} (b : Boot S) (r : Result Chosen) → IsSound (deferring database (elected b r))
unfolding elected open_after waits
elected-IsSound b (err e) = (refl, refl)
elected-IsSound b (ok c) = listened-IsSound b c (b.listen (listen_addr b.env)) b.ending

connected-IsSound : {S : Type 0} (b : Boot S) (r : Result (Store S)) → IsSound (connected b r)
unfolding connected open_after waits new new_election
connected-IsSound b (err e) = (refl, refl)
connected-IsSound b (ok store) = elected-IsSound b (new_election b (etcd_endpoints b.env))

configured-IsSound : {S : Type 0} (b : Boot S) (r : Result Text) → IsSound (configured b r)
unfolding configured open_after waits
configured-IsSound b (err e) = (refl, refl)
configured-IsSound b (ok dsn) = connected-IsSound b (b.connect dsn)

-- However the start and the end of the server go, the command closes everything that it opened, the
-- latest first. It returns without an error only once it has waited for the end of the leadership
-- loop, with the election and the database still open, and it does not wait where it returns an
-- error.
pub run-IsOrderly :
    {S : Type 0} (b : Boot S) → (open_after [] (run b).0 ≡ some []) × IsOrderly (run b).0 (run b).1
unfolding run
run-IsOrderly b = configured-IsSound b (postgres_dsn b.env)
