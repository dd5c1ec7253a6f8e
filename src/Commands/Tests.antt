-- ===== src/Commands/Tests.antt =====
-- The theorems about the commands at a concrete server and a concrete start.
use distq_go.Common.{◌≡◌, false, some, [], ◌∷◌}
use distq_go.Storage.Reply.{ok}
use distq_go.Storage.Postgres.{World, postgres_store}
use distq_go.Commands.Startup.{Boot, signalled, run, open_after, IsOrderly, run-IsOrderly}

-- Every variable is "x", and every call answers.
abbrev calm : Boot World
calm = record {
  env = λ name. 120 ∷ [];
  connect = λ dsn. ok postgres_store;
  dial_etcd = λ endpoints. ok tt;
  listen = λ addr. ok tt;
  ending = signalled false;
}

run-IsOrderly_example : (open_after [] (run calm).0 ≡ some []) × IsOrderly (run calm).0 (run calm).1
run-IsOrderly_example = run-IsOrderly calm
