-- ===== src/Lib.antt =====
-- distq: a distributed job queue. Clients enqueue jobs, a cluster of queue servers shares one
-- PostgreSQL database, the server that leads hands jobs to workers over streams, and workers report
-- back.
--
-- The parts, from the bottom up, with the files that model them:
--
--   Proto            internal/pb/distq.pb.go: the messages.
--   Storage.Row      internal/storage/postgres.go: the columns of the tables jobs and leadership.
--   Storage.Statement, Storage.Reply
--                    the parts of SQL and of database/sql that the statements use.
--   Storage.Jobs     CreateJob, DequeueJob, Complete, FailJob, HeartbeatJob, NextVisible and
--                    ReapExpiredLeases.
--   Storage.Schema   NewPostgresStore: the schema, its migrations and how a start can fail.
--   Storage.Leader   Campaign, RenewLeadership and ResignLeadership.
--   Storage.Step     the calls of internal/storage/store.go as data, and histories of them.
--   Storage.Postgres the interface Store as a record, and PostgresStore as a value of it.
--   Queue            internal/queue/queue.go: New and its defaults, and the calls passed on.
--   Server.Answer, Server.Stream
--                    internal/server/stream.go and server.go: JobStream by its cases, answer, Enqueue.
--   Server.Session   internal/server/stream.go: JobStream as a whole, with its loop.
--   Server.Dispatcher
--                    internal/server/dispatcher.go: register, forget, Push, pushLocked, armLocked.
--   Server.System    a server as a whole: its streams, its dispatcher and its view of the leadership.
--   Server.Leadership
--                    internal/server/leadership.go: Run, becomeLead, demote, resign.
--   Server.Election  internal/server/election.go: the loops of Campaign and Hold.
--   Server.Etcd      internal/server/election_etcd.go: Campaign, Hold, Resign and their sessions.
--   Server.Node      internal/server/leadership.go: Run over the interface Election of election.go.
--   Server.Reaper    internal/server/leadership.go: the loop of reapExpiredLeases.
--   Config           internal/config/config.go: the settings, from the environment's variables.
--   Worker           cmd/worker/main.go: the read loop, a handler's report, a new stream, the shutdown;
--                    Worker.Handler: the simulated work and the loop of heartbeats;
--                    Worker.Rotation: which server the next stream is opened on;
--                    Worker.Life: main's loop, and run on a stream.
--   Commands.Startup cmd/distq/main.go: run, newElection and gracefulStop.
--   Commands.Producer
--                    cmd/producer/main.go: its arguments and its loop.
--   Commands.Probe   tools/fenceprobe/main.go: its receive loop and its verdict.
--   Server.Cluster   the servers' views of who leads, beside the database that they share, in a cluster
--                    that elects through PostgreSQL.
--
-- Proofs stand beside the part they are about: Storage.Rows and Storage.Moves carry the facts on
-- tables, and on what one call can do to one row; Storage.History lifts them to histories; the
-- other files of Storage use these; Storage.Births has where rows come from, for what holds of all
-- of them, and Storage.Commute two calls in either order. Storage.Phases has the abstract machine
-- that the life of a job is held against, and Storage.Effects what a row must become, column by
-- column. Server.System.Turns holds the interleaved server against the handlers of Server.Stream.
-- Server.Line, Passes, Departures, Delivery, Outcomes, Wakeup and Deadlock are about the dispatcher
-- and the streams, Etcd.Sessions, Node.Rounds, Calls, Endings, Sessions and Elections about who leads,
-- Worker.Slot, Orphans and Attempt about the worker. The Tests modules hold the theorems at
-- concrete inputs.
--
-- How the code is modelled. A statement is one atomic step of the database, as PostgreSQL runs it.
-- What the environment decides for a call is a Turn: CURRENT_TIMESTAMP, whether the call ran and
-- whether its reply came back, which rows are locked by others, and the order in which rows are
-- found. A history may hold its calls at any times and in any order, and any of them may fail.
-- Errors are values; an error of the database in a statement, such as a number out of a column's
-- range, is a call that was refused. Timestamps and durations count nanoseconds as natural numbers,
-- without rounding or an upper end: the code passes seconds as a float, and PostgreSQL rounds to
-- microseconds. The seconds of a lease fit an int32. Where a duration may be negative it is an
-- integer. A channel of a stream holds one job; a send to a full one is a result of its own, and so
-- is a handler that never returns. Contexts are numbers, with the set of the cancelled ones. The
-- loops of the elections run over lists of moments, so that no fuel is needed: pushLocked recurs on
-- the line of waiters. In Server.System what happens to a server is a list of events, in any order:
-- whatever holds the dispatcher's mutex is one event, and a handler's answer and its next call of
-- register are two. A send that blocks ends the run: what may follow it is not modelled. pushLocked
-- and the handlers are over any store. Over that of Storage.Postgres the statements of one event
-- run one after the other: no other statement on the shared database falls between the claims of a
-- pass, though an answer, which does not hold the mutex, or another server can come there. Between
-- events others may change the store in any way. The tables that NewPostgresStore finds may lack
-- any column that was added later.
--
-- The etcd client and its concurrency package are not code of the repository: Server.Etcd takes
-- them as a record of the calls, and what they document of a session's keepalive is the record
-- Keepalive of Server.Etcd.Sessions.
--
-- What is not modelled: dialling, the mutex around a worker's sends, the receiving goroutine of a
-- stream, logging, and the generated code of gRPC: these are I/O, or calls of libraries.
pub mod Common
pub mod Proto
pub mod Storage
pub mod Queue
pub mod Config
pub mod Server
pub mod Worker
pub mod Commands
