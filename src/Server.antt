-- ===== src/Server.antt =====
-- internal/server: what the queue server does with the messages of its workers and clients, and how
-- it hands jobs out.
pub mod Answer
pub mod Dispatcher
pub mod Line
pub mod Passes
pub mod Departures
pub mod Stream
pub mod Session
pub mod System
pub mod Outcomes
pub mod Deadlock
pub mod Wakeup
pub mod Leadership
pub mod Cluster
pub mod Election
pub mod Etcd
pub mod Node
pub mod Reaper
pub mod Delivery
pub mod Tests
