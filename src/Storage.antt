-- ===== src/Storage.antt =====
-- internal/storage: the tables behind the queue and the statements that change them.
pub mod Row
pub mod Statement
pub mod Reply
pub mod Jobs
pub mod Leader
pub mod Step
pub mod Rows
pub mod Moves
pub mod History
pub mod Attempts
pub mod Lifecycle
pub mod Leases
pub mod Reports
pub mod Claims
pub mod Reaper
pub mod Schedule
pub mod Election
pub mod Reigns
pub mod Handover
pub mod Stranded
pub mod Backoff
pub mod Effects
pub mod Births
pub mod Commute
pub mod Schema
pub mod Phases
pub mod Heartbeats
pub mod Postgres
pub mod Tests
