-- ===== src/Commands.antt =====
-- The commands around the server: cmd/distq, which wires it up, cmd/producer, which enqueues jobs,
-- and tools/fenceprobe, which tests its fence.
pub mod Startup
pub mod Probe
pub mod Producer
mod Tests
