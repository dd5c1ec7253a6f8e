-- ===== src/Worker/Beat.antt =====
-- How often a worker renews the lease that the server grants: the seconds that the dispatcher sends
-- against the lease that the queue sets.
use distq_go.Common.{◌+◌, ◌⊎◌, ◌*◌, ◌<◌, ◌≤◌, arith}
use distq_go.Proto.{Job}
use distq_go.Queue.{Queue, second}
use distq_go.Server.Dispatcher.{assignment}
use distq_go.Worker.{assumed_lease, beat_interval}

-- Where the queue's lease is at least a second, the interval at which a worker that is assigned a
-- job sends heartbeats is positive, and three intervals fit in the lease. Where the lease is
-- shorter, the interval is more than nine seconds longer than the lease.
pub beats_in_time :
    {S : Type 0} (q : Queue S) (job : Job)
    → ((second ≤ q.lease_for)
        × (0 < beat_interval (assumed_lease (assignment q job).lease_seconds))
        × (beat_interval (assumed_lease (assignment q job).lease_seconds) * 3 ≤ q.lease_for))
      ⊎ ((q.lease_for < second)
          × (q.lease_for + 9 * second
              < beat_interval (assumed_lease (assignment q job).lease_seconds)))
beats_in_time q job = ground arith
