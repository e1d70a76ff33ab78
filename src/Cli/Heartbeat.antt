-- ===== src/Cli/Heartbeat.antt =====
-- internal/cli/run.go: how the heartbeat's interval relates to the lease of the lock.
use deltaflow.Prelude.{ℕ, ◌*◌, ◌≤◌, ◌<◌, pos, arith}
use deltaflow.Worker.Config.{second}
use deltaflow.Cli.Run.{lock_heartbeat_interval, lock_renew_timeout}

-- For a lease of at least two nanoseconds, the heartbeat of the worker lock has a positive
-- interval of at most half the lease and at most the time that a renewal may take, which is at
-- most ten seconds.
pub lock_heartbeat_interval-bounds :
    (lease_ttl : ℕ)
    → 2 ≤ lease_ttl
    → (0 < lock_heartbeat_interval (pos lease_ttl))
      × (2 * lock_heartbeat_interval (pos lease_ttl) ≤ lease_ttl)
      × (lock_heartbeat_interval (pos lease_ttl) ≤ lock_renew_timeout (pos lease_ttl))
      × (lock_renew_timeout (pos lease_ttl) ≤ 10 * second)
unfolding lock_heartbeat_interval lock_renew_timeout
lock_heartbeat_interval-bounds lease_ttl h = ground arith
