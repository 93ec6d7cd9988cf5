-- ===== src/Cluster/Jobs/Bounds.antt =====
-- The retention period in nanoseconds.
use cassandra_operator.Base.{ℕ, ◌*◌, ◌≤◌, ◌≡◌, ◌↔◌, arith}
use cassandra_operator.Base.Int.{pos, int64, ◌*ℤ◌}
use cassandra_operator.Cluster.Jobs.{duration_days}

-- The nanoseconds of a retention period are computed without wrapping around exactly if the period is
-- at most 106751 days.
pub duration_days_iff : (n : ℕ) → (duration_days (pos n) ≡ pos (n * 86400000000000)) ↔ (n ≤ 106751)
unfolding duration_days int64 ◌*ℤ◌
duration_days_iff n = ground arith
