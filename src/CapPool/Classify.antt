-- ===== src/CapPool/Classify.antt =====
-- `cap_pool` (mgmtd/src/cap_pool.rs): the pool of a target by its free space and inodes.
use beegfs_rust.Prelude.{ℕ, ◌≤◌, ◌≡◌, leb, if◌then◌else◌, arith}
use beegfs_rust.Result.{ok}
use beegfs_rust.Types.{CapacityPool}
use beegfs_rust.CapPool.{CapPoolLimits, check, new_static, cap_pool}

-- The pool by one resource alone.
abbrev pub pool_by : ℕ → ℕ → ℕ → CapacityPool
pool_by low emergency free =
    if leb low free
    then CapacityPool.normal
    else if leb emergency free
    then CapacityPool.low
    else CapacityPool.emergency

-- From best to worst.
abbrev pub rank : CapacityPool → ℕ
rank CapacityPool.normal = 0
rank CapacityPool.low = 1
rank CapacityPool.emergency = 2

abbrev pub worse : CapacityPool → CapacityPool → CapacityPool
worse p q = if leb (rank p) (rank q) then q else p

-- Under limits that pass the check, the pool is the worse one of the pools by space and by inodes.
pub cap_pool-worse :
    (l : CapPoolLimits) (space inodes : ℕ)
    → new_static l ≡ ok l
    → cap_pool l space inodes
      ≡ worse
          (pool_by l.space_low l.space_emergency space)
          (pool_by l.inodes_low l.inodes_emergency inodes)
unfolding new_static check cap_pool
cap_pool-worse l space inodes h = ground arith

-- More free space and inodes never make the pool worse, whatever the limits.
pub cap_pool_mono :
    (l : CapPoolLimits) {space inodes space' inodes' : ℕ}
    → space ≤ space'
    → inodes ≤ inodes'
    → rank (cap_pool l space' inodes') ≤ rank (cap_pool l space inodes)
unfolding cap_pool
cap_pool_mono l s i = ground arith
