-- ===== src/BufferPool/Tests.antt =====
-- Two buffers, the first of them used, and the theorem at them.
use tuntom.Base.{[], false, get_or, refl, some, true, ◌+◌, ◌∷◌, ◌≡◌}
use tuntom.BufferPool.{Pool, acquire, acquire_from, next_cursor, release, in_use}
use tuntom.BufferPool.Acquire.{acquire_lem}

abbrev pool : Pool
pool = record { used = true ∷ false ∷ []; cursor = 0 }

acquire_runs : (acquire pool).0 ≡ some 1
unfolding acquire acquire_from next_cursor
acquire_runs = refl

acquire_lem_example :
    (get_or pool.used 1 true ≡ false)
    × (in_use (acquire pool).1 ≡ in_use pool + 1)
    × ((release (acquire pool).1 1).used ≡ pool.used)
acquire_lem_example = acquire_lem pool 1 acquire_runs
