-- ===== src/LruCache/Tests.antt =====
-- A cache of one entry, and the theorems at it.
use tuntom.Base.{Bool, [], arith, length, refl, some, ℕ, ◌==◌, ◌≡◌, ◌≤◌}
use tuntom.LruCache.{
  LruCache, put, get, put_reclaimed, find, reclaim, is_stale, back, evict, put_front, remove,
}
use tuntom.LruCache.Bounds.{put-bound}
use tuntom.LruCache.Recent.{get-put}

abbrev same : ℕ → ℕ → Bool
same a b = a == b

abbrev one_entry : LruCache ℕ ℕ
one_entry =
    put same
      (record {
        generation = 0;
        live_size = 0;
        capacity = 1;
        idle_timeout = 10;
        order = [];
        evictions = 0;
        expirations = 0;
      })
      3 30 5

one_entry_runs :
    (length one_entry.order ≡ 1) × (one_entry.capacity ≡ 1) × (one_entry.idle_timeout ≡ 10)
unfolding put put_reclaimed find reclaim is_stale back evict put_front remove
one_entry_runs = (refl, refl, refl)

put-bound_example : length (put same one_entry 4 40 6).order ≤ one_entry.capacity
put-bound_example = put-bound same one_entry 4 40 6 (omega (arith, one_entry_runs))

get-put_example : (get same (put same one_entry 4 40 6) 4 8).1 ≡ some 40
get-put_example =
    get-put same one_entry 4 40 6 8 (omega (arith, one_entry_runs)) refl
      (omega (arith, one_entry_runs))
