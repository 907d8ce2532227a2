-- ===== src/BufferPool.antt =====
-- The buffers of src/switch_mp/queues.hpp: each is free or used, and a cursor goes round them.
pub mod Acquire
mod Tests
use tuntom.Base.{
  Bool, List, Option, [], count, false, get_or, if◌then◌else◌, length, none, not, replicate, set,
  some, suc, true, zero, ℕ, ◌+◌, ◌==◌, ◌∷◌,
}

-- `used` of each buffer; the payloads do not matter here.
pub record Pool : Type 0 where
  pub used : List Bool
  pub cursor : ℕ

-- `none` is the exception for a pool of no buffers.
unfoldable pub create : ℕ → Option Pool
create count =
    if count == 0 then none else some (record { used = replicate count false; cursor = 0 })

unfoldable pub next_cursor : Pool → ℕ
next_cursor p = if p.cursor + 1 == length p.used then 0 else p.cursor + 1

-- The loop of `acquire`, with the rounds left: the index of the buffer, if one is free.
unfoldable pub acquire_from : ℕ → Pool → Option ℕ × Pool
acquire_from zero p = (none, p)
acquire_from (suc rounds) p =
    let moved : Pool = record p { cursor = next_cursor p } in
    let rest = acquire_from rounds moved in
    if not (get_or p.used p.cursor true)
    then (some p.cursor, record moved { used = set p.used p.cursor true })
    else rest

unfoldable pub acquire : Pool → Option ℕ × Pool
acquire p = acquire_from (length p.used) p

-- `Buffer::release` of the buffer at an index.
unfoldable pub release : Pool → ℕ → Pool
release p i = record p { used = set p.used i false }

unfoldable pub count_used : List Bool → ℕ
count_used [] = 0
count_used (b ∷ rest) = (if b then 1 else 0) + count_used rest

unfoldable pub in_use : Pool → ℕ
in_use p = count_used p.used
