-- ===== src/UdpTxQueue/Tests.antt =====
-- Two datagrams in a queue, one too old, and the theorems at it.
use tuntom.Base.{[], arith, if◌then◌else◌, map, refl, ◌++◌, ◌∷◌, ◌≡◌, ◌≤◌}
use tuntom.UdpTxQueue.{UdpTxQueue, capacity, byte_limit, empty_queue, append, expire}
use tuntom.UdpTxQueue.Ring.{contents, IsValid, stamped, total_bytes, window}
use tuntom.UdpTxQueue.Fifo.{live, append_lem, expire_lem}

empty_queue-IsValid : IsValid empty_queue
unfolding contents total_bytes window
empty_queue-IsValid = record {
  slots = refl;
  head_inside = omega arith;
  not_over = omega arith;
  counted = refl;
  limited = omega arith;
}

abbrev one_left : UdpTxQueue
one_left = (append empty_queue ((1 ∷ 2 ∷ []) ∷ []) 50).1

one_left-IsValid : IsValid one_left
one_left-IsValid = (append_lem empty_queue ((1 ∷ 2 ∷ []) ∷ []) 50 empty_queue-IsValid).0

append_lem_example :
    IsValid (append one_left ((3 ∷ []) ∷ []) 70).1
    × (contents (append one_left ((3 ∷ []) ∷ []) 70).1 ≡ (
        if (append one_left ((3 ∷ []) ∷ []) 70).0
        then live 70 (contents one_left) ++ map (stamped 70) ((3 ∷ []) ∷ [])
        else live 70 (contents one_left)))
    × ((append one_left ((3 ∷ []) ∷ []) 70).1.size ≤ capacity)
    × ((append one_left ((3 ∷ []) ∷ []) 70).1.bytes ≤ byte_limit)
append_lem_example = append_lem one_left ((3 ∷ []) ∷ []) 70 one_left-IsValid

expire_lem_example :
    IsValid (expire one_left 200000000)
    × (contents (expire one_left 200000000) ≡ live 200000000 (contents one_left))
expire_lem_example = expire_lem one_left 200000000 one_left-IsValid
