-- ===== src/RetryQueue/Tests.antt =====
-- A record that the socket does not take, one behind it and the flush of both, and the theorem at them.
use tuntom.Base.{List, [], length, ◌∷◌}
use tuntom.RetryQueue.{would_block, took, empty_queue}
use tuntom.RetryQueue.Ring.{IsValid}
use tuntom.RetryQueue.Traces.{Event, submitted, enqueued, flushed, discarded, run, run-IsValid}

abbrev events : List Event
events =
    submitted (1 ∷ 2 ∷ []) 5 would_block
    ∷ enqueued (3 ∷ []) (4 ∷ []) 6
    ∷ flushed 2000000 (λ n. 2000000) (λ n. 2000001) (λ n wire. took (length wire))
    ∷ discarded
    ∷ []

run-IsValid_example : IsValid (run empty_queue events)
run-IsValid_example = run-IsValid events
