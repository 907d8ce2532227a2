-- ===== src/Replay/Tests.antt =====
-- Runs of the replay window, and its theorems at them.
use tuntom.Base.{List, [], arith, false, refl, true, ℕ, ◌<◌, ◌^◌, ◌∷◌, ◌≡◌}
use tuntom.Replay.{next, empty, contents, lower_bound, shift, store, accept, run}
use tuntom.Replay.Refine.{remember, accept_refines, empty-IsValid}
use tuntom.Replay.History.{accepted_once}
use tuntom.Replay.Progress.{newest_accepted, next_increases}

abbrev arrivals : List ℕ
arrivals = 5 ∷ 9 ∷ 5 ∷ 7 ∷ 0 ∷ []

contents-arrivals : contents (run empty arrivals) ≡ 9 ∷ 7 ∷ 5 ∷ []
unfolding run accept store shift lower_bound
contents-arrivals = refl

next_stalled : next 10 3 ≡ 11
unfolding next
next_stalled = refl

accept_refines_example : (contents (accept empty 6).0, (accept empty 6).1) ≡ remember [] 6
accept_refines_example = accept_refines empty 6 empty-IsValid

accepted_once_example : (accept (run (accept (run empty arrivals) 8).0 (20 ∷ 3 ∷ [])) 8).1 ≡ false
unfolding run accept store shift lower_bound
accepted_once_example = accepted_once arrivals (20 ∷ 3 ∷ []) 8 refl

newest_accepted_example : (accept (run empty arrivals) 12).1 ≡ true
newest_accepted_example = newest_accepted arrivals 12 (omega arith) (omega arith)

next_increases_example : (10 < next 10 3) × (next 10 3 < 2 ^ 64)
next_increases_example = next_increases 10 3 (omega arith)
