-- ===== src/AdaptivePolling/Tests.antt =====
-- Eight immediate polls and a backlog, and the theorem at them.
use tuntom.Base.{List, [], refl, true, ◌<◌, ◌∷◌, ◌≡◌, ◌≤◌}
use tuntom.AdaptivePolling.{Event, poll, backlog, start, batch_size, run}
use tuntom.AdaptivePolling.Hysteresis.{streak, proved, past, batch_lem}

abbrev busy : List Event
busy = poll 1 ∷ poll 2 ∷ poll 3 ∷ poll 4 ∷ poll 5 ∷ poll 6 ∷ poll 7 ∷ poll 8 ∷ backlog true 9 ∷ []

batch_size-busy : batch_size (run start busy) ≡ 4
unfolding batch_size run
batch_size-busy = refl

batch_lem_example :
    (1 < batch_size (run start busy) → proved (past busy []) ≡ true)
    × (batch_size (run start busy) ≡ 16 → 128 ≤ streak (past busy []))
    × (batch_size (run start busy) ≤ 16)
batch_lem_example = batch_lem busy
