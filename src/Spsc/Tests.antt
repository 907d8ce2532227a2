-- ===== src/Spsc/Tests.antt =====
-- A ring of one item, whose producer and consumer take turns.
use tuntom.Base.{List, [], length, refl, ℕ, ◌++◌, ◌∷◌, ◌≡◌, ◌≤◌}
use tuntom.Spsc.{
  start, create, produce_at, produce, consume_at, consume, Turn, producer_turn, consumer_turn, step,
  run,
}
use tuntom.Spsc.Fifo.{run_lem}

abbrev turns : List (Turn ℕ)
turns =
    producer_turn 5
    ∷ consumer_turn
    ∷ producer_turn 5
    ∷ consumer_turn
    ∷ producer_turn 5
    ∷ consumer_turn
    ∷ producer_turn 6
    ∷ consumer_turn
    ∷ producer_turn 6
    ∷ consumer_turn
    ∷ consumer_turn
    ∷ producer_turn 6
    ∷ producer_turn 6
    ∷ producer_turn 6
    ∷ producer_turn 6
    ∷ []

turns_lem : ((run (start 1) turns).sent ≡ 5 ∷ 6 ∷ []) × ((run (start 1) turns).received ≡ 5 ∷ [])
unfolding start produce_at produce consume_at consume step run
turns_lem = (refl, refl)

run_lem_example :
    (waiting : List ℕ) × ((run (start 1) turns).sent ≡ (run (start 1) turns).received ++ waiting)
    × (length waiting ≤ 1)
unfolding create
run_lem_example = run_lem 1 (start 1) turns refl
