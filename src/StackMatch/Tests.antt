-- ===== src/StackMatch/Tests.antt =====
-- A rule of two items and a rest, and the theorem at it.
use tuntom.Base.{List, [], true, ◌∷◌, ◌≡◌}
use tuntom.StackMatch.{RuleElement, exact, range, stack_matches}
use tuntom.StackMatch.Positions.{pairwise, stack_matches-pairwise}

abbrev items : List RuleElement
items = exact 5 ∷ range 10 20 ∷ []

stack_matches-pairwise_example :
    stack_matches (record { items = items; rest = true }) (5 ∷ 12 ∷ 99 ∷ [])
    ≡ pairwise items (5 ∷ 12 ∷ 99 ∷ []) true
stack_matches-pairwise_example = stack_matches-pairwise items (5 ∷ 12 ∷ 99 ∷ []) true
