-- ===== src/Replay.antt =====
-- src/replay.hpp: the sequence generator and the replay window of a session.
-- A window is the array of 64 slots with the count of slots in use; `std::lower_bound` over the used
-- slots is the first slot that does not hold a larger value, since they are in descending order.
pub mod Slots
pub mod Order
pub mod Refine
pub mod History
pub mod Progress
mod Tests
use tuntom.Base.{
  Bool, List, [], false, get_or, if◌then◌else◌, leb, ltb, min, replicate, set, suc, take, true,
  zero, ℕ, ◌%◌, ◌&&◌, ◌+◌, ◌-◌, ◌==◌, ◌^◌, ◌∷◌,
}

-- `SequenceGenerator::next` at a clock that reads `nanoseconds`: the new last sequence, also the
-- result.
pub next : ℕ → ℕ → ℕ
next last nanoseconds =
    let candidate = nanoseconds % 2 ^ 64 in
    if leb candidate last then (last + 1) % 2 ^ 64 else candidate

abbrev pub capacity : ℕ
capacity = 64

pub record Window : Type 0 where
  pub sequences : List ℕ
  pub sequence_count : ℕ

abbrev pub empty : Window
empty = record { sequences = replicate capacity 0; sequence_count = 0 }

-- The first index whose value is not above the candidate.
unfoldable pub lower_bound : List ℕ → ℕ → ℕ
lower_bound [] s = 0
lower_bound (a ∷ rest) s = if ltb s a then suc (lower_bound rest s) else 0

-- `for (i = top; i > index; --i) sequences_[i] = sequences_[i - 1];`
pub shift : ℕ → ℕ → List ℕ → List ℕ
shift zero index slots = slots
shift (suc i) index slots =
    let rest = shift i index (set slots (suc i) (get_or slots i 0)) in
    if ltb index (suc i) then rest else slots

-- The values in use.
abbrev pub contents : Window → List ℕ
contents w = take w.sequence_count w.sequences

-- The stores of an accepted value.
pub store : Window → ℕ → ℕ → Window
store w index s = record {
  sequences = set (shift (min w.sequence_count (capacity - 1)) index w.sequences) index s;
  sequence_count = min (w.sequence_count + 1) capacity;
}

unfoldable pub accept : Window → ℕ → Window × Bool
accept w s =
    if s == 0
    then (w, false)
    else (let index = lower_bound (contents w) s in
        if ltb index w.sequence_count && get_or w.sequences index 0 == s
        then (w, false)
        else if index == capacity
        then (w, false)
        else (store w index s, true))

-- The window after a sequence of arrivals.
pub run : Window → List ℕ → Window
run w [] = w
run w (s ∷ ss) = run (accept w s).0 ss
