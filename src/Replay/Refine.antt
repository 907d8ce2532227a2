-- ===== src/Replay/Refine.antt =====
-- The array of `ReplayWindow` against a descending list of the values kept.
use tuntom.Base.{
  Bool, Bool-cases, List, [], ap, arith, dec_lt, false, get_or, if◌then◌else◌, inl, inr, length,
  length-set, length-take, ltb, min, refl, set, subst, suc, sym, take, true, zero, ℕ, ◌&&◌, ◌-◌,
  ◌<◌, ◌==◌, ◌∙◌, ◌∷◌, ◌≡◌, ◌≢◌, ◌≤◌, ◌⊎◌,
}
use tuntom.Replay.{Window, empty, capacity, lower_bound, contents, shift, store, accept, run}
use tuntom.Replay.Order.{
  Descending, contains, insert, insert-Descending, take-Descending, length-insert, lower_bound-le,
  found_lem,
}
use tuntom.Replay.Slots.{store_lem}

-- The abstract window: a new nonzero value with fewer than 64 larger ones is kept in order, and the
-- 64 largest stay.
unfoldable pub remember : List ℕ → ℕ → List ℕ × Bool
unfolding contains
remember xs s =
    if s == 0
    then (xs, false)
    else if contains xs s
    then (xs, false)
    else if lower_bound xs s == capacity
    then (xs, false)
    else (take capacity (insert s xs), true)

pub record IsValid (w : Window) : Type 0 where
  pub slots : length w.sequences ≡ capacity
  pub used : w.sequence_count ≤ capacity
  pub ordered : Descending (contents w)

pub length-contents : (w : Window) → IsValid w → length (contents w) ≡ w.sequence_count
length-contents w v = rw (length-take w.sequence_count w.sequences) (omega (arith, v.slots, v.used))

get_or-take : (n i : ℕ) (xs : List ℕ) → i < n → get_or (take n xs) i 0 ≡ get_or xs i 0
get_or-take zero i xs h = elim h [ ]
get_or-take (suc n) i [] h = refl
get_or-take (suc n) zero (x ∷ xs) h = refl
get_or-take (suc n) (suc i) (x ∷ xs) h = get_or-take n i xs (omega arith)

length-shift : (top index : ℕ) (a : List ℕ) → length (shift top index a) ≡ length a
unfolding shift
length-shift zero index a = refl
length-shift (suc i) index a = ground (
  arith,
  length-shift i index (set a (suc i) (get_or a i 0)),
  length-set a (suc i) (get_or a i 0),
)

-- The last slot that a store touches.
abbrev top : Window → ℕ
top w = min w.sequence_count (capacity - 1)

take_all : (n m : ℕ) (xs : List ℕ) → length xs ≤ n → length xs ≤ m → take n xs ≡ take m xs
take_all zero zero xs h k = refl
take_all zero (suc m) [] h k = refl
take_all zero (suc m) (x ∷ xs) h k = elim h [ ]
take_all (suc n) zero [] h k = refl
take_all (suc n) zero (x ∷ xs) h k = elim k [ ]
take_all (suc n) (suc m) [] h k = refl
take_all (suc n) (suc m) (x ∷ xs) h k = ap (◌∷◌ x) (take_all n m xs (omega arith) (omega arith))

take_cap :
    (n t : ℕ) (xs : List ℕ)
    → length xs ≡ suc n
    → n ≤ capacity
    → t ≡ min n (capacity - 1)
    → take (suc t) xs ≡ take capacity xs
take_cap n t xs e h f = elim (dec_lt n capacity) [
  | yes small ↦ take_all (suc t) capacity xs (omega arith) (omega arith)
  | no full ↦ ap (λ k. take k xs) {x = suc t} {y = capacity} (omega arith)
]

contents-store :
    (w : Window) (s : ℕ)
    → IsValid w
    → lower_bound (contents w) s ≢ capacity
    → contents (store w (lower_bound (contents w) s) s) ≡ take capacity (insert s (contents w))
unfolding store
contents-store w s v h =
    ap
      (λ k. take k (
        set (shift (top w) (lower_bound (contents w) s) w.sequences) (lower_bound (contents w) s)
          s))
      {y = suc (top w)} (omega (arith, v.used))
    ∙ store_lem (top w) w.sequence_count s w.sequences (omega (arith, v.slots)) (omega arith)
        (omega (arith, lower_bound-le (contents w) s, length-contents w v, v.used))
    ∙ take_cap w.sequence_count (top w) (insert s (contents w))
        (omega (arith, length-insert s (contents w), length-contents w v)) v.used refl

guard_lem :
    (w : Window) (s : ℕ)
    → IsValid w
    → (ltb (lower_bound (contents w) s) w.sequence_count
        && get_or w.sequences (lower_bound (contents w) s) 0 == s)
      ≡ contains (contents w) s
guard_lem w s v = ground (
  arith,
  found_lem (contents w) s v.ordered,
  length-contents w v,
  get_or-take w.sequence_count (lower_bound (contents w) s) w.sequences,
)

-- The answers of the window and of its abstraction, side by side.
abbrev Rejects : Window → ℕ → Type 0
Rejects w s = (accept w s ≡ (w, false)) × (remember (contents w) s ≡ (contents w, false))

abbrev Accepts : Window → ℕ → Type 0
Accepts w s =
    (accept w s ≡ (store w (lower_bound (contents w) s) s, true))
    × (remember (contents w) s ≡ (take capacity (insert s (contents w)), true))
    × (lower_bound (contents w) s ≢ capacity)
    × (contains (contents w) s ≡ false)

abbrev Answers : Window → ℕ → Type 0
Answers w s = Rejects w s ⊎ Accepts w s

answers : (w : Window) (s : ℕ) → IsValid w → Answers w s
unfolding accept remember
answers w s v = elim (Bool-cases (s == 0)) [
  | inl zero_seq ↦ inl (rw zero_seq, rw zero_seq)
  | inr seq ↦ elim (Bool-cases (contains (contents w) s)) [
    | inl old ↦ inl (rw (seq, guard_lem w s v, old), rw (seq, old))
    | inr new ↦ elim (Bool-cases (lower_bound (contents w) s == capacity)) [
      | inl low ↦ inl (rw (seq, guard_lem w s v, new, low), rw (seq, new, low))
      | inr high ↦
          inr (
            rw (seq, guard_lem w s v, new, high),
            rw (seq, new, high),
            (λ e. ground (arith, e)),
            new,
          )
    ]
  ]
]

-- `accept` answers as the abstract window does, and keeps the values that it keeps.
pub accept_refines :
    (w : Window) (s : ℕ)
    → IsValid w
    → (contents (accept w s).0, (accept w s).1) ≡ remember (contents w) s
accept_refines w s v = elim (answers w s v) [
  | inl (a, r) ↦ rw (a, r)
  | inr (a, r, low, new) ↦ rw (a, r, contents-store w s v low)
]

length-sequences-store :
    (w : Window) (index s : ℕ) → length (store w index s).sequences ≡ length w.sequences
unfolding store
length-sequences-store w index s =
    length-set (shift (top w) index w.sequences) index s ∙ length-shift (top w) index w.sequences

store-IsValid :
    (w : Window) (s : ℕ)
    → IsValid w
    → lower_bound (contents w) s ≢ capacity
    → contains (contents w) s ≡ false
    → IsValid (store w (lower_bound (contents w) s) s)
store-IsValid w s v low new = record {
  slots = length-sequences-store w (lower_bound (contents w) s) s ∙ v.slots;
  used = unfold store in omega arith;
  ordered =
      subst Descending (sym (contents-store w s v low))
        (take-Descending capacity _ (insert-Descending s (contents w) v.ordered new));
}

-- Every arrival keeps the window well formed: 64 slots, the used ones in descending order.
pub accept-IsValid : (w : Window) (s : ℕ) → IsValid w → IsValid (accept w s).0
accept-IsValid w s v = elim (answers w s v) [
  | inl (a, r) ↦ rw a v
  | inr (a, r, low, new) ↦ rw a (store-IsValid w s v low new)
]

pub empty-IsValid : IsValid empty
empty-IsValid = record { slots = refl; used = omega arith; ordered = tt }

pub run-IsValid : (w : Window) (ss : List ℕ) → IsValid w → IsValid (run w ss)
unfolding run
run-IsValid w [] v = v
run-IsValid w (s ∷ ss) v = run-IsValid (accept w s).0 ss (accept-IsValid w s v)
