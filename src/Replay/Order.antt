-- ===== src/Replay/Order.antt =====
-- The abstract window: the accepted values kept, largest first, and insertion into it.
use tuntom.Base.{
  All, Bool, Bool-cases, List, [], arith, false, get_or, if◌then◌else◌, inl, inr, length, ltb,
  ltb→lt, refl, suc, take, zero, ℕ, ◌&&◌, ◌<◌, ◌==◌, ◌||◌, ◌∷◌, ◌≡◌, ◌≤◌,
}
use tuntom.Replay.{lower_bound}

-- Largest first, without repetition.
abbrev pub Descending : List ℕ → Type 0
Descending [] = Unit {0}
Descending (x ∷ xs) = All (λ y. y < x) xs × Descending xs

unfoldable pub contains : List ℕ → ℕ → Bool
contains [] s = false
contains (x ∷ xs) s = s == x || contains xs s

unfoldable pub insert : ℕ → List ℕ → List ℕ
insert s [] = s ∷ []
insert s (x ∷ xs) = if ltb s x then x ∷ insert s xs else s ∷ x ∷ xs

All-trans : {a b : ℕ} (xs : List ℕ) → a < b → All (λ y. y < a) xs → All (λ y. y < b) xs
All-trans [] h all = tt
All-trans (x ∷ xs) h all = (omega arith, All-trans xs h all.1)

pub insert-All :
    (s b : ℕ) (xs : List ℕ) → s < b → All (λ y. y < b) xs → All (λ y. y < b) (insert s xs)
unfolding insert
insert-All s b [] h all = (h, tt)
insert-All s b (x ∷ xs) h all = ground (arith, insert-All s b xs h all.1)

pub contains_above : (s b : ℕ) (xs : List ℕ) → All (λ y. y < b) xs → b ≤ s → contains xs s ≡ false
unfolding contains
contains_above s b [] all h = refl
contains_above s b (x ∷ xs) all h = ground (arith, contains_above s b xs all.1 h)

pub insert-Descending :
    (s : ℕ) (xs : List ℕ) → Descending xs → contains xs s ≡ false → Descending (insert s xs)
unfolding insert contains
insert-Descending s [] d h = (tt, tt)
insert-Descending s (x ∷ xs) d h = elim (Bool-cases (ltb s x)) [
  | inl below ↦
      rw below (insert-All s x xs (ltb→lt s x below) d.0, insert-Descending s xs d.1 (ground arith))
  | inr above ↦ rw above ((ground arith, All-trans xs (ground arith) d.0), d)
]

pub take-All : (n b : ℕ) (xs : List ℕ) → All (λ y. y < b) xs → All (λ y. y < b) (take n xs)
take-All zero b xs all = tt
take-All (suc n) b [] all = tt
take-All (suc n) b (x ∷ xs) all = (all.0, take-All n b xs all.1)

pub take-Descending : (n : ℕ) (xs : List ℕ) → Descending xs → Descending (take n xs)
take-Descending zero xs d = tt
take-Descending (suc n) [] d = tt
take-Descending (suc n) (x ∷ xs) d = (take-All n x xs d.0, take-Descending n xs d.1)

pub length-insert : (s : ℕ) (xs : List ℕ) → length (insert s xs) ≡ suc (length xs)
unfolding insert
length-insert s [] = refl
length-insert s (x ∷ xs) = ground (arith, length-insert s xs)

pub lower_bound-le : (xs : List ℕ) (s : ℕ) → lower_bound xs s ≤ length xs
unfolding lower_bound
lower_bound-le [] s = omega arith
lower_bound-le (x ∷ xs) s = ground (arith, lower_bound-le xs s)

-- In a descending list the test at the lower bound decides membership.
pub found_lem :
    (xs : List ℕ) (s : ℕ)
    → Descending xs
    → (ltb (lower_bound xs s) (length xs) && get_or xs (lower_bound xs s) 0 == s) ≡ contains xs s
unfolding lower_bound contains
found_lem [] s d = refl
found_lem (x ∷ xs) s d = ground (arith, found_lem xs s d.1, contains_above s x xs d.0)
