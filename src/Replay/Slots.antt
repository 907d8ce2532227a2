-- ===== src/Replay/Slots.antt =====
-- The array loop of `ReplayWindow::accept`: shifting up and storing inserts one value.
use tuntom.Base.{
  Bool-cases, List, [], ap, arith, drop, get_or, inl, inr, length, length-set, ltb, refl, set, suc,
  sym, take, zero, ℕ, ◌++◌, ◌<◌, ◌∙◌, ◌∷◌, ◌≡◌, ◌≤◌,
}
use tuntom.Replay.{shift, lower_bound}
use tuntom.Replay.Order.{insert}

take-set_ge : (i : ℕ) (v : ℕ) (a : List ℕ) → take i (set a i v) ≡ take i a
take-set_ge zero v a = refl
take-set_ge (suc i) v [] = refl
take-set_ge (suc i) v (x ∷ a) = ap (◌∷◌ x) (take-set_ge i v a)

drop-set_self : (i v : ℕ) (a : List ℕ) → i < length a → drop i (set a i v) ≡ v ∷ drop (suc i) a
drop-set_self i v [] h = elim h [ ]
drop-set_self zero v (x ∷ a) h = refl
drop-set_self (suc i) v (x ∷ a) h = drop-set_self i v a (omega arith)

take-suc :
    (i : ℕ) (a r : List ℕ) → i < length a → take (suc i) a ++ r ≡ take i a ++ (get_or a i 0 ∷ r)
take-suc i [] r h = elim h [ ]
take-suc zero (x ∷ a) r h = refl
take-suc (suc i) (x ∷ a) r h = ap (◌∷◌ x) (take-suc i a r (omega arith))

take-set-suc : (i v : ℕ) (a : List ℕ) → take i (set a (suc i) v) ≡ take i a
take-set-suc zero v a = refl
take-set-suc (suc i) v [] = refl
take-set-suc (suc i) v (x ∷ a) = ap (◌∷◌ x) (take-set-suc i v a)

shift_step : (i : ℕ) (a : List ℕ) → shift (suc i) 0 a ≡ shift i 0 (set a (suc i) (get_or a i 0))
unfolding shift
shift_step i a = ground arith

-- Shifting down to index 0 frees the first slot and overwrites slot `i`.
set-shift_zero :
    (i v : ℕ) (a : List ℕ) → i < length a → set (shift i 0 a) 0 v ≡ v ∷ (take i a ++ drop (suc i) a)
set-shift_zero i v [] h = elim h [ ]
set-shift_zero zero v (x ∷ a) h = unfold shift in refl
set-shift_zero (suc i) v (x ∷ a) h =
    rw
      (
        shift_step i (x ∷ a),
        set-shift_zero i v (set (x ∷ a) (suc i) (get_or (x ∷ a) i 0))
            (rw (length-set (x ∷ a) (suc i) (get_or (x ∷ a) i 0)) (omega arith)),
      )
      (ap (◌∷◌ v) (
        ap (λ t. t ++ drop (suc i) (set (x ∷ a) (suc i) (get_or (x ∷ a) i 0)))
          (take-set-suc i (get_or (x ∷ a) i 0) (x ∷ a))
        ∙ ap (λ t. take i (x ∷ a) ++ t) (drop-set_self (suc i) (get_or (x ∷ a) i 0) (x ∷ a) h)
        ∙ sym (take-suc i (x ∷ a) (drop (suc (suc i)) (x ∷ a)) (omega arith))))

pub shift-suc :
    (i index x : ℕ) (a : List ℕ) → shift (suc i) (suc index) (x ∷ a) ≡ x ∷ shift i index a
unfolding shift
shift-suc zero index x a = ground arith
shift-suc (suc i) index x a = ground (arith, shift-suc i index x (set a (suc i) (get_or a i 0)))

take-take_append : (n : ℕ) (xs r : List ℕ) → n ≤ length xs → take n (take n xs ++ r) ≡ take n xs
take-take_append zero xs r h = refl
take-take_append (suc n) [] r h = elim h [ ]
take-take_append (suc n) (x ∷ xs) r h = ap (◌∷◌ x) (take-take_append n xs r (omega arith))

pub take-take : (n m : ℕ) (xs : List ℕ) → n ≤ m → take n (take m xs) ≡ take n xs
take-take zero m xs h = refl
take-take (suc n) zero xs h = elim h [ ]
take-take (suc n) (suc m) [] h = refl
take-take (suc n) (suc m) (x ∷ xs) h = ap (◌∷◌ x) (take-take n m xs (omega arith))

-- Storing at the lower bound of the `count` slots in use inserts in order; `top` is the last slot
-- that the store touches.
pub store_lem :
    (top count v : ℕ) (a : List ℕ)
    → top < length a
    → top ≤ count
    → lower_bound (take count a) v ≤ top
    → take
        (suc top)
        (set (shift top (lower_bound (take count a) v) a) (lower_bound (take count a) v) v)
      ≡ take (suc top) (insert v (take count a))
unfolding lower_bound insert
store_lem top count v [] h c b = elim h [ ]
store_lem zero zero v (x ∷ a) h c b = rw (set-shift_zero zero v (x ∷ a) h)
store_lem (suc top) zero v (x ∷ a) h c b = elim c [ ]
store_lem zero (suc count) v (x ∷ a) h c b = elim (Bool-cases (ltb v x)) [
  | inl below ↦ absurd (ground arith)
  | inr above ↦ rw (above, set-shift_zero zero v (x ∷ a) h)
]
store_lem (suc top) (suc count) v (x ∷ a) h c b = elim (Bool-cases (ltb v x)) [
  | inl below ↦
      rw (below, shift-suc top (lower_bound (take count a) v) x a)
        (ap (◌∷◌ x) (store_lem top count v a (omega arith) (omega arith) (ground arith)))
  | inr above ↦
      rw (above, set-shift_zero (suc top) v (x ∷ a) h)
        (ap (◌∷◌ v) (
          take-take_append (suc top) (x ∷ a) (drop (suc (suc top)) (x ∷ a)) (omega arith)
          ∙ sym (take-take (suc top) (suc count) (x ∷ a) c)))
]
