-- ===== src/Spsc/Slots.antt =====
-- Lists under a write and under an addition at the end.
use tuntom.Base.{
  List, [], ap, arith, get_elem?, length, refl, some, suc, take, zero, ℕ, ◌++◌, ◌<◌, ◌∷◌, ◌≡◌, ◌≤◌,
}

module _ {A : Type 0} where
  pub get_elem?-append_old :
      (xs : List A) (x : A) (i : ℕ) → i < length xs → get_elem? (xs ++ (x ∷ [])) i ≡ get_elem? xs i
  get_elem?-append_old [] x i h = absurd (omega arith)
  get_elem?-append_old (y ∷ ys) x zero h = refl
  get_elem?-append_old (y ∷ ys) x (suc i) h = get_elem?-append_old ys x i (omega arith)

  pub get_elem?-append_new : (xs : List A) (x : A) → get_elem? (xs ++ (x ∷ [])) (length xs) ≡ some x
  get_elem?-append_new [] x = refl
  get_elem?-append_new (y ∷ ys) x = get_elem?-append_new ys x

  pub take-append_old :
      (n : ℕ) (xs : List A) (x : A) → n ≤ length xs → take n (xs ++ (x ∷ [])) ≡ take n xs
  take-append_old zero xs x h = refl
  take-append_old (suc n) [] x h = absurd (omega arith)
  take-append_old (suc n) (y ∷ ys) x h = ap (λ l. y ∷ l) (take-append_old n ys x (omega arith))

  pub take_next :
      (n : ℕ) (xs : List A) (x : A)
      → get_elem? xs n ≡ some x
      → take (suc n) xs ≡ take n xs ++ (x ∷ [])
  take_next zero [] x h = absurd cc
  take_next zero (y ∷ ys) x h = ground (arith, h)
  take_next (suc n) [] x h = absurd cc
  take_next (suc n) (y ∷ ys) x h = ap (λ l. y ∷ l) (take_next n ys x h)
