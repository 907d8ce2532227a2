-- ===== src/Base/Slices.antt =====
-- Stretches of a list: what a `drop` and a `take` leave of it.
use mathlib.Core.Path.{◌≡◌, refl, sym, ap}
use mathlib.Core.List.{List, [], ◌∷◌, ◌++◌}
use Prim.Native.Nat.{ℕ, zero, suc, ◌+◌, ◌<◌}
use native.Mathlib.Omega.{arith}
use tuntom.Base.Lists.{take, drop, get_or, length}

suc_add : (a b : ℕ) → suc a + b ≡ suc (a + b)
suc_add a b = omega arith

module _ {ℓ} {A : Type ℓ} where
  pub drop_nil : (n : ℕ) → drop {A = A} n [] ≡ []
  drop_nil zero = refl
  drop_nil (suc n) = refl

  pub take_nil : (n : ℕ) → take {A = A} n [] ≡ []
  take_nil zero = refl
  take_nil (suc n) = refl

  pub drop-drop : (a b : ℕ) (xs : List A) → drop b (drop a xs) ≡ drop (a + b) xs
  drop-drop zero b xs = ap (λ n. drop n xs) {x = b} {y = 0 + b} (omega arith)
  drop-drop (suc a) b [] = rw (suc_add a b) (drop_nil b)
  drop-drop (suc a) b (x ∷ xs) = rw (suc_add a b) (drop-drop a b xs)

  pub take_add : (a b : ℕ) (xs : List A) → take (a + b) xs ≡ take a xs ++ take b (drop a xs)
  take_add zero b xs = ap (λ n. take n xs) {x = 0 + b} {y = b} (omega arith)
  take_add (suc a) b [] = rw (suc_add a b) (sym (take_nil b))
  take_add (suc a) b (x ∷ xs) = rw (suc_add a b) (ap (λ l. x ∷ l) (take_add a b xs))

  pub take_all : (xs : List A) → take (length xs) xs ≡ xs
  take_all [] = refl
  take_all (x ∷ xs) = ap (λ l. x ∷ l) (take_all xs)

  pub get_or-drop : (n i : ℕ) (d : A) (xs : List A) → get_or (drop n xs) i d ≡ get_or xs (n + i) d
  get_or-drop zero i d xs = ap (λ n. get_or xs n d) {x = i} {y = 0 + i} (omega arith)
  get_or-drop (suc n) i d [] = refl
  get_or-drop (suc n) i d (x ∷ xs) = rw (suc_add n i) (get_or-drop n i d xs)

  pub get_or-take :
      (n i : ℕ) (d : A) (xs : List A)
      → i < length (take n xs)
      → get_or (take n xs) i d ≡ get_or xs i d
  get_or-take zero i d xs h = absurd (omega arith)
  get_or-take (suc n) i d [] h = refl
  get_or-take (suc n) zero d (x ∷ xs) h = refl
  get_or-take (suc n) (suc i) d (x ∷ xs) h = get_or-take n i d xs (omega arith)
