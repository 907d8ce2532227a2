-- ===== src/Base/Count.antt =====
-- Counting the numbers below a bound that pass a test.
use Prim.Native.Nat.{ℕ, zero, suc, ◌+◌, ◌-◌, ◌≤◌, ◌<◌, min}
use mathlib.Core.Path.{◌≡◌}
use mathlib.Core.Logic.{◌⊎◌, inl, inr}
use mathlib.Core.Bool.{Bool, true, false, ◌&&◌, ◌||◌}
use native.Mathlib.Omega.{arith}
use tuntom.Base.Tests.{ltb, leb, if◌then◌else◌}

unfoldable pub count : ℕ → (ℕ → Bool) → ℕ
count zero f = 0
count (suc n) f = (if f n then 1 else 0) + count n f

pub count-le : (n : ℕ) (f : ℕ → Bool) → count n f ≤ n
unfolding count
count-le zero f = omega arith
count-le (suc n) f = ground (arith, count-le n f)

split : (p n : ℕ) → p < suc n → (p < n) ⊎ (p ≡ n)
split p n h = grind arith

-- A full count leaves no number out.
pub count_full : (n : ℕ) (f : ℕ → Bool) (p : ℕ) → count n f ≡ n → p < n → f p ≡ true
unfolding count
count_full zero f p e h = elim h [ ]
count_full (suc n) f p e h = elim (split p n h) [
  | inl below ↦ count_full n f p (ground (arith, count-le n f)) below
  | inr top ↦ rw top (ground (arith, count-le n f))
]

-- Tests that exclude one another add up.
pub count-or :
    (n : ℕ) (f g : ℕ → Bool)
    → ((p : ℕ) → (f p && g p) ≡ false)
    → count n (λ p. f p || g p) ≡ count n f + count n g
unfolding count
count-or zero f g h = omega arith
count-or (suc n) f g h = ground (arith, count-or n f g h, h n)

unfoldable pub inside : ℕ → ℕ → ℕ → Bool
inside begin end p = leb begin p && ltb p end

pub count-inside :
    (n begin end : ℕ) → begin ≤ end → count n (inside begin end) ≡ min n end - min n begin
unfolding count inside
count-inside zero begin end h = omega arith
count-inside (suc n) begin end h = ground (arith, count-inside n begin end h)
