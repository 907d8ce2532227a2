-- ===== src/Spsc/Rounds.antt =====
-- Positions of the ring, as counts that go round.
use tuntom.Base.{
  ap, arith, if◌then◌else◌, inl, inr, ℕ, ◌%◌, ◌+◌, ◌-◌, ◌<◌, ◌==◌, ◌∙◌, ◌≡◌, ◌≢◌, ◌≤◌, ◌⊎◌,
}
use native.Mathlib.Nat.{mod-add-mod, mod-lt, mod-eq_of_lt, mod-eq-sub-mod, add-mod_right}

-- At most one round goes off.
mod_once : (n c : ℕ) → n < c + c → (n % c ≡ n) × (n < c) ⊎ ((n % c ≡ n - c) × (c ≤ n))
mod_once n c h = elim (below n c) [
  | inl lt ↦ inl (mod-eq_of_lt lt, lt)
  | inr ge ↦ inr (mod-eq-sub-mod ge ∙ mod-eq_of_lt (omega arith), ge)
]
  where
    below : (a b : ℕ) → (a < b) ⊎ (b ≤ a)
    below a b = grind arith

-- Counts that differ by less than a round have different positions.
pub mod_distinct : (i p c : ℕ) → i < p → p < i + c → i % c ≢ p % c
mod_distinct i p c below within same =
    elim (mod_once (i % c + (p - i)) c (omega (arith, mod-lt i {m = c}))) [
      | inl (e, lt) ↦ omega (arith, e, shifted)
      | inr (e, ge) ↦ omega (arith, e, shifted, mod-lt i {m = c})
    ]
  where
    shifted : (i % c + (p - i)) % c ≡ p % c
    shifted = mod-add-mod i c (p - i) ∙ ap (λ n. n % c) {x = i + (p - i)} {y = p} (omega arith)

-- The position after a count's.
pub next_mod : (i c : ℕ) → 1 < c → (if i % c + 1 == c then 0 else i % c + 1) ≡ (i + 1) % c
next_mod i c h = elim (mod_once (i % c + 1) c (omega (arith, mod-lt i {m = c}))) [
  | inl (e, lt) ↦ ground (arith, e, lt, mod-add-mod i c 1)
  | inr (e, ge) ↦ ground (arith, e, ge, mod-add-mod i c 1, mod-lt i {m = c})
]

-- Counts a round apart have the same position.
pub round_mod : (i c : ℕ) → (i + c) % c ≡ i % c
round_mod i c = add-mod_right i c

-- A ring whose next position is not the reader's has room for one more.
pub room_mod : (p freed c : ℕ) → p < freed + c → (p + 1) % c ≢ freed % c → p + 1 < freed + c
room_mod p freed c h differs = elim (tight (p + 1) (freed + c) (omega (arith, h))) [
  | inl lt ↦ lt
  | inr e ↦ absurd (differs (ap (λ n. n % c) e ∙ round_mod freed c))
]
  where
    tight : (a b : ℕ) → a ≤ b → (a < b) ⊎ (a ≡ b)
    tight a b le = grind arith
