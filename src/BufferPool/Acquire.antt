-- ===== src/BufferPool/Acquire.antt =====
-- A buffer that is acquired was free, and is the only one that changes hands.
use tuntom.Base.{
  Bool, Bool-cases, List, Option, [], ap, arith, false, get_or, if◌then◌else◌, inl, inr, length,
  not, refl, set, some, subst, suc, sym, true, zero, ℕ, ◌+◌, ◌∙◌, ◌∷◌, ◌≡◌,
}
use mathlib.Core.Option.{none-ne-some, some-injective}
use tuntom.BufferPool.{Pool, next_cursor, acquire_from, acquire, release, count_used, in_use}

count_used-acquired :
    (us : List Bool) (i : ℕ)
    → get_or us i true ≡ false
    → count_used (set us i true) ≡ count_used us + 1
unfolding count_used
count_used-acquired [] i h = ground (arith, h)
count_used-acquired (u ∷ us) zero h = ground (arith, h)
count_used-acquired (u ∷ us) (suc i) h = ground (arith, count_used-acquired us i h)

released-acquired :
    (us : List Bool) (i : ℕ) → get_or us i true ≡ false → set (set us i true) i false ≡ us
released-acquired [] i h = refl
released-acquired (u ∷ us) zero h = ap (λ b. b ∷ us) (sym h)
released-acquired (u ∷ us) (suc i) h = ap (λ r. u ∷ r) (released-acquired us i h)

-- The index, the buffers before and the pool after.
abbrev Took : List Bool → Option ℕ × Pool → Type 0
Took us r = (i : ℕ) → r.0 ≡ some i → (get_or us i true ≡ false) × (r.1.used ≡ set us i true)

acquire_step :
    (rounds : ℕ) (p : Pool)
    → acquire_from (suc rounds) p ≡ (
        if not (get_or p.used p.cursor true)
        then (some p.cursor, record p { cursor = next_cursor p; used = set p.used p.cursor true })
        else acquire_from rounds (record p { cursor = next_cursor p }))
unfolding acquire_from
acquire_step rounds p = refl

acquire_from-Took : (rounds : ℕ) (p : Pool) → Took p.used (acquire_from rounds p)
acquire_from-Took zero p = unfold acquire_from in λ i e. absurd (none-ne-some i e)
acquire_from-Took (suc rounds) p = elim (Bool-cases (get_or p.used p.cursor true)) [
  | inr free ↦
      subst (Took p.used)
        {x = (some p.cursor, record p { cursor = next_cursor p; used = set p.used p.cursor true })}
        (sym (acquire_step rounds p ∙ simp free refl))
        (λ i e.
          let same : p.cursor ≡ i = some-injective _ _ e in
          (ap (λ k. get_or p.used k true) (sym same) ∙ free, ap (λ k. set p.used k true) same))
  | inl taken ↦
      subst (Took p.used) {x = acquire_from rounds (record p { cursor = next_cursor p })}
        (sym (acquire_step rounds p ∙ simp taken refl))
        (acquire_from-Took rounds (record p { cursor = next_cursor p }))
]

-- A buffer that `acquire` gives out was not in use; then one more is in use, and releasing it gives
-- back the buffers as they were.
pub acquire_lem :
    (p : Pool) (i : ℕ)
    → (acquire p).0 ≡ some i
    → (get_or p.used i true ≡ false)
      × (in_use (acquire p).1 ≡ in_use p + 1)
      × ((release (acquire p).1 i).used ≡ p.used)
unfolding acquire in_use release
acquire_lem p i e =
    let (free, after) = acquire_from-Took (length p.used) p i e in
    (
      free,
      ap count_used after ∙ count_used-acquired p.used i free,
      ap (λ us. set us i false) after ∙ released-acquired p.used i free,
    )
