-- ===== src/Replay/History.antt =====
-- No datagram is accepted twice, whatever arrives between.
use tuntom.Base.{
  Bool-cases, List, [], ap, arith, false, inl, inr, refl, subst, suc, sym, take, true, zero, ℕ,
  ◌==◌, ◌||◌, ◌∙◌, ◌∷◌, ◌≡◌, ◌≤◌, ◌⊎◌,
}
use tuntom.Replay.{Window, empty, capacity, lower_bound, contents, accept, run}
use tuntom.Replay.Order.{Descending, contains, contains_above, insert, insert-Descending}
use tuntom.Replay.Refine.{
  IsValid, remember, accept_refines, accept-IsValid, run-IsValid, empty-IsValid,
}

-- A value is spent when it is kept, or lies below a full window.
abbrev Spent : ℕ → List ℕ → Type 0
Spent s xs = (contains xs s ≡ true) ⊎ (lower_bound xs s ≡ capacity)

contains-insert : (s t : ℕ) (xs : List ℕ) → contains (insert t xs) s ≡ (s == t || contains xs s)
unfolding contains insert
contains-insert s t [] = refl
contains-insert s t (x ∷ xs) = ground (arith, contains-insert s t xs)

lower_bound-insert :
    (s t : ℕ) (xs : List ℕ) → Descending xs → lower_bound xs s ≤ lower_bound (insert t xs) s
unfolding lower_bound insert
lower_bound-insert s t [] d = omega arith
lower_bound-insert s t (x ∷ xs) d = ground (arith, lower_bound-insert s t xs d.1)

contains-take :
    (k s : ℕ) (xs : List ℕ)
    → Descending xs
    → contains xs s ≡ true
    → (contains (take k xs) s ≡ true) ⊎ (lower_bound (take k xs) s ≡ k)
unfolding contains lower_bound
contains-take zero s xs d h = inr refl
contains-take (suc k) s [] d h = inl h
contains-take (suc k) s (x ∷ xs) d h =
    ground (arith, contains-take k s xs d.1, contains_above s x xs d.0)

lower_bound-take : (k s : ℕ) (xs : List ℕ) → k ≤ lower_bound xs s → lower_bound (take k xs) s ≡ k
unfolding lower_bound
lower_bound-take zero s xs h = refl
lower_bound-take (suc k) s [] h = elim h [ ]
lower_bound-take (suc k) s (x ∷ xs) h = ground (arith, lower_bound-take k s xs)

insert-Spent :
    (s t : ℕ) (xs : List ℕ)
    → Descending xs
    → contains xs t ≡ false
    → Spent s xs
    → Spent s (take capacity (insert t xs))
insert-Spent s t xs d new (inl e) =
    contains-take capacity s (insert t xs) (insert-Descending t xs d new)
      (ground (arith, contains-insert s t xs))
insert-Spent s t xs d new (inr e) =
    inr (lower_bound-take capacity s (insert t xs) (omega (arith, lower_bound-insert s t xs d)))

-- The two ways in which a value is taken up or not.
pub remember_cases :
    (t : ℕ) (xs : List ℕ)
    → (remember xs t ≡ (xs, false))
      ⊎ ((remember xs t ≡ (take capacity (insert t xs), true)) × (contains xs t ≡ false))
unfolding remember
remember_cases t xs = elim (Bool-cases (t == 0)) [
  | inl z ↦ inl (rw z)
  | inr nz ↦ elim (Bool-cases (contains xs t)) [
    | inl old ↦ inl (rw (nz, old))
    | inr new ↦ elim (Bool-cases (lower_bound xs t == capacity)) [
      | inl low ↦ inl (rw (nz, new, low))
      | inr high ↦ inr (rw (nz, new, high), new)
    ]
  ]
]

-- Keeping another value leaves a spent value spent, also if that pushes it out.
remember-Spent : (s t : ℕ) (xs : List ℕ) → Descending xs → Spent s xs → Spent s (remember xs t).0
remember-Spent s t xs d sp = elim (remember_cases t xs) [
  | inl e ↦ rw e sp
  | inr (e, new) ↦ rw e (insert-Spent s t xs d new sp)
]

-- What is kept now is spent.
remember_spends :
    (s : ℕ) (xs : List ℕ) → Descending xs → (remember xs s).1 ≡ true → Spent s (remember xs s).0
remember_spends s xs d h = elim (remember_cases s xs) [
  | inl e ↦ absurd (ground (arith, e))
  | inr (e, new) ↦ rw e (
      contains-take capacity s (insert s xs) (insert-Descending s xs d new)
        (ground (arith, contains-insert s s xs)))
]

Spent-rejected : (s : ℕ) (xs : List ℕ) → Spent s xs → (remember xs s).1 ≡ false
unfolding remember
Spent-rejected s xs (inl e) = ground arith
Spent-rejected s xs (inr e) = ground arith

pub contents-accept :
    (w : Window) (t : ℕ) → IsValid w → contents (accept w t).0 ≡ (remember (contents w) t).0
contents-accept w t v = ap (λ p. p.0) (accept_refines w t v)

pub answer-accept : (w : Window) (t : ℕ) → IsValid w → (accept w t).1 ≡ (remember (contents w) t).1
answer-accept w t v = ap (λ p. p.1) (accept_refines w t v)

run-Spent :
    (s : ℕ) (w : Window) (ss : List ℕ)
    → IsValid w
    → Spent s (contents w)
    → Spent s (contents (run w ss))
unfolding run
run-Spent s w [] v sp = sp
run-Spent s w (t ∷ ss) v sp =
    run-Spent s (accept w t).0 ss (accept-IsValid w t v)
      (subst (Spent s) (sym (contents-accept w t v)) (remember-Spent s t (contents w) v.ordered sp))

accepted_spends :
    (w : Window) (s : ℕ) → IsValid w → (accept w s).1 ≡ true → Spent s (contents (accept w s).0)
accepted_spends w s v h =
    subst (Spent s) (sym (contents-accept w s v))
      (remember_spends s (contents w) v.ordered (sym (answer-accept w s v) ∙ h))

-- Once a sequence number is accepted, after any arrivals, it is refused after any further ones.
pub accepted_once :
    (before after : List ℕ) (s : ℕ)
    → (accept (run empty before) s).1 ≡ true
    → (accept (run (accept (run empty before) s).0 after) s).1 ≡ false
accepted_once before after s h =
    answer-accept _ s (run-IsValid _ after next_valid)
    ∙ Spent-rejected s _ (run-Spent s _ after next_valid (accepted_spends _ s valid h))
  where
    valid : IsValid (run empty before)
    valid = run-IsValid empty before empty-IsValid

    next_valid : IsValid (accept (run empty before) s).0
    next_valid = accept-IsValid _ s valid
