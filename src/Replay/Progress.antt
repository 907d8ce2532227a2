-- ===== src/Replay/Progress.antt =====
-- New traffic is never refused.
use tuntom.Base.{
  All, List, [], arith, inl, inr, refl, subst, sym, true, ℕ, ◌-◌, ◌<◌, ◌^◌, ◌∙◌, ◌∷◌, ◌≡◌,
}
use tuntom.Replay.{next, Window, empty, capacity, lower_bound, contents, accept, run}
use tuntom.Replay.Order.{contains_above, insert, insert-All, take-All}
use tuntom.Replay.Refine.{IsValid, remember, accept-IsValid, run-IsValid, empty-IsValid}
use tuntom.Replay.History.{remember_cases, contents-accept, answer-accept}

abbrev AllBelow : ℕ → List ℕ → Type 0
AllBelow b = All (λ y. y < b)

remember-All : (b t : ℕ) (xs : List ℕ) → t < b → AllBelow b xs → AllBelow b (remember xs t).0
remember-All b t xs h all = elim (remember_cases t xs) [
  | inl e ↦ rw e all
  | inr (e, new) ↦ rw e (take-All capacity b (insert t xs) (insert-All t b xs h all))
]

run-All :
    (b : ℕ) (w : Window) (ss : List ℕ)
    → IsValid w
    → AllBelow b ss
    → AllBelow b (contents w)
    → AllBelow b (contents (run w ss))
unfolding run
run-All b w [] v h all = all
run-All b w (s ∷ ss) v h all =
    run-All b (accept w s).0 ss (accept-IsValid w s v) h.1
      (subst (AllBelow b) (sym (contents-accept w s v)) (remember-All b s (contents w) h.0 all))

lower_bound_above : (s : ℕ) (xs : List ℕ) → AllBelow s xs → lower_bound xs s ≡ 0
unfolding lower_bound
lower_bound_above s [] all = refl
lower_bound_above s (x ∷ xs) all = ground arith

-- A number above all that arrived before is accepted.
pub newest_accepted :
    (before : List ℕ) (s : ℕ)
    → All (λ y. y < s) before
    → 0 < s
    → (accept (run empty before) s).1 ≡ true
unfolding remember
newest_accepted before s all pos =
    answer-accept _ s (run-IsValid empty before empty-IsValid)
    ∙ ground (
      arith,
      lower_bound_above s (contents (run empty before)) below,
      contains_above s s (contents (run empty before)) below,
    )
  where
    below : AllBelow s (contents (run empty before))
    below = run-All s empty before empty-IsValid all tt

-- A generated number is above the last one and fits 64 bits, until they are used up.
pub next_increases :
    (last nanoseconds : ℕ)
    → last < 2 ^ 64 - 1
    → (last < next last nanoseconds) × (next last nanoseconds < 2 ^ 64)
unfolding next
next_increases last nanoseconds h = ground arith
