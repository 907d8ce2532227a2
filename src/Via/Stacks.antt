-- ===== src/Via/Stacks.antt =====
-- Pushing within the bound, and the part of a stack in front of an envelope.
use tuntom.Base.{
  All, List, [], ap, append-nil, append_assoc, arith, false, length, length-append, suc, sym, ℕ,
  ◌++◌, ◌+◌, ◌<◌, ◌∙◌, ◌∷◌, ◌≡◌, ◌≤◌,
}
use tuntom.SwitchProtocol.{max_labels}
use tuntom.Via.{push, push_all, Envelope, is_header, split_loop}

-- No label of the list begins an envelope.
abbrev pub Plain : List ℕ → Type 0
Plain = All (λ v. is_header v ≡ false)

pub push_all_fits : (s vs : List ℕ) → length s + length vs ≤ max_labels → push_all s vs ≡ s ++ vs
unfolding push_all push
push_all_fits s [] h = sym (append-nil s)
push_all_fits s (v ∷ vs) h =
    ap (λ l. push_all l vs) (pushed s v (omega (arith, h)))
    ∙ push_all_fits (s ++ (v ∷ [])) vs (omega (arith, h, length-append s (v ∷ [])))
    ∙ append_assoc s (v ∷ []) vs
  where
    pushed : (s : List ℕ) (v : ℕ) → length s < max_labels → push s v ≡ s ++ (v ∷ [])
    pushed s v lt = ground (arith, lt)

-- The loop passes over labels that begin no envelope, into the base.
pub split_loop-Plain :
    (base tail : List ℕ) (fuel : ℕ) (result : Envelope)
    → Plain base
    → split_loop (length base + fuel) (base ++ tail) result
      ≡ split_loop fuel tail (record result { base = push_all result.base base })
unfolding split_loop push_all
split_loop-Plain [] tail fuel result h =
    ap (λ n. split_loop n tail result) {x = 0 + fuel} {y = fuel} (omega arith)
split_loop-Plain (v ∷ base) tail fuel result (p, h) =
    ap (λ n. split_loop n (v ∷ (base ++ tail)) result) {x = suc (length base) + fuel}
      {y = suc (length base + fuel)} (omega arith)
    ∙ rw p (split_loop-Plain base tail fuel (record result { base = push result.base v }) h)
