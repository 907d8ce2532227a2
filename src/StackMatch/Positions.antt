-- ===== src/StackMatch/Positions.antt =====
-- A stack matches label by label.
use tuntom.Base.{
  Bool, List, [], ap, arith, false, get_or, if◌then◌else◌, not, refl, suc, true, ℕ, ◌&&◌, ◌+◌, ◌∙◌,
  ◌∷◌, ◌≡◌,
}
use tuntom.StackMatch.{RuleElement, label_matches, all_match, stack_matches}

-- The items against the labels from the top of the stack: each item has a label that it matches, and
-- labels may be left over only where the rule allows more.
unfoldable pub pairwise : List RuleElement → List ℕ → Bool → Bool
pairwise [] [] rest = true
pairwise [] (l ∷ ls) rest = rest
pairwise (i ∷ is) [] rest = false
pairwise (i ∷ is) (l ∷ ls) rest = label_matches i l && pairwise is ls rest

all_match-suc :
    (is : List RuleElement) (l : ℕ) (ls : List ℕ) (at : ℕ)
    → all_match is (l ∷ ls) (suc at) ≡ all_match is ls at
unfolding all_match
all_match-suc [] l ls at = refl
all_match-suc (i ∷ is) l ls at =
    ap (λ later. if not (label_matches i (get_or ls at 0)) then false else later)
      (ap (all_match is (l ∷ ls)) {x = suc at + 1} {y = suc (at + 1)} (omega arith)
        ∙ all_match-suc is l ls (at + 1))

-- A rule accepts a stack exactly when its items match the labels one by one from the top, with labels
-- left over only where the rule ends in a rest.
pub stack_matches-pairwise :
    (is : List RuleElement) (ls : List ℕ) (rest : Bool)
    → stack_matches (record { items = is; rest = rest }) ls ≡ pairwise is ls rest
unfolding stack_matches all_match pairwise
stack_matches-pairwise [] [] rest = ground arith
stack_matches-pairwise [] (l ∷ ls) rest = ground arith
stack_matches-pairwise (i ∷ is) [] rest = ground arith
stack_matches-pairwise (i ∷ is) (l ∷ ls) rest =
    ground (arith, stack_matches-pairwise is ls rest, all_match-suc is l ls 0)
