-- ===== src/StackMatch.antt =====
-- src/switch_stack_match.hpp: which label stacks a switch rule accepts. `bit_and` is `&` of 64-bit
-- numbers.
pub mod Positions
mod Tests
use tuntom.Base.{
  Bool, List, [], false, get_or, if◌then◌else◌, leb, length, ltb, not, true, ℕ, ◌&&◌, ◌+◌, ◌==◌,
  ◌||◌, ◌∷◌,
}
use Prim.Native.Nat.{bit_and}

-- `kind` with the numbers that it uses.
pub data RuleElement : Type 0 where
  any : RuleElement
  exact : ℕ → RuleElement
  range : ℕ → ℕ → RuleElement
  bits : ℕ → RuleElement

unfoldable pub label_matches : RuleElement → ℕ → Bool
label_matches any label = true
label_matches (exact value) label = label == value
label_matches (range value upper) label = leb value label && leb label upper
label_matches (bits value) label = not (bit_and label value == 0)

pub record RuleStackMatch : Type 0 where
  pub items : List RuleElement
  pub rest : Bool

unfoldable pub unrestricted : RuleStackMatch → Bool
unrestricted m = elim m.items [
  | [] ↦ false
  | i ∷ is ↦
      m.rest
      && length is == 0
      && (elim i [ any ↦ true | exact v ↦ false | range v u ↦ false | bits v ↦ false ])
]

-- The loop over the items, the label at each index from `at` on.
unfoldable pub all_match : List RuleElement → List ℕ → ℕ → Bool
all_match [] labels at = true
all_match (i ∷ is) labels at =
    let later = all_match is labels (at + 1) in
    if not (label_matches i (get_or labels at 0)) then false else later

unfoldable pub stack_matches : RuleStackMatch → List ℕ → Bool
stack_matches m labels =
    if ltb (length labels) (length m.items) || (not m.rest && not (length labels == length m.items))
    then false
    else all_match m.items labels 0
