-- ===== src/Fragmentation/Plan.antt =====
-- src/fragmentation.hpp: the number and the sizes of the fragments of a plan.
use tuntom.Base.{arith, dec_lt, min, ok, suc, zero, ℕ, ◌%◌, ◌*◌, ◌+◌, ◌-◌, ◌/◌, ◌<◌, ◌^◌, ◌≡◌, ◌≤◌}
use native.Mathlib.Nat.{
  lt-div-mul-add, div-mul-le_self, div-add-mod, mul-le-mul_left, le-div_iff_mul-le, mod-lt,
  div-le_of_le-mul,
}
use tuntom.Fragmentation.{FragmentPlan, make_fragment_plan, fragment_size}

-- The bytes of `rounds` fragments from an index on.
unfoldable pub sum_sizes : FragmentPlan → ℕ → ℕ → ℕ
sum_sizes plan zero index = 0
sum_sizes plan (suc rounds) index = fragment_size plan index + sum_sizes plan rounds (index + 1)

sum_sizes_lem :
    (plan : FragmentPlan) (rounds index : ℕ)
    → sum_sizes plan rounds index + min index plan.larger_fragments
      ≡ rounds * plan.base_size + min (rounds + index) plan.larger_fragments
unfolding sum_sizes fragment_size
sum_sizes_lem plan zero index = omega arith
sum_sizes_lem plan (suc rounds) index = ground (arith, sum_sizes_lem plan rounds (index + 1))

-- A split into the least number of fragments, whose sizes differ by at most one byte.
pub record IsPlan (packet_size maximum limit : ℕ) (plan : FragmentPlan) : Type 0 where
  pub within : plan.count ≤ limit
  pub some_fragment : 0 < plan.count
  pub enough : packet_size ≤ plan.count * maximum
  pub least : (plan.count - 1) * maximum < packet_size
  pub sizes :
      (index : ℕ)
      → index < plan.count
      → (0 < fragment_size plan index) × (fragment_size plan index ≤ maximum)
  pub even :
      (i j : ℕ) → i < plan.count → j < plan.count → fragment_size plan i ≤ fragment_size plan j + 1
  pub total : sum_sizes plan plan.count 0 ≡ packet_size

ceil_lem :
    (size maximum parts : ℕ)
    → 0 < size
    → 0 < maximum
    → parts ≡ (size + maximum - 1) / maximum
    → (0 < parts) × (size ≤ parts * maximum) × ((parts - 1) * maximum < size)
ceil_lem size maximum zero h k e =
    absurd (grind (arith, lt-div-mul-add {a = size + maximum - 1} {b = maximum} k, e))
ceil_lem size maximum (suc n) h k e = (
  omega arith,
  grind (arith, lt-div-mul-add {a = size + maximum - 1} {b = maximum} k, e),
  grind (arith, div-mul-le_self (size + maximum - 1) maximum, e),
)

fair_lem :
    (size maximum parts : ℕ)
    → 0 < parts
    → size ≤ parts * maximum
    → 0 < size % parts
    → size / parts < maximum
fair_lem size maximum parts h k r = elim (dec_lt (size / parts) maximum) [
  | yes l ↦ l
  | no n ↦ absurd (
      grind (
        arith,
        div-add-mod size parts,
        mul-le-mul_left {m = maximum} {n = size / parts} parts (omega arith),
      ))
]

base_lem : (size parts : ℕ) → 0 < parts → parts ≤ size → 0 < size / parts
base_lem size parts h k = (le-div_iff_mul-le {k = parts} {x = 1} {y = size} h).1 (omega arith)

least_le : (size maximum parts : ℕ) → 0 < maximum → (parts - 1) * maximum < size → parts ≤ size
least_le size maximum parts h k = grind (arith, mul-le-mul_left {m = 1} {n = maximum} (parts - 1) h)

fields :
    (size maximum limit : ℕ) (plan : FragmentPlan)
    → size + maximum ≤ 2 ^ 64
    → make_fragment_plan size maximum limit ≡ ok plan
    → (0 < size)
      × (0 < maximum)
      × (plan.count ≡ (size + maximum - 1) / maximum)
      × (plan.count ≤ limit)
      × (plan.base_size ≡ size / plan.count)
      × (plan.larger_fragments ≡ size % plan.count)
unfolding make_fragment_plan
fields size maximum limit plan h e =
    (ground arith, ground arith, ground arith, ground arith, ground arith, ground arith)

-- The plan of a packet is a split into the least number of fragments of at most the given size, within
-- the limit, none empty, whose sizes differ by at most one byte and add up to the packet, where packet
-- and fragment size together do not pass 2^64.
pub make_fragment_plan-IsPlan :
    (size maximum limit : ℕ) (plan : FragmentPlan)
    → size + maximum ≤ 2 ^ 64
    → make_fragment_plan size maximum limit ≡ ok plan
    → IsPlan size maximum limit plan
make_fragment_plan-IsPlan size maximum limit plan h e =
    let (positive, room, number, within, base, larger) = fields size maximum limit plan h e in
    let (some_fragment, enough, least) = ceil_lem size maximum plan.count positive room number in
    record {
      within = within;
      some_fragment = some_fragment;
      enough = enough;
      least = least;
      sizes = λ index k.
          unfold fragment_size in
          (
            omega (
              arith,
              base,
              base_lem size plan.count some_fragment (least_le size maximum plan.count room least),
            ),
            elim (dec_lt 0 (size % plan.count)) [
              | yes extra ↦
                  ground (arith, base, fair_lem size maximum plan.count some_fragment enough extra)
              | no even ↦ ground (arith, base, larger, div-le_of_le-mul plan.count enough)
            ],
          );
      even = λ i j k l. unfold fragment_size in ground arith;
      total = grind (
        arith,
        sum_sizes_lem plan plan.count 0,
        div-add-mod size plan.count,
        mod-lt size some_fragment,
        base,
        larger,
      );
    }
