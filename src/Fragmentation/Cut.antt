-- ===== src/Fragmentation/Cut.antt =====
-- Cutting loses nothing: the parts of a packet, one after another, are its payload, and each is a
-- fragment as the receiver expects it.
use tuntom.Base.{
  All, List, [], ap, drop, drop-drop, get_or, get_or-drop, get_or-take, length, ok, refl, suc, sym,
  take, take_add, take_all, zero, ℕ, ◌++◌, ◌+◌, ◌^◌, ◌∙◌, ◌∷◌, ◌≡◌, ◌≤◌,
}
use tuntom.Packet.{Packet}
use tuntom.Fragmentation.{FragmentPlan, fragment_size, cut, fragments, make_fragment_plan}
use tuntom.Fragmentation.Plan.{sum_sizes, make_fragment_plan-IsPlan}
use tuntom.Reassembly.Delivery.{IsFragment}

unfoldable pub joined : List Packet → List ℕ
joined [] = []
joined (p ∷ rest) = p.payload ++ joined rest

joined-cut :
    (plan : FragmentPlan) (logical : Packet) (id rounds index offset : ℕ)
    → joined (cut plan logical id rounds index offset)
      ≡ take (sum_sizes plan rounds index) (drop offset logical.payload)
unfolding joined cut sum_sizes
joined-cut plan logical id zero index offset = refl
joined-cut plan logical id (suc rounds) index offset =
    ap (λ l. take (fragment_size plan index) (drop offset logical.payload) ++ l)
      (joined-cut plan logical id rounds (index + 1) (offset + fragment_size plan index)
        ∙ ap (take (sum_sizes plan rounds (index + 1)))
            (sym (drop-drop offset (fragment_size plan index) logical.payload)))
    ∙ sym (
        take_add (fragment_size plan index) (sum_sizes plan rounds (index + 1))
          (drop offset logical.payload))

-- A packet that is cut by its plan is its fragments' payloads, joined.
pub joined-fragments :
    (logical : Packet) (id maximum limit : ℕ) (plan : FragmentPlan)
    → length logical.payload + maximum ≤ 2 ^ 64
    → make_fragment_plan (length logical.payload) maximum limit ≡ ok plan
    → joined (fragments plan logical id) ≡ logical.payload
unfolding fragments
joined-fragments logical id maximum limit plan h e =
    joined-cut plan logical id plan.count 0 0
    ∙ ap (λ n. take n logical.payload) (make_fragment_plan-IsPlan _ maximum limit plan h e).total
    ∙ take_all logical.payload

cut-IsFragment :
    (plan : FragmentPlan) (logical : Packet) (id rounds index offset : ℕ) (messages : ℕ → List ℕ)
    → messages id ≡ logical.payload
    → All (λ (p : Packet). IsFragment messages p) (cut plan logical id rounds index offset)
unfolding cut
cut-IsFragment plan logical id zero index offset messages e = tt
cut-IsFragment plan logical id (suc rounds) index offset messages e = (
  record {
    length_sent = ap length (sym e);
    part = λ i h.
        get_or-take (fragment_size plan index) i 0 (drop offset logical.payload) h
        ∙ get_or-drop offset i 0 logical.payload
        ∙ ap (λ m. get_or m (offset + i) 0) (sym e);
  },
  cut-IsFragment plan logical id rounds (index + 1) (offset + fragment_size plan index) messages e,
)

-- Each part that a packet is cut into is a fragment of the packet's payload.
pub fragments-IsFragment :
    (plan : FragmentPlan) (logical : Packet) (id : ℕ) (messages : ℕ → List ℕ)
    → messages id ≡ logical.payload
    → All (λ (p : Packet). IsFragment messages p) (fragments plan logical id)
unfolding fragments
fragments-IsFragment plan logical id messages e =
    cut-IsFragment plan logical id plan.count 0 0 messages e
