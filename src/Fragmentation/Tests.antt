-- ===== src/Fragmentation/Tests.antt =====
-- A packet of three bytes in fragments of two at most, and the theorems at it.
use tuntom.Base.{All, [], arith, ok, refl, ◌∷◌, ◌≡◌}
use tuntom.Packet.{Packet, user_data}
use tuntom.Fragmentation.{FragmentPlan, fragments, make_fragment_plan}
use tuntom.Fragmentation.Plan.{IsPlan, make_fragment_plan-IsPlan}
use tuntom.Fragmentation.Cut.{joined, joined-fragments, fragments-IsFragment}
use tuntom.Reassembly.Delivery.{IsFragment}

abbrev packet : Packet
packet = record {
  type = user_data;
  tunnel_id = 0;
  protocol_version = 5;
  sequence = 0;
  message_id = 0;
  fragment_offset = 0;
  original_length = 3;
  payload = 10 ∷ 20 ∷ 30 ∷ [];
}

abbrev plan : FragmentPlan
plan = record { count = 2; base_size = 1; larger_fragments = 1 }

make_fragment_plan_runs : make_fragment_plan 3 2 64 ≡ ok plan
unfolding make_fragment_plan
make_fragment_plan_runs = refl

make_fragment_plan-IsPlan_example : IsPlan 3 2 64 plan
make_fragment_plan-IsPlan_example =
    make_fragment_plan-IsPlan 3 2 64 plan (omega arith) make_fragment_plan_runs

joined-fragments_example : joined (fragments plan packet 7) ≡ 10 ∷ 20 ∷ 30 ∷ []
joined-fragments_example = joined-fragments packet 7 2 64 plan (omega arith) make_fragment_plan_runs

fragments-IsFragment_example :
    All (λ (p : Packet). IsFragment (λ id. 10 ∷ 20 ∷ 30 ∷ []) p) (fragments plan packet 7)
fragments-IsFragment_example = fragments-IsFragment plan packet 7 (λ id. 10 ∷ 20 ∷ 30 ∷ []) refl
