-- ===== src/Reassembly/Tests.antt =====
-- A message in two fragments, and the theorems at it.
use tuntom.Base.{
  All, List, [], arith, false, get_or, length, refl, some, suc, zero, ℕ, ◌+◌, ◌<◌, ◌∷◌, ◌≡◌,
}
use tuntom.Packet.{user_data, Packet}
use tuntom.Reassembly.{Reassembler, Limits, create, cleanup_expired}
use tuntom.Reassembly.Entries.{update}
use tuntom.Reassembly.Metrics.{no_metrics}
use tuntom.Reassembly.Accept.{accept, evict, is_full, overlaps}
use tuntom.Reassembly.Delivery.{deliveries, delivered_lem}
use tuntom.Reassembly.Invariant.{IsValid}
use tuntom.Reassembly.Eviction.{evict_room}
use tuntom.Reassembly.Bounds.{run, run-create-IsValid}

abbrev fragment : ℕ → List ℕ → Packet
fragment offset payload = record {
  type = user_data;
  tunnel_id = 0;
  protocol_version = 5;
  sequence = 1;
  message_id = 7;
  fragment_offset = offset;
  original_length = 3;
  payload = payload;
}

abbrev limits : Limits
limits = record { entries = 2; bytes = 100; discarded_ids = 2 }

abbrev pool : Reassembler
pool = record {
  maximum_packet_size = 50;
  limits = limits;
  metrics = no_metrics;
  entries = [];
  arrival_order = [];
  activity_order = [];
  total_bytes = 0;
  discarded_order = [];
}

create_runs : create 50 limits ≡ some pool
unfolding create
create_runs = refl

-- The later part comes first.
abbrev arrivals : List (Packet × ℕ)
arrivals = (fragment 2 (30 ∷ []), 5) ∷ (fragment 0 (10 ∷ 20 ∷ []), 6) ∷ []

abbrev sent : ℕ → List ℕ
sent id = 10 ∷ 20 ∷ 30 ∷ []

part_of : (i : ℕ) → i < 1 → get_or (30 ∷ []) i 0 ≡ get_or (sent 7) (2 + i) 0
part_of zero h = refl
part_of (suc i) h = absurd (omega arith)

first_part : (i : ℕ) → i < 2 → get_or (10 ∷ 20 ∷ []) i 0 ≡ get_or (sent 7) (0 + i) 0
first_part zero h = refl
first_part (suc zero) h = refl
first_part (suc (suc i)) h = absurd (omega arith)

deliveries_run : deliveries pool arrivals ≡ (7, 10 ∷ 20 ∷ 30 ∷ []) ∷ []
unfolding deliveries accept cleanup_expired overlaps update
deliveries_run = refl

delivered_lem_example : All (λ (d : ℕ × List ℕ). d.1 ≡ sent d.0) (deliveries pool arrivals)
delivered_lem_example = delivered_lem sent 50 limits pool arrivals create_runs (
  record { length_sent = refl; part = part_of },
  (record { length_sent = refl; part = first_part }, tt),
)

run-create-IsValid_example : IsValid (run pool arrivals)
run-create-IsValid_example = run-create-IsValid 50 limits pool arrivals create_runs

-- The later part alone waits in a pool.
abbrev waiting : Reassembler
waiting = run pool ((fragment 2 (30 ∷ []), 5) ∷ [])

waiting_runs : (length waiting.arrival_order ≡ 1) × (waiting.limits.bytes ≡ 100)
unfolding run accept cleanup_expired overlaps update
waiting_runs = (refl, refl)

evict_room_example : is_full (evict 2 waiting 99 6) 99 ≡ false
evict_room_example =
    evict_room 2 waiting 99 6 (run-create-IsValid 50 limits pool _ create_runs)
      (omega (arith, waiting_runs)) (omega (arith, waiting_runs))
