-- ===== src/Reassembly.antt =====
-- src/reassembly.hpp: the pool of partly received messages of one session.
-- Times are nanoseconds of the monotonic clock. The hash map of entries is a list of pairs with
-- distinct keys. The list iterators that an entry keeps stand for its identifier in the two order
-- lists, and `discarded_` indexes the list of discarded identifiers, so a lookup there searches the
-- list. Statistics for spans (`ProcessingStats`) and failed allocations are left out; the metrics
-- have one owner. Gauges and byte counts are subtracted as on ℕ: `Reassembly.Invariant` shows that
-- what is subtracted is there.
pub mod Entries
pub mod Metrics
pub mod Accept
pub mod Store
pub mod Message
pub mod Keys
pub mod Invariant
pub mod Eviction
pub mod Bounds
pub mod Pool
pub mod Delivery
mod Tests
use tuntom.Base.{
  Bool, List, Option, [], false, if◌then◌else◌, leb, length, ltb, none, some, suc, zero, ℕ, ◌++◌,
  ◌+◌, ◌-◌, ◌==◌, ◌||◌, ◌∷◌,
}
use tuntom.Packet.{
  PacketType, Packet, is_ipc, max_fragments_per_packet, max_ipc_fragments_per_packet,
}
use Entries.{Entry, Range, find, erase, update, remove}
use Metrics.{ReassemblyMetrics, no_metrics}

abbrev pub timeout : ℕ
timeout = 3_000_000_000

pub record Limits : Type 0 where
  pub entries : ℕ
  pub bytes : ℕ
  pub discarded_ids : ℕ

pub record Discarded : Type 0 where
  pub id : ℕ
  pub expires : ℕ

pub record Reassembler : Type 0 where
  pub maximum_packet_size : ℕ
  pub limits : Limits
  pub metrics : ReassemblyMetrics
  pub entries : List (ℕ × Entry)
  pub arrival_order : List ℕ
  pub activity_order : List ℕ
  pub total_bytes : ℕ
  pub discarded_order : List Discarded

-- The constructor; it throws on a limit of zero.
pub create : ℕ → Limits → Option Reassembler
create maximum limits =
    if limits.entries == 0 || limits.bytes == 0 || limits.discarded_ids == 0
    then none
    else some (record {
      maximum_packet_size = maximum;
      limits = limits;
      metrics = no_metrics;
      entries = [];
      arrival_order = [];
      activity_order = [];
      total_bytes = 0;
      discarded_order = [];
    })

pub is_discarded : ℕ → List Discarded → Bool
is_discarded id [] = false
is_discarded id (d ∷ ds) = id == d.id || is_discarded id ds

pub forget_oldest_discarded : Reassembler → Reassembler
forget_oldest_discarded r = elim r.discarded_order [
  | [] ↦ r
  | d ∷ ds ↦ record r {
    discarded_order = ds;
    metrics = record r.metrics { discarded_ids = r.metrics.discarded_ids - 1 };
  }
]

-- Room for one more: the oldest record goes when the list is full.
pub make_room : Reassembler → Reassembler
unfolding forget_oldest_discarded
make_room r =
    if leb r.limits.discarded_ids (length r.discarded_order)
    then (let r' = forget_oldest_discarded r in
        record r' {
          metrics = record r'.metrics {
            discarded_id_evictions = r'.metrics.discarded_id_evictions + 1;
          };
        })
    else r

pub append_discarded : Reassembler → Discarded → Reassembler
append_discarded r d = record r {
  discarded_order = r.discarded_order ++ (d ∷ []);
  metrics = record r.metrics { discarded_ids = r.metrics.discarded_ids + 1 };
}

pub remember_discarded : Reassembler → ℕ → ℕ → Reassembler
unfolding is_discarded make_room append_discarded
remember_discarded r id now =
    if is_discarded id r.discarded_order
    then r
    else append_discarded (make_room r) (record { id = id; expires = now + timeout })

-- `erase` of the entry `e` found under `id`.
pub erase_entry : Reassembler → ℕ → Entry → Reassembler
unfolding erase remove
erase_entry r id e = record r {
  arrival_order = remove id r.arrival_order;
  activity_order = remove id r.activity_order;
  total_bytes = r.total_bytes - e.original_length;
  metrics = record r.metrics {
    active_entries = r.metrics.active_entries - 1;
    active_bytes = r.metrics.active_bytes - e.original_length;
  };
  entries = erase id r.entries;
}

pub discard : Reassembler → ℕ → Entry → ℕ → Reassembler
unfolding remember_discarded erase_entry
discard r id e now = erase_entry (remember_discarded r id now) id e

-- `while (!discarded_order_.empty() && now >= front.expires)`; the fuel is the length of the list.
pub expire_discarded : ℕ → Reassembler → ℕ → Reassembler
unfolding forget_oldest_discarded
expire_discarded zero r now = r
expire_discarded (suc fuel) r now =
    let rest = expire_discarded fuel (forget_oldest_discarded r) now in
    elim r.discarded_order [ [] ↦ r | d ∷ ds ↦ if leb d.expires now then rest else r ]

pub count_expired : Reassembler → Reassembler
count_expired r = record r {
  metrics = record r.metrics { expired_entries = r.metrics.expired_entries + 1 };
}

-- `while (!activity_order_.empty())`; the fuel is the length of the list.
pub expire_entries : ℕ → Reassembler → ℕ → Reassembler
unfolding find discard count_expired
expire_entries zero r now = r
expire_entries (suc fuel) r now = elim r.activity_order [
  | [] ↦ r
  | id ∷ _ ↦ elim (find id r.entries) [
    | none ↦ r
    | some e ↦
        let rest = expire_entries fuel (count_expired (discard r id e now)) now in
        if ltb (now - e.last_update) timeout then r else rest
  ]
]

pub cleanup_expired : Reassembler → ℕ → Reassembler
unfolding expire_discarded expire_entries
cleanup_expired r now =
    let r' = expire_discarded (length r.discarded_order) r now in
    expire_entries (length r'.activity_order) r' now

-- The destructor, on the metrics that outlive the pool.
pub release : Reassembler → ReassemblyMetrics
release r = record r.metrics {
  active_entries = r.metrics.active_entries - length r.entries;
  active_bytes = r.metrics.active_bytes - r.total_bytes;
  discarded_ids = r.metrics.discarded_ids - length r.discarded_order;
  session_discarded_entries = r.metrics.session_discarded_entries + length r.entries;
}
