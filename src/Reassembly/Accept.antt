-- ===== src/Reassembly/Accept.antt =====
-- `Reassembler::accept`, in the steps of the source. The result is the new pool with the packet that
-- is complete, if one is.
use tuntom.Base.{
  Bool, List, Option, [], false, if◌then◌else◌, leb, length, ltb, max, none, not, replicate, some,
  suc, zero, ℕ, ◌&&◌, ◌++◌, ◌+◌, ◌-◌, ◌==◌, ◌||◌, ◌∷◌,
}
use tuntom.Packet.{
  PacketType, Packet, is_ipc, max_fragments_per_packet, max_ipc_fragments_per_packet,
}
use tuntom.Reassembly.{
  Reassembler, is_discarded, remember_discarded, erase_entry, discard, cleanup_expired,
}
use tuntom.Reassembly.Entries.{Entry, Range, find, update, remove}

abbrev pub Answer : Type 0
Answer = Reassembler × Option (List ℕ)

abbrev pub count_invalid : Reassembler → Reassembler
count_invalid r = record r {
  metrics = record r.metrics { invalid_fragments = r.metrics.invalid_fragments + 1 };
}

abbrev pub count_late : Reassembler → Reassembler
count_late r = record r {
  metrics = record r.metrics { late_fragment_drops = r.metrics.late_fragment_drops + 1 };
}

abbrev pub count_overlap : Reassembler → Reassembler
count_overlap r = record r {
  metrics = record r.metrics { overlap_drops = r.metrics.overlap_drops + 1 };
}

abbrev pub count_capacity_drop : Reassembler → Reassembler
count_capacity_drop r = record r {
  metrics = record r.metrics { capacity_drops = r.metrics.capacity_drops + 1 };
}

abbrev pub count_eviction : Reassembler → Reassembler
count_eviction r = record r {
  metrics = record r.metrics { capacity_evictions = r.metrics.capacity_evictions + 1 };
}

abbrev pub count_completed : Reassembler → Reassembler
count_completed r = record r {
  metrics = record r.metrics { completed_packets = r.metrics.completed_packets + 1 };
}

-- The test of the eviction loop.
unfoldable pub is_full : Reassembler → ℕ → Bool
is_full r original =
    leb r.limits.entries (length r.entries) || ltb (r.limits.bytes - r.total_bytes) original

-- The eviction loop; the fuel is one more than the length of the arrival order.
unfoldable pub evict : ℕ → Reassembler → ℕ → ℕ → Reassembler
unfolding is_full
evict zero r original now = r
evict (suc fuel) r original now = elim r.arrival_order [
  | [] ↦ r
  | id ∷ _ ↦ elim (find id r.entries) [
    | none ↦ r
    | some e ↦
        let rest = evict fuel (count_eviction (discard r id e now)) original now in
        if is_full r original then rest else r
  ]
]

-- An entry in which nothing is stored; `resize` fills the buffer with zeros.
abbrev pub new_entry : ℕ → ℕ → Entry
new_entry original now = record {
  original_length = original;
  buffer = replicate original 0;
  ranges = [];
  received_bytes = 0;
  first_seen = now;
  last_update = now;
}

-- An entry for a message that opens, in the map and at the end of both orders.
unfoldable pub open_entry : Reassembler → ℕ → ℕ → ℕ → Reassembler
open_entry r id original now = record r {
  arrival_order = r.arrival_order ++ (id ∷ []);
  activity_order = r.activity_order ++ (id ∷ []);
  entries = r.entries ++ ((id, new_entry original now) ∷ []);
  total_bytes = r.total_bytes + original;
  metrics = record r.metrics {
    active_entries = r.metrics.active_entries + 1;
    active_bytes = r.metrics.active_bytes + original;
    peak_entries = max r.metrics.peak_entries (r.metrics.active_entries + 1);
    peak_bytes = max r.metrics.peak_bytes (r.metrics.active_bytes + original);
  };
}

unfoldable pub overlaps : ℕ → ℕ → List Range → Bool
overlaps begin end [] = false
overlaps begin end (r ∷ rs) = (ltb begin r.end && ltb r.begin end) || overlaps begin end rs

-- `memcpy(buffer + at, bytes)`
unfoldable pub copy_at : ℕ → List ℕ → List ℕ → List ℕ
copy_at zero [] buffer = buffer
copy_at zero (x ∷ xs) [] = []
copy_at zero (x ∷ xs) (b ∷ buffer) = x ∷ copy_at zero xs buffer
copy_at (suc at) xs [] = []
copy_at (suc at) xs (b ∷ buffer) = b ∷ copy_at at xs buffer

-- The entry with a fragment stored.
unfoldable pub store : Entry → ℕ → ℕ → List ℕ → ℕ → Entry
unfolding copy_at
store e begin end payload now = record e {
  ranges = e.ranges ++ (record { begin = begin; end = end } ∷ []);
  buffer = copy_at begin payload e.buffer;
  received_bytes = e.received_bytes + length payload;
  last_update = now;
}

-- The pool with the entry of `id` replaced and moved to the end of the activity order.
unfoldable pub touch : Reassembler → ℕ → Entry → Reassembler
touch r id e = record r {
  entries = update id e r.entries;
  activity_order = remove id r.activity_order ++ (id ∷ []);
}

abbrev pub fragment_limit : PacketType → ℕ
fragment_limit type = if is_ipc type then max_ipc_fragments_per_packet else max_fragments_per_packet

-- The fragment meets the entry `e` of its message.
unfoldable pub add_fragment : Reassembler → Packet → Entry → ℕ → Answer
unfolding store touch
add_fragment r p e now =
    let end = p.fragment_offset + length p.payload in
    if not (e.original_length == p.original_length) || leb (fragment_limit p.type) (length e.ranges)
    then (discard (count_invalid r) p.message_id e now, none)
    else if overlaps p.fragment_offset end e.ranges
    then (count_overlap r, none)
    else (let e' = store e p.fragment_offset end p.payload now in
        let r' = touch r p.message_id e' in
        if not (e'.received_bytes == e'.original_length)
        then (r', none)
        else (count_completed (erase_entry r' p.message_id e'), some e'.buffer))

-- No entry is known: room is made and one is opened.
unfoldable pub open_message : Reassembler → Packet → ℕ → Answer
unfolding evict open_entry add_fragment
open_message r p now =
    if ltb r.limits.bytes p.original_length
    then (remember_discarded (count_capacity_drop r) p.message_id now, none)
    else (let r' =
          open_entry (evict (suc (length r.arrival_order)) r p.original_length now) p.message_id
            p.original_length now in
        elim (find p.message_id r'.entries) [
          | none ↦ (r', none)
          | some e ↦ add_fragment r' p e now
        ])

-- The tests before anything is stored.
unfoldable pub is_invalid : Reassembler → Packet → Bool
is_invalid r p =
    p.message_id == 0
    || p.original_length == 0
    || ltb r.maximum_packet_size p.original_length
    || length p.payload == 0
    || ltb p.original_length (p.fragment_offset + length p.payload)

abbrev pub is_whole : Packet → Bool
is_whole p = p.fragment_offset == 0 && p.fragment_offset + length p.payload == p.original_length

unfoldable pub accept_fragment : Reassembler → Packet → ℕ → Answer
unfolding open_message add_fragment
accept_fragment r p now =
    if is_discarded p.message_id r.discarded_order
    then (count_late r, none)
    else elim (find p.message_id r.entries) [
      | none ↦ open_message r p now
      | some e ↦ add_fragment r p e now
    ]

unfoldable pub accept : Reassembler → Packet → ℕ → Answer
unfolding is_invalid accept_fragment
accept r p now =
    if is_invalid r p
    then (count_invalid r, none)
    else if is_whole p
    then (r, some p.payload)
    else accept_fragment (cleanup_expired r now) p now
