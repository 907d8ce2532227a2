-- ===== src/UdpTxQueue.antt =====
-- src/udp_tx_queue.hpp: the ring of datagrams that the socket did not take. Times are the nanoseconds
-- of the clock; `now - created >= max_age` is written without the subtraction.
pub mod Ring
pub mod Fifo
mod Tests
use tuntom.Base.{
  Bool, List, Option, [], count, false, get_or, if◌then◌else◌, leb, length, ltb, max, none, not,
  replicate, set, some, suc, true, zero, ℕ, ◌%◌, ◌&&◌, ◌*◌, ◌+◌, ◌-◌, ◌==◌, ◌||◌, ◌∷◌,
}

abbrev pub capacity : ℕ
capacity = 64

abbrev pub byte_limit : ℕ
byte_limit = 256 * 1024

abbrev pub max_age : ℕ
max_age = 100 * 1000000

abbrev pub retry_delay : ℕ
retry_delay = 1000000

pub record Entry : Type 0 where
  pub wire : List ℕ
  pub created : ℕ

abbrev pub no_entry : Entry
no_entry = record { wire = []; created = 0 }

pub record UdpTxQueue : Type 0 where
  pub entries : List Entry
  pub head : ℕ
  pub size : ℕ
  pub bytes : ℕ
  pub high_water : ℕ
  pub retry_at : ℕ
  pub enqueued : ℕ
  pub sent : ℕ
  pub eagain : ℕ
  pub capacity_drops : ℕ
  pub expired : ℕ
  pub discarded : ℕ
  pub error_drops : ℕ

abbrev pub empty_queue : UdpTxQueue
empty_queue = record {
  entries = replicate capacity no_entry;
  head = 0;
  size = 0;
  bytes = 0;
  high_water = 0;
  retry_at = 0;
  enqueued = 0;
  sent = 0;
  eagain = 0;
  capacity_drops = 0;
  expired = 0;
  discarded = 0;
  error_drops = 0;
}

unfoldable pub fits : UdpTxQueue → ℕ → ℕ → Bool
fits q count bytes = leb count (capacity - q.size) && leb bytes (byte_limit - q.bytes)

unfoldable pub writable_interest : UdpTxQueue → ℕ → Bool
writable_interest q now = not (q.size == 0) && leb q.retry_at now

unfoldable pub pop : UdpTxQueue → UdpTxQueue
pop q =
    let e = get_or q.entries q.head no_entry in
    record q {
      bytes = q.bytes - length e.wire;
      entries = set q.entries q.head (record e { wire = [] });
      head = (q.head + 1) % capacity;
      size = q.size - 1;
      retry_at = if q.size - 1 == 0 then 0 else q.retry_at;
    }

unfoldable pub is_expired : ℕ → Entry → Bool
is_expired now e = leb (e.created + max_age) now

-- The `while` loop of `expire`: as many rounds as there are entries.
unfoldable pub expire_entries : ℕ → UdpTxQueue → ℕ → UdpTxQueue
expire_entries zero q now = q
expire_entries (suc rounds) q now =
    let rest = expire_entries rounds (record (pop q) { expired = q.expired + 1 }) now in
    if not (q.size == 0) && is_expired now (get_or q.entries q.head no_entry) then rest else q

unfoldable pub expire : UdpTxQueue → ℕ → UdpTxQueue
expire q now = expire_entries q.size q now

unfoldable pub pop_all : ℕ → UdpTxQueue → UdpTxQueue
pop_all zero q = q
pop_all (suc rounds) q = let rest = pop_all rounds (pop q) in if q.size == 0 then q else rest

unfoldable pub discard : UdpTxQueue → UdpTxQueue
discard q = pop_all q.size (record q { discarded = q.discarded + q.size })

unfoldable pub blocked : UdpTxQueue → ℕ → UdpTxQueue
blocked q now = record q { eagain = q.eagain + 1; retry_at = now + retry_delay }

-- The first loop of `append`: the bytes of the packets, `none` where they are too many.
unfoldable pub count_bytes : List (List ℕ) → ℕ → Option ℕ
count_bytes [] bytes = some bytes
count_bytes (p ∷ rest) bytes =
    if ltb 65535 (length p) || ltb (byte_limit - bytes) (length p)
    then none
    else count_bytes rest (bytes + length p)

-- The second loop: the packets from the i-th on, into the slots after the used ones.
unfoldable pub write_entries : ℕ → List (List ℕ) → ℕ → List Entry → List Entry
write_entries at [] now entries = entries
write_entries at (p ∷ rest) now entries =
    write_entries (at + 1) rest now
      (set entries (at % capacity) (record { wire = p; created = now }))

unfoldable pub drop_packets : UdpTxQueue → ℕ → UdpTxQueue
drop_packets q count = record q { capacity_drops = q.capacity_drops + count }

unfoldable pub admit : UdpTxQueue → List (List ℕ) → ℕ → ℕ → UdpTxQueue
admit q packets bytes now =
    let count = length packets in
    record q {
      entries = write_entries (q.head + q.size) packets now q.entries;
      size = q.size + count;
      bytes = q.bytes + bytes;
      enqueued = q.enqueued + count;
      high_water = max q.high_water (q.size + count);
    }

unfoldable pub append_live : UdpTxQueue → List (List ℕ) → ℕ → Bool × UdpTxQueue
append_live q packets now = elim (count_bytes packets 0) [
  | none ↦ (false, drop_packets q (length packets))
  | some bytes ↦
      if ltb (capacity - q.size) (length packets) || ltb (byte_limit - q.bytes) bytes
      then (false, drop_packets q (length packets))
      else (true, admit q packets bytes now)
]

unfoldable pub append : UdpTxQueue → List (List ℕ) → ℕ → Bool × UdpTxQueue
append q packets now = append_live (expire q now) packets now

-- What the socket answers: the bytes it took, or the kind of its error.
pub data Answer : Type 0 where
  took : ℕ → Answer
  would_block interrupted : Answer
  failed : ℕ → Answer

pub record BatchResult : Type 0 where
  pub packets : ℕ
  pub bytes : ℕ
  pub error : ℕ

-- `EIO`
abbrev pub input_output_error : ℕ
input_output_error = 5

unfoldable pub drop_failed : UdpTxQueue → UdpTxQueue
drop_failed q = record (pop q) { error_drops = q.error_drops + 1 }

-- The rounds left and the answers still to come, one for each `send`.
unfoldable pub flush_entries :
    ℕ → UdpTxQueue → ℕ → (ℕ → List ℕ → Answer) → BatchResult → BatchResult × UdpTxQueue
flush_entries zero q now send result = (result, q)
flush_entries (suc rounds) q now send result =
    let wire = (get_or q.entries q.head no_entry).wire in
    let rest =
      flush_entries rounds (record (pop q) { sent = q.sent + 1 }) now send
        (record result { packets = result.packets + 1; bytes = result.bytes + length wire }) in
    if q.size == 0 then (result, q) else elim (send rounds wire) [
      | would_block ↦ (result, blocked q now)
      | interrupted ↦ (result, record q { retry_at = now + retry_delay })
      | failed error ↦ (record result { error = error }, drop_failed q)
      | took n ↦
          if n == length wire
          then rest
          else (record result { error = input_output_error }, drop_failed q)
    ]

unfoldable pub flush : UdpTxQueue → ℕ → (ℕ → List ℕ → Answer) → BatchResult × UdpTxQueue
flush q now send =
    let live = expire q now in
    let nothing : BatchResult = record { packets = 0; bytes = 0; error = 0 } in
    if not (writable_interest live now)
    then (nothing, live)
    else flush_entries capacity live now send nothing

unfoldable pub reject : UdpTxQueue → ℕ → UdpTxQueue
reject q count = record q { capacity_drops = q.capacity_drops + count }

unfoldable pub is_empty : UdpTxQueue → Bool
is_empty q = q.size == 0
