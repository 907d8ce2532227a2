-- ===== src/RetryQueue.antt =====
-- src/ipc/retry_queue.hpp: the ring of records that a local socket did not take. Times are the
-- nanoseconds of the clock; `now - created >= max_age` is written without the subtraction.
pub mod Ring
pub mod Limits
pub mod Traces
mod Tests
use tuntom.Base.{
  Bool, List, [], get_or, if◌then◌else◌, leb, length, ltb, max, not, replicate, set, suc, zero, ℕ,
  ◌%◌, ◌&&◌, ◌*◌, ◌++◌, ◌+◌, ◌-◌, ◌==◌, ◌||◌,
}

abbrev pub capacity : ℕ
capacity = 128

abbrev pub byte_limit : ℕ
byte_limit = 256 * 1024

abbrev pub record_limit : ℕ
record_limit = 128 * 1024

abbrev pub max_age : ℕ
max_age = 100 * 1000000

abbrev pub retry_delay : ℕ
retry_delay = 1000000

pub record Outcome : Type 0 where
  pub frames : ℕ
  pub bytes : ℕ
  pub drops : ℕ
  pub backpressure : ℕ
  pub error : ℕ

abbrev pub no_outcome : Outcome
no_outcome = record { frames = 0; bytes = 0; drops = 0; backpressure = 0; error = 0 }

unfoldable pub add : Outcome → Outcome → Outcome
add a o = record {
  frames = a.frames + o.frames;
  bytes = a.bytes + o.bytes;
  drops = a.drops + o.drops;
  backpressure = a.backpressure + o.backpressure;
  error = if o.error == 0 then a.error else o.error;
}

pub record Entry : Type 0 where
  pub wire : List ℕ
  pub created : ℕ

abbrev pub no_entry : Entry
no_entry = record { wire = []; created = 0 }

pub record RetryQueue : Type 0 where
  pub entries : List Entry
  pub head : ℕ
  pub size : ℕ
  pub bytes : ℕ
  pub high_water : ℕ
  pub retry_at : ℕ
  pub enqueued : ℕ
  pub sent : ℕ
  pub eagain : ℕ
  pub full : ℕ
  pub expired : ℕ
  pub discarded : ℕ
  pub errors : ℕ

abbrev pub empty_queue : RetryQueue
empty_queue = record {
  entries = replicate capacity no_entry;
  head = 0;
  size = 0;
  bytes = 0;
  high_water = 0;
  retry_at = 0;
  enqueued = 0;
  sent = 0;
  eagain = 0;
  full = 0;
  expired = 0;
  discarded = 0;
  errors = 0;
}

unfoldable pub writable : RetryQueue → ℕ → Bool
writable q now = not (q.size == 0) && leb q.retry_at now

abbrev pub front : RetryQueue → Entry
front q = get_or q.entries q.head no_entry

unfoldable pub pop : RetryQueue → RetryQueue
pop q = record q {
  bytes = q.bytes - length (front q).wire;
  entries = set q.entries q.head (record (front q) { wire = [] });
  head = (q.head + 1) % capacity;
  size = q.size - 1;
  retry_at = if q.size - 1 == 0 then 0 else q.retry_at;
}

abbrev pub count_drop : Outcome → Outcome
count_drop o = record o { drops = o.drops + 1; backpressure = o.backpressure + 1 }

-- The `while` loop of `expire`: as many rounds as there are entries.
unfoldable pub expire_entries : ℕ → RetryQueue → ℕ → Outcome → Outcome × RetryQueue
expire_entries zero q now out = (out, q)
expire_entries (suc rounds) q now out =
    let rest =
      expire_entries rounds (record (pop q) { expired = q.expired + 1 }) now (count_drop out) in
    if not (q.size == 0) && leb ((front q).created + max_age) now then rest else (out, q)

unfoldable pub expire : RetryQueue → ℕ → Outcome × RetryQueue
expire q now = expire_entries q.size q now no_outcome

unfoldable pub pop_all : ℕ → RetryQueue → RetryQueue
pop_all zero q = q
pop_all (suc rounds) q = let rest = pop_all rounds (pop q) in if q.size == 0 then q else rest

unfoldable pub discard : RetryQueue → Outcome × RetryQueue
discard q = (
  record no_outcome { drops = q.size },
  pop_all q.size (record q { discarded = q.discarded + q.size }),
)

unfoldable pub blocked : RetryQueue → ℕ → RetryQueue
blocked q now = record q { eagain = q.eagain + 1; retry_at = now + retry_delay }

unfoldable pub store_record : RetryQueue → List ℕ → ℕ → RetryQueue
store_record q wire now = record q {
  entries = set q.entries ((q.head + q.size) % capacity) (record { wire = wire; created = now });
  size = q.size + 1;
  bytes = q.bytes + length wire;
  enqueued = q.enqueued + 1;
  high_water = max q.high_water (q.size + 1);
}

unfoldable pub enqueue_live : Outcome → RetryQueue → List ℕ → List ℕ → ℕ → Outcome × RetryQueue
enqueue_live out q a b now =
    if ltb record_limit (length a)
      || ltb (record_limit - length a) (length b)
      || q.size == capacity
      || ltb (byte_limit - q.bytes) (length a + length b)
    then (count_drop out, record q { full = q.full + 1 })
    else (out, store_record q (a ++ b) now)

unfoldable pub enqueue : RetryQueue → List ℕ → List ℕ → ℕ → Outcome × RetryQueue
enqueue q a b now = let (out, live) = expire q now in enqueue_live out live a b now

-- What the socket answers: the bytes it took, an error that passes, or another one.
pub data Answer : Type 0 where
  took : ℕ → Answer
  would_block : Answer
  failed : ℕ → Answer

-- `EIO`
abbrev pub input_output_error : ℕ
input_output_error = 5

unfoldable pub count_error : Outcome × RetryQueue → ℕ → Outcome × RetryQueue
count_error (out, q) error =
    (record out { error = error; drops = out.drops + 1 }, record q { errors = q.errors + 1 })

unfoldable pub submit_live : Outcome → RetryQueue → List ℕ → ℕ → Answer → Outcome × RetryQueue
submit_live out q data' now answer =
    let queued = enqueue q data' [] now in
    if not (q.size == 0) then (add out queued.0, queued.1) else elim answer [
      | would_block ↦ (add out queued.0, blocked queued.1 now)
      | failed error ↦ count_error (out, q) error
      | took n ↦
          if n == length data'
          then (record out { frames = out.frames + 1; bytes = out.bytes + length data' }, q)
          else count_error (out, q) input_output_error
    ]

-- `answer` is what `send` gives for the record; it is not asked where the queue is in use.
unfoldable pub submit : RetryQueue → List ℕ → ℕ → Answer → Outcome × RetryQueue
submit q data' now answer = let (out, live) = expire q now in submit_live out live data' now answer

unfoldable pub drop_failed : Outcome → RetryQueue → ℕ → Outcome × RetryQueue
drop_failed out q error =
    (record out { error = error; drops = out.drops + 1 }, record (pop q) { errors = q.errors + 1 })

-- The rounds left. The clock is read before each `send`, and again after one that would block.
unfoldable pub flush_entries :
    ℕ → Outcome → RetryQueue → (ℕ → ℕ) → (ℕ → ℕ) → (ℕ → List ℕ → Answer) → Outcome × RetryQueue
flush_entries zero out q before after send = (out, q)
flush_entries (suc rounds) out q before after send =
    let (gone, live) = expire q (before rounds) in
    let out' : Outcome = add out gone in
    let wire : List ℕ = (front live).wire in
    let rest =
      flush_entries rounds
        (record out' { frames = out'.frames + 1; bytes = out'.bytes + length wire })
        (record (pop live) { sent = live.sent + 1 }) before after send in
    if q.size == 0
    then (out, q)
    else if live.size == 0
    then (out', live)
    else elim (send rounds wire) [
      | would_block ↦ (out', blocked live (after rounds))
      | failed error ↦ drop_failed out' live error
      | took n ↦ if n == length wire then rest else drop_failed out' live input_output_error
    ]

unfoldable pub flush :
    RetryQueue → ℕ → (ℕ → ℕ) → (ℕ → ℕ) → (ℕ → List ℕ → Answer) → Outcome × RetryQueue
flush q now before after send =
    let (out, live) = expire q now in
    if not (writable live now)
    then (out, live)
    else flush_entries capacity out live before after send

unfoldable pub is_empty : RetryQueue → Bool
is_empty q = q.size == 0
