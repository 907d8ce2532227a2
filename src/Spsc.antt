-- ===== src/Spsc.antt =====
-- src/switch_mp/queues.hpp, `Spsc`: the ring that a port's producer and consumer share. Each atomic
-- access is a step of its own, and the steps of the two interleave in any order; `sent` and `received`
-- record what has gone in and come out, which the code does not.
pub mod Rounds
pub mod Slots
pub mod Invariant
pub mod Fifo
mod Tests
use tuntom.Base.{
  List, Option, [], get_or, if◌then◌else◌, none, replicate, set, some, ℕ, ◌++◌, ◌+◌, ◌==◌, ◌∷◌,
}

-- Where the producer stands in `push`, and the consumer in `pop`.
pub data Producer {ℓ} (A : Type ℓ) : Type ℓ where
  producer_idle : Producer A
  -- apparently full: `read_` is to be loaded
  refreshing : A → Producer A
  -- there is room: the slot is to be written
  storing : A → Producer A
  -- `write_` is to be stored
  publishing : A → Producer A

pub data Consumer {ℓ} (A : Type ℓ) : Type ℓ where
  consumer_idle : Consumer A
  -- apparently empty: `write_` is to be loaded
  looking : Consumer A
  -- there is an item: the slot is to be read
  loading : Consumer A
  -- `read_` is to be stored
  releasing : A → Consumer A

pub record Spsc {ℓ} (A : Type ℓ) : Type ℓ where
  pub write : ℕ
  pub read_cache : ℕ
  pub read : ℕ
  pub write_cache : ℕ
  pub count : ℕ
  pub slots : List (Option A)
  pub producer : Producer A
  pub consumer : Consumer A
  pub sent : List A
  pub received : List A

unfoldable pub start {ℓ} : {A : Type ℓ} → ℕ → Spsc A
start capacity = record {
  write = 0;
  read_cache = 0;
  read = 0;
  write_cache = 0;
  count = capacity + 1;
  slots = replicate (capacity + 1) none;
  producer = producer_idle;
  consumer = consumer_idle;
  sent = [];
  received = [];
}

-- `none` is the exception for an empty queue.
unfoldable pub create {ℓ} : {A : Type ℓ} → ℕ → Option (Spsc A)
create capacity = if capacity == 0 then none else some (start capacity)

abbrev pub next {ℓ} : {A : Type ℓ} → Spsc A → ℕ → ℕ
next q current = if current + 1 == q.count then 0 else current + 1

-- The next step of the producer; from rest it begins to push the item.
unfoldable pub produce_at {ℓ} : {A : Type ℓ} → Spsc A → A → Producer A → Spsc A
produce_at q item producer_idle =
    if next q q.write == q.read_cache
    then record q { producer = refreshing item }
    else record q { producer = storing item }
produce_at q item (refreshing x) =
    if next q q.write == q.read
    then record q { read_cache = q.read; producer = producer_idle }
    else record q { read_cache = q.read; producer = storing x }
produce_at q item (storing x) = record q {
  slots = set q.slots q.write (some x);
  producer = publishing x;
}
produce_at q item (publishing x) = record q {
  write = next q q.write;
  producer = producer_idle;
  sent = q.sent ++ (x ∷ []);
}

unfoldable pub produce {ℓ} : {A : Type ℓ} → Spsc A → A → Spsc A
produce q item = produce_at q item q.producer

-- What the consumer goes on with, once it has read its slot.
abbrev pub loaded {ℓ} : {A : Type ℓ} → Option A → Consumer A
loaded none = consumer_idle
loaded (some x) = releasing x

-- The next step of the consumer.
unfoldable pub consume_at {ℓ} : {A : Type ℓ} → Spsc A → Consumer A → Spsc A
consume_at q consumer_idle =
    if q.read == q.write_cache
    then record q { consumer = looking }
    else record q { consumer = loading }
consume_at q looking =
    if q.read == q.write
    then record q { write_cache = q.write; consumer = consumer_idle }
    else record q { write_cache = q.write; consumer = loading }
consume_at q loading = record q { consumer = loaded (get_or q.slots q.read none) }
consume_at q (releasing x) = record q {
  read = next q q.read;
  consumer = consumer_idle;
  received = q.received ++ (x ∷ []);
}

unfoldable pub consume {ℓ} : {A : Type ℓ} → Spsc A → Spsc A
consume q = consume_at q q.consumer

-- Whose turn it is, and what the producer begins with if it is at rest.
pub data Turn {ℓ} (A : Type ℓ) : Type ℓ where
  producer_turn : A → Turn A
  consumer_turn : Turn A

unfoldable pub step {ℓ} : {A : Type ℓ} → Spsc A → Turn A → Spsc A
step q (producer_turn item) = produce q item
step q consumer_turn = consume q

unfoldable pub run {ℓ} : {A : Type ℓ} → Spsc A → List (Turn A) → Spsc A
run q [] = q
run q (t ∷ ts) = run (step q t) ts
