-- ===== src/Spsc/Invariant.antt =====
-- What the two ends of the ring know, and what each store keeps of it.
use tuntom.Base.{
  List, Option, [], ap, arith, count, false, get_elem?, get_or, get_or-set_ne, get_or-set_self, inl,
  inr, length, length-append, length-set, none, set, some, suc, sym, take, ℕ, ◌%◌, ◌++◌, ◌+◌, ◌<◌,
  ◌==◌, ◌∙◌, ◌∷◌, ◌≡◌, ◌≤◌, ◌⊎◌,
}
use native.Mathlib.Nat.{mod-lt}
use tuntom.Spsc.{
  Producer, producer_idle, refreshing, storing, publishing, Consumer, consumer_idle, looking,
  loading, releasing, Spsc, next,
}
use tuntom.Spsc.Slots.{get_elem?-append_old, get_elem?-append_new, take-append_old, take_next}
use tuntom.Spsc.Rounds.{mod_distinct, next_mod, room_mod}

module _ {A : Type 0} where
  -- What the producer knows of `read_`: after `freed` items had come out there was room for one more.
  abbrev pub ProducerKnows : ℕ → ℕ → ℕ → List (Option A) → Producer A → Type 0
  ProducerKnows count freed p slots producer_idle = Unit
  ProducerKnows count freed p slots (refreshing x) = Unit
  ProducerKnows count freed p slots (storing x) = p + 1 < freed + count
  ProducerKnows count freed p slots (publishing x) =
      (p + 1 < freed + count) × (get_or slots (p % count) none ≡ some x)

  -- What the consumer knows of `write_`: `filled` items had gone in, more than have come out.
  abbrev pub ConsumerKnows : ℕ → ℕ → List A → Consumer A → Type 0
  ConsumerKnows filled c sent consumer_idle = Unit
  ConsumerKnows filled c sent looking = Unit
  ConsumerKnows filled c sent loading = c < filled
  ConsumerKnows filled c sent (releasing x) = (c < filled) × (get_elem? sent c ≡ some x)

  -- The counts `freed` and `filled` are those that the two caches stand for.
  pub record IsRing (q : Spsc A) : Type 0 where
    pub freed : ℕ
    pub filled : ℕ
    pub size : length q.slots ≡ q.count
    pub wide : 1 < q.count
    pub at_write : q.write ≡ length q.sent % q.count
    pub at_read : q.read ≡ length q.received % q.count
    pub freed_some : freed ≤ length q.received
    pub freed_room : length q.sent < freed + q.count
    pub read_seen : q.read_cache ≡ freed % q.count
    pub filled_more : length q.received ≤ filled
    pub filled_some : filled ≤ length q.sent
    pub write_seen : q.write_cache ≡ filled % q.count
    pub held :
        (i : ℕ)
        → length q.received ≤ i
        → i < length q.sent
        → get_or q.slots (i % q.count) none ≡ get_elem? q.sent i
    pub in_order : take (length q.received) q.sent ≡ q.received
    pub producer_knows : ProducerKnows q.count freed (length q.sent) q.slots q.producer
    pub consumer_knows : ConsumerKnows filled (length q.received) q.sent q.consumer

  pub next_lem :
      (q : Spsc A) (n current : ℕ)
      → 1 < q.count
      → current ≡ n % q.count
      → next q current ≡ (n + 1) % q.count
  next_lem q n current w e = rw e (next_mod n q.count w)

  -- The next position is not one that the reader was at: there is room.
  pub room_lem :
      (q : Spsc A) (freed seen : ℕ)
      → 1 < q.count
      → q.write ≡ length q.sent % q.count
      → seen ≡ freed % q.count
      → length q.sent < freed + q.count
      → (next q q.write == seen) ≡ false
      → length q.sent + 1 < freed + q.count
  room_lem q freed seen w at_write e below differs =
      room_mod (length q.sent) freed q.count below
        (λ same. ground (arith, differs, next_lem q (length q.sent) q.write w at_write, e, same))

  pub with_producer :
      (q : Spsc A) (v : IsRing q) (p : Producer A)
      → ProducerKnows q.count v.freed (length q.sent) q.slots p
      → IsRing (record q { producer = p })
  with_producer q v p knows = record {
    freed = v.freed;
    filled = v.filled;
    size = v.size;
    wide = v.wide;
    at_write = v.at_write;
    at_read = v.at_read;
    freed_some = v.freed_some;
    freed_room = v.freed_room;
    read_seen = v.read_seen;
    filled_more = v.filled_more;
    filled_some = v.filled_some;
    write_seen = v.write_seen;
    held = v.held;
    in_order = v.in_order;
    producer_knows = knows;
    consumer_knows = v.consumer_knows;
  }

  -- The producer has loaded `read_`.
  pub with_freed :
      (q : Spsc A) (v : IsRing q) (p : Producer A)
      → ProducerKnows q.count (length q.received) (length q.sent) q.slots p
      → IsRing (record q { read_cache = q.read; producer = p })
  with_freed q v p knows = record {
    freed = length q.received;
    filled = v.filled;
    size = v.size;
    wide = v.wide;
    at_write = v.at_write;
    at_read = v.at_read;
    freed_some = omega arith;
    freed_room = omega (arith, v);
    read_seen = v.at_read;
    filled_more = v.filled_more;
    filled_some = v.filled_some;
    write_seen = v.write_seen;
    held = v.held;
    in_order = v.in_order;
    producer_knows = knows;
    consumer_knows = v.consumer_knows;
  }

  pub with_consumer :
      (q : Spsc A) (v : IsRing q) (c : Consumer A)
      → ConsumerKnows v.filled (length q.received) q.sent c
      → IsRing (record q { consumer = c })
  with_consumer q v c knows = record {
    freed = v.freed;
    filled = v.filled;
    size = v.size;
    wide = v.wide;
    at_write = v.at_write;
    at_read = v.at_read;
    freed_some = v.freed_some;
    freed_room = v.freed_room;
    read_seen = v.read_seen;
    filled_more = v.filled_more;
    filled_some = v.filled_some;
    write_seen = v.write_seen;
    held = v.held;
    in_order = v.in_order;
    producer_knows = v.producer_knows;
    consumer_knows = knows;
  }

  -- The consumer has loaded `write_`.
  pub with_filled :
      (q : Spsc A) (v : IsRing q) (c : Consumer A)
      → ConsumerKnows (length q.sent) (length q.received) q.sent c
      → IsRing (record q { write_cache = q.write; consumer = c })
  with_filled q v c knows = record {
    freed = v.freed;
    filled = length q.sent;
    size = v.size;
    wide = v.wide;
    at_write = v.at_write;
    at_read = v.at_read;
    freed_some = v.freed_some;
    freed_room = v.freed_room;
    read_seen = v.read_seen;
    filled_more = omega (arith, v);
    filled_some = omega arith;
    write_seen = v.at_write;
    held = v.held;
    in_order = v.in_order;
    producer_knows = v.producer_knows;
    consumer_knows = knows;
  }

  -- The slot behind the last item that was sent is free, so nothing that waits is lost.
  pub with_slot :
      (q : Spsc A) (v : IsRing q) (x : A)
      → length q.sent + 1 < v.freed + q.count
      → IsRing (record q { slots = set q.slots q.write (some x); producer = publishing x })
  with_slot q v x room = record {
    freed = v.freed;
    filled = v.filled;
    size = length-set q.slots q.write (some x) ∙ v.size;
    wide = v.wide;
    at_write = v.at_write;
    at_read = v.at_read;
    freed_some = v.freed_some;
    freed_room = v.freed_room;
    read_seen = v.read_seen;
    filled_more = v.filled_more;
    filled_some = v.filled_some;
    write_seen = v.write_seen;
    held = waiting;
    in_order = v.in_order;
    producer_knows = (room, stored);
    consumer_knows = v.consumer_knows;
  }
    where
      inside : q.write < length q.slots
      inside = omega (arith, v.at_write, v.size, v.wide, mod-lt (length q.sent) {m = q.count})

      waiting :
          (i : ℕ)
          → length q.received ≤ i
          → i < length q.sent
          → get_or (set q.slots q.write (some x)) (i % q.count) none ≡ get_elem? q.sent i
      waiting i lo hi =
          get_or-set_ne q.slots q.write (i % q.count) (some x) none (λ e.
            mod_distinct i (length q.sent) q.count hi (omega (arith, v)) (sym (sym v.at_write ∙ e)))
          ∙ v.held i lo hi

      stored : get_or (set q.slots q.write (some x)) (length q.sent % q.count) none ≡ some x
      stored =
          ap (λ n. get_or (set q.slots q.write (some x)) n none) (sym v.at_write)
          ∙ get_or-set_self q.slots q.write (some x) none inside

  knows-append :
      (filled c : ℕ) (sent : List A) (x : A) (consumer : Consumer A)
      → filled ≤ length sent
      → ConsumerKnows filled c sent consumer
      → ConsumerKnows filled c (sent ++ (x ∷ [])) consumer
  knows-append filled c sent x consumer_idle h k = tt
  knows-append filled c sent x looking h k = tt
  knows-append filled c sent x loading h k = k
  knows-append filled c sent x (releasing y) h (lt, e) =
      (lt, get_elem?-append_old sent x c (omega arith) ∙ e)

  pub with_sent :
      (q : Spsc A) (v : IsRing q) (x : A)
      → length q.sent + 1 < v.freed + q.count
      → get_or q.slots (length q.sent % q.count) none ≡ some x
      → IsRing
          (record q { write = next q q.write; producer = producer_idle; sent = q.sent ++ (x ∷ []) })
  with_sent q v x room slot = record {
    freed = v.freed;
    filled = v.filled;
    size = v.size;
    wide = v.wide;
    at_write =
        next_lem q (length q.sent) q.write v.wide v.at_write ∙ ap (λ n. n % q.count) (sym one_more);
    at_read = v.at_read;
    freed_some = v.freed_some;
    freed_room = omega (arith, one_more, room);
    read_seen = v.read_seen;
    filled_more = v.filled_more;
    filled_some = omega (arith, one_more, v);
    write_seen = v.write_seen;
    held = waiting;
    in_order = take-append_old (length q.received) q.sent x (omega (arith, v)) ∙ v.in_order;
    producer_knows = tt;
    consumer_knows =
        knows-append v.filled (length q.received) q.sent x q.consumer v.filled_some
          v.consumer_knows;
  }
    where
      one_more : length (q.sent ++ (x ∷ [])) ≡ length q.sent + 1
      one_more = length-append q.sent (x ∷ [])

      latest : (i n : ℕ) → i < n + 1 → (i < n) ⊎ (i ≡ n)
      latest i n h = grind arith

      waiting :
          (i : ℕ)
          → length q.received ≤ i
          → i < length (q.sent ++ (x ∷ []))
          → get_or q.slots (i % q.count) none ≡ get_elem? (q.sent ++ (x ∷ [])) i
      waiting i lo hi = elim (latest i (length q.sent) (omega (arith, one_more))) [
        | inl old ↦ v.held i lo old ∙ sym (get_elem?-append_old q.sent x i old)
        | inr new ↦
            ap (λ n. get_or q.slots (n % q.count) none) new
            ∙ slot
            ∙ sym (ap (get_elem? (q.sent ++ (x ∷ []))) new ∙ get_elem?-append_new q.sent x)
      ]

  pub with_received :
      (q : Spsc A) (v : IsRing q) (x : A)
      → length q.received < v.filled
      → get_elem? q.sent (length q.received) ≡ some x
      → IsRing (record q {
        read = next q q.read;
        consumer = consumer_idle;
        received = q.received ++ (x ∷ []);
      })
  with_received q v x more item = record {
    freed = v.freed;
    filled = v.filled;
    size = v.size;
    wide = v.wide;
    at_write = v.at_write;
    at_read =
        next_lem q (length q.received) q.read v.wide v.at_read
        ∙ ap (λ n. n % q.count) (sym one_more);
    freed_some = omega (arith, one_more, v);
    freed_room = v.freed_room;
    read_seen = v.read_seen;
    filled_more = omega (arith, one_more, more);
    filled_some = v.filled_some;
    write_seen = v.write_seen;
    held = λ i lo hi. v.held i (omega (arith, one_more, lo)) hi;
    in_order =
        ap (λ n. take n q.sent) (one_more ∙ add_suc)
        ∙ take_next (length q.received) q.sent x item
        ∙ ap (λ l. l ++ (x ∷ [])) v.in_order;
    producer_knows = v.producer_knows;
    consumer_knows = tt;
  }
    where
      one_more : length (q.received ++ (x ∷ [])) ≡ length q.received + 1
      one_more = length-append q.received (x ∷ [])

      add_suc : length q.received + 1 ≡ suc (length q.received)
      add_suc = omega arith
