-- ===== src/Spsc/Fifo.antt =====
-- What comes out of the ring is what went in, in order.
use tuntom.Base.{
  Bool-cases, List, Option, [], ap, arith, drop, false, get_elem?, get_or, inl, inr, length,
  length-drop, length-replicate, none, refl, some, subst, sym, take-append-drop, ℕ, ◌%◌, ◌++◌, ◌+◌,
  ◌<◌, ◌==◌, ◌∙◌, ◌∷◌, ◌≡◌, ◌≤◌, ◌⊎◌,
}
use native.Mathlib.Nat.{zero-mod}
use tuntom.Spsc.{
  Producer, producer_idle, refreshing, storing, publishing, Consumer, consumer_idle, looking,
  loading, releasing, Spsc, start, create, next, loaded, produce_at, produce, consume_at, consume,
  Turn, producer_turn, consumer_turn, step, run,
}
use tuntom.Spsc.Invariant.{
  ProducerKnows, ConsumerKnows, IsRing, room_lem, with_producer, with_freed, with_consumer,
  with_filled, with_slot, with_sent, with_received,
}

module _ {A : Type 0} where
  produce_at-IsRing :
      (q : Spsc A) (item : A) (p : Producer A) (v : IsRing q)
      → ProducerKnows q.count v.freed (length q.sent) q.slots p
      → IsRing (produce_at q item p)
  unfolding produce_at
  produce_at-IsRing q item producer_idle v knows =
      elim (Bool-cases (next q q.write == q.read_cache)) [
        | inl full ↦ rw full (with_producer q v (refreshing item) tt)
        | inr free ↦ rw free (
            with_producer q v (storing item)
              (room_lem q v.freed q.read_cache v.wide v.at_write v.read_seen v.freed_room free))
      ]
  produce_at-IsRing q item (refreshing x) v knows = elim (Bool-cases (next q q.write == q.read)) [
    | inl full ↦ rw full (with_freed q v producer_idle tt)
    | inr free ↦ rw free (
        with_freed q v (storing x) (
          room_lem q (length q.received) q.read v.wide v.at_write v.at_read (omega (arith, v))
            free))
  ]
  produce_at-IsRing q item (storing x) v knows = with_slot q v x knows
  produce_at-IsRing q item (publishing x) v (room, slot) = with_sent q v x room slot

  -- Positions of counts that are not the same round tell them apart only one way: different positions
  -- are of different counts.
  more_lem :
      (q : Spsc A) (filled seen : ℕ)
      → q.read ≡ length q.received % q.count
      → seen ≡ filled % q.count
      → length q.received ≤ filled
      → (q.read == seen) ≡ false
      → length q.received < filled
  more_lem q filled seen at_read e le differs = elim (tight (length q.received) filled le) [
    | inl lt ↦ lt
    | inr same ↦ absurd (ground (arith, differs, at_read, e, same))
  ]
    where
      tight : (a b : ℕ) → a ≤ b → (a < b) ⊎ (a ≡ b)
      tight a b h = grind arith

  consume_at-IsRing :
      (q : Spsc A) (c : Consumer A) (v : IsRing q)
      → ConsumerKnows v.filled (length q.received) q.sent c
      → IsRing (consume_at q c)
  unfolding consume_at
  consume_at-IsRing q consumer_idle v knows = elim (Bool-cases (q.read == q.write_cache)) [
    | inl none_left ↦ rw none_left (with_consumer q v looking tt)
    | inr more ↦ rw more (
        with_consumer q v loading
          (more_lem q v.filled q.write_cache v.at_read v.write_seen v.filled_more more))
  ]
  consume_at-IsRing q looking v knows = elim (Bool-cases (q.read == q.write)) [
    | inl none_left ↦ rw none_left (with_filled q v consumer_idle tt)
    | inr more ↦ rw more (
        with_filled q v loading
          (more_lem q (length q.sent) q.write v.at_read v.at_write (omega (arith, v)) more))
  ]
  consume_at-IsRing q loading v knows =
      with_consumer q v (loaded (get_or q.slots q.read none))
        (loaded_lem (get_or q.slots q.read none) item)
    where
      item : get_or q.slots q.read none ≡ get_elem? q.sent (length q.received)
      item =
          ap (λ n. get_or q.slots n none) v.at_read
          ∙ v.held (length q.received) (omega arith) (omega (arith, knows, v))

      loaded_lem :
          (o : Option A)
          → o ≡ get_elem? q.sent (length q.received)
          → ConsumerKnows v.filled (length q.received) q.sent (loaded o)
      loaded_lem none e = tt
      loaded_lem (some x) e = (knows, sym e)
  consume_at-IsRing q (releasing x) v (more, item) = with_received q v x more item

  step-IsRing : (q : Spsc A) (t : Turn A) → IsRing q → IsRing (step q t)
  unfolding step produce consume
  step-IsRing q (producer_turn item) v = produce_at-IsRing q item q.producer v v.producer_knows
  step-IsRing q consumer_turn v = consume_at-IsRing q q.consumer v v.consumer_knows

  run-IsRing : (q : Spsc A) (ts : List (Turn A)) → IsRing q → IsRing (run q ts)
  unfolding run
  run-IsRing q [] v = v
  run-IsRing q (t ∷ ts) v = run-IsRing (step q t) ts (step-IsRing q t v)

  start-IsRing : (capacity : ℕ) → 0 < capacity → IsRing (start {A = A} capacity)
  unfolding start
  start-IsRing capacity some_room = record {
    freed = 0;
    filled = 0;
    size = length-replicate (capacity + 1) none;
    wide = omega (arith, some_room);
    at_write = sym (zero-mod (capacity + 1));
    at_read = sym (zero-mod (capacity + 1));
    freed_some = omega arith;
    freed_room = omega arith;
    read_seen = sym (zero-mod (capacity + 1));
    filled_more = omega arith;
    filled_some = omega arith;
    write_seen = sym (zero-mod (capacity + 1));
    held = λ i lo hi. absurd (omega (arith, hi));
    in_order = refl;
    producer_knows = tt;
    consumer_knows = tt;
  }

  create_lem :
      (capacity : ℕ) (q : Spsc A) → create capacity ≡ some q → (0 < capacity) × (q ≡ start capacity)
  unfolding create
  create_lem capacity q h = ground (arith, h)

  step-count : (q : Spsc A) (t : Turn A) → (step q t).count ≡ q.count
  unfolding step produce produce_at consume consume_at
  step-count q t = ground arith

  run-count : (q : Spsc A) (ts : List (Turn A)) → (run q ts).count ≡ q.count
  unfolding run
  run-count q [] = refl
  run-count q (t ∷ ts) = run-count (step q t) ts ∙ step-count q t

  -- However the steps of the two ends interleave, what has come out of the ring is the first part of
  -- what has gone in, in order, and no more than the capacity waits between them.
  pub run_lem :
      (capacity : ℕ) (q : Spsc A) (ts : List (Turn A))
      → create capacity ≡ some q
      → (waiting : List A) × ((run q ts).sent ≡ (run q ts).received ++ waiting)
        × (length waiting ≤ capacity)
  run_lem capacity q ts made =
      let t : Spsc A = run q ts in
      let (some_room, fresh) = create_lem capacity q made in
      let v : IsRing t =
        run-IsRing q ts (subst IsRing (sym fresh) (start-IsRing capacity some_room)) in
      let size : t.count ≡ capacity + 1 =
        run-count q ts ∙ ap (λ r. r.count) fresh ∙ unfold start in refl in
      (
        drop (length t.received) t.sent,
        sym (
            ap (λ l. l ++ drop (length t.received) t.sent) (sym v.in_order)
            ∙ take-append-drop (length t.received) t.sent),
        omega (arith, size, v, length-drop (length t.received) t.sent),
      )
