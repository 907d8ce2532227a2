-- ===== src/RetryQueue/Limits.antt =====
-- src/ipc/retry_queue.hpp: what taking off and storing records keeps of the ring.
use tuntom.Base.{
  All, All-append, Bool-cases, List, [], ap, arith, if◌then◌else◌, inl, inr, leb, length,
  length-append, length-set, ltb, not, refl, subst, suc, sym, zero, ℕ, ◌%◌, ◌&&◌, ◌++◌, ◌+◌, ◌-◌,
  ◌<◌, ◌==◌, ◌||◌, ◌∙◌, ◌∷◌, ◌≡◌, ◌≤◌,
}
use tuntom.RetryQueue.{
  RetryQueue, Entry, Outcome, capacity, byte_limit, record_limit, pop, front, expire_entries,
  expire, store_record, enqueue_live, enqueue, count_drop, no_outcome, max_age,
}
use tuntom.RetryQueue.Ring.{
  window, contents, total_bytes, IsValid, contents-pop, contents-store_record,
}

-- The counters of what happened, and the time of the next retry, play no part.
pub kept-IsValid :
    (q q' : RetryQueue)
    → q'.entries ≡ q.entries
    → q'.head ≡ q.head
    → q'.size ≡ q.size
    → q'.bytes ≡ q.bytes
    → IsValid q
    → IsValid q'
unfolding contents
kept-IsValid q q' e h s b v = record {
  slots = ap length e ∙ v.slots;
  head_inside = omega (arith, h, v.head_inside);
  not_over = omega (arith, s, v.not_over);
  counted = b ∙ v.counted ∙ ap total_bytes (sym same);
  limited = omega (arith, b, v.limited);
  small = subst (All (λ x. length x.wire ≤ record_limit)) (sym same) v.small;
}
  where
    same : window q'.entries q'.head q'.size ≡ window q.entries q.head q.size
    same = rw (e, h, s) refl

pop-IsValid : (q : RetryQueue) → IsValid q → 0 < q.size → IsValid (pop q)
unfolding pop total_bytes
pop-IsValid q v h = record {
  slots = length-set q.entries q.head _ ∙ v.slots;
  head_inside = omega arith;
  not_over = omega (arith, v.not_over);
  counted = omega (arith, v.counted, ap total_bytes (contents-pop q v h));
  limited = omega (arith, v.limited);
  small = (subst (All (λ x. length x.wire ≤ record_limit)) (contents-pop q v h) v.small).1;
}

-- A record that is taken off and counted somewhere.
pub popped-IsValid :
    (q q' : RetryQueue)
    → IsValid q
    → 0 < q.size
    → q'.entries ≡ (pop q).entries
    → q'.head ≡ (pop q).head
    → q'.size ≡ (pop q).size
    → q'.bytes ≡ (pop q).bytes
    → IsValid q'
popped-IsValid q q' v h e d s b = kept-IsValid (pop q) q' e d s b (pop-IsValid q v h)

abbrev dropped : RetryQueue → RetryQueue
dropped q = record (pop q) { expired = q.expired + 1 }

expire_step :
    (rounds : ℕ) (q : RetryQueue) (now : ℕ) (out : Outcome)
    → expire_entries (suc rounds) q now out ≡ (
        if not (q.size == 0) && leb ((front q).created + max_age) now
        then expire_entries rounds (dropped q) now (count_drop out)
        else (out, q))
unfolding expire_entries
expire_step rounds q now out = refl

abbrev pub ResultIsValid : Outcome × RetryQueue → Type 0
ResultIsValid r = IsValid r.1

expire_entries-IsValid :
    (rounds : ℕ) (q : RetryQueue) (now : ℕ) (out : Outcome)
    → IsValid q
    → ResultIsValid (expire_entries rounds q now out)
expire_entries-IsValid zero q now out v = unfold expire_entries in v
expire_entries-IsValid (suc rounds) q now out v =
    elim (Bool-cases (not (q.size == 0) && leb ((front q).created + max_age) now)) [
      | inl old ↦
          subst ResultIsValid {x = expire_entries rounds (dropped q) now (count_drop out)}
            (sym (expire_step rounds q now out ∙ simp old refl))
            (expire_entries-IsValid rounds (dropped q) now (count_drop out)
              (popped-IsValid q (dropped q) v (ground (arith, old)) refl refl refl refl))
      | inr new ↦
          subst ResultIsValid {x = (out, q)} (sym (expire_step rounds q now out ∙ simp new refl)) v
    ]

pub expire-IsValid : (q : RetryQueue) (now : ℕ) → IsValid q → ResultIsValid (expire q now)
unfolding expire
expire-IsValid q now v = expire_entries-IsValid q.size q now no_outcome v

total-append : (xs ys : List Entry) → total_bytes (xs ++ ys) ≡ total_bytes xs + total_bytes ys
unfolding total_bytes
total-append [] ys = omega arith
total-append (x ∷ xs) ys = omega (arith, total-append xs ys)

store_record-IsValid :
    (q : RetryQueue) (wire : List ℕ) (now : ℕ)
    → IsValid q
    → q.size < capacity
    → length wire ≤ byte_limit - q.bytes
    → length wire ≤ record_limit
    → IsValid (store_record q wire now)
unfolding store_record total_bytes
store_record-IsValid q wire now v room light small = record {
  slots = length-set q.entries ((q.head + q.size) % capacity) e ∙ v.slots;
  head_inside = v.head_inside;
  not_over = omega (arith, room);
  counted = omega (
    arith,
    v.counted,
    ap total_bytes (contents-store_record q wire now v room),
    total-append (contents q) (e ∷ []),
  );
  limited = omega (arith, v.limited, light);
  small =
      subst (All (λ x. length x.wire ≤ record_limit))
        (sym (contents-store_record q wire now v room))
        (All-append (λ x. length x.wire ≤ record_limit) (contents q) (e ∷ []) v.small (small, tt));
}
  where
    e : Entry
    e = record { wire = wire; created = now }

enqueue_live-IsValid :
    (out : Outcome) (q : RetryQueue) (a b : List ℕ) (now : ℕ)
    → IsValid q
    → ResultIsValid (enqueue_live out q a b now)
unfolding enqueue_live
enqueue_live-IsValid out q a b now v =
    elim (Bool-cases (
      ltb record_limit (length a)
      || ltb (record_limit - length a) (length b)
      || q.size == capacity
      || ltb (byte_limit - q.bytes) (length a + length b))) [
        | inl refused ↦
            rw (refused, enqueue_live)
              (kept-IsValid q (record q { full = q.full + 1 }) refl refl refl refl v)
        | inr fits ↦
            rw (fits, enqueue_live)
              (store_record-IsValid q (a ++ b) now v (ground (arith, fits, v.not_over))
                (ground (arith, fits, length-append a b)) (ground (arith, fits, length-append a b)))
      ]

pub enqueue-IsValid :
    (q : RetryQueue) (a b : List ℕ) (now : ℕ) → IsValid q → ResultIsValid (enqueue q a b now)
unfolding enqueue
enqueue-IsValid q a b now v = enqueue_live-IsValid _ _ a b now (expire-IsValid q now v)
