-- ===== src/RetryQueue/Traces.antt =====
-- src/ipc/retry_queue.hpp: the operations of the queue in any order, as its owner calls them.
use tuntom.Base.{
  Bool-cases, List, [], arith, false, inl, inr, length, refl, suc, true, zero, ℕ, ◌+◌, ◌<◌, ◌==◌,
  ◌∷◌, ◌≡◌,
}
use tuntom.RetryQueue.{
  RetryQueue, Outcome, Answer, would_block, failed, took, capacity, pop, front, expire, pop_all,
  discard, enqueue, submit_live, submit, count_error, blocked, empty_queue, drop_failed, writable,
  flush_entries, flush, input_output_error,
}
use tuntom.RetryQueue.Ring.{contents, total_bytes, window, IsValid}
use tuntom.RetryQueue.Limits.{
  ResultIsValid, kept-IsValid, popped-IsValid, expire-IsValid, enqueue-IsValid,
}

blocked-IsValid : (q : RetryQueue) (now : ℕ) → IsValid q → IsValid (blocked q now)
unfolding blocked
blocked-IsValid q now v = kept-IsValid q _ refl refl refl refl v

count_error-IsValid :
    (out : Outcome) (q : RetryQueue) (error : ℕ)
    → IsValid q
    → ResultIsValid (count_error (out, q) error)
unfolding count_error
count_error-IsValid out q error v = kept-IsValid q _ refl refl refl refl v

submit_live-IsValid :
    (out : Outcome) (q : RetryQueue) (bytes : List ℕ) (now : ℕ) (answer : Answer)
    → IsValid q
    → ResultIsValid (submit_live out q bytes now answer)
unfolding submit_live
submit_live-IsValid out q bytes now answer v = elim (Bool-cases (q.size == 0)) [
  | inr used ↦ rw (used, submit_live) (enqueue-IsValid q bytes [] now v)
  | inl unused ↦ at_once answer unused
]
  where
    at_once :
        (answer : Answer)
        → (q.size == 0) ≡ true
        → ResultIsValid (submit_live out q bytes now answer)
    at_once would_block unused =
        rw (unused, submit_live) (blocked-IsValid _ now (enqueue-IsValid q bytes [] now v))
    at_once (failed error) unused = rw (unused, submit_live) (count_error-IsValid out q error v)
    at_once (took n) unused = elim (Bool-cases (n == length bytes)) [
      | inl whole ↦ rw (unused, whole, submit_live) v
      | inr part ↦ rw (unused, part, submit_live) (count_error-IsValid out q input_output_error v)
    ]

submit-IsValid :
    (q : RetryQueue) (bytes : List ℕ) (now : ℕ) (answer : Answer)
    → IsValid q
    → ResultIsValid (submit q bytes now answer)
unfolding submit
submit-IsValid q bytes now answer v =
    submit_live-IsValid _ _ bytes now answer (expire-IsValid q now v)

drop_failed-IsValid :
    (out : Outcome) (q : RetryQueue) (error : ℕ)
    → IsValid q
    → 0 < q.size
    → ResultIsValid (drop_failed out q error)
unfolding drop_failed
drop_failed-IsValid out q error v h = popped-IsValid q _ v h refl refl refl refl

flush_entries-IsValid :
    (rounds : ℕ) (out : Outcome) (q : RetryQueue) (before after : ℕ → ℕ)
    (send : ℕ → List ℕ → Answer)
    → IsValid q
    → ResultIsValid (flush_entries rounds out q before after send)
unfolding flush_entries
flush_entries-IsValid zero out q before after send v = v
flush_entries-IsValid (suc rounds) out q before after send v = elim (Bool-cases (q.size == 0)) [
  | inl empty ↦ rw (empty, flush_entries) v
  | inr used ↦ elim (Bool-cases (live.size == 0)) [
    | inl gone ↦ rw (used, gone, flush_entries) valid
    | inr left ↦
        answered (send rounds (front live).wire) refl used left
          (λ o w. flush_entries-IsValid rounds o taken before after send w)
  ]
]
  where
    live : RetryQueue
    live = (expire q (before rounds)).1

    taken : RetryQueue
    taken = record (pop live) { sent = live.sent + 1 }

    valid : IsValid live
    valid = expire-IsValid q (before rounds) v

    answered :
        (answer : Answer)
        → send rounds (front live).wire ≡ answer
        → (q.size == 0) ≡ false
        → (live.size == 0) ≡ false
        → ((o : Outcome)
            → IsValid taken
            → ResultIsValid (flush_entries rounds o taken before after send))
        → ResultIsValid (flush_entries (suc rounds) out q before after send)
    answered would_block e used left rest =
        rw (used, left, e, flush_entries) (blocked-IsValid live (after rounds) valid)
    answered (failed error) e used left rest =
        rw (used, left, e, flush_entries)
          (drop_failed-IsValid _ live error valid (ground (arith, left)))
    answered (took n) e used left rest = elim (Bool-cases (n == length (front live).wire)) [
      | inl whole ↦
          rw (used, left, e, whole, flush_entries)
            (rest _ (popped-IsValid live taken valid (ground (arith, left)) refl refl refl refl))
      | inr part ↦
          rw (used, left, e, part, flush_entries)
            (drop_failed-IsValid _ live input_output_error valid (ground (arith, left)))
    ]

flush-IsValid :
    (q : RetryQueue) (now : ℕ) (before after : ℕ → ℕ) (send : ℕ → List ℕ → Answer)
    → IsValid q
    → ResultIsValid (flush q now before after send)
unfolding flush
flush-IsValid q now before after send v = elim (Bool-cases (writable (expire q now).1 now)) [
  | inl ready ↦
      rw (ready, flush)
        (flush_entries-IsValid capacity _ _ before after send (expire-IsValid q now v))
  | inr waits ↦ rw (waits, flush) (expire-IsValid q now v)
]

pop_all-IsValid : (rounds : ℕ) (q : RetryQueue) → IsValid q → IsValid (pop_all rounds q)
unfolding pop_all
pop_all-IsValid zero q v = v
pop_all-IsValid (suc rounds) q v = elim (Bool-cases (q.size == 0)) [
  | inl empty ↦ rw (empty, pop_all) v
  | inr used ↦
      rw (used, pop_all)
        (pop_all-IsValid rounds (pop q)
          (popped-IsValid q (pop q) v (ground (arith, used)) refl refl refl refl))
]

discard-IsValid : (q : RetryQueue) → IsValid q → ResultIsValid (discard q)
unfolding discard
discard-IsValid q v = pop_all-IsValid q.size _ (kept-IsValid q _ refl refl refl refl v)

-- What the owner of a queue does, with the times, the answers of the socket and what its clock reads.
pub data Event : Type 0 where
  submitted : List ℕ → ℕ → Answer → Event
  enqueued : List ℕ → List ℕ → ℕ → Event
  flushed : ℕ → (ℕ → ℕ) → (ℕ → ℕ) → (ℕ → List ℕ → Answer) → Event
  discarded : Event

unfoldable pub step : RetryQueue → Event → RetryQueue
step q (submitted bytes now answer) = (submit q bytes now answer).1
step q (enqueued a b now) = (enqueue q a b now).1
step q (flushed now before after send) = (flush q now before after send).1
step q discarded = (discard q).1

unfoldable pub run : RetryQueue → List Event → RetryQueue
run q [] = q
run q (event ∷ rest) = run (step q event) rest

step-IsValid : (q : RetryQueue) (event : Event) → IsValid q → IsValid (step q event)
unfolding step
step-IsValid q (submitted bytes now answer) v = submit-IsValid q bytes now answer v
step-IsValid q (enqueued a b now) v = enqueue-IsValid q a b now v
step-IsValid q (flushed now before after send) v = flush-IsValid q now before after send v
step-IsValid q discarded v = discard-IsValid q v

run_lem : (q : RetryQueue) (events : List Event) → IsValid q → IsValid (run q events)
unfolding run
run_lem q [] v = v
run_lem q (event ∷ rest) v = run_lem (step q event) rest (step-IsValid q event v)

empty_queue-IsValid : IsValid empty_queue
unfolding contents total_bytes window
empty_queue-IsValid = record {
  slots = refl;
  head_inside = omega arith;
  not_over = omega arith;
  counted = refl;
  limited = omega arith;
  small = tt;
}

-- Whatever records are submitted, enqueued, flushed and discarded, at whatever times and with whatever
-- answers of the socket, the ring has at most 128 records in use, none above 128 KiB, and its byte count
-- is the sum of their lengths, at most 256 KiB.
pub run-IsValid : (events : List Event) → IsValid (run empty_queue events)
run-IsValid events = run_lem empty_queue events empty_queue-IsValid
