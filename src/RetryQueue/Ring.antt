-- ===== src/RetryQueue/Ring.antt =====
-- src/ipc/retry_queue.hpp: the ring as the list of the records in use, oldest first.
use tuntom.Base.{
  All, List, [], ap, ap₂, arith, get_or, get_or-set_ne, get_or-set_self, length, refl, set, suc,
  sym, zero, ℕ, ◌%◌, ◌++◌, ◌+◌, ◌-◌, ◌<◌, ◌∙◌, ◌∷◌, ◌≡◌, ◌≤◌,
}
use tuntom.RetryQueue.{
  RetryQueue, Entry, no_entry, capacity, byte_limit, record_limit, front, pop, store_record,
}

-- `n` records from the i-th slot on, round the ring.
unfoldable pub window : List Entry → ℕ → ℕ → List Entry
window entries i zero = []
window entries i (suc n) = get_or entries (i % capacity) no_entry ∷ window entries (i + 1) n

unfoldable pub contents : RetryQueue → List Entry
contents q = window q.entries q.head q.size

unfoldable pub total_bytes : List Entry → ℕ
total_bytes [] = 0
total_bytes (e ∷ rest) = length e.wire + total_bytes rest

-- At most 128 records are in use; the byte count is that of the records, at most 256 KiB, none of which
-- is longer than 128 KiB.
pub record IsValid (q : RetryQueue) : Type 0 where
  pub slots : length q.entries ≡ capacity
  pub head_inside : q.head < capacity
  pub not_over : q.size ≤ capacity
  pub counted : q.bytes ≡ total_bytes (contents q)
  pub limited : q.bytes ≤ byte_limit
  pub small : All (λ e. length e.wire ≤ record_limit) (contents q)

length-window : (es : List Entry) (i n : ℕ) → length (window es i n) ≡ n
unfolding window
length-window es i zero = refl
length-window es i (suc n) = ap suc (length-window es (i + 1) n)

-- The number of records in use is the size.
pub length-contents : (q : RetryQueue) → length (contents q) ≡ q.size
unfolding contents
length-contents q = length-window q.entries q.head q.size

-- A slot that the window does not reach.
window-set :
    (es : List Entry) (i n k : ℕ) (v : Entry)
    → i + n ≤ k
    → k < i + capacity
    → window (set es (k % capacity) v) i n ≡ window es i n
unfolding window
window-set es i zero k v h l = refl
window-set es i (suc n) k v h l =
    ap₂ (λ e rest. e ∷ rest)
      (get_or-set_ne es (k % capacity) (i % capacity) v no_entry (λ e. omega arith))
      (window-set es (i + 1) n k v (omega arith) (omega arith))

window_mod :
    (es : List Entry) (i j n : ℕ) → i % capacity ≡ j % capacity → window es i n ≡ window es j n
unfolding window
window_mod es i j zero e = refl
window_mod es i j (suc n) e =
    ap₂ (λ k rest. get_or es k no_entry ∷ rest) e
      (window_mod es (i + 1) (j + 1) n (omega (arith, e)))

window_last :
    (es : List Entry) (i n : ℕ)
    → window es i (n + 1) ≡ window es i n ++ (get_or es ((i + n) % capacity) no_entry ∷ [])
unfolding window
window_last es i zero =
    ap (window es i) {x = 0 + 1} {y = 1} (omega arith)
    ∙ ap (λ k. get_or es k no_entry ∷ []) {x = i % capacity} {y = (i + 0) % capacity} (omega arith)
window_last es i (suc n) =
    ap (window es i) {x = suc n + 1} {y = suc (n + 1)} (omega arith)
    ∙ ap (λ rest. get_or es (i % capacity) no_entry ∷ rest)
        (window_last es (i + 1) n
          ∙ ap (λ k. window es (i + 1) n ++ (get_or es (k % capacity) no_entry ∷ []))
              {x = i + 1 + n} {y = i + suc n} (omega arith))

-- `pop` takes the oldest record off.
pub contents-pop :
    (q : RetryQueue) → IsValid q → 0 < q.size → contents q ≡ front q ∷ contents (pop q)
unfolding contents pop window
contents-pop q v h =
    ap (window q.entries q.head) {x = q.size} {y = suc (q.size - 1)} (omega arith)
    ∙ ap₂ (λ k rest. get_or q.entries k no_entry ∷ rest) {x = q.head % capacity} {y = q.head}
        (omega (arith, v.head_inside))
        (sym (
          window_mod _ ((q.head + 1) % capacity) (q.head + 1) (q.size - 1) (omega arith)
          ∙ ap (λ k. window (set q.entries k e) (q.head + 1) (q.size - 1)) {x = q.head}
              {y = (q.head + capacity) % capacity} (omega (arith, v.head_inside))
          ∙ window-set q.entries (q.head + 1) (q.size - 1) (q.head + capacity) e
              (omega (arith, v.not_over)) (omega arith)))
  where
    e : Entry
    e = record (front q) { wire = [] }

-- A record that is stored goes behind the others.
pub contents-store_record :
    (q : RetryQueue) (wire : List ℕ) (now : ℕ)
    → IsValid q
    → q.size < capacity
    → contents (store_record q wire now)
      ≡ contents q ++ (record { wire = wire; created = now } ∷ [])
unfolding contents store_record
contents-store_record q wire now v room =
    window_last (set q.entries at e) q.head q.size
    ∙ ap₂ (λ xs x. xs ++ (x ∷ []))
        (window-set q.entries q.head q.size (q.head + q.size) e (omega arith) (omega (arith, room)))
        (get_or-set_self q.entries at e no_entry (omega (arith, v.slots)))
  where
    at : ℕ
    at = (q.head + q.size) % capacity

    e : Entry
    e = record { wire = wire; created = now }
