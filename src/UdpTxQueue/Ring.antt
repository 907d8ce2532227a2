-- ===== src/UdpTxQueue/Ring.antt =====
-- The ring as the list of the entries in use, and what the operations do to that list.
use tuntom.Base.{
  List, [], ap, append-nil, append_assoc, ap₂, arith, get_or, get_or-set_ne, get_or-set_self,
  length, length-set, map, refl, set, suc, sym, zero, ℕ, ◌%◌, ◌++◌, ◌+◌, ◌-◌, ◌<◌, ◌∙◌, ◌∷◌, ◌≡◌,
  ◌≤◌,
}
use tuntom.UdpTxQueue.{UdpTxQueue, Entry, no_entry, capacity, byte_limit, pop, write_entries}

-- `n` entries from the i-th slot on, round the ring.
unfoldable pub window : List Entry → ℕ → ℕ → List Entry
window entries i zero = []
window entries i (suc n) = get_or entries (i % capacity) no_entry ∷ window entries (i + 1) n

unfoldable pub contents : UdpTxQueue → List Entry
contents q = window q.entries q.head q.size

unfoldable pub total_bytes : List Entry → ℕ
total_bytes [] = 0
total_bytes (e ∷ rest) = length e.wire + total_bytes rest

pub record IsValid (q : UdpTxQueue) : Type 0 where
  pub slots : length q.entries ≡ capacity
  pub head_inside : q.head < capacity
  pub not_over : q.size ≤ capacity
  pub counted : q.bytes ≡ total_bytes (contents q)
  pub limited : q.bytes ≤ byte_limit

-- A slot that the window does not reach.
window-set :
    (es : List Entry) (i n k : ℕ) (v : Entry)
    → i + n ≤ k
    → k < i + capacity
    → window (set es (k % capacity) v) i n ≡ window es i n
unfolding window
window-set es i zero k v h l = refl
window-set es i (suc n) k v h l =
    ap₂ (λ e rest. e ∷ rest)
      (get_or-set_ne es (k % capacity) (i % capacity) v no_entry (λ e. omega arith))
      (window-set es (i + 1) n k v (omega arith) (omega arith))

window_mod :
    (es : List Entry) (i j n : ℕ) → i % capacity ≡ j % capacity → window es i n ≡ window es j n
unfolding window
window_mod es i j zero e = refl
window_mod es i j (suc n) e =
    ap₂ (λ k rest. get_or es k no_entry ∷ rest) e
      (window_mod es (i + 1) (j + 1) n (omega (arith, e)))

window_last :
    (es : List Entry) (i n : ℕ)
    → window es i (n + 1) ≡ window es i n ++ (get_or es ((i + n) % capacity) no_entry ∷ [])
unfolding window
window_last es i zero =
    ap (window es i) {x = 0 + 1} {y = 1} (omega arith)
    ∙ ap (λ k. get_or es k no_entry ∷ []) {x = i % capacity} {y = (i + 0) % capacity} (omega arith)
window_last es i (suc n) =
    ap (window es i) {x = suc n + 1} {y = suc (n + 1)} (omega arith)
    ∙ ap (λ rest. get_or es (i % capacity) no_entry ∷ rest)
        (window_last es (i + 1) n
          ∙ ap (λ k. window es (i + 1) n ++ (get_or es (k % capacity) no_entry ∷ []))
              {x = i + 1 + n} {y = i + suc n} (omega arith))

-- The entries that packets become.
abbrev pub stamped : ℕ → List ℕ → Entry
stamped now p = record { wire = p; created = now }

pub window-write_entries :
    (es : List Entry) (i n now : ℕ) (ps : List (List ℕ))
    → length es ≡ capacity
    → n + length ps ≤ capacity
    → window (write_entries (i + n) ps now es) i (n + length ps)
      ≡ window es i n ++ map (stamped now) ps
unfolding window write_entries
window-write_entries es i n now [] full h =
    ap (window es i) {x = n + 0} {y = n} (omega arith) ∙ sym (append-nil _)
window-write_entries es i n now (p ∷ ps) full h =
    ap₂ (λ at m. window (write_entries at ps now es') i m) {x = i + n + 1} {y = i + (n + 1)}
      {u = n + suc (length ps)} {v = n + 1 + length ps} (omega arith) (omega arith)
    ∙ window-write_entries es' i (n + 1) now ps (length-set es ((i + n) % capacity) e ∙ full)
        (omega (arith, h))
    ∙ ap (λ xs. xs ++ map (stamped now) ps)
        (window_last es' i n
          ∙ ap₂ (λ xs x. xs ++ (x ∷ []))
              (window-set es i n (i + n) e (omega arith) (omega (arith, h)))
              (get_or-set_self es ((i + n) % capacity) e no_entry (omega (arith, full))))
    ∙ append_assoc (window es i n) (e ∷ []) (map (stamped now) ps)
  where
    e : Entry
    e = stamped now p

    es' : List Entry
    es' = set es ((i + n) % capacity) e

pub length-write_entries :
    (at now : ℕ) (ps : List (List ℕ)) (es : List Entry)
    → length (write_entries at ps now es) ≡ length es
unfolding write_entries
length-write_entries at now [] es = refl
length-write_entries at now (p ∷ ps) es =
    length-write_entries (at + 1) now ps _ ∙ length-set es (at % capacity) (stamped now p)

-- `pop` takes the first entry off.
pub contents-pop :
    (q : UdpTxQueue)
    → IsValid q
    → 0 < q.size
    → contents q ≡ get_or q.entries q.head no_entry ∷ contents (pop q)
unfolding contents pop window
contents-pop q v h =
    ap (window q.entries q.head) {x = q.size} {y = suc (q.size - 1)} (omega arith)
    ∙ ap₂ (λ k rest. get_or q.entries k no_entry ∷ rest) {x = q.head % capacity} {y = q.head}
        (omega (arith, v.head_inside))
        (sym (
          window_mod _ ((q.head + 1) % capacity) (q.head + 1) (q.size - 1) (omega arith)
          ∙ ap (λ k. window (set q.entries k e) (q.head + 1) (q.size - 1)) {x = q.head}
              {y = (q.head + capacity) % capacity} (omega (arith, v.head_inside))
          ∙ window-set q.entries (q.head + 1) (q.size - 1) (q.head + capacity) e
              (omega (arith, v.not_over)) (omega arith)))
  where
    e : Entry
    e = record (get_or q.entries q.head no_entry) { wire = [] }
