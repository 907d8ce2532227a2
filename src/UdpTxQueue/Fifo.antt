-- ===== src/UdpTxQueue/Fifo.antt =====
-- The queue is a FIFO: what the operations do to the list of its entries, and that its counters keep
-- to the limits.
use tuntom.Base.{
  ==_iff, Bool, Bool-cases, List, Option-cases, [], ap, arith, false, get_or, if◌then◌else◌, inl,
  inr, length, length-set, ltb, map, not, refl, some, subst, suc, sym, true, zero, ℕ, ◌&&◌, ◌++◌,
  ◌+◌, ◌-◌, ◌<◌, ◌==◌, ◌||◌, ◌∙◌, ◌∷◌, ◌≡◌, ◌≤◌,
}
use mathlib.Core.Option.{some-injective}
use tuntom.UdpTxQueue.{
  UdpTxQueue, Entry, no_entry, capacity, byte_limit, pop, is_expired, expire_entries, expire,
  count_bytes, drop_packets, admit, append_live, append,
}
use tuntom.UdpTxQueue.Ring.{
  window, contents, total_bytes, IsValid, stamped, contents-pop, length-write_entries,
  window-write_entries,
}

pub pop-IsValid : (q : UdpTxQueue) → IsValid q → 0 < q.size → IsValid (pop q)
unfolding pop total_bytes
pop-IsValid q v h = record {
  slots = length-set q.entries q.head _ ∙ v.slots;
  head_inside = omega arith;
  not_over = omega (arith, v.not_over);
  counted = omega (arith, v.counted, ap total_bytes (contents-pop q v h));
  limited = omega (arith, v.limited);
}

total-append : (xs ys : List Entry) → total_bytes (xs ++ ys) ≡ total_bytes xs + total_bytes ys
unfolding total_bytes
total-append [] ys = omega arith
total-append (x ∷ xs) ys = omega (arith, total-append xs ys)

count_bytes-total :
    (now : ℕ) (ps : List (List ℕ)) (start bytes : ℕ)
    → count_bytes ps start ≡ some bytes
    → bytes ≡ start + total_bytes (map (stamped now) ps)
unfolding count_bytes total_bytes
count_bytes-total now [] start bytes e = ground (arith, some-injective _ _ e)
count_bytes-total now (p ∷ ps) start bytes e =
    elim (Bool-cases (ltb 65535 (length p) || ltb (byte_limit - start) (length p))) [
      | inl big ↦ absurd (refuses big)
      | inr small ↦ omega (arith, count_bytes-total now ps (start + length p) bytes (accepts small))
    ]
  where
    refuses : (ltb 65535 (length p) || ltb (byte_limit - start) (length p)) ≡ true → ⊥
    refuses big = ground (arith, e)

    accepts :
        (ltb 65535 (length p) || ltb (byte_limit - start) (length p)) ≡ false
        → count_bytes ps (start + length p) ≡ some bytes
    accepts small = ground (arith, e)

admit-contents :
    (q : UdpTxQueue) (ps : List (List ℕ)) (bytes now : ℕ)
    → IsValid q
    → length ps ≤ capacity - q.size
    → contents (admit q ps bytes now) ≡ contents q ++ map (stamped now) ps
unfolding admit contents
admit-contents q ps bytes now v room =
    window-write_entries q.entries q.head q.size now ps v.slots (omega (arith, v.not_over, room))

admit-IsValid :
    (q : UdpTxQueue) (ps : List (List ℕ)) (bytes now : ℕ)
    → IsValid q
    → length ps ≤ capacity - q.size
    → bytes ≤ byte_limit - q.bytes
    → bytes ≡ total_bytes (map (stamped now) ps)
    → IsValid (admit q ps bytes now)
unfolding admit
admit-IsValid q ps bytes now v room light total = record {
  slots = length-write_entries (q.head + q.size) now ps q.entries ∙ v.slots;
  head_inside = v.head_inside;
  not_over = omega (arith, v.not_over, room);
  counted = omega (
    arith,
    v.counted,
    total,
    ap total_bytes (admit-contents q ps bytes now v room),
    total-append (contents q) (map (stamped now) ps),
  );
  limited = omega (arith, v.limited, light);
}

-- The entries that are not expired from the first such one on.
unfoldable pub live : ℕ → List Entry → List Entry
live now [] = []
live now (e ∷ rest) = if is_expired now e then live now rest else e ∷ rest

contents_none : (q : UdpTxQueue) → q.size ≡ 0 → contents q ≡ []
unfolding contents window
contents_none q e = ap (window q.entries q.head) e

-- What the round of `expire` asks.
abbrev goes : UdpTxQueue → ℕ → Bool
goes q now = not (q.size == 0) && is_expired now (get_or q.entries q.head no_entry)

abbrev dropped : UdpTxQueue → UdpTxQueue
dropped q = record (pop q) { expired = q.expired + 1 }

expire_step :
    (rounds : ℕ) (q : UdpTxQueue) (now : ℕ)
    → expire_entries (suc rounds) q now
      ≡ (if goes q now then expire_entries rounds (dropped q) now else q)
unfolding expire_entries
expire_step rounds q now = refl

dropped-IsValid :
    (q : UdpTxQueue)
    → IsValid q
    → 0 < q.size
    → IsValid (dropped q)
      × (contents (dropped q) ≡ contents (pop q))
      × ((dropped q).size ≡ q.size - 1)
unfolding contents pop
dropped-IsValid q v h =
    let p : IsValid (pop q) = pop-IsValid q v h in
    (
      record {
        slots = p.slots;
        head_inside = p.head_inside;
        not_over = p.not_over;
        counted = p.counted;
        limited = p.limited;
      },
      refl,
      refl,
    )

live_head :
    (now : ℕ) (e : Entry) (rest : List Entry)
    → live now (e ∷ rest) ≡ (if is_expired now e then live now rest else e ∷ rest)
unfolding live
live_head now e rest = refl

Expires : ℕ → UdpTxQueue → UdpTxQueue → Type 0
Expires now q q' = IsValid q' × (contents q' ≡ live now (contents q))

none_left : (q : UdpTxQueue) (now : ℕ) → IsValid q → q.size ≡ 0 → Expires now q q
unfolding Expires live
none_left q now v e = (v, contents_none q e ∙ sym (ap (live now) (contents_none q e)))

live-contents :
    (q : UdpTxQueue) (now : ℕ)
    → IsValid q
    → 0 < q.size
    → live now (contents q) ≡ (
        if is_expired now (get_or q.entries q.head no_entry)
        then live now (contents (pop q))
        else contents q)
live-contents q now v h =
    ap (live now) (contents-pop q v h)
    ∙ live_head now (get_or q.entries q.head no_entry) (contents (pop q))
    ∙ ap
        (λ c.
          if is_expired now (get_or q.entries q.head no_entry)
          then live now (contents (pop q))
          else c)
        (sym (contents-pop q v h))

expire_entries_lem :
    (rounds : ℕ) (q : UdpTxQueue) (now : ℕ)
    → IsValid q
    → q.size ≤ rounds
    → Expires now q (expire_entries rounds q now)
unfolding Expires
expire_entries_lem zero q now v h = unfold expire_entries in none_left q now v (omega arith)
expire_entries_lem (suc rounds) q now v h = elim (Bool-cases (q.size == 0)) [
  | inl empty ↦
      subst (Expires now q) (sym (expire_step rounds q now ∙ simp empty refl))
        (none_left q now v ((==_iff q.size 0).0 empty))
  | inr some_left ↦ elim (Bool-cases (is_expired now (get_or q.entries q.head no_entry))) [
    | inl old ↦
        let (v', same, less) = dropped-IsValid q v (ground arith) in
        let (valid, lives) =
          expire_entries_lem rounds (dropped q) now v' (omega (arith, less, h)) in
        subst (Expires now q) (sym (expire_step rounds q now ∙ simp (some_left, old) refl)) (
          valid,
          lives ∙ ap (live now) same ∙ sym (live-contents q now v (ground arith) ∙ simp old refl),
        )
    | inr young ↦
        subst (Expires now q) (sym (expire_step rounds q now ∙ simp (some_left, young) refl))
          (v, sym (live-contents q now v (ground arith) ∙ simp young refl))
  ]
]

-- `expire` takes the entries off that are too old, up to the first that is not, and keeps the queue
-- valid.
pub expire_lem :
    (q : UdpTxQueue) (now : ℕ)
    → IsValid q
    → IsValid (expire q now) × (contents (expire q now) ≡ live now (contents q))
unfolding expire Expires
expire_lem q now v = expire_entries_lem q.size q now v (omega arith)

-- What `append` answers for a queue: all packets after the entries, or nothing of them.
unfoldable pub Appends : ℕ → List (List ℕ) → UdpTxQueue → Bool × UdpTxQueue → Type 0
Appends now ps q (admitted, q') =
    IsValid q'
    × (contents q' ≡ (if admitted then contents q ++ map (stamped now) ps else contents q))
    × (q'.size ≤ capacity)
    × (q'.bytes ≤ byte_limit)

dropped_packets :
    (now : ℕ) (ps : List (List ℕ)) (q : UdpTxQueue)
    → IsValid q
    → Appends now ps q (false, drop_packets q (length ps))
unfolding Appends drop_packets contents
dropped_packets now ps q v = (
  record {
    slots = v.slots;
    head_inside = v.head_inside;
    not_over = v.not_over;
    counted = v.counted;
    limited = v.limited;
  },
  refl,
  v.not_over,
  v.limited,
)

admitted_packets :
    (now : ℕ) (ps : List (List ℕ)) (bytes : ℕ) (q : UdpTxQueue)
    → IsValid q
    → count_bytes ps 0 ≡ some bytes
    → length ps ≤ capacity - q.size
    → bytes ≤ byte_limit - q.bytes
    → Appends now ps q (true, admit q ps bytes now)
unfolding Appends
admitted_packets now ps bytes q v counts room light =
    let valid : IsValid (admit q ps bytes now) =
      admit-IsValid q ps bytes now v room light
        (omega (arith, count_bytes-total now ps 0 bytes counts)) in
    (valid, admit-contents q ps bytes now v room, valid.not_over, valid.limited)

append_live_lem :
    (q : UdpTxQueue) (ps : List (List ℕ)) (now : ℕ)
    → IsValid q
    → Appends now ps q (append_live q ps now)
unfolding append_live
append_live_lem q ps now v = elim (Option-cases (count_bytes ps 0)) [
  | inl heavy ↦ rw (heavy, append_live) (dropped_packets now ps q v)
  | inr (bytes, counts) ↦
      elim (Bool-cases (ltb (capacity - q.size) (length ps) || ltb (byte_limit - q.bytes) bytes)) [
        | inl over ↦ rw (counts, over, append_live) (dropped_packets now ps q v)
        | inr fits ↦
            rw (counts, fits, append_live)
              (admitted_packets now ps bytes q v counts (ground arith) (ground arith))
      ]
]

-- On a valid queue, `append` first drops what is too old; then it adds all the packets after the live
-- entries and answers true, or adds none and answers false. The queue stays valid, within 64 entries
-- and 256 KiB.
pub append_lem :
    (q : UdpTxQueue) (ps : List (List ℕ)) (now : ℕ)
    → IsValid q
    → IsValid (append q ps now).1
      × (contents (append q ps now).1 ≡ (
          if (append q ps now).0
          then live now (contents q) ++ map (stamped now) ps
          else live now (contents q)))
      × ((append q ps now).1.size ≤ capacity)
      × ((append q ps now).1.bytes ≤ byte_limit)
unfolding append Appends
append_lem q ps now v =
    let (valid, lives) = expire_lem q now v in
    let (v', c, small, light) = append_live_lem (expire q now) ps now valid in
    (
      v',
      c
          ∙ ap
              (λ es.
                if (append_live (expire q now) ps now).0 then es ++ map (stamped now) ps else es)
              lives,
      small,
      light,
    )
