-- ===== src/Reassembly/Bounds.antt =====
-- After any arrivals the pool is within its limits and its gauges are exact.
use tuntom.Base.{
  ==_iff, Bool-cases, List, Option-cases, [], ap, arith, false, inl, inr, leb, length,
  length-append, ltb, none, not, refl, some, subst, suc, sym, ℕ, ◌+◌, ◌==◌, ◌||◌, ◌∙◌, ◌∷◌, ◌≡◌,
}
use tuntom.Packet.{Packet}
use tuntom.Reassembly.{Reassembler, Limits, create, is_discarded, erase_entry, cleanup_expired}
use tuntom.Reassembly.Entries.{Entry, find, has, remove, contains}
use tuntom.Reassembly.Keys.{
  total, Distinct, find-has, has-find, total-update, length-update, has-update, update-Distinct,
  total-append, has-append, append-Distinct, contains-remove, contains-append, find-update,
}
use tuntom.Reassembly.Accept.{
  accept, accept_fragment, open_message, new_entry, open_entry, add_fragment, evict, is_full, store,
  touch, overlaps, is_invalid, is_whole, count_invalid, count_overlap, count_completed, count_late,
  fragment_limit, count_capacity_drop,
}
use tuntom.Reassembly.Invariant.{
  IsValid, remember-IsValid, erase_entry-IsValid, discard-IsValid, cleanup_expired-IsValid,
  IsKeyed-same,
}
use tuntom.Reassembly.Eviction.{evict-IsValid, evict_room, has-evict}

open_entry-IsValid :
    (r : Reassembler) (id original now : ℕ)
    → IsValid r
    → has id r.entries ≡ false
    → is_full r original ≡ false
    → IsValid (open_entry r id original now)
unfolding open_entry is_full
open_entry-IsValid r id original now v absent room = record {
  sized = ground (
    arith,
    v.sized,
    total-append id (new_entry original now) r.entries,
    length-append r.entries ((id, new_entry original now) ∷ []),
  );
  keyed = record {
    distinct = append-Distinct id (new_entry original now) r.entries absent v.keyed.distinct;
    arrivals = λ j. ground (
      arith,
      contains-append id j r.arrival_order,
      has-append id (new_entry original now) j r.entries,
      v.keyed.arrivals j,
    );
    activities = λ j. ground (
      arith,
      contains-append id j r.activity_order,
      has-append id (new_entry original now) j r.entries,
      v.keyed.activities j,
    );
  };
}

touch-IsValid :
    (r : Reassembler) (id : ℕ) (e e' : Entry)
    → find id r.entries ≡ some e
    → e'.original_length ≡ e.original_length
    → IsValid r
    → IsValid (touch r id e')
unfolding touch
touch-IsValid r id e e' h q v = record {
  sized =
      ground (arith, v.sized, total-update id e e' r.entries h q, length-update id e' r.entries);
  keyed = record {
    distinct = update-Distinct id e' r.entries v.keyed.distinct;
    arrivals = λ j. v.keyed.arrivals j ∙ sym (has-update id j e' r.entries);
    activities = λ j. ground (
      arith,
      contains-append id j (remove id r.activity_order),
      contains-remove id j r.activity_order,
      has-update id j e' r.entries,
      v.keyed.activities j,
      find-has id r.entries e h,
      ==_iff j id,
    );
  };
}

-- Metrics other than the gauges are not part of the invariant.
recount :
    (q r : Reassembler)
    → record r { metrics = q.metrics } ≡ q
    → q.metrics.active_entries ≡ r.metrics.active_entries
    → q.metrics.active_bytes ≡ r.metrics.active_bytes
    → q.metrics.discarded_ids ≡ r.metrics.discarded_ids
    → IsValid r
    → IsValid q
recount q r same a b c v =
    subst IsValid same
      (record { sized = ground (arith, v.sized); keyed = IsKeyed-same _ r refl refl refl v.keyed })

add_fragment-IsValid :
    (r : Reassembler) (p : Packet) (e : Entry) (now : ℕ)
    → find p.message_id r.entries ≡ some e
    → IsValid r
    → IsValid (add_fragment r p e now).0
unfolding add_fragment
add_fragment-IsValid r p e now h v =
    elim (Bool-cases (
      not (e.original_length == p.original_length)
      || leb (fragment_limit p.type) (length e.ranges))) [
        | inl bad ↦ rw bad (
            discard-IsValid (count_invalid r) p.message_id e now h
              (recount (count_invalid r) r refl refl refl refl v))
        | inr good ↦
            elim (Bool-cases
              (overlaps p.fragment_offset (p.fragment_offset + length p.payload) e.ranges)) [
                | inl clash ↦ rw (good, clash) (recount (count_overlap r) r refl refl refl refl v)
                | inr free ↦ elim (Bool-cases (stored.received_bytes == stored.original_length)) [
                  | inr more ↦ rw (good, free, more) touched
                  | inl full ↦
                      rw (good, free, full)
                        (recount (count_completed (erase_entry kept p.message_id stored))
                          (erase_entry kept p.message_id stored) refl refl refl refl
                          (erase_entry-IsValid kept p.message_id stored
                            (unfold touch in
                              find-update p.message_id stored r.entries
                                (find-has p.message_id r.entries e h))
                            touched))
                ]
              ]
      ]
  where
    stored : Entry
    stored = store e p.fragment_offset (p.fragment_offset + length p.payload) p.payload now

    kept : Reassembler
    kept = touch r p.message_id stored

    touched : IsValid kept
    touched = touch-IsValid r p.message_id e stored h (unfold store in refl) v

open_message-IsValid :
    (r : Reassembler) (p : Packet) (now : ℕ)
    → find p.message_id r.entries ≡ none
    → IsValid r
    → IsValid (open_message r p now).0
unfolding open_message
open_message-IsValid r p now absent v = elim (Bool-cases (ltb r.limits.bytes p.original_length)) [
  | inl big ↦ rw big (
      remember-IsValid (count_capacity_drop r) p.message_id now
        (recount (count_capacity_drop r) r refl refl refl refl v))
  | inr small ↦ elim (Option-cases (find p.message_id opened.entries)) [
    | inl missing ↦ rw (small, missing) (ready small)
    | inr (e, found) ↦ rw (small, found) (add_fragment-IsValid opened p e now found (ready small))
  ]
]
  where
    room : Reassembler
    room = evict (suc (length r.arrival_order)) r p.original_length now

    opened : Reassembler
    opened = open_entry room p.message_id p.original_length now

    ready : ltb r.limits.bytes p.original_length ≡ false → IsValid opened
    ready small =
        open_entry-IsValid room p.message_id p.original_length now
          (evict-IsValid (suc (length r.arrival_order)) r p.original_length now v)
          (has-evict (suc (length r.arrival_order)) r p.original_length now p.message_id v
            (has-find p.message_id r.entries absent))
          (evict_room (suc (length r.arrival_order)) r p.original_length now v (ground arith)
            (omega arith))

accept_fragment-IsValid :
    (r : Reassembler) (p : Packet) (now : ℕ) → IsValid r → IsValid (accept_fragment r p now).0
unfolding accept_fragment
accept_fragment-IsValid r p now v =
    elim (Bool-cases (is_discarded p.message_id r.discarded_order)) [
      | inl late ↦ rw late (recount (count_late r) r refl refl refl refl v)
      | inr live ↦ elim (Option-cases (find p.message_id r.entries)) [
        | inl missing ↦ rw (live, missing) (open_message-IsValid r p now missing v)
        | inr (e, found) ↦ rw (live, found) (add_fragment-IsValid r p e now found v)
      ]
    ]

-- Every arrival keeps the limits, the gauges and the orders.
pub accept-IsValid :
    (r : Reassembler) (p : Packet) (now : ℕ) → IsValid r → IsValid (accept r p now).0
unfolding accept
accept-IsValid r p now v = elim (Bool-cases (is_invalid r p)) [
  | inl bad ↦ rw bad (recount (count_invalid r) r refl refl refl refl v)
  | inr good ↦ elim (Bool-cases (is_whole p)) [
    | inl whole ↦ rw (good, whole) v
    | inr piece ↦
        rw (good, piece)
          (accept_fragment-IsValid (cleanup_expired r now) p now (cleanup_expired-IsValid r now v))
  ]
]

-- The pool after a sequence of arrivals.
unfoldable pub run : Reassembler → List (Packet × ℕ) → Reassembler
run r [] = r
run r ((p, now) ∷ rest) = run (accept r p now).0 rest

create-IsValid :
    (maximum : ℕ) (limits : Limits) (r : Reassembler) → create maximum limits ≡ some r → IsValid r
unfolding create contains has total
create-IsValid maximum limits r e = record {
  sized = ground arith;
  keyed = record {
    distinct = subst Distinct (sym empty.0) tt;
    arrivals = λ id. ap (contains id) empty.1 ∙ ap (has id) (sym empty.0);
    activities = λ id. ap (contains id) empty.2 ∙ ap (has id) (sym empty.0);
  };
}
  where
    empty : (r.entries ≡ []) × (r.arrival_order ≡ []) × (r.activity_order ≡ [])
    empty = ground arith

run-IsValid :
    (r : Reassembler) (arrivals : List (Packet × ℕ)) → IsValid r → IsValid (run r arrivals)
unfolding run
run-IsValid r [] v = v
run-IsValid r ((p, now) ∷ rest) v = run-IsValid (accept r p now).0 rest (accept-IsValid r p now v)

-- From a new pool, after any arrivals, the pool holds no more entries, bytes and discarded
-- identifiers than its limits allow, its byte count and gauges are exact, the keys are distinct, and
-- both orders list exactly the keys.
pub run-create-IsValid :
    (maximum : ℕ) (limits : Limits) (r : Reassembler) (arrivals : List (Packet × ℕ))
    → create maximum limits ≡ some r
    → IsValid (run r arrivals)
run-create-IsValid maximum limits r arrivals e =
    run-IsValid r arrivals (create-IsValid maximum limits r e)
