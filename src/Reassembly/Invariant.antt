-- ===== src/Reassembly/Invariant.antt =====
-- The pool stays within its limits, its gauges are exact, and its orders list its entries.
use tuntom.Base.{
  Bool-cases, List-cases, [], ap, arith, inl, inr, leb, length, length-append, refl, some, subst,
  suc, sym, zero, ℕ, ◌+◌, ◌-◌, ◌<◌, ◌∙◌, ◌∷◌, ◌≡◌, ◌≤◌,
}
use tuntom.Reassembly.{
  Reassembler, is_discarded, forget_oldest_discarded, make_room, append_discarded,
  remember_discarded, erase_entry, discard, expire_discarded, count_expired, cleanup_expired,
  timeout,
}
use tuntom.Reassembly.Entries.{Entry, find, has, contains}
use tuntom.Reassembly.Keys.{
  total, Distinct, total-erase, length-erase, has-erase, erase-Distinct, contains-remove,
}
use tuntom.Reassembly.Pool.{expire_entries_inv}

-- Limits, byte counts and gauges.
pub record IsSized (r : Reassembler) : Type 0 where
  pub some_entries : 0 < r.limits.entries
  pub some_discarded : 0 < r.limits.discarded_ids
  pub entries_bound : length r.entries ≤ r.limits.entries
  pub bytes_bound : r.total_bytes ≤ r.limits.bytes
  pub discarded_bound : length r.discarded_order ≤ r.limits.discarded_ids
  pub bytes_exact : r.total_bytes ≡ total r.entries
  pub gauge_entries : r.metrics.active_entries ≡ length r.entries
  pub gauge_bytes : r.metrics.active_bytes ≡ r.total_bytes
  pub gauge_discarded : r.metrics.discarded_ids ≡ length r.discarded_order

-- Keys are distinct, and each order lists the keys.
pub record IsKeyed (r : Reassembler) : Type 0 where
  pub distinct : Distinct r.entries
  pub arrivals : (id : ℕ) → contains id r.arrival_order ≡ has id r.entries
  pub activities : (id : ℕ) → contains id r.activity_order ≡ has id r.entries

pub record IsValid (r : Reassembler) : Type 0 where
  pub sized : IsSized r
  pub keyed : IsKeyed r

forget-IsSized : (r : Reassembler) → IsSized r → IsSized (forget_oldest_discarded r)
unfolding forget_oldest_discarded
forget-IsSized r v = elim (List-cases r.discarded_order) [
  | inl e ↦ rw (e, forget_oldest_discarded) v
  | inr (d, ds, e) ↦ rw (e, forget_oldest_discarded) (ground (arith, e, v))
]

forget-keys :
    (r : Reassembler)
    → ((forget_oldest_discarded r).entries ≡ r.entries)
      × ((forget_oldest_discarded r).arrival_order ≡ r.arrival_order)
      × ((forget_oldest_discarded r).activity_order ≡ r.activity_order)
      × ((forget_oldest_discarded r).limits ≡ r.limits)
unfolding forget_oldest_discarded
forget-keys r = elim (List-cases r.discarded_order) [
  | inl e ↦ rw (e, forget_oldest_discarded) (refl, refl, refl, refl)
  | inr (d, ds, e) ↦ rw (e, forget_oldest_discarded) (refl, refl, refl, refl)
]

length-forget :
    (r : Reassembler)
    → length (forget_oldest_discarded r).discarded_order ≡ length r.discarded_order - 1
unfolding forget_oldest_discarded
length-forget r = elim (List-cases r.discarded_order) [
  | inl e ↦ rw (e, forget_oldest_discarded) (ground (arith, e))
  | inr (d, ds, e) ↦ rw (e, forget_oldest_discarded) (ground (arith, e))
]

make_room-IsSized :
    (r : Reassembler)
    → IsSized r
    → IsSized (make_room r)
      × (length (make_room r).discarded_order < (make_room r).limits.discarded_ids)
unfolding make_room
make_room-IsSized r v = elim (Bool-cases (leb r.limits.discarded_ids (length r.discarded_order))) [
  | inl full ↦
      rw full
        (ground (arith, forget-IsSized r v), ground (arith, length-forget r, forget-keys r, v))
  | inr room ↦ rw room (v, ground arith)
]

remember-IsSized :
    (r : Reassembler) (id now : ℕ) → IsSized r → IsSized (remember_discarded r id now)
unfolding remember_discarded append_discarded
remember-IsSized r id now v = elim (Bool-cases (is_discarded id r.discarded_order)) [
  | inl old ↦ rw old v
  | inr new ↦ rw new (sized_append (make_room r) (make_room-IsSized r v))
]
  where
    sized_append :
        (q : Reassembler)
        → IsSized q × (length q.discarded_order < q.limits.discarded_ids)
        → IsSized (append_discarded q (record { id = id; expires = now + timeout }))
    sized_append q (s, h) = ground (
      arith,
      s,
      h,
      length-append q.discarded_order (record { id = id; expires = now + timeout } ∷ []),
    )

pub remember-keys :
    (r : Reassembler) (id now : ℕ)
    → ((remember_discarded r id now).entries ≡ r.entries)
      × ((remember_discarded r id now).arrival_order ≡ r.arrival_order)
      × ((remember_discarded r id now).activity_order ≡ r.activity_order)
      × ((remember_discarded r id now).limits ≡ r.limits)
unfolding remember_discarded make_room append_discarded
remember-keys r id now = ground (arith, forget-keys r)

erase_entry-IsSized :
    (r : Reassembler) (id : ℕ) (e : Entry)
    → find id r.entries ≡ some e
    → IsSized r
    → IsSized (erase_entry r id e)
unfolding erase_entry
erase_entry-IsSized r id e h v =
    ground (arith, v, total-erase id r.entries e h, length-erase id r.entries e h)

erase_entry-IsKeyed :
    (r : Reassembler) (id : ℕ) (e : Entry) → IsKeyed r → IsKeyed (erase_entry r id e)
unfolding erase_entry
erase_entry-IsKeyed r id e k = record {
  distinct = erase-Distinct id r.entries k.distinct;
  arrivals = λ j. ground (
    arith,
    contains-remove id j r.arrival_order,
    has-erase id j r.entries k.distinct,
    k.arrivals j,
  );
  activities = λ j. ground (
    arith,
    contains-remove id j r.activity_order,
    has-erase id j r.entries k.distinct,
    k.activities j,
  );
}

-- A pool with the same entries and orders is as well keyed.
pub IsKeyed-same :
    (q r : Reassembler)
    → q.entries ≡ r.entries
    → q.arrival_order ≡ r.arrival_order
    → q.activity_order ≡ r.activity_order
    → IsKeyed r
    → IsKeyed q
IsKeyed-same q r e a b k = record {
  distinct = subst Distinct (sym e) k.distinct;
  arrivals = λ j. ap (contains j) a ∙ k.arrivals j ∙ ap (has j) (sym e);
  activities = λ j. ap (contains j) b ∙ k.activities j ∙ ap (has j) (sym e);
}

pub remember-IsValid :
    (r : Reassembler) (id now : ℕ) → IsValid r → IsValid (remember_discarded r id now)
remember-IsValid r id now v = record {
  sized = remember-IsSized r id now v.sized;
  keyed = IsKeyed-same _ r same.0 same.1 same.2 v.keyed;
}
  where
    same :
        ((remember_discarded r id now).entries ≡ r.entries)
        × ((remember_discarded r id now).arrival_order ≡ r.arrival_order)
        × ((remember_discarded r id now).activity_order ≡ r.activity_order)
        × ((remember_discarded r id now).limits ≡ r.limits)
    same = remember-keys r id now

pub erase_entry-IsValid :
    (r : Reassembler) (id : ℕ) (e : Entry)
    → find id r.entries ≡ some e
    → IsValid r
    → IsValid (erase_entry r id e)
erase_entry-IsValid r id e h v = record {
  sized = erase_entry-IsSized r id e h v.sized;
  keyed = erase_entry-IsKeyed r id e v.keyed;
}

pub discard-IsValid :
    (r : Reassembler) (id : ℕ) (e : Entry) (now : ℕ)
    → find id r.entries ≡ some e
    → IsValid r
    → IsValid (discard r id e now)
unfolding discard
discard-IsValid r id e now h v =
    erase_entry-IsValid (remember_discarded r id now) id e
      (ap (find id) ((remember-keys r id now).0) ∙ h) (remember-IsValid r id now v)

-- A counter is not part of the invariant.
count_expired-IsValid : (r : Reassembler) → IsValid r → IsValid (count_expired r)
unfolding count_expired
count_expired-IsValid r v = record {
  sized = ground (arith, v.sized);
  keyed = IsKeyed-same _ r refl refl refl v.keyed;
}

expire_discarded-IsValid :
    (fuel : ℕ) (r : Reassembler) (now : ℕ) → IsValid r → IsValid (expire_discarded fuel r now)
unfolding expire_discarded
expire_discarded-IsValid zero r now v = v
expire_discarded-IsValid (suc fuel) r now v = elim (List-cases r.discarded_order) [
  | inl e ↦ rw (e, expire_discarded) v
  | inr (d, ds, e) ↦ elim (Bool-cases (leb d.expires now)) [
    | inl old ↦
        rw (e, expire_discarded, old)
          (expire_discarded-IsValid fuel (forget_oldest_discarded r) now (record {
            sized = forget-IsSized r v.sized;
            keyed = IsKeyed-same _ r (forget-keys r).0 (forget-keys r).1 (forget-keys r).2 v.keyed;
          }))
    | inr fresh ↦ rw (e, expire_discarded, fresh) v
  ]
]

pub cleanup_expired-IsValid :
    (r : Reassembler) (now : ℕ) → IsValid r → IsValid (cleanup_expired r now)
unfolding cleanup_expired
cleanup_expired-IsValid r now v =
    expire_entries_inv IsValid now
      (λ q id e h w. count_expired-IsValid _ (discard-IsValid q id e now h w))
      (length dropped.activity_order) dropped
      (expire_discarded-IsValid (length r.discarded_order) r now v)
  where
    dropped : Reassembler
    dropped = expire_discarded (length r.discarded_order) r now
