-- ===== src/Reassembly/Eviction.antt =====
-- `accept` keeps the pool within its limits; eviction makes the room that a new message needs.
use tuntom.Base.{
  Bool-cases, List, List-cases, [], ap, arith, false, inl, inr, length, refl, some, suc, zero, ℕ,
  ◌<◌, ◌∙◌, ◌∷◌, ◌≡◌, ◌≤◌,
}
use tuntom.Reassembly.{Reassembler, erase_entry, discard}
use tuntom.Reassembly.Entries.{Entry, find, has, remove, contains}
use tuntom.Reassembly.Keys.{total, found, has-erase, length-remove}
use tuntom.Reassembly.Pool.{evict_inv, entries-discard}
use tuntom.Reassembly.Accept.{evict, is_full, count_eviction}
use tuntom.Reassembly.Invariant.{IsKeyed, IsValid, discard-IsValid, IsKeyed-same, remember-keys}

remove_first : (id : ℕ) (rest : List ℕ) → remove id (id ∷ rest) ≡ remove id rest
unfolding remove
remove_first id rest = ground arith

no_keys : (r : Reassembler) → IsKeyed r → r.arrival_order ≡ [] → r.entries ≡ []
unfolding has contains
no_keys r k e = elim (List-cases r.entries) [
  | inl none_left ↦ none_left
  | inr ((j, x), m, some_left) ↦
      absurd (ground (arith, k.arrivals j, ap (contains j) e, ap (has j) some_left))
]

first_found :
    (r : Reassembler) (id : ℕ) (rest : List ℕ)
    → IsKeyed r
    → r.arrival_order ≡ id ∷ rest
    → (e : Entry) × (find id r.entries ≡ some e)
unfolding contains
first_found r id rest k h = found id r.entries (ground (arith, k.arrivals id, ap (contains id) h))

evicted-IsValid :
    (r : Reassembler) (id : ℕ) (e : Entry) (now : ℕ)
    → find id r.entries ≡ some e
    → IsValid r
    → IsValid (count_eviction (discard r id e now))
evicted-IsValid r id e now h v = record {
  sized = ground (arith, (discard-IsValid r id e now h v).sized);
  keyed = IsKeyed-same _ (discard r id e now) refl refl refl (discard-IsValid r id e now h v).keyed;
}

pub evict-IsValid :
    (fuel : ℕ) (r : Reassembler) (original now : ℕ)
    → IsValid r
    → IsValid (evict fuel r original now)
evict-IsValid fuel r original now v =
    evict_inv IsValid now original (λ q id e h w. evicted-IsValid q id e now h w) fuel r v

limits-discard :
    (r : Reassembler) (id : ℕ) (e : Entry) (now : ℕ) → (discard r id e now).limits ≡ r.limits
unfolding discard erase_entry
limits-discard r id e now = (remember-keys r id now).3

arrivals-discard :
    (r : Reassembler) (id : ℕ) (e : Entry) (now : ℕ)
    → (discard r id e now).arrival_order ≡ remove id r.arrival_order
unfolding discard erase_entry
arrivals-discard r id e now = ap (remove id) (remember-keys r id now).1

pub limits-evict :
    (fuel : ℕ) (r : Reassembler) (original now : ℕ) → (evict fuel r original now).limits ≡ r.limits
limits-evict fuel r original now =
    evict_inv (λ q. q.limits ≡ r.limits) now original (λ q id e h w. limits-discard q id e now ∙ w)
      fuel r refl

pub has-evict :
    (fuel : ℕ) (r : Reassembler) (original now j : ℕ)
    → IsValid r
    → has j r.entries ≡ false
    → has j (evict fuel r original now).entries ≡ false
has-evict fuel r original now j v h =
    (evict_inv (λ q. IsValid q × (has j q.entries ≡ false)) now original
      (λ q id e f w. (
        evicted-IsValid q id e now f w.0,
        ground
            (arith, entries-discard q id e now, has-erase id j q.entries w.0.keyed.distinct, w.1),
      ))
      fuel r (v, h)).1

empty_room :
    (r : Reassembler) (original : ℕ)
    → IsValid r
    → original ≤ r.limits.bytes
    → r.entries ≡ []
    → is_full r original ≡ false
unfolding is_full total
empty_room r original v h e = ground (arith, v.sized, e, ap total e)

shorter :
    (r : Reassembler) (id : ℕ) (rest : List ℕ) (e : Entry) (now fuel : ℕ)
    → r.arrival_order ≡ id ∷ rest
    → length r.arrival_order < suc fuel
    → length (discard r id e now).arrival_order < fuel
shorter r id rest e now fuel first f =
    ground (arith, arrivals-discard r id e now, first, length-remove id rest, remove_first id rest)

-- In a valid pool, for a message of no more bytes than the pool's limit and with fuel above the length of
-- the arrival order, the eviction loop ends with room for the message.
pub evict_room :
    (fuel : ℕ) (r : Reassembler) (original now : ℕ)
    → IsValid r
    → original ≤ r.limits.bytes
    → length r.arrival_order < fuel
    → is_full (evict fuel r original now) original ≡ false
unfolding evict
evict_room zero r original now v h f = elim f [ ]
evict_room (suc fuel) r original now v h f = elim (List-cases r.arrival_order) [
  | inl none_left ↦ rw (none_left, evict) (empty_room r original v h (no_keys r v.keyed none_left))
  | inr (id, rest, first) ↦
      let (e, hit) = first_found r id rest v.keyed first in
      elim (Bool-cases (is_full r original)) [
        | inr room ↦ rw (first, evict, hit, room) room
        | inl full ↦
            rw (first, evict, hit, full)
              (evict_room fuel (count_eviction (discard r id e now)) original now
                (evicted-IsValid r id e now hit v) (ground (arith, limits-discard r id e now))
                (shorter r id rest e now fuel first f))
      ]
]
