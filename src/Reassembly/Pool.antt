-- ===== src/Reassembly/Pool.antt =====
-- What holds of every entry of the pool, and which operations keep it: those that only take entries
-- out, and those that put a new one in.
use tuntom.Base.{
  ==_iff, Bool-cases, List-cases, Option-cases, [], ap, arith, inl, inr, length, ltb, refl, some,
  subst, suc, sym, zero, ℕ, ◌++◌, ◌-◌, ◌==◌, ◌∷◌, ◌≡◌,
}
use tuntom.Reassembly.{
  Reassembler, forget_oldest_discarded, make_room, append_discarded, remember_discarded,
  erase_entry, discard, expire_discarded, count_expired, expire_entries, cleanup_expired, timeout,
}
use tuntom.Reassembly.Entries.{Entry, Map, find, erase, update}
use tuntom.Reassembly.Accept.{evict, count_eviction, is_full}

-- `P` of every entry under its key.
abbrev pub AllEntries : (ℕ → Entry → Type 0) → Map → Type 0
AllEntries P [] = Unit {0}
AllEntries P ((k, e) ∷ m) = P k e × AllEntries P m

pub entries-forget : (r : Reassembler) → (forget_oldest_discarded r).entries ≡ r.entries
unfolding forget_oldest_discarded
entries-forget r = ground arith

pub entries-remember :
    (r : Reassembler) (id now : ℕ) → (remember_discarded r id now).entries ≡ r.entries
unfolding remember_discarded make_room append_discarded
entries-remember r id now = ground (arith, entries-forget r)

pub entries-discard :
    (r : Reassembler) (id : ℕ) (e : Entry) (now : ℕ)
    → (discard r id e now).entries ≡ erase id r.entries
unfolding discard erase_entry
entries-discard r id e now = ap (erase id) (entries-remember r id now)

pub entries-expire_discarded :
    (fuel : ℕ) (r : Reassembler) (now : ℕ) → (expire_discarded fuel r now).entries ≡ r.entries
unfolding expire_discarded
entries-expire_discarded zero r now = refl
entries-expire_discarded (suc fuel) r now =
    ground (arith, entries-expire_discarded fuel (forget_oldest_discarded r) now, entries-forget r)

-- The invariant rules of the two loops: each round discards one entry of the pool.
module _ {ℓ} (Q : Reassembler → Type ℓ) (now : ℕ) where
  pub expire_entries_inv :
      ((r : Reassembler) (id : ℕ) (e : Entry)
        → find id r.entries ≡ some e
        → Q r
        → Q (count_expired (discard r id e now)))
      → (fuel : ℕ) (r : Reassembler) → Q r
      → Q (expire_entries fuel r now)
  unfolding expire_entries
  expire_entries_inv keep zero r q = q
  expire_entries_inv keep (suc fuel) r q = elim (List-cases r.activity_order) [
    | inl none_left ↦ rw (none_left, expire_entries) q
    | inr (id, rest, first) ↦ elim (Option-cases (find id r.entries)) [
      | inl missing ↦ rw (first, expire_entries, missing) q
      | inr (e, found) ↦ elim (Bool-cases (ltb (now - e.last_update) timeout)) [
        | inl fresh ↦ rw (first, expire_entries, found, fresh) q
        | inr old ↦
            rw (first, expire_entries, found, old)
              (expire_entries_inv keep fuel (count_expired (discard r id e now))
                (keep r id e found q))
      ]
    ]
  ]

  pub evict_inv :
      (original : ℕ)
      → ((r : Reassembler) (id : ℕ) (e : Entry)
          → find id r.entries ≡ some e
          → Q r
          → Q (count_eviction (discard r id e now)))
      → (fuel : ℕ) (r : Reassembler) → Q r
      → Q (evict fuel r original now)
  unfolding evict
  evict_inv original keep zero r q = q
  evict_inv original keep (suc fuel) r q = elim (List-cases r.arrival_order) [
    | inl none_left ↦ rw (none_left, evict) q
    | inr (id, rest, first) ↦ elim (Option-cases (find id r.entries)) [
      | inl missing ↦ rw (first, evict, missing) q
      | inr (e, found) ↦ elim (Bool-cases (is_full r original)) [
        | inr room ↦ rw (first, evict, found, room) q
        | inl full ↦
            rw (first, evict, found, full)
              (evict_inv original keep fuel (count_eviction (discard r id e now))
                (keep r id e found q))
      ]
    ]
  ]

module _ (P : ℕ → Entry → Type 0) where
  pub find-All : (id : ℕ) (m : Map) (e : Entry) → find id m ≡ some e → AllEntries P m → P id e
  unfolding find
  find-All id [] e h all = cc
  find-All id ((k, e') ∷ m) e h all = elim (Bool-cases (id == k)) [
    | inl hit ↦ subst (P id) (ground arith) (subst (λ j. P j e') (sym ((==_iff id k).0 hit)) all.0)
    | inr miss ↦ find-All id m e (ground arith) all.1
  ]

  pub erase-All : (id : ℕ) (m : Map) → AllEntries P m → AllEntries P (erase id m)
  unfolding erase
  erase-All id [] all = tt
  erase-All id ((k, e') ∷ m) all = elim (Bool-cases (id == k)) [
    | inl hit ↦ rw hit all.1
    | inr miss ↦ rw miss (all.0, erase-All id m all.1)
  ]

  pub update-All :
      (id : ℕ) (e : Entry) (m : Map) → P id e → AllEntries P m → AllEntries P (update id e m)
  unfolding update
  update-All id e [] p all = tt
  update-All id e ((k, e') ∷ m) p all = elim (Bool-cases (id == k)) [
    | inl hit ↦ rw hit (subst (λ j. P j e) ((==_iff id k).0 hit) p, all.1)
    | inr miss ↦ rw miss (all.0, update-All id e m p all.1)
  ]

  pub append-All :
      (id : ℕ) (e : Entry) (m : Map) → P id e → AllEntries P m → AllEntries P (m ++ ((id, e) ∷ []))
  append-All id e [] p all = (p, tt)
  append-All id e ((k, e') ∷ m) p all = (all.0, append-All id e m p all.1)

  pub discard-All :
      (r : Reassembler) (id : ℕ) (e : Entry) (now : ℕ)
      → AllEntries P r.entries
      → AllEntries P (discard r id e now).entries
  discard-All r id e now all = rw (entries-discard r id e now) (erase-All id r.entries all)

  pub cleanup_expired-All :
      (r : Reassembler) (now : ℕ)
      → AllEntries P r.entries
      → AllEntries P (cleanup_expired r now).entries
  unfolding cleanup_expired
  cleanup_expired-All r now all =
      expire_entries_inv (λ q. AllEntries P q.entries) now
        (λ q id e found h. discard-All q id e now h) (length dropped.activity_order) dropped
        (rw (entries-expire_discarded (length r.discarded_order) r now) all)
    where
      dropped : Reassembler
      dropped = expire_discarded (length r.discarded_order) r now

  pub evict-All :
      (fuel : ℕ) (r : Reassembler) (original now : ℕ)
      → AllEntries P r.entries
      → AllEntries P (evict fuel r original now).entries
  evict-All fuel r original now all =
      evict_inv (λ q. AllEntries P q.entries) now original
        (λ q id e found h. discard-All q id e now h) fuel r all
