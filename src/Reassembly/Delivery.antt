-- ===== src/Reassembly/Delivery.antt =====
-- What `accept` delivers: the message whose fragments came in, never anything else.
use tuntom.Base.{
  ==_iff, All, Bool-cases, List, Option, Option-cases, [], ap, arith, false, get_or, if◌then◌else◌,
  inl, inr, leb, length, length-replicate, ltb, none, not, refl, some, subst, suc, sym, true, ℕ,
  ◌+◌, ◌==◌, ◌||◌, ◌∙◌, ◌∷◌, ◌≡◌, ◌≤◌,
}
use mathlib.Core.Option.{some-injective}
use tuntom.Packet.{Packet}
use tuntom.Reassembly.{Reassembler, Limits, create, is_discarded, erase_entry, cleanup_expired}
use tuntom.Reassembly.Entries.{Entry, find}
use tuntom.Reassembly.Accept.{
  Answer, accept, accept_fragment, open_message, open_entry, add_fragment, evict, touch, overlaps,
  is_invalid, is_whole, count_invalid, count_completed, fragment_limit, count_capacity_drop,
}
use tuntom.Reassembly.Store.{covers, span}
use tuntom.Reassembly.Message.{
  IsEntry, Holds, IsPart, store-IsEntry, store-Holds, full_lem, list_ext,
}
use tuntom.Reassembly.Pool.{
  AllEntries, find-All, erase-All, update-All, append-All, discard-All, cleanup_expired-All,
  evict-All, entries-remember,
}

no_entries-create :
    (maximum : ℕ) (limits : Limits) (r : Reassembler)
    → create maximum limits ≡ some r
    → r.entries ≡ []
unfolding create
no_entries-create maximum limits r e = ground arith

-- What a run of arrivals delivers, each packet with the identifier of the fragment that ended it.
unfoldable pub deliveries : Reassembler → List (Packet × ℕ) → List (ℕ × List ℕ)
deliveries r [] = []
deliveries r ((p, now) ∷ rest) =
    let (r', answer) = accept r p now in
    elim answer [
      | none ↦ deliveries r' rest
      | some bytes ↦ (p.message_id, bytes) ∷ deliveries r' rest
    ]

-- `messages` gives the message that a sender cut up under each identifier.
module _ (messages : ℕ → List ℕ) where
  abbrev pub Collects : ℕ → Entry → Type 0
  Collects id e = IsEntry e × Holds (messages id) e

  -- A fragment as the sender makes it.
  pub record IsFragment (p : Packet) : Type 0 where
    pub length_sent : p.original_length ≡ length (messages p.message_id)
    pub part : IsPart (messages p.message_id) p.fragment_offset p.payload

  -- The pool goes on collecting, and a packet that is complete is the message.
  abbrev Delivers : ℕ → Answer → Type 0
  Delivers id a =
      AllEntries Collects a.0.entries × ((bytes : List ℕ) → a.1 ≡ some bytes → bytes ≡ messages id)

  silent :
      (id : ℕ) (bytes : List ℕ) → ◌≡◌ {A = Option (List ℕ)} none (some bytes) → bytes ≡ messages id
  silent id bytes e = cc

  store-Delivers :
      (r : Reassembler) (p : Packet) (e e' : Entry)
      → AllEntries Collects r.entries
      → Collects p.message_id e'
      → Delivers p.message_id (
          if not (e'.received_bytes == e'.original_length)
          then (touch r p.message_id e', none)
          else (
            count_completed (erase_entry (touch r p.message_id e') p.message_id e'),
            some e'.buffer,
          ))
  unfolding touch erase_entry
  store-Delivers r p e e' all c = elim (Bool-cases (e'.received_bytes == e'.original_length)) [
    | inr more ↦
        rw more ((update-All Collects p.message_id e' r.entries c all), silent p.message_id)
    | inl full ↦ rw full (
      erase-All Collects p.message_id _ (update-All Collects p.message_id e' r.entries c all),
      λ bytes eq.
          sym (some-injective _ _ eq)
          ∙ full_lem (messages p.message_id) e' c.0 c.1 ((==_iff _ _).0 full),
    )
  ]

  add_fragment-Delivers :
      (r : Reassembler) (p : Packet) (e : Entry) (now : ℕ)
      → IsFragment p
      → p.fragment_offset + length p.payload ≤ p.original_length
      → AllEntries Collects r.entries
      → Collects p.message_id e
      → Delivers p.message_id (add_fragment r p e now)
  unfolding add_fragment
  add_fragment-Delivers r p e now f fits all c =
      elim (Bool-cases (
        not (e.original_length == p.original_length)
        || leb (fragment_limit p.type) (length e.ranges))) [
          | inl bad ↦
              rw bad (
                (discard-All Collects (count_invalid r) p.message_id e now all),
                silent p.message_id,
              )
          | inr good ↦
              elim (Bool-cases
                (overlaps p.fragment_offset (p.fragment_offset + length p.payload) e.ranges)) [
                  | inl clash ↦ rw (good, clash) (all, silent p.message_id)
                  | inr free ↦
                      rw (good, free)
                        (store-Delivers r p e _ all (
                          store-IsEntry e p.fragment_offset p.payload now c.0 (ground arith) free,
                          store-Holds e p.fragment_offset p.payload now (messages p.message_id) c.0
                              c.1 f.part (ground arith),
                        ))
                ]
        ]

  open_entry-All :
      (r : Reassembler) (p : Packet) (now : ℕ)
      → IsFragment p
      → AllEntries Collects r.entries
      → AllEntries Collects (open_entry r p.message_id p.original_length now).entries
  unfolding open_entry
  open_entry-All r p now f all =
      append-All Collects p.message_id _ r.entries
        (
          record {
            sized = length-replicate p.original_length 0;
            apart = tt;
            counted = unfold span in refl;
          },
          record { whole = f.length_sent; same = λ q c. unfold covers in cc },
        )
        all

  open_message-Delivers :
      (r : Reassembler) (p : Packet) (now : ℕ)
      → IsFragment p
      → p.fragment_offset + length p.payload ≤ p.original_length
      → AllEntries Collects r.entries
      → Delivers p.message_id (open_message r p now)
  unfolding open_message
  open_message-Delivers r p now f fits all =
      elim (Bool-cases (ltb r.limits.bytes p.original_length)) [
        | inl big ↦ rw big (
          rw (entries-remember (count_capacity_drop r) p.message_id now) all,
          silent p.message_id,
        )
        | inr small ↦ elim (Option-cases (find p.message_id opened.entries)) [
          | inl missing ↦ rw (small, missing) (ready, silent p.message_id)
          | inr (e, found) ↦
              rw (small, found)
                (add_fragment-Delivers opened p e now f fits ready
                  (find-All Collects p.message_id opened.entries e found ready))
        ]
      ]
    where
      room : Reassembler
      room = evict (suc (length r.arrival_order)) r p.original_length now

      opened : Reassembler
      opened = open_entry room p.message_id p.original_length now

      ready : AllEntries Collects opened.entries
      ready =
          open_entry-All room p now f
            (evict-All Collects (suc (length r.arrival_order)) r p.original_length now all)

  accept_fragment-Delivers :
      (r : Reassembler) (p : Packet) (now : ℕ)
      → IsFragment p
      → p.fragment_offset + length p.payload ≤ p.original_length
      → AllEntries Collects r.entries
      → Delivers p.message_id (accept_fragment r p now)
  unfolding accept_fragment
  accept_fragment-Delivers r p now f fits all =
      elim (Bool-cases (is_discarded p.message_id r.discarded_order)) [
        | inl late ↦ rw late (all, silent p.message_id)
        | inr live ↦ elim (Option-cases (find p.message_id r.entries)) [
          | inl missing ↦ rw (live, missing) (open_message-Delivers r p now f fits all)
          | inr (e, found) ↦
              rw (live, found)
                (add_fragment-Delivers r p e now f fits all
                  (find-All Collects p.message_id r.entries e found all))
        ]
      ]

  is_invalid-fits :
      (r : Reassembler) (p : Packet)
      → is_invalid r p ≡ false
      → p.fragment_offset + length p.payload ≤ p.original_length
  unfolding is_invalid
  is_invalid-fits r p h = ground arith

  whole_lem : (p : Packet) → IsFragment p → is_whole p ≡ true → p.payload ≡ messages p.message_id
  whole_lem p f h =
      list_ext p.payload (messages p.message_id) (ground (arith, f.length_sent))
        λ i k. f.part i k ∙ ap (λ j. get_or (messages p.message_id) j 0) (ground arith)

  -- A pool that collects messages goes on collecting them, and delivers nothing else.
  pub accept-Delivers :
      (r : Reassembler) (p : Packet) (now : ℕ)
      → IsFragment p
      → AllEntries Collects r.entries
      → Delivers p.message_id (accept r p now)
  unfolding accept
  accept-Delivers r p now f all = elim (Bool-cases (is_invalid r p)) [
    | inl bad ↦ rw bad (all, silent p.message_id)
    | inr good ↦ elim (Bool-cases (is_whole p)) [
      | inl whole ↦
          rw (good, whole) (all, λ bytes eq. sym (some-injective _ _ eq) ∙ whole_lem p f whole)
      | inr piece ↦
          rw (good, piece)
            (accept_fragment-Delivers (cleanup_expired r now) p now f (is_invalid-fits r p good)
              (cleanup_expired-All Collects r now all))
    ]
  ]

  deliveries_lem :
      (r : Reassembler) (arrivals : List (Packet × ℕ))
      → All (λ (a : Packet × ℕ). IsFragment a.0) arrivals
      → AllEntries Collects r.entries
      → All (λ (d : ℕ × List ℕ). d.1 ≡ messages d.0) (deliveries r arrivals)
  unfolding deliveries
  deliveries_lem r [] fs all = tt
  deliveries_lem r ((p, now) ∷ rest) fs all = elim (Option-cases (accept r p now).1) [
    | inl silence ↦
        rw (silence, All, deliveries) (deliveries_lem (accept r p now).0 rest fs.1 step.0)
    | inr (bytes, done) ↦
        rw (done, All, deliveries)
          (step.1 bytes done, deliveries_lem (accept r p now).0 rest fs.1 step.0)
  ]
    where
      step : Delivers p.message_id (accept r p now)
      step = accept-Delivers r p now fs.0 all

  -- From a new pool, whatever fragments of whatever messages come in, in any order, repeated, late or
  -- interleaved, each packet that is delivered is the message of its identifier.
  pub delivered_lem :
      (maximum : ℕ) (limits : Limits) (r : Reassembler) (arrivals : List (Packet × ℕ))
      → create maximum limits ≡ some r
      → All (λ (a : Packet × ℕ). IsFragment a.0) arrivals
      → All (λ (d : ℕ × List ℕ). d.1 ≡ messages d.0) (deliveries r arrivals)
  delivered_lem maximum limits r arrivals made fs =
      deliveries_lem r arrivals fs (fresh maximum limits r made)
    where
      fresh :
          (maximum : ℕ) (limits : Limits) (r : Reassembler)
          → create maximum limits ≡ some r
          → AllEntries Collects r.entries
      fresh maximum limits r e =
          subst (AllEntries Collects) (sym (no_entries-create maximum limits r e)) tt
