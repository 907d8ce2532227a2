-- ===== src/Reassembly/Message.antt =====
-- One entry against the message whose fragments it collects.
use tuntom.Base.{
  List, [], ap₂, arith, false, get_or, inside, length, refl, suc, true, ℕ, ◌+◌, ◌-◌, ◌<◌, ◌∙◌, ◌∷◌,
  ◌≡◌, ◌≤◌,
}
use tuntom.Reassembly.Entries.{Entry}
use tuntom.Reassembly.Accept.{overlaps, store}
use tuntom.Reassembly.Store.{
  covers, covers-append, span, span-append, AreApart, AreApart-append, covers_all, length-copy_at,
  get_or-copy_at,
}

pub record IsEntry (e : Entry) : Type 0 where
  pub sized : length e.buffer ≡ e.original_length
  pub apart : AreApart e.original_length e.ranges
  pub counted : e.received_bytes ≡ span e.ranges

-- Every byte that a range covers is the message's.
pub record Holds (message : List ℕ) (e : Entry) : Type 0 where
  pub whole : e.original_length ≡ length message
  pub same : (p : ℕ) → covers e.ranges p ≡ true → get_or e.buffer p 0 ≡ get_or message p 0

-- `payload` is the message's from `offset` on.
abbrev pub IsPart : List ℕ → ℕ → List ℕ → Type 0
IsPart message offset payload =
    (i : ℕ) → i < length payload → get_or payload i 0 ≡ get_or message (offset + i) 0

module _ (e : Entry) (offset : ℕ) (payload : List ℕ) (now : ℕ) where
  pub store-IsEntry :
      IsEntry e
      → offset + length payload ≤ e.original_length
      → overlaps offset (offset + length payload) e.ranges ≡ false
      → IsEntry (store e offset (offset + length payload) payload now)
  unfolding store
  store-IsEntry v h apart = record {
    sized = length-copy_at offset payload e.buffer (omega (arith, v.sized)) ∙ v.sized;
    apart = AreApart-append e.original_length e.ranges _ v.apart (omega arith) h apart;
    counted = omega (
      arith,
      span-append e.ranges (record { begin = offset; end = offset + length payload }),
      v.counted,
    );
  }

  pub store-Holds :
      (message : List ℕ)
      → IsEntry e
      → Holds message e
      → IsPart message offset payload
      → offset + length payload ≤ e.original_length
      → Holds message (store e offset (offset + length payload) payload now)
  unfolding store inside
  store-Holds message v m part h = record {
    whole = m.whole;
    same = λ p c. ground (
      arith,
      get_or-copy_at offset payload e.buffer p,
      covers-append e.ranges (record { begin = offset; end = offset + length payload }) p,
      part (p - offset),
      m.same p,
      v.sized,
    );
  }

pub list_ext :
    (xs ys : List ℕ)
    → length xs ≡ length ys
    → ((p : ℕ) → p < length xs → get_or xs p 0 ≡ get_or ys p 0)
    → xs ≡ ys
list_ext [] [] e h = refl
list_ext [] (y ∷ ys) e h = absurd (omega arith)
list_ext (x ∷ xs) [] e h = absurd (omega arith)
list_ext (x ∷ xs) (y ∷ ys) e h =
    ap₂ ◌∷◌ (h 0 (omega arith)) (list_ext xs ys (omega arith) (λ p k. h (suc p) (omega arith)))

-- A full entry holds the message.
pub full_lem :
    (message : List ℕ) (e : Entry)
    → IsEntry e
    → Holds message e
    → e.received_bytes ≡ e.original_length
    → e.buffer ≡ message
full_lem message e v m full = list_ext e.buffer message (v.sized ∙ m.whole) λ p h. m.same p (
    covers_all e.original_length e.ranges p v.apart (omega (arith, v.counted))
      (omega (arith, v.sized)))
