-- ===== src/Reassembly/Store.antt =====
-- One entry: fragments of a message, stored apart, fill its buffer with the message.
use tuntom.Base.{
  Bool, List, [], ap, arith, count, count-inside, count-or, count_full, false, get_or,
  if◌then◌else◌, inside, length, ltb, refl, suc, true, zero, ℕ, ◌&&◌, ◌++◌, ◌+◌, ◌-◌, ◌<◌, ◌||◌,
  ◌∙◌, ◌∷◌, ◌≡◌, ◌≤◌,
}
use tuntom.Reassembly.Entries.{Range}
use tuntom.Reassembly.Accept.{overlaps, copy_at}

unfoldable pub covers : List Range → ℕ → Bool
unfolding inside
covers [] p = false
covers (r ∷ rs) p = inside r.begin r.end p || covers rs p

unfoldable pub span : List Range → ℕ
span [] = 0
span (r ∷ rs) = (r.end - r.begin) + span rs

-- No two ranges overlap, and each lies in a message of `n` bytes.
abbrev pub AreApart : ℕ → List Range → Type 0
AreApart n [] = Unit {0}
AreApart n (r ∷ rs) =
    (r.begin ≤ r.end) × (r.end ≤ n) × (overlaps r.begin r.end rs ≡ false) × AreApart n rs

overlaps-append :
    (begin end : ℕ) (rs : List Range) (r : Range)
    → overlaps begin end rs ≡ false
    → (ltb begin r.end && ltb r.begin end) ≡ false
    → overlaps begin end (rs ++ (r ∷ [])) ≡ false
unfolding overlaps
overlaps-append begin end [] r h k = ground arith
overlaps-append begin end (x ∷ rs) r h k = ground (arith, overlaps-append begin end rs r)

pub AreApart-append :
    (n : ℕ) (rs : List Range) (r : Range)
    → AreApart n rs
    → r.begin ≤ r.end
    → r.end ≤ n
    → overlaps r.begin r.end rs ≡ false
    → AreApart n (rs ++ (r ∷ []))
unfolding overlaps
AreApart-append n [] r a o m h = (o, m, refl, tt)
AreApart-append n (x ∷ rs) r a o m h = (
  a.0,
  a.1,
  overlaps-append x.begin x.end rs r a.2 (ground arith),
  AreApart-append n rs r a.3 o m (ground arith),
)

pub covers-append :
    (rs : List Range) (r : Range) (p : ℕ)
    → covers (rs ++ (r ∷ [])) p ≡ (covers rs p || inside r.begin r.end p)
unfolding covers
covers-append [] r p = ground arith
covers-append (x ∷ rs) r p = ground (arith, covers-append rs r p)

pub span-append :
    (rs : List Range) (r : Range) → span (rs ++ (r ∷ [])) ≡ span rs + (r.end - r.begin)
unfolding span
span-append [] r = omega arith
span-append (x ∷ rs) r = omega (arith, span-append rs r)

disjoint_lem :
    (begin end : ℕ) (rs : List Range) (p : ℕ)
    → overlaps begin end rs ≡ false
    → (inside begin end p && covers rs p) ≡ false
unfolding overlaps covers inside
disjoint_lem begin end [] p h = ground arith
disjoint_lem begin end (x ∷ rs) p h = ground (arith, disjoint_lem begin end rs p)

count_none : (n : ℕ) → count n (covers []) ≡ 0
unfolding count covers
count_none zero = refl
count_none (suc n) = omega (arith, count_none n)

count-covers : (n : ℕ) (rs : List Range) → AreApart n rs → count n (covers rs) ≡ span rs
unfolding covers span
count-covers n [] a = count_none n
count-covers n (r ∷ rs) a = omega (
  arith,
  count-or n (inside r.begin r.end) (covers rs) (λ p. disjoint_lem r.begin r.end rs p a.2),
  count-inside n r.begin r.end a.0,
  count-covers n rs a.3,
  a.0,
  a.1,
)

-- Ranges that lie apart and are as long as the message cover it.
pub covers_all :
    (n : ℕ) (rs : List Range) (p : ℕ) → AreApart n rs → span rs ≡ n → p < n → covers rs p ≡ true
covers_all n rs p a e h = count_full n (covers rs) p (count-covers n rs a ∙ e) h

pub length-copy_at :
    (at : ℕ) (xs buffer : List ℕ)
    → at + length xs ≤ length buffer
    → length (copy_at at xs buffer) ≡ length buffer
unfolding copy_at
length-copy_at zero [] buffer h = refl
length-copy_at zero (x ∷ xs) [] h = refl
length-copy_at zero (x ∷ xs) (b ∷ buffer) h = ap suc (length-copy_at zero xs buffer (omega arith))
length-copy_at (suc at) xs [] h = refl
length-copy_at (suc at) xs (b ∷ buffer) h = ap suc (length-copy_at at xs buffer (omega arith))

-- A copied byte stands at its place, every other byte is as before.
pub get_or-copy_at :
    (at : ℕ) (xs buffer : List ℕ) (p : ℕ)
    → at + length xs ≤ length buffer
    → get_or (copy_at at xs buffer) p 0
      ≡ (if inside at (at + length xs) p then get_or xs (p - at) 0 else get_or buffer p 0)
unfolding copy_at inside
get_or-copy_at zero [] buffer p h = ground arith
get_or-copy_at zero (x ∷ xs) [] p h = absurd (omega arith)
get_or-copy_at zero (x ∷ xs) (b ∷ buffer) zero h = ground arith
get_or-copy_at zero (x ∷ xs) (b ∷ buffer) (suc p) h =
    rw (get_or-copy_at zero xs buffer p (omega arith)) (ground arith)
get_or-copy_at (suc at) xs [] p h = absurd (omega arith)
get_or-copy_at (suc at) xs (b ∷ buffer) zero h = ground arith
get_or-copy_at (suc at) xs (b ∷ buffer) (suc p) h =
    rw (get_or-copy_at at xs buffer p (omega arith)) (ground arith)
