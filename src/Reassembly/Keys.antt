-- ===== src/Reassembly/Keys.antt =====
-- The map and the order lists of the pool.
use tuntom.Base.{
  Bool-cases, List, Option-cases, [], arith, false, if◌then◌else◌, inl, inr, length, none, refl,
  some, true, ℕ, ◌++◌, ◌+◌, ◌==◌, ◌||◌, ◌∙◌, ◌∷◌, ◌≡◌, ◌≤◌,
}
use tuntom.Reassembly.Entries.{Entry, Map, find, has, erase, update, remove, contains}

-- The bytes that the entries hold.
unfoldable pub total : Map → ℕ
total [] = 0
total ((k, e) ∷ m) = e.original_length + total m

abbrev pub Distinct : Map → Type 0
Distinct [] = Unit {0}
Distinct ((k, e) ∷ m) = (has k m ≡ false) × Distinct m

pub find-has : (id : ℕ) (m : Map) (e : Entry) → find id m ≡ some e → has id m ≡ true
unfolding find has
find-has id [] e h = cc
find-has id ((k, x) ∷ m) e h = ground (arith, find-has id m e)

pub has-find : (id : ℕ) (m : Map) → find id m ≡ none → has id m ≡ false
unfolding find has
has-find id [] h = refl
has-find id ((k, x) ∷ m) h = ground (arith, has-find id m)

pub found : (id : ℕ) (m : Map) → has id m ≡ true → (e : Entry) × (find id m ≡ some e)
found id m h = elim (Option-cases (find id m)) [
  | inl missing ↦ absurd (ground (arith, has-find id m))
  | inr (e, hit) ↦ (e, hit)
]

pub total-erase :
    (id : ℕ) (m : Map) (e : Entry)
    → find id m ≡ some e
    → total (erase id m) + e.original_length ≡ total m
unfolding find erase total
total-erase id [] e h = cc
total-erase id ((k, x) ∷ m) e h = ground (arith, total-erase id m e)

pub length-erase :
    (id : ℕ) (m : Map) (e : Entry) → find id m ≡ some e → length (erase id m) + 1 ≡ length m
unfolding find erase
length-erase id [] e h = cc
length-erase id ((k, x) ∷ m) e h = ground (arith, length-erase id m e)

pub has-erase :
    (id j : ℕ) (m : Map) → Distinct m → has j (erase id m) ≡ (if j == id then false else has j m)
unfolding has erase
has-erase id j [] d = ground arith
has-erase id j ((k, x) ∷ m) d = ground (arith, has-erase id j m d.1)

pub erase-Distinct : (id : ℕ) (m : Map) → Distinct m → Distinct (erase id m)
unfolding erase
erase-Distinct id [] d = tt
erase-Distinct id ((k, x) ∷ m) d = elim (Bool-cases (id == k)) [
  | inl hit ↦ rw hit d.1
  | inr miss ↦ rw miss (ground (arith, has-erase id k m d.1), erase-Distinct id m d.1)
]

pub total-update :
    (id : ℕ) (e e' : Entry) (m : Map)
    → find id m ≡ some e
    → e'.original_length ≡ e.original_length
    → total (update id e' m) ≡ total m
unfolding find update total
total-update id e e' [] h q = refl
total-update id e e' ((k, x) ∷ m) h q = ground (arith, total-update id e e' m)

pub length-update : (id : ℕ) (e : Entry) (m : Map) → length (update id e m) ≡ length m
unfolding update
length-update id e [] = refl
length-update id e ((k, x) ∷ m) = ground (arith, length-update id e m)

pub has-update : (id j : ℕ) (e : Entry) (m : Map) → has j (update id e m) ≡ has j m
unfolding has update
has-update id j e [] = refl
has-update id j e ((k, x) ∷ m) = ground (arith, has-update id j e m)

pub update-Distinct : (id : ℕ) (e : Entry) (m : Map) → Distinct m → Distinct (update id e m)
unfolding update
update-Distinct id e [] d = tt
update-Distinct id e ((k, x) ∷ m) d = elim (Bool-cases (id == k)) [
  | inl hit ↦ rw hit d
  | inr miss ↦ rw miss (has-update id k e m ∙ d.0, update-Distinct id e m d.1)
]

pub find-update :
    (id : ℕ) (e : Entry) (m : Map) → has id m ≡ true → find id (update id e m) ≡ some e
unfolding find has update
find-update id e [] h = cc
find-update id e ((k, x) ∷ m) h = ground (arith, find-update id e m)

module _ (id : ℕ) (e : Entry) where
  pub total-append : (m : Map) → total (m ++ ((id, e) ∷ [])) ≡ total m + e.original_length
  unfolding total
  total-append [] = omega arith
  total-append ((k, x) ∷ m) = omega (arith, total-append m)

  pub has-append : (j : ℕ) (m : Map) → has j (m ++ ((id, e) ∷ [])) ≡ (has j m || j == id)
  unfolding has
  has-append j [] = ground arith
  has-append j ((k, x) ∷ m) = ground (arith, has-append j m)

  pub append-Distinct : (m : Map) → has id m ≡ false → Distinct m → Distinct (m ++ ((id, e) ∷ []))
  unfolding has
  append-Distinct [] h d = (refl, tt)
  append-Distinct ((k, x) ∷ m) h d =
      (ground (arith, has-append k m), append-Distinct m (ground arith) d.1)

  pub find-append : (m : Map) → find id m ≡ none → find id (m ++ ((id, e) ∷ [])) ≡ some e
  unfolding find
  find-append [] h = ground arith
  find-append ((k, x) ∷ m) h = ground (arith, find-append m)

pub contains-remove :
    (id j : ℕ) (xs : List ℕ)
    → contains j (remove id xs) ≡ (if j == id then false else contains j xs)
unfolding contains remove
contains-remove id j [] = ground arith
contains-remove id j (x ∷ xs) = ground (arith, contains-remove id j xs)

pub contains-append :
    (id j : ℕ) (xs : List ℕ) → contains j (xs ++ (id ∷ [])) ≡ (contains j xs || j == id)
unfolding contains
contains-append id j [] = ground arith
contains-append id j (x ∷ xs) = ground (arith, contains-append id j xs)

pub length-remove : (id : ℕ) (xs : List ℕ) → length (remove id xs) ≤ length xs
unfolding remove
length-remove id [] = omega arith
length-remove id (x ∷ xs) = ground (arith, length-remove id xs)
