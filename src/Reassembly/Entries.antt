-- ===== src/Reassembly/Entries.antt =====
-- The entry of a partly received message, and the map and lists that hold entries.
use tuntom.Base.{Bool, List, Option, [], false, if◌then◌else◌, none, some, ℕ, ◌==◌, ◌||◌, ◌∷◌}

pub record Range : Type 0 where
  pub begin : ℕ
  pub end : ℕ

pub record Entry : Type 0 where
  pub original_length : ℕ
  pub buffer : List ℕ
  pub ranges : List Range
  pub received_bytes : ℕ
  pub first_seen : ℕ
  pub last_update : ℕ

abbrev pub Map : Type 0
Map = List (ℕ × Entry)

unfoldable pub find : ℕ → Map → Option Entry
find id [] = none
find id ((k, e) ∷ m) = if id == k then some e else find id m

unfoldable pub has : ℕ → Map → Bool
has id [] = false
has id ((k, e) ∷ m) = id == k || has id m

unfoldable pub erase : ℕ → Map → Map
erase id [] = []
erase id ((k, e) ∷ m) = if id == k then m else (k, e) ∷ erase id m

unfoldable pub update : ℕ → Entry → Map → Map
update id e [] = []
update id e ((k, e') ∷ m) = if id == k then (k, e) ∷ m else (k, e') ∷ update id e m

-- A list without an identifier.
unfoldable pub remove : ℕ → List ℕ → List ℕ
remove id [] = []
remove id (x ∷ xs) = let rest = remove id xs in if id == x then rest else x ∷ rest

unfoldable pub contains : ℕ → List ℕ → Bool
contains id [] = false
contains id (x ∷ xs) = id == x || contains id xs
