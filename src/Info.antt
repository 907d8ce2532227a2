-- ===== src/Info.antt =====
-- src/info_codec.hpp: the fields of an INFO packet, lines of `key=value`. A map of fields is the list of
-- its entries in the order of insertion; a key occurs once.
use tuntom.Base.{
  Bool, List, Option, [], bytes_equal, false, if◌then◌else◌, leb, length, ltb, none, not, some, suc,
  true, zero, ℕ, ◌&&◌, ◌++◌, ◌==◌, ◌||◌, ◌∷◌,
}

abbrev pub max_payload : ℕ
max_payload = 4096

pub record Field : Type 0 where
  pub key : List ℕ
  pub value : List ℕ

-- A letter `a` to `z`.
is_lower : ℕ → Bool
is_lower c = leb 0x61 c && leb c 0x7a

is_key_byte : ℕ → Bool
unfolding is_lower
is_key_byte c = is_lower c || leb 0x30 c && leb c 0x39 || c == 0x5f

all_key_bytes : List ℕ → Bool
all_key_bytes [] = true
all_key_bytes (c ∷ cs) = is_key_byte c && all_key_bytes cs

unfoldable pub valid_key : List ℕ → Bool
unfolding is_lower is_key_byte all_key_bytes
valid_key [] = false
valid_key (c ∷ cs) = is_lower c && all_key_bytes (c ∷ cs)

is_blank : ℕ → Bool
is_blank c = c == 0x20 || c == 0x9

trim_front : List ℕ → List ℕ
trim_front [] = []
trim_front (c ∷ cs) = let rest = trim_front cs in if is_blank c then rest else c ∷ cs

-- A blank with only blanks behind it goes.
trim_back : List ℕ → List ℕ
trim_back [] = []
trim_back (c ∷ cs) = elim (trim_back cs) [
  | [] ↦ if is_blank c then [] else c ∷ []
  | x ∷ xs ↦ c ∷ x ∷ xs
]

unfoldable pub trim_value : List ℕ → List ℕ
unfolding trim_front trim_back is_blank
trim_value value = trim_back (trim_front value)

all_text : List ℕ → Bool
all_text [] = true
all_text (c ∷ cs) =
    not ((ltb c 0x20 || ltb 0x7e c) && not (c == 0x9) && not (c == 0xa)) && all_text cs

-- The bytes before the first `c`, and what follows it if there is one.
find_split : ℕ → List ℕ → List ℕ × Option (List ℕ)
find_split c [] = ([], none)
find_split c (x ∷ xs) =
    let rest = find_split c xs in if x == c then ([], some xs) else (x ∷ rest.0, rest.1)

has_key : List Field → List ℕ → Bool
has_key [] key = false
has_key (f ∷ fs) key = bytes_equal f.key key || has_key fs key

-- One line: its field if it has an `=`, a valid key and one that is not there yet.
decode_line : List Field → List ℕ → Option Field
unfolding find_split has_key
decode_line result line = elim (find_split 0x3d line).1 [
  | none ↦ none
  | some value ↦
      let key = (find_split 0x3d line).0 in
      if not (valid_key key) || has_key result key
      then none
      else some (record { key = key; value = trim_value value })
]

-- The loop over the lines; each round takes at least one byte, so the size of the text is enough fuel.
decode_lines : ℕ → List Field → List ℕ → Option (List Field)
unfolding decode_line find_split
decode_lines fuel result [] = some result
decode_lines zero result (c ∷ cs) = none
decode_lines (suc fuel) result (c ∷ cs) = elim (decode_line result (find_split 0xa (c ∷ cs)).0) [
  | none ↦ none
  | some field ↦ elim (find_split 0xa (c ∷ cs)).1 [
    | none ↦ some (result ++ (field ∷ []))
    | some rest ↦ decode_lines fuel (result ++ (field ∷ [])) rest
  ]
]

unfoldable pub decode : List ℕ → Option (List Field)
unfolding all_text decode_lines
decode payload =
    if length payload == 0 || ltb max_payload (length payload) || not (all_text payload)
    then none
    else decode_lines (length payload) [] payload
