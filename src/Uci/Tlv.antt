-- ===== src/Uci/Tlv.antt =====
-- get_input_map and get_conf_map of uwb/halimpl/utils/phNxpUciHal_utils.cc, which read the same
-- entries into two maps, and the writing of a map into a response in uwb/halimpl/hal/phNxpUciHal.cc.
pub mod RoundTrip
use device_xiaomi_odin.Prelude.{
  ℕ, zero, suc, ◌+◌, ◌*◌, ◌/◌, ◌%◌, Bool, true, false, ◌&&◌, Option, none, some, List, [], ◌∷◌,
  ◌++◌, ltb, leb, ◌==◌, if◌then◌else◌, Bytes, length, take, drop,
}

-- `map<uint16_t, vector<uint16_t>>`, in the order of the keys. A vector holds the length byte and
-- the values.
abbrev pub TagMap : Type 0
TagMap = List (ℕ × Bytes)

-- `m[tag] = v`
unfoldable pub insert : ℕ → Bytes → TagMap → TagMap
insert k v [] = (k, v) ∷ []
insert k v ((j, w) ∷ m) =
    let later = insert k v m in
    if ltb k j then (k, v) ∷ (j, w) ∷ m else if k == j then (k, v) ∷ m else (j, w) ∷ later

unfoldable pub find : ℕ → TagMap → Option Bytes
find k [] = none
find k ((j, w) ∷ m) = if k == j then some w else find k m

-- Tags from 0xE0 to 0xE2 are extended by a second byte.
abbrev pub is_extended : ℕ → Bool
is_extended b = leb 0xE0 b && leb b 0xE2

-- The tag of the first entry, and what is behind it; none if the data ends too early. The code
-- wants a byte behind each byte that it reads of a tag.
unfoldable pub read_tag : Bytes → Option (ℕ × Bytes)
read_tag [] = none
read_tag (x ∷ []) = none
read_tag (x ∷ y ∷ []) = if is_extended x then none else some (x, y ∷ [])
read_tag (x ∷ y ∷ z ∷ r) = if is_extended x then some (x * 256 + y, z ∷ r) else some (x, y ∷ z ∷ r)

-- The length and the values; here too a byte must follow the length, and so an entry without
-- values is refused at the end of the data.
unfoldable pub read_values : Bytes → Option (Bytes × Bytes)
read_values [] = none
read_values (l ∷ []) = none
read_values (l ∷ v ∷ r) =
    if leb l (length (v ∷ r)) then some (l ∷ take l (v ∷ r), drop l (v ∷ r)) else none

unfoldable pub read_entry : Bytes → Option (ℕ × Bytes × Bytes)
unfolding read_tag read_values
read_entry d = elim (read_tag d) [
  | none ↦ none
  | some (tag, r) ↦ elim (read_values r) [ none ↦ none | some (v, rest) ↦ some (tag, v, rest) ]
]

-- The loop, on fuel: whether it reached the end, and the map. Entries before a failure stay in it.
unfoldable pub read_entries : ℕ → Bytes → TagMap → Bool × TagMap
unfolding read_entry insert
read_entries n [] m = (true, m)
read_entries zero (x ∷ d) m = (false, m)
read_entries (suc n) (x ∷ d) m = elim (read_entry (x ∷ d)) [
  | none ↦ (false, m)
  | some (tag, v, rest) ↦ read_entries n rest (insert tag v m)
]

-- get_input_map from an index on, and get_conf_map; an entry takes at least one byte, so the length
-- of the data is fuel enough.
unfoldable pub get_input_map : Bytes → ℕ → TagMap → Bool × TagMap
unfolding read_entries
get_input_map p start m = let d = drop start p in read_entries (length d) d m

unfoldable pub get_conf_map : Bytes → TagMap → Bool × TagMap
unfolding read_entries
get_conf_map p m = read_entries (length p) p m

-- The tag as the response holds it.
unfoldable pub tag_bytes : ℕ → Bytes
tag_bytes tag = if is_extended (tag / 256) then tag / 256 % 256 ∷ tag % 256 ∷ [] else tag % 256 ∷ []

unfoldable pub write_entries : TagMap → Bytes
unfolding tag_bytes
write_entries [] = []
write_entries ((tag, v) ∷ m) = tag_bytes tag ++ (v ++ write_entries m)
