-- ===== src/Config/Param.antt =====
-- The class uwbParam of uwb/halimpl/utils/phNxpConfig.cc, and the table `m_map` of a file.
use device_xiaomi_odin.Prelude.{
  ℕ, ◌≡◌, refl, ◌↔◌, Bool, true, false, ◌&&◌, Option, none, some, List, [], ◌∷◌, arith, ◌==◌,
  if◌then◌else◌, Bytes,
}

-- The member that `m_type` names; each constructor of the class sets that member alone.
pub data Param : Type 0 where
  string : Bytes → Param
  number : ℕ → Param
  byte_array : Bytes → Param
  string_array : List Bytes → Param

-- str_value: the string member, which is empty but in a STRING.
unfoldable pub str_value : Param → Bytes
str_value (string s) = s
str_value (number n) = []
str_value (byte_array a) = []
str_value (string_array a) = []

-- Equality of strings.
unfoldable pub bytes_eq : Bytes → Bytes → Bool
bytes_eq [] [] = true
bytes_eq [] (y ∷ ys) = false
bytes_eq (x ∷ xs) [] = false
bytes_eq (x ∷ xs) (y ∷ ys) = x == y && bytes_eq xs ys

pub bytes_eq_iff : (a b : Bytes) → (bytes_eq a b ≡ true) ↔ (a ≡ b)
unfolding bytes_eq
bytes_eq_iff [] [] = ground arith
bytes_eq_iff [] (y ∷ b) = ground arith
bytes_eq_iff (x ∷ a) [] = ground arith
bytes_eq_iff (x ∷ a) (y ∷ b) = ground (arith, bytes_eq_iff a b)

pub bytes_eq_refl : (a : Bytes) → bytes_eq a a ≡ true
bytes_eq_refl a = (bytes_eq_iff a a).1 refl

-- `unordered_map<string, T>`; the list's order stands for the order of insertion.
module _ {ℓ} {A : Type ℓ} where
  -- map::find
  unfoldable pub lookup : Bytes → List (Bytes × A) → Option A
  lookup k [] = none
  lookup k ((j, v) ∷ m) = if bytes_eq j k then some v else lookup k m

  -- map::try_emplace: a key that is there keeps its value.
  unfoldable pub try_emplace : Bytes → A → List (Bytes × A) → List (Bytes × A)
  unfolding lookup
  try_emplace k v [] = (k, v) ∷ []
  try_emplace k v ((j, w) ∷ m) = if bytes_eq j k then (j, w) ∷ m else (j, w) ∷ try_emplace k v m

  -- The first value given to a key is the one that is found.
  pub lookup-try_emplace :
      (k j : Bytes) (v : A) (m : List (Bytes × A))
      → lookup j (try_emplace k v m)
        ≡ elim (lookup j m) [ some w ↦ some w | none ↦ if bytes_eq k j then some v else none ]
  unfolding lookup try_emplace
  lookup-try_emplace k j v [] = refl
  lookup-try_emplace k j v ((i, w) ∷ m) =
      ground
        (arith, bytes_eq_iff i k, bytes_eq_iff i j, bytes_eq_iff k j, lookup-try_emplace k j v m)

abbrev pub Settings : Type 0
Settings = List (Bytes × Param)
