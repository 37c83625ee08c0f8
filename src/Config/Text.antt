-- ===== src/Config/Text.antt =====
-- What uwb/halimpl/utils/phNxpConfig.cc uses of std::string and the C string functions.
use Prim.Native.Char.{code}
use Prim.Native.String.{String}
use device_xiaomi_odin.Prelude.{
  ℕ, ◌+◌, ◌-◌, Bool, true, false, ◌&&◌, ◌||◌, Option, none, some, List, [], ◌∷◌, ◌++◌, length, take,
  drop, leb, ◌==◌, if◌then◌else◌, Bytes, zero, suc,
}

-- A text literal as its bytes.
abbrev pub codes : String → Bytes
codes String.[] = []
codes (String.◌∷◌ c s) = code c ∷ codes s

unfoldable pub starts_with : Bytes → Bytes → Bool
starts_with [] s = true
starts_with (x ∷ xs) [] = false
starts_with (x ∷ xs) (y ∷ s) = x == y && starts_with xs s

-- string::find, from position `i` on; `none` is npos.
unfoldable pub find_from : ℕ → Bytes → Bytes → Option ℕ
unfolding starts_with
find_from i w [] = if starts_with w [] then some i else none
find_from i w (c ∷ s) =
    let rest = find_from (i + 1) w s in if starts_with w (c ∷ s) then some i else rest

-- string::replace(pos, len, w)
abbrev pub replace : ℕ → ℕ → Bytes → Bytes → Bytes
replace pos len w s = take pos s ++ (w ++ drop (pos + len) s)

-- The characters before the first NUL, which is where `c_str` is read to.
unfoldable pub until_nul : Bytes → Bytes
until_nul [] = []
until_nul (c ∷ s) = if c == 0 then [] else c ∷ until_nul s

abbrev pub zeros : ℕ → Bytes
zeros zero = []
zeros (suc n) = 0 ∷ zeros n

-- strncpy into a buffer of `len` bytes, for a string that is shorter: the rest is filled with NUL.
unfoldable pub strncpy : Bytes → ℕ → Bytes
unfolding until_nul
strncpy s len = until_nul s ++ zeros (len - length (until_nul s))

abbrev is_blank : ℕ → Bool
is_blank c = c == b' ' || leb 9 c && leb c 13

-- The words that `stringstream >> string` reads; `w` is the word so far.
unfoldable pub words_from : Bytes → Bytes → List Bytes
words_from [] [] = []
words_from (x ∷ w) [] = (x ∷ w) ∷ []
words_from [] (c ∷ s) = if is_blank c then words_from [] s else words_from (c ∷ []) s
words_from (x ∷ w) (c ∷ s) =
    let rest = words_from [] s in
    let more = words_from ((x ∷ w) ++ c ∷ []) s in if is_blank c then (x ∷ w) ∷ rest else more
