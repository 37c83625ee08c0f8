-- ===== src/Config/Cascade/Values.antt =====
-- What the typed readers of a setting give back.
use mathlib.Core.Option.{some-injective}
use device_xiaomi_odin.Prelude.{
  ℕ, zero, suc, ◌+◌, ◌-◌, ◌≤◌, ◌<◌, ◌≡◌, refl, ap, ◌⊎◌, inl, inr, false, Option, none, some, [],
  ◌∷◌, ◌++◌, arith, Bytes, length, length-append, ltb, ◌==◌, Bool-cases, Bool, true, subst,
  if◌then◌else◌,
}
use device_xiaomi_odin.Config.Param.{Param, string, number, byte_array, string_array}
use device_xiaomi_odin.Config.Text.{strncpy, until_nul, zeros, codes}
use device_xiaomi_odin.Config.Cascade.{
  Cascade, find_param, string_value, array_value, number_value, get_byte_array, narrow, get_str,
  get_num, get_binding_config,
}

length-zeros : (n : ℕ) → length (zeros n) ≡ n
length-zeros zero = refl
length-zeros (suc n) = omega (arith, length-zeros n)

length-until_nul : (s : Bytes) → length (until_nul s) ≤ length s
unfolding until_nul
length-until_nul [] = omega arith
length-until_nul (c ∷ s) = ground (arith, length-until_nul s)

length-strncpy : (s : Bytes) (len : ℕ) → length s < len → length (strncpy s len) ≡ len
unfolding strncpy
length-strncpy s len h = omega (
  arith,
  length-append (until_nul s) (zeros (len - length (until_nul s))),
  length-zeros (len - length (until_nul s)),
  length-until_nul s,
)

-- Reading back a buffer up to its first NUL.
until_nul-zeros : (n : ℕ) → until_nul (zeros n) ≡ []
unfolding until_nul
until_nul-zeros zero = refl
until_nul-zeros (suc n) = refl

until_nul-append : (s : Bytes) (n : ℕ) → until_nul (until_nul s ++ zeros n) ≡ until_nul s
unfolding until_nul
until_nul-append [] n = until_nul-zeros n
until_nul-append (c ∷ s) n = elim (Bool-cases (c == 0)) [
  | inl e ↦ rw e (until_nul-zeros n)
  | inr e ↦ rw e (rw e (ap (◌∷◌ c) (until_nul-append s n)))
]

until_nul-strncpy : (s : Bytes) (len : ℕ) → until_nul (strncpy s len) ≡ until_nul s
unfolding strncpy
until_nul-strncpy s len = until_nul-append s (len - length (until_nul s))

-- For a setting that is a string, NxpConfig_GetStr succeeds exactly if the string is shorter than the
-- buffer. It then fills the
-- buffer, no more and no less, with the string up to its first NUL, so that the buffer reads back
-- as a terminated string.
pub get_str_lem :
    (name : Bytes) (len : ℕ) (c : Cascade) (s : Bytes)
    → find_param name c ≡ some (string s)
    → ((len ≤ length s) × (get_str name len c ≡ none))
      ⊎ ((length s < len)
          × (b : Bytes) × (get_str name len c ≡ some b)
          × (length b ≡ len)
          × (until_nul b ≡ until_nul s))
unfolding get_str string_value
get_str_lem name len c s e = elim (Bool-cases (ltb len (length s + 1))) [
  | inl short ↦ inl (ground arith, rw (e, string_value) (rw short))
  | inr fits ↦
      let l : length s < len = ground arith in
      inr (
        l,
        strncpy s len,
        rw (e, string_value) (rw fits),
        length-strncpy s len l,
        until_nul-strncpy s len,
      )
]

narrow_four : (v : Option ℕ) → narrow 4 v ≡ none
unfolding narrow
narrow_four none = refl
narrow_four (some n) = refl

-- Binding is never allowed, whatever the configuration says: a 4-byte variable receives no number.
pub get_binding_config_never : (c : Cascade) → get_binding_config c ≡ false
unfolding get_binding_config get_num
get_binding_config_never c = rw (
  narrow_four (number_value (find_param (codes "UWB_BINDING_LOCKING_ALLOWED") c)),
  get_binding_config,
)

fits-cases :
    (over : Bool) (b a : Bytes)
    → (if over then none else some b) ≡ some a
    → (over ≡ false) × (b ≡ a)
fits-cases true b a e = cc
fits-cases false b a e = (refl, some-injective b a e)

-- An array that is read fits into the buffer.
array_value-fits :
    (o : Option Param) (len : ℕ) (a : Bytes) → array_value o len ≡ some a → length a ≤ len
unfolding array_value
array_value-fits none len a e = cc
array_value-fits (some (string s)) len a e = cc
array_value-fits (some (number n)) len a e = cc
array_value-fits (some (string_array l)) len a e = cc
array_value-fits (some (byte_array b)) len a e =
    let (fits, same) = fits-cases (ltb len (length b)) b a e in
    subst (λ l. length l ≤ len) same (ground arith)

pub get_byte_array-fits :
    (name : Bytes) (len : ℕ) (c : Cascade) (a : Bytes)
    → get_byte_array name len c ≡ some a
    → length a ≤ len
unfolding get_byte_array
get_byte_array-fits name len c a e = array_value-fits (find_param name c) len a e
