-- ===== src/Config/Reader/Sound.antt =====
-- What holds of the settings that readConfig takes from any file, well formed or not.
use device_xiaomi_odin.Prelude.{
  ℕ, ◌%◌, ◌^◌, ◌<◌, ◌≡◌, ◌≢◌, refl, ◌⊎◌, inl, inr, true, Option, none, some, [], ◌∷◌, ◌++◌, arith,
  Bytes, All, All-append, IsByte,
}
use device_xiaomi_odin.Config.Chars.{is_printable, get_digit_value}
use device_xiaomi_odin.Config.Param.{
  Param, string, number, byte_array, string_array, bytes_eq_iff, lookup, try_emplace, Settings,
}
use device_xiaomi_odin.Config.Reader.{
  State, begin_line, token, str_value, num_value, arr_space, arr_str, arr_str_space, arr_num,
  begin_hex, begin_quote, end_line, Reader, char_of, store, step_in, after_step, run, initial,
  read_config,
}
use device_xiaomi_odin.Config.Reader.Pieces.{IsPrintable}

abbrev pub IsName : Bytes → Type 0
IsName k = (k ≢ []) × IsPrintable k

abbrev pub InRange : Param → Type 0
InRange (string s) = Unit
InRange (number n) = n < 2 ^ 64
InRange (byte_array a) = All IsByte a
InRange (string_array a) = Unit

-- Names are well formed and distinct, and values in range.
abbrev pub AreSettings : Settings → Type 0
AreSettings [] = Unit
AreSettings ((k, v) ∷ m) = IsName k × InRange v × (lookup k m ≡ none) × AreSettings m

lookup-try_emplace_other :
    (k j : Bytes) (v : Param) (m : Settings)
    → lookup j m ≡ none
    → k ≢ j
    → lookup j (try_emplace k v m) ≡ none
unfolding lookup try_emplace
lookup-try_emplace_other k j v [] e n = ground (arith, bytes_eq_iff k j)
lookup-try_emplace_other k j v ((i, w) ∷ m) e n =
    ground (arith, bytes_eq_iff i j, bytes_eq_iff i k, lookup-try_emplace_other k j v m)

try_emplace-AreSettings :
    (k : Bytes) (v : Param) (m : Settings)
    → IsName k
    → InRange v
    → AreSettings m
    → AreSettings (try_emplace k v m)
unfolding try_emplace
try_emplace-AreSettings k v [] n r h = (n, r, unfold lookup in refl, tt)
try_emplace-AreSettings k v ((j, w) ∷ m) n r (a, b, c, d) = ground (
  arith,
  bytes_eq_iff j k,
  try_emplace-AreSettings k v m n r d,
  lookup-try_emplace_other k j v m c,
)

record Inv (p : Reader) : Type 0 where
  num_lt : p.num < 2 ^ 64
  arr_bytes : All IsByte p.arr
  named : (p.state ≡ begin_line) ⊎ (p.state ≡ end_line) ⊎ IsName p.name
  entries : AreSettings p.settings

push-IsName : (k : Bytes) (c : ℕ) → IsName k → is_printable c ≡ true → IsName (k ++ c ∷ [])
push-IsName [] c h e = absurd (h.0 refl)
push-IsName (x ∷ k) c h e =
    (ground arith, All-append (λ c. is_printable c ≡ true) (x ∷ k) (c ∷ []) h.1 (e, tt))

push-IsByte : (a : Bytes) (n : ℕ) → All IsByte a → All IsByte (a ++ (n % 256) ∷ [])
push-IsByte a n h = All-append IsByte a ((n % 256) ∷ []) h (omega arith, tt)

digit_lt : (c base : ℕ) → get_digit_value c base < 2 ^ 64
unfolding get_digit_value
digit_lt c base = ground arith

-- A line that is being read has a name.
current_name : (p : Reader) → Inv p → p.state ≢ begin_line → p.state ≢ end_line → IsName p.name
current_name p v a b = ground (arith, v.named)

store-Inv : (p : Reader) (x : Param) → Inv p → IsName p.name → InRange x → Inv (store p x)
store-Inv p x v n r = record {
  num_lt = v.num_lt;
  arr_bytes = v.arr_bytes;
  named = inr (inl refl);
  entries = try_emplace-AreSettings p.name x p.settings n r v.entries;
}

step_in-Inv : (s : State) (p : Reader) (e : Option ℕ) → p.state ≡ s → Inv p → Inv (step_in s p e)
unfolding step_in
step_in-Inv begin_line p e s v = ground arith
step_in-Inv token p e s v =
    let n = current_name p v (ground arith) (ground arith) in
    ground (arith, push-IsName p.name (char_of e) n)
step_in-Inv begin_quote p e s v =
    ground (arith, digit_lt (char_of e) 10, current_name p v (ground arith) (ground arith))
step_in-Inv begin_hex p e s v =
    let n = current_name p v (ground arith) (ground arith) in
    ground (arith, digit_lt (char_of e) 10, store-Inv p (number p.num) v n v.num_lt)
step_in-Inv num_value p e s v =
    let n = current_name p v (ground arith) (ground arith) in
    ground (arith, store-Inv p (number p.num) v n v.num_lt)
step_in-Inv arr_space p e s v =
    let n = current_name p v (ground arith) (ground arith) in
    ground (arith, digit_lt (char_of e) p.base, store-Inv p (byte_array p.arr) v n v.arr_bytes)
step_in-Inv arr_str p e s v = ground (arith, current_name p v (ground arith) (ground arith))
step_in-Inv arr_str_space p e s v =
    let n = current_name p v (ground arith) (ground arith) in
    ground (arith, store-Inv p (string_array p.arr_strs) v n tt)
step_in-Inv arr_num p e s v =
    let n = current_name p v (ground arith) (ground arith) in
    ground (
      arith,
      push-IsByte p.arr p.num v.arr_bytes,
      try_emplace-AreSettings p.name (byte_array (p.arr ++ (p.num % 256) ∷ [])) p.settings n
          (push-IsByte p.arr p.num v.arr_bytes) v.entries,
      try_emplace-AreSettings p.name (byte_array p.arr) p.settings n v.arr_bytes v.entries,
    )
step_in-Inv str_value p e s v =
    let n = current_name p v (ground arith) (ground arith) in
    ground (arith, store-Inv p (string p.str) v n tt)
step_in-Inv end_line p e s v = v

after_step-Inv : (p : Reader) (c : ℕ) → Inv p → Inv (after_step p c)
unfolding after_step
after_step-Inv p c v = ground arith

run-Inv : (cs : Bytes) (p : Reader) → Inv p → Inv (run p cs)
unfolding run
run-Inv [] p v = step_in-Inv p.state p none refl v
run-Inv (c ∷ cs) p v = run-Inv cs _ (after_step-Inv _ c (step_in-Inv p.state p (some c) refl v))

initial-Inv : Inv initial
initial-Inv = record { num_lt = omega arith; arr_bytes = tt; named = inl refl; entries = tt }

-- Whatever a file holds, the settings taken from it have distinct names, which are not empty and
-- printable, numbers below 2 ^ 64, and byte arrays of bytes.
pub read_config-AreSettings : (file : Option Bytes) → AreSettings (read_config file)
unfolding read_config
read_config-AreSettings none = tt
read_config-AreSettings (some cs) = (run-Inv cs initial initial-Inv).entries
