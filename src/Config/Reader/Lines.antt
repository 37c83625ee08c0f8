-- ===== src/Config/Reader/Lines.antt =====
-- The text of a configuration file's lines, and what the lines mean.
pub mod Numbers
pub mod Strings
pub mod RoundTrip
use mathlib.Core.List.{append-nil, append_assoc}
use device_xiaomi_odin.Prelude.{
  ℕ, ◌+◌, ◌*◌, ◌%◌, ◌^◌, ◌<◌, ◌≡◌, ◌≢◌, ◌⊎◌, inl, inr, refl, sym, ap, ◌∙◌, Bool, true, false, not,
  ◌&&◌, ◌||◌, Option, none, some, List, [], ◌∷◌, ◌++◌, arith, leb, ◌==◌, if◌then◌else◌, Bytes, All,
  map,
}
use device_xiaomi_odin.Config.Chars.{is_printable, is_digit, is_array_delimeter, get_digit_value}
use device_xiaomi_odin.Config.Param.{
  Param, string, number, byte_array, string_array, try_emplace, Settings,
}
use device_xiaomi_odin.Config.Reader.{
  State, begin_line, token, str_value, num_value, arr_space, arr_str, arr_str_space, arr_num,
  begin_hex, begin_quote, end_line, Reader, push_digit, store, step_in, after_step, is_end_line,
  run, initial, read_config,
}
use device_xiaomi_odin.Config.Reader.Pieces.{
  IsPrintable, AreDigits, IsQuotable, AreBlanks, digits_value, push_digits, run-token, run-digits,
  run-quotable, run-arr_digits, run-blanks, push_digits-mod,
}

-- What stands behind the `=` of a line. The numbers of an array have a `,` and blanks behind them, but
-- for the last one of `numbers_to`, which the brace follows; its strings have blanks before them.
pub data Value : Type 0 where
  hex : Bytes → Value
  dec_zero : Value
  dec : ℕ → Bytes → Value
  quoted : Bytes → Value
  numbers : List (ℕ × Bytes × Bytes) → Value
  numbers_to : List (ℕ × Bytes × Bytes) → ℕ → Bytes → Value
  quoteds : Bytes → List (Bytes × Bytes) → Value

pub data Line : Type 0 where
  setting : ℕ → Bytes → Value → Line
  comment : Bytes → Line

-- The text of the elements, up to the closing brace.
abbrev pub numbers_text : List (ℕ × Bytes × Bytes) → Bytes → Bytes
numbers_text [] rest = rest
numbers_text ((d, ds, blanks) ∷ es) rest = d ∷ (ds ++ (b',' ∷ (blanks ++ numbers_text es rest)))

abbrev pub quoteds_text : List (Bytes × Bytes) → Bytes → Bytes
quoteds_text [] rest = rest
quoteds_text ((blanks, s) ∷ es) rest = blanks ++ (b'"' ∷ (s ++ (b'"' ∷ quoteds_text es rest)))

abbrev pub value_text : Value → Bytes → Bytes
value_text (hex ds) rest = b'0' ∷ b'x' ∷ (ds ++ rest)
value_text dec_zero rest = b'0' ∷ rest
value_text (dec d ds) rest = d ∷ (ds ++ rest)
value_text (quoted s) rest = b'"' ∷ (s ++ (b'"' ∷ rest))
value_text (numbers es) rest = b'{' ∷ numbers_text es (b'}' ∷ rest)
value_text (numbers_to es d ds) rest = b'{' ∷ numbers_text es (d ∷ (ds ++ (b'}' ∷ rest)))
value_text (quoteds s es) rest = b'{' ∷ b'"' ∷ (s ++ (b'"' ∷ quoteds_text es (b'}' ∷ rest)))

abbrev pub text : List Line → Bytes
text [] = []
text (setting c cs v ∷ ls) = c ∷ (cs ++ (b'=' ∷ value_text v (b'\n' ∷ text ls)))
text (comment cs ∷ ls) = b'#' ∷ (cs ++ (b'\n' ∷ text ls))

-- What the values mean.
abbrev pub element : ℕ × Bytes × Bytes → ℕ
element (d, ds, blanks) = digits_value 16 (get_digit_value d 16) ds % 256

abbrev pub meaning : Value → Param
meaning (hex ds) = number (digits_value 16 0 ds % 2 ^ 64)
meaning dec_zero = number 0
meaning (dec d ds) = number (digits_value 10 (get_digit_value d 10) ds % 2 ^ 64)
meaning (quoted s) = string s
meaning (numbers es) = byte_array (map element es)
meaning (numbers_to es d ds) = byte_array (map element es ++ element (d, ds, []) ∷ [])
meaning (quoteds s es) = string_array (s ∷ map (λ e. e.1) es)

abbrev pub settings_from : Settings → List Line → Settings
settings_from m [] = m
settings_from m (setting c cs v ∷ ls) = settings_from (try_emplace (c ∷ cs) (meaning v) m) ls
settings_from m (comment cs ∷ ls) = settings_from m ls

abbrev pub IsValue : Value → Type 0
IsValue (hex ds) = AreDigits 16 ds
IsValue dec_zero = Unit
IsValue (dec d ds) = (is_digit d 10 ≡ true) × (d ≢ b'0') × AreDigits 10 ds
IsValue (quoted s) = IsQuotable s
IsValue (numbers es) = All (λ e. (is_digit e.0 16 ≡ true) × AreDigits 16 e.1 × AreBlanks e.2) es
IsValue (numbers_to es d ds) =
    All (λ e. (is_digit e.0 16 ≡ true) × AreDigits 16 e.1 × AreBlanks e.2) es
    × (is_digit d 16 ≡ true)
    × AreDigits 16 ds
IsValue (quoteds s es) = IsQuotable s × All (λ e. AreBlanks e.0 × IsQuotable e.1) es

abbrev pub IsLine : Line → Type 0
IsLine (setting c cs v) = (is_printable c ≡ true) × IsPrintable cs × IsValue v
IsLine (comment cs) = All (λ c. (c ≢ b'\n') × (c ≢ b'\r')) cs
