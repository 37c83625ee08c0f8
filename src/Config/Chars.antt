-- ===== src/Config/Chars.antt =====
-- The character tests of uwb/halimpl/utils/phNxpConfig.cc, in the C locale. A character is its code.
use device_xiaomi_odin.Prelude.{ℕ, ◌+◌, ◌-◌, Bool, false, ◌&&◌, ◌||◌, leb, ◌==◌, if◌then◌else◌}

abbrev within : ℕ → ℕ → ℕ → Bool
within lo hi c = leb lo c && leb c hi

-- isPrintable
unfoldable pub is_printable : ℕ → Bool
is_printable c =
    within b'A' b'Z' c
    || within b'a' b'z' c
    || within b'0' b'9' c
    || c == b'/'
    || c == b'_'
    || c == b'-'
    || c == b'.'
    || c == b','

-- isDigit: isdigit and isxdigit of the C library.
unfoldable pub is_digit : ℕ → ℕ → Bool
is_digit c base =
    if base == 10
    then within b'0' b'9' c
    else if base == 16
    then within b'0' b'9' c || within b'A' b'F' c || within b'a' b'f' c
    else false

-- isspace of the C library.
abbrev is_space : ℕ → Bool
is_space c = c == b' ' || within 9 13 c

-- isArrayDelimeter
unfoldable pub is_array_delimeter : ℕ → Bool
is_array_delimeter c = is_space c || c == b',' || c == b':' || c == b'-' || c == b'}'

-- getDigitValue
unfoldable pub get_digit_value : ℕ → ℕ → ℕ
get_digit_value c base =
    if within b'0' b'9' c
    then c - b'0'
    else if base == 16
    then if within b'A' b'F' c
      then c - b'A' + 10
      else if within b'a' b'f' c
      then c - b'a' + 10
      else 0
    else 0
