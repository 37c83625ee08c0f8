-- ===== src/Config/Reader.antt =====
-- CUwbNxpConfig::readConfig of uwb/halimpl/utils/phNxpConfig.cc: the state machine that reads a
-- configuration file, one `fgetc` at a time. A character is `some` byte, or `none` for EOF.
pub mod Pieces
pub mod Lines
pub mod Comments
pub mod Sound
mod Tests
use device_xiaomi_odin.Prelude.{
  ℕ, ◌+◌, ◌*◌, ◌%◌, ◌^◌, Bool, true, false, not, ◌&&◌, ◌||◌, Option, none, some, List, [], ◌∷◌,
  ◌++◌, ◌==◌, if◌then◌else◌, Bytes,
}
use device_xiaomi_odin.Config.Chars.{is_printable, is_digit, is_array_delimeter, get_digit_value}
use device_xiaomi_odin.Config.Param.{
  Param, string, number, byte_array, string_array, try_emplace, Settings,
}

pub data State : Type 0 where
  begin_line token str_value num_value arr_space arr_str arr_str_space arr_num : State
  begin_hex begin_quote end_line : State

-- The local variables of readConfig, and `m_map`.
pub record Reader : Type 0 where
  pub state : State
  pub name : Bytes
  pub str : Bytes
  pub num : ℕ
  pub arr : Bytes
  pub arr_strs : List Bytes
  pub base : ℕ
  pub settings : Settings

-- `(char)c`: EOF, which is -1, becomes 255.
abbrev pub char_of : Option ℕ → ℕ
char_of none = 255
char_of (some c) = c

abbrev pub is_eof : Option ℕ → Bool
is_eof none = true
is_eof (some c) = false

-- `numValue *= base; numValue += getDigitValue(c, base)` on the 64 bits of `unsigned long`.
abbrev pub push_digit : ℕ → ℕ → ℕ → ℕ → ℕ
push_digit num factor c base = (num * factor % 2 ^ 64 + get_digit_value c base) % 2 ^ 64

-- `m_map.try_emplace(token, ...)`, and on to the end of the line.
abbrev pub store : Reader → Param → Reader
store p v = record p { settings = try_emplace p.name v p.settings; state = end_line }

step_begin_line : Reader → ℕ → Reader
step_begin_line p c =
    if is_printable c
    then record p { name = c ∷ []; num = 0; str = []; arr = []; arr_strs = []; state = token }
    else record p { state = end_line }

step_token : Reader → ℕ → Reader
step_token p c =
    if c == b'='
    then record p { state = begin_quote }
    else if is_printable c
    then record p { name = p.name ++ c ∷ [] }
    else record p { state = end_line }

step_begin_quote : Reader → ℕ → Reader
step_begin_quote p c =
    if c == b'"'
    then record p { state = str_value; base = 0 }
    else if c == b'0'
    then record p { state = begin_hex }
    else if is_digit c 10
    then record p { state = num_value; base = 10; num = get_digit_value c 10 }
    else if c == b'{'
    then record p { state = arr_space; base = 16 }
    else record p { state = end_line }

step_begin_hex : Reader → ℕ → Reader
step_begin_hex p c =
    if c == b'x' || c == b'X'
    then record p { state = num_value; base = 16; num = 0 }
    else if is_digit c 10
    then record p { state = num_value; base = 10; num = get_digit_value c 10 }
    else store p (number p.num)

step_num_value : Reader → ℕ → Reader
step_num_value p c =
    if is_digit c p.base
    then record p { num = push_digit p.num p.base c p.base }
    else store p (number p.num)

-- Storing an array moves it out of the local variable.
abbrev store_arr : Reader → Reader
store_arr p = record (store p (byte_array p.arr)) { arr = [] }

step_arr_space : Reader → Option ℕ → Reader
step_arr_space p e =
    let c = char_of e in
    if is_digit c 16
    then record p { num = get_digit_value c p.base; state = arr_num }
    else if c == b'}'
    then store_arr p
    else if c == b'"'
    then record p { state = arr_str }
    else if is_eof e
    then record p { state = end_line }
    else p

step_arr_str : Reader → ℕ → Reader
step_arr_str p c =
    if c == b'"'
    then record p { arr_strs = p.arr_strs ++ p.str ∷ []; str = []; state = arr_str_space }
    else record p { str = p.str ++ c ∷ [] }

step_arr_str_space : Reader → ℕ → Reader
step_arr_str_space p c =
    if c == b'}'
    then record (store p (string_array p.arr_strs)) { arr_strs = [] }
    else if c == b'"'
    then record p { state = arr_str }
    else p

-- Both `if` statements of `case ARR_NUM`.
step_arr_num : Reader → ℕ → Reader
step_arr_num p c =
    let q =
      if is_digit c 16
      then record p { num = push_digit p.num 16 c p.base }
      else if is_array_delimeter c
      then record p { arr = p.arr ++ (p.num % 256) ∷ []; state = arr_space }
      else record p { state = end_line } in
    if c == b'}' then store_arr q else q

step_str_value : Reader → ℕ → Reader
step_str_value p c =
    if c == b'"' then store p (string p.str) else record p { str = p.str ++ c ∷ [] }

-- The `switch`.
pub step_in : State → Reader → Option ℕ → Reader
unfolding step_begin_line step_token step_begin_quote step_begin_hex step_num_value step_arr_space
    step_arr_str step_arr_str_space step_arr_num step_str_value
step_in begin_line p e = step_begin_line p (char_of e)
step_in token p e = step_token p (char_of e)
step_in begin_quote p e = step_begin_quote p (char_of e)
step_in begin_hex p e = step_begin_hex p (char_of e)
step_in num_value p e = step_num_value p (char_of e)
step_in arr_space p e = step_arr_space p e
step_in arr_str p e = step_arr_str p (char_of e)
step_in arr_str_space p e = step_arr_str_space p (char_of e)
step_in arr_num p e = step_arr_num p (char_of e)
step_in str_value p e = step_str_value p (char_of e)
step_in end_line p e = p

unfoldable pub is_end_line : State → Bool
is_end_line end_line = true
is_end_line _ = false

-- The tests behind the `switch`, on a character that is not EOF.
pub after_step : Reader → ℕ → Reader
unfolding is_end_line
after_step p c =
    if is_end_line p.state && (c == b'\n' || c == b'\r')
    then record p { state = begin_line }
    else if c == b'#'
    then record p { state = end_line }
    else p

-- The loop: the bytes of the file, then EOF.
pub run : Reader → Bytes → Reader
run p [] = step_in p.state p none
run p (c ∷ cs) = run (after_step (step_in p.state p (some c)) c) cs

abbrev pub initial : Reader
initial = record {
  state = begin_line;
  name = [];
  str = [];
  num = 0;
  arr = [];
  arr_strs = [];
  base = 0;
  settings = [];
}

-- The table that a file's contents give; `none` is a file that does not open.
pub read_config : Option Bytes → Settings
read_config none = []
read_config (some file) = (run initial file).settings

-- `mValidFile`: is there any setting?
unfoldable pub valid_file : Settings → Bool
valid_file [] = false
valid_file (s ∷ ss) = true
