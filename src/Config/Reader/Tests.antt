-- ===== src/Config/Reader/Tests.antt =====
-- readConfig on small files.
use Prim.Native.Char.{code}
use Prim.Native.String.{String}
use device_xiaomi_odin.Prelude.{◌≡◌, refl, some, List, [], ◌∷◌, Bytes}
use device_xiaomi_odin.Config.Chars.{is_printable, is_digit, is_array_delimeter, get_digit_value}
use device_xiaomi_odin.Config.Param.{number, byte_array, bytes_eq, try_emplace}
use device_xiaomi_odin.Config.Reader.{
  str_value, Reader, initial, run, step_in, after_step, is_end_line, read_config,
}
use device_xiaomi_odin.Config.Reader.Lines.{
  Line, setting, comment, quoted, dec_zero, numbers, numbers_to,
}
use device_xiaomi_odin.Config.Reader.Sound.{AreSettings, read_config-AreSettings}

abbrev codes : String → Bytes
codes String.[] = []
codes (String.◌∷◌ c s) = code c ∷ codes s

number_line :
    read_config (some (codes "A=0x1f\nB=7")) ≡ (codes "A", number 31) ∷ (codes "B", number 7) ∷ []
unfolding read_config run step_in after_step is_end_line is_printable is_digit get_digit_value
    try_emplace bytes_eq
number_line = refl

array_line :
    read_config (some (codes "A={20, 0f,\n 101}\n"))
    ≡ (codes "A", byte_array (0x20 ∷ 0x0f ∷ 1 ∷ [])) ∷ []
unfolding read_config run step_in after_step is_end_line is_printable is_digit is_array_delimeter
    get_digit_value try_emplace bytes_eq
array_line = refl

-- Two arrays, a comment, a string and a number.
abbrev file : List Line
file =
    setting b'A' (codes "_1") (numbers ((b'2', codes "0", codes " ") ∷ (b'f', [], codes "\n") ∷ []))
    ∷ comment (codes " note")
    ∷ setting b'B' [] (quoted (codes "x y"))
    ∷ setting b'C' [] (numbers_to ((b'2', codes "0", codes " ") ∷ []) b'0' (codes "4"))
    ∷ setting b'D' [] dec_zero
    ∷ []

-- The reader inside a string.
abbrev in_string : Reader
in_string = record initial { state = str_value; name = codes "A" }

read_config-AreSettings_example : AreSettings (read_config (some (codes "A={1,2} =\nB")))
read_config-AreSettings_example = read_config-AreSettings (some (codes "A={1,2} =\nB"))
