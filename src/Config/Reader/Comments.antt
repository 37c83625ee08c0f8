-- ===== src/Config/Reader/Comments.antt =====
-- A `#` in the middle of a value, as in the example of uwb/halimpl/config/README.md.
use device_xiaomi_odin.Prelude.{
  ℕ, ◌≡◌, ◌≢◌, refl, sym, subst, ◌∙◌, true, List, [], ◌∷◌, ◌++◌, arith, Bytes, All,
}
use device_xiaomi_odin.Config.Chars.{is_printable, is_digit, is_array_delimeter}
use device_xiaomi_odin.Config.Reader.{
  State, begin_line, token, str_value, num_value, arr_space, arr_str, arr_str_space, arr_num,
  begin_hex, begin_quote, end_line, Reader, step_in, after_step, is_end_line, run, initial,
}
use device_xiaomi_odin.Config.Reader.Pieces.{IsPrintable}
use device_xiaomi_odin.Config.Reader.Lines.{numbers, numbers_text, IsValue}
use device_xiaomi_odin.Config.Reader.Lines.RoundTrip.{run-end_line, read_open_array}

-- The states that keep a value which is not complete.
abbrev pub IsOpen : State → Type 0
IsOpen begin_quote = Unit {0}
IsOpen token = Unit
IsOpen str_value = Unit
IsOpen arr_space = Unit
IsOpen arr_str = Unit
IsOpen arr_str_space = Unit
IsOpen arr_num = Unit
IsOpen _ = ⊥

read_hash_in :
    (s : State) (p : Reader) (rest : Bytes)
    → p.state ≡ s
    → IsOpen s
    → (q : Reader) × (run p (b'#' ∷ rest) ≡ run q rest)
      × (q.state ≡ end_line)
      × (q.settings ≡ p.settings)
unfolding run step_in after_step is_end_line is_printable is_digit is_array_delimeter
read_hash_in token p rest e o = (record p { state = end_line }, ground arith, refl, refl)
read_hash_in begin_quote p rest e o = (record p { state = end_line }, ground arith, refl, refl)
read_hash_in arr_space p rest e o = (record p { state = end_line }, ground arith, refl, refl)
read_hash_in arr_str_space p rest e o = (record p { state = end_line }, ground arith, refl, refl)
read_hash_in arr_num p rest e o = (record p { state = end_line }, ground arith, refl, refl)
read_hash_in str_value p rest e o =
    (record p { state = end_line; str = p.str ++ b'#' ∷ [] }, ground arith, refl, refl)
read_hash_in arr_str p rest e o =
    (record p { state = end_line; str = p.str ++ b'#' ∷ [] }, ground arith, refl, refl)
read_hash_in begin_line p rest e o = elim o [ ]
read_hash_in num_value p rest e o = elim o [ ]
read_hash_in begin_hex p rest e o = elim o [ ]
read_hash_in end_line p rest e o = elim o [ ]

-- A `#` inside a quoted string or an array, or before the value begins, ends the setting: what has
-- been read of it is dropped, the table stays as it was, and the next line is read as a new one.
pub run_hash :
    (p : Reader) (cs rest : Bytes)
    → IsOpen p.state
    → All (λ c. (c ≢ b'\n') × (c ≢ b'\r')) cs
    → (q : Reader) × (run p (b'#' ∷ (cs ++ (b'\n' ∷ rest))) ≡ run q rest)
      × (q.state ≡ begin_line)
      × (q.settings ≡ p.settings)
run_hash p cs rest o h =
    let (q, r, at, m) = read_hash_in p.state p (cs ++ (b'\n' ∷ rest)) refl o in
    (record q { state = begin_line }, r ∙ run-end_line cs rest q at h, refl, m)

-- So a byte array that is written over several lines, with a comment behind some of its elements,
-- is not stored: its name has no value when the comment's line ends, and the lines behind it are
-- read as new ones.
pub comment_in_array :
    (c : ℕ) (cs : Bytes) (es : List (ℕ × Bytes × Bytes)) (note rest : Bytes)
    → (is_printable c ≡ true) × IsPrintable cs × IsValue (numbers es)
    → All (λ c. (c ≢ b'\n') × (c ≢ b'\r')) note
    → (q : Reader) × (run initial
          (c ∷ (cs ++ (b'=' ∷ b'{' ∷ numbers_text es (b'#' ∷ (note ++ (b'\n' ∷ rest))))))
        ≡ run q rest)
      × (q.state ≡ begin_line)
      × (q.settings ≡ [])
comment_in_array c cs es note rest h k =
    let (q, r, at, m) = read_open_array c cs es (b'#' ∷ (note ++ (b'\n' ∷ rest))) initial refl h in
    let (q', r', at', m') = run_hash q note rest (subst IsOpen (sym at) tt) k in
    (q', r ∙ r', at', m' ∙ m)
