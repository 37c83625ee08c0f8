-- ===== src/Config/Reader/Lines/Strings.antt =====
-- Reading the strings of a line, and a value of any kind.
use mathlib.Core.List.{append-nil, append_assoc}
use device_xiaomi_odin.Prelude.{
  ◌%◌, ◌≡◌, ◌⊎◌, inl, inr, refl, sym, ap, ◌∙◌, List, [], ◌∷◌, ◌++◌, arith, Bytes, All, map,
}
use device_xiaomi_odin.Config.Chars.{is_digit, get_digit_value}
use device_xiaomi_odin.Config.Param.{number, string, byte_array, string_array, try_emplace}
use device_xiaomi_odin.Config.Reader.{
  begin_line, str_value, num_value, arr_space, arr_num, arr_str, arr_str_space, Reader, store,
  step_in, after_step, is_end_line, run,
}
use device_xiaomi_odin.Config.Reader.Pieces.{
  IsQuotable, AreBlanks, push_digits, run-arr_digits, run-quotable, run-blanks,
}
use device_xiaomi_odin.Config.Reader.Lines.{
  Value, numbers_text, quoteds_text, value_text, meaning, IsValue, hex, dec_zero, dec, quoted,
  numbers, numbers_to, quoteds,
}
use device_xiaomi_odin.Config.Reader.Lines.Numbers.{
  Behind, Reads, open_hex, open_dec, read_digits, small_digit, open_quoted, close_quoted,
  open_array, close_array, run-numbers, read_zero, close_last, open_element, read_element,
}

pub open_strings :
    (p : Reader) (rest : Bytes)
    → (p.state ≡ arr_space) ⊎ (p.state ≡ arr_str_space)
    → run p (b'"' ∷ rest) ≡ run (record p { state = arr_str }) rest
unfolding run step_in after_step is_digit is_end_line
open_strings p rest s = ground arith

pub close_string :
    (p : Reader) (rest : Bytes)
    → p.state ≡ arr_str
    → run p (b'"' ∷ rest)
      ≡ run (record p { arr_strs = p.arr_strs ++ p.str ∷ []; str = []; state = arr_str_space }) rest
unfolding run step_in after_step is_end_line
close_string p rest s = ground arith

pub close_strings :
    (p : Reader) (rest : Bytes)
    → p.state ≡ arr_str_space
    → run p (b'}' ∷ b'\n' ∷ rest)
      ≡ run (record (store p (string_array p.arr_strs)) { arr_strs = []; state = begin_line }) rest
unfolding run step_in after_step is_end_line
close_strings p rest s = ground arith

-- The reader behind the closing quote of a string of an array.
pub record InStrings (p q : Reader) (es : List Bytes) : Type 0 where
  pub at : q.state ≡ arr_str_space
  pub str_nil : q.str ≡ []
  pub read : q.arr_strs ≡ p.arr_strs ++ es
  pub same_name : q.name ≡ p.name
  pub same_settings : q.settings ≡ p.settings

-- From the opening quote of a string.
pub read_string :
    (t rest : Bytes) (p : Reader)
    → (p.state ≡ arr_space) ⊎ (p.state ≡ arr_str_space)
    → p.str ≡ []
    → IsQuotable t
    → (q : Reader) × (run p (b'"' ∷ (t ++ (b'"' ∷ rest))) ≡ run q rest) × InStrings p q (t ∷ [])
read_string t rest p s e h =
    let p₁ : Reader = record p { state = arr_str } in
    let p₂ : Reader = record p₁ { str = p.str ++ t } in
    (
      record p₂ { arr_strs = p.arr_strs ++ p₂.str ∷ []; str = []; state = arr_str_space },
      open_strings p (t ++ (b'"' ∷ rest)) s
          ∙ run-quotable t (b'"' ∷ rest) p₁ (inr refl) h
          ∙ close_string p₂ rest refl,
      record {
        at = refl;
        str_nil = refl;
        read = ap (λ x. p.arr_strs ++ (x ++ t) ∷ []) e;
        same_name = refl;
        same_settings = refl;
      },
    )

pub run-quoteds :
    (es : List (Bytes × Bytes)) (rest : Bytes) (p : Reader)
    → p.state ≡ arr_str_space
    → p.str ≡ []
    → All (λ e. AreBlanks e.0 × IsQuotable e.1) es
    → (q : Reader) × (run p (quoteds_text es rest) ≡ run q rest) × InStrings p q (map (λ e. e.1) es)
run-quoteds [] rest p s e h = (
  p,
  refl,
  record {
    at = s;
    str_nil = e;
    read = sym (append-nil p.arr_strs);
    same_name = refl;
    same_settings = refl;
  },
)
run-quoteds ((blanks, t) ∷ es) rest p s e h =
    let (q, r, i) = read_string t (quoteds_text es rest) p (inr s) e h.0.1 in
    let (q', r', i') = run-quoteds es rest q i.at i.str_nil h.1 in
    (
      q',
      run-blanks blanks (b'"' ∷ (t ++ (b'"' ∷ quoteds_text es rest))) p (inr s) h.0.0 ∙ r ∙ r',
      record {
        at = i'.at;
        str_nil = i'.str_nil;
        read = i'.read ∙ rw i.read (append_assoc p.arr_strs (t ∷ []) (map (λ e. e.1) es));
        same_name = i'.same_name ∙ i.same_name;
        same_settings = i'.same_settings ∙ i.same_settings;
      },
    )

pub read_value :
    (v : Value) (rest : Bytes) (p : Reader)
    → Behind p
    → IsValue v
    → Reads p (value_text v (b'\n' ∷ rest)) rest (try_emplace p.name (meaning v) p.settings)
read_value (hex ds) rest p k h =
    let p₁ : Reader = record p { state = num_value; base = 16; num = 0 } in
    let (q, r, s, m) = read_digits ds rest p₁ 0 refl (inr refl) refl h in
    (q, open_hex p (ds ++ (b'\n' ∷ rest)) k.at ∙ r, s, m)
read_value (dec d ds) rest p k h =
    let p₁ : Reader = record p { state = num_value; base = 10; num = get_digit_value d 10 } in
    let (q, r, s, m) =
      read_digits ds rest p₁ (get_digit_value d 10) refl (inl refl) (small_digit d) h.2 in
    (q, open_dec p d (ds ++ (b'\n' ∷ rest)) k.at h.0 h.1 ∙ r, s, m)
read_value dec_zero rest p k h = (
  record (store p (number p.num)) { state = begin_line },
  read_zero p rest k.at,
  refl,
  ap (λ n. try_emplace p.name (number n) p.settings) k.num_zero,
)
read_value (quoted t) rest p k h =
    let p₁ : Reader = record p { state = str_value; base = 0 } in
    let p₂ : Reader = record p₁ { str = p.str ++ t } in
    (
      record (store p₂ (string p₂.str)) { state = begin_line },
      open_quoted p (t ++ (b'"' ∷ b'\n' ∷ rest)) k.at
          ∙ run-quotable t (b'"' ∷ b'\n' ∷ rest) p₁ (inl refl) h
          ∙ close_quoted p₂ rest refl,
      refl,
      ap (λ s. try_emplace p.name (string (s ++ t)) p.settings) k.str_nil,
    )
read_value (numbers es) rest p k h =
    let p₁ : Reader = record p { state = arr_space; base = 16 } in
    let (q, r, i) = run-numbers es (b'}' ∷ b'\n' ∷ rest) p₁ refl refl h in
    (
      record (store q (byte_array q.arr)) { arr = []; state = begin_line },
      open_array p (numbers_text es (b'}' ∷ b'\n' ∷ rest)) k.at ∙ r ∙ close_array q rest i.at,
      refl,
      rw (i.same_name, i.same_settings, i.read, k.arr_nil),
    )
read_value (numbers_to es d ds) rest p k (h, f, g) =
    let p₁ : Reader = record p { state = arr_space; base = 16 } in
    let behind = b'}' ∷ b'\n' ∷ rest in
    let (q, r, i) = run-numbers es (d ∷ (ds ++ behind)) p₁ refl refl h in
    let q₁ : Reader = record q { num = get_digit_value d 16; state = arr_num } in
    let q₂ : Reader = record q₁ { num = push_digits 16 q₁.num ds } in
    (
      record (store q₂ (byte_array (q₂.arr ++ (q₂.num % 256) ∷ []))) {
        arr = [];
        state = begin_line;
      },
      open_array p (numbers_text es (d ∷ (ds ++ behind))) k.at
          ∙ r
          ∙ open_element q d (ds ++ behind) i.at i.base f
          ∙ run-arr_digits ds behind q₁ refl i.base g
          ∙ close_last q₂ rest refl,
      refl,
      rw (i.same_name, i.same_settings, i.read, k.arr_nil, read_element d ds []),
    )
read_value (quoteds t es) rest p k h =
    let p₁ : Reader = record p { state = arr_space; base = 16 } in
    let last = b'}' ∷ b'\n' ∷ rest in
    let (q, r, i) = read_string t (quoteds_text es last) p₁ (inl refl) k.str_nil h.0 in
    let (q', r', i') = run-quoteds es last q i.at i.str_nil h.1 in
    (
      record (store q' (string_array q'.arr_strs)) { arr_strs = []; state = begin_line },
      open_array p (b'"' ∷ (t ++ (b'"' ∷ quoteds_text es last))) k.at
          ∙ r
          ∙ r'
          ∙ close_strings q' rest i'.at,
      refl,
      rw (i'.same_name, i'.same_settings, i'.read)
          (rw (i.same_name, i.same_settings, i.read) (rw k.strs_nil)),
    )

-- Lines.
