-- ===== src/Config/Reader/Lines/Numbers.antt =====
-- Reading the numbers of a line, alone or in an array.
use mathlib.Core.List.{append-nil, append_assoc}
use device_xiaomi_odin.Prelude.{
  ℕ, ◌%◌, ◌^◌, ◌≡◌, ◌≢◌, ◌⊎◌, inl, inr, refl, sym, ap, ◌∙◌, true, some, List, [], ◌∷◌, ◌++◌, arith,
  Bytes, map,
}
use device_xiaomi_odin.Config.Chars.{is_digit, is_array_delimeter, get_digit_value}
use device_xiaomi_odin.Config.Param.{string, number, byte_array, try_emplace, Settings}
use device_xiaomi_odin.Config.Reader.{
  begin_line, str_value, num_value, arr_space, arr_num, begin_quote, Reader, store, step_in,
  after_step, is_end_line, run,
}
use device_xiaomi_odin.Config.Reader.Pieces.{
  AreDigits, digits_value, push_digits, run-digits, run-arr_digits, run-blanks, push_digits-mod,
}
use device_xiaomi_odin.Config.Reader.Lines.{numbers_text, element, IsValue, numbers}

-- The reader is back at the beginning of a line, with the table `m`.
abbrev pub Reads : Reader → Bytes → Bytes → Settings → Type 0
Reads p from rest m =
    (q : Reader) × (run p from ≡ run q rest) × (q.state ≡ begin_line) × (q.settings ≡ m)

-- The reader behind `=`, as the beginning of a line has left it.
pub record Behind (p : Reader) : Type 0 where
  pub at : p.state ≡ begin_quote
  pub num_zero : p.num ≡ 0
  pub str_nil : p.str ≡ []
  pub arr_nil : p.arr ≡ []
  pub strs_nil : p.arr_strs ≡ []

-- The character behind `=`.
pub read_value_start :
    (p : Reader) (c : ℕ) (rest : Bytes)
    → p.state ≡ begin_quote
    → run p (c ∷ rest) ≡ run (after_step (step_in begin_quote p (some c)) c) rest
unfolding run
read_value_start p c rest s = rw s

pub close_number :
    (p : Reader) (rest : Bytes)
    → p.state ≡ num_value
    → (p.base ≡ 10) ⊎ (p.base ≡ 16)
    → run p (b'\n' ∷ rest) ≡ run (record (store p (number p.num)) { state = begin_line }) rest
unfolding run step_in after_step is_digit is_end_line
close_number p rest s b = ground arith

-- Values.

pub open_hex :
    (p : Reader) (rest : Bytes)
    → p.state ≡ begin_quote
    → run p (b'0' ∷ b'x' ∷ rest) ≡ run (record p { state = num_value; base = 16; num = 0 }) rest
unfolding run step_in after_step is_digit is_end_line
open_hex p rest s = ground arith

pub open_dec :
    (p : Reader) (d : ℕ) (rest : Bytes)
    → p.state ≡ begin_quote
    → is_digit d 10 ≡ true
    → d ≢ b'0'
    → run p (d ∷ rest)
      ≡ run (record p { state = num_value; base = 10; num = get_digit_value d 10 }) rest
unfolding run step_in after_step is_digit is_end_line
open_dec p d rest s h n = ground arith

pub read_zero :
    (p : Reader) (rest : Bytes)
    → p.state ≡ begin_quote
    → run p (b'0' ∷ b'\n' ∷ rest)
      ≡ run (record (store p (number p.num)) { state = begin_line }) rest
unfolding run step_in after_step is_digit is_end_line
read_zero p rest s = ground arith

pub read_digits :
    (ds rest : Bytes) (p : Reader) (n : ℕ)
    → p.state ≡ num_value
    → (p.base ≡ 10) ⊎ (p.base ≡ 16)
    → p.num ≡ n % 2 ^ 64
    → AreDigits p.base ds
    → Reads p
        (ds ++ (b'\n' ∷ rest))
        rest
        (try_emplace p.name (number (digits_value p.base n ds % 2 ^ 64)) p.settings)
read_digits ds rest p n s b e h =
    let done = record p { num = push_digits p.base p.num ds } in
    (
      record (store done (number done.num)) { state = begin_line },
      run-digits ds (b'\n' ∷ rest) p s b h ∙ close_number done rest s b,
      refl,
      ap (λ k. try_emplace p.name (number k) p.settings)
          (ap (λ k. push_digits p.base k ds) e ∙ push_digits-mod ds p.base n b),
    )

pub small_digit : (d : ℕ) → get_digit_value d 10 ≡ get_digit_value d 10 % 2 ^ 64
unfolding get_digit_value
small_digit d = ground arith

pub open_quoted :
    (p : Reader) (rest : Bytes)
    → p.state ≡ begin_quote
    → run p (b'"' ∷ rest) ≡ run (record p { state = str_value; base = 0 }) rest
unfolding run step_in after_step is_end_line
open_quoted p rest s = ground arith

pub close_quoted :
    (p : Reader) (rest : Bytes)
    → p.state ≡ str_value
    → run p (b'"' ∷ b'\n' ∷ rest)
      ≡ run (record (store p (string p.str)) { state = begin_line }) rest
unfolding run step_in after_step is_end_line
close_quoted p rest s = ground arith

pub open_array :
    (p : Reader) (rest : Bytes)
    → p.state ≡ begin_quote
    → run p (b'{' ∷ rest) ≡ run (record p { state = arr_space; base = 16 }) rest
unfolding run step_in after_step is_digit is_end_line
open_array p rest s = ground arith

pub open_element :
    (p : Reader) (d : ℕ) (rest : Bytes)
    → p.state ≡ arr_space
    → p.base ≡ 16
    → is_digit d 16 ≡ true
    → run p (d ∷ rest) ≡ run (record p { num = get_digit_value d 16; state = arr_num }) rest
unfolding run step_in after_step is_digit is_end_line
open_element p d rest s b h = ground arith

pub close_element :
    (p : Reader) (rest : Bytes)
    → p.state ≡ arr_num
    → run p (b',' ∷ rest)
      ≡ run (record p { arr = p.arr ++ (p.num % 256) ∷ []; state = arr_space }) rest
unfolding run step_in after_step is_digit is_array_delimeter is_end_line
close_element p rest s = ground arith

pub close_array :
    (p : Reader) (rest : Bytes)
    → p.state ≡ arr_space
    → run p (b'}' ∷ b'\n' ∷ rest)
      ≡ run (record (store p (byte_array p.arr)) { arr = []; state = begin_line }) rest
unfolding run step_in after_step is_digit is_end_line
close_array p rest s = ground arith

-- The brace behind the last number of an array.
pub close_last :
    (p : Reader) (rest : Bytes)
    → p.state ≡ arr_num
    → run p (b'}' ∷ b'\n' ∷ rest)
      ≡ run
          (record (store p (byte_array (p.arr ++ (p.num % 256) ∷ []))) {
            arr = [];
            state = begin_line;
          })
          rest
unfolding run step_in after_step is_digit is_array_delimeter is_end_line
close_last p rest s = ground arith

-- The reader behind the elements of an array.
pub record InArray (p q : Reader) (es : List (ℕ × Bytes × Bytes)) : Type 0 where
  pub at : q.state ≡ arr_space
  pub base : q.base ≡ 16
  pub read : q.arr ≡ p.arr ++ map element es
  pub same_name : q.name ≡ p.name
  pub same_settings : q.settings ≡ p.settings

pub hex_digit : (d : ℕ) → get_digit_value d 16 ≡ get_digit_value d 16 % 2 ^ 64
unfolding get_digit_value
hex_digit d = ground arith

pub low_byte : (a x : ℕ) → a ≡ x % 2 ^ 64 → a % 256 ≡ x % 256
low_byte a x e = omega arith

pub read_element :
    (d : ℕ) (ds blanks : Bytes)
    → push_digits 16 (get_digit_value d 16) ds % 256 ≡ element (d, ds, blanks)
read_element d ds blanks = low_byte (push_digits 16 (get_digit_value d 16) ds) _ (
    ap (λ k. push_digits 16 k ds) (hex_digit d)
    ∙ push_digits-mod ds 16 (get_digit_value d 16) (inr refl))

pub run-numbers :
    (es : List (ℕ × Bytes × Bytes)) (rest : Bytes) (p : Reader)
    → p.state ≡ arr_space
    → p.base ≡ 16
    → IsValue (numbers es)
    → (q : Reader) × (run p (numbers_text es rest) ≡ run q rest) × InArray p q es
run-numbers [] rest p s b h = (
  p,
  refl,
  record {
    at = s;
    base = b;
    read = sym (append-nil p.arr);
    same_name = refl;
    same_settings = refl;
  },
)
run-numbers ((d, ds, blanks) ∷ es) rest p s b h =
    let behind = b',' ∷ (blanks ++ numbers_text es rest) in
    let p₁ : Reader = record p { num = get_digit_value d 16; state = arr_num } in
    let p₂ : Reader = record p₁ { num = push_digits 16 p₁.num ds } in
    let p₃ : Reader = record p₂ { arr = p.arr ++ (p₂.num % 256) ∷ []; state = arr_space } in
    let (q, r, i) = run-numbers es rest p₃ refl b h.1 in
    (
      q,
      open_element p d (ds ++ behind) s b h.0.0
          ∙ run-arr_digits ds behind p₁ refl b h.0.1
          ∙ close_element p₂ (blanks ++ numbers_text es rest) refl
          ∙ run-blanks blanks (numbers_text es rest) p₃ (inl refl) h.0.2
          ∙ r,
      record {
        at = i.at;
        base = i.base;
        read =
            i.read
            ∙ rw (read_element d ds blanks)
                (append_assoc p.arr (element (d, ds, blanks) ∷ []) (map element es));
        same_name = i.same_name;
        same_settings = i.same_settings;
      },
    )
