-- ===== src/Config/Reader/Pieces.antt =====
-- readConfig over one piece of a line, with any text behind it.
use mathlib.Core.List.{append-nil, append_assoc}
use device_xiaomi_odin.Prelude.{
  ℕ, ◌+◌, ◌*◌, ◌%◌, ◌^◌, ◌≡◌, ◌≢◌, ◌⊎◌, inl, inr, refl, ◌∙◌, true, ◌||◌, [], ◌∷◌, ◌++◌, arith, ◌==◌,
  Bytes, All,
}
use device_xiaomi_odin.Config.Chars.{is_printable, is_digit, get_digit_value}
use device_xiaomi_odin.Config.Reader.{
  token, str_value, num_value, arr_space, arr_str, arr_str_space, arr_num, Reader, push_digit,
  step_in, after_step, run,
}

abbrev pub IsPrintable : Bytes → Type 0
IsPrintable = All (λ c. is_printable c ≡ true)

abbrev pub AreDigits : ℕ → Bytes → Type 0
AreDigits base = All (λ c. is_digit c base ≡ true)

-- The characters of a quoted string.
abbrev pub IsQuotable : Bytes → Type 0
IsQuotable = All (λ c. (c ≢ b'"') × (c ≢ b'#'))

-- What the reader skips between the elements of an array.
abbrev pub AreBlanks : Bytes → Type 0
AreBlanks = All (λ c. (c == b' ' || c == b'\n' || c == b'\t' || c == b'\r') ≡ true)

-- The number that digits stand for, behind a prefix that stands for `n`.
abbrev pub digits_value : ℕ → ℕ → Bytes → ℕ
digits_value base n [] = n
digits_value base n (d ∷ ds) = digits_value base (n * base + get_digit_value d base) ds

-- The same on 64 bits, digit by digit.
abbrev pub push_digits : ℕ → ℕ → Bytes → ℕ
push_digits base n [] = n
push_digits base n (d ∷ ds) = push_digits base (push_digit n base d base) ds

-- One character.

read_name :
    (p : Reader) (c : ℕ) (rest : Bytes)
    → p.state ≡ token
    → is_printable c ≡ true
    → run p (c ∷ rest) ≡ run (record p { name = p.name ++ c ∷ [] }) rest
unfolding run step_in after_step is_printable
read_name p c rest s h = ground arith

read_digit :
    (p : Reader) (c : ℕ) (rest : Bytes)
    → p.state ≡ num_value
    → (p.base ≡ 10) ⊎ (p.base ≡ 16)
    → is_digit c p.base ≡ true
    → run p (c ∷ rest) ≡ run (record p { num = push_digit p.num p.base c p.base }) rest
unfolding run step_in after_step is_digit
read_digit p c rest s b h = ground arith

read_quotable :
    (p : Reader) (c : ℕ) (rest : Bytes)
    → (p.state ≡ str_value) ⊎ (p.state ≡ arr_str)
    → (c ≢ b'"') × (c ≢ b'#')
    → run p (c ∷ rest) ≡ run (record p { str = p.str ++ c ∷ [] }) rest
unfolding run step_in after_step
read_quotable p c rest s h = ground arith

read_arr_digit :
    (p : Reader) (c : ℕ) (rest : Bytes)
    → p.state ≡ arr_num
    → p.base ≡ 16
    → is_digit c 16 ≡ true
    → run p (c ∷ rest) ≡ run (record p { num = push_digit p.num 16 c 16 }) rest
unfolding run step_in after_step is_digit
read_arr_digit p c rest s b h = ground arith

read_blank :
    (p : Reader) (c : ℕ) (rest : Bytes)
    → (p.state ≡ arr_space) ⊎ (p.state ≡ arr_str_space)
    → (c == b' ' || c == b'\n' || c == b'\t' || c == b'\r') ≡ true
    → run p (c ∷ rest) ≡ run p rest
unfolding run step_in after_step is_digit
read_blank p c rest s h = ground arith

-- Runs of characters.

pub run-token :
    (cs rest : Bytes) (p : Reader)
    → p.state ≡ token
    → IsPrintable cs
    → run p (cs ++ rest) ≡ run (record p { name = p.name ++ cs }) rest
run-token [] rest p s h = rw append-nil
run-token (c ∷ cs) rest p s h =
    read_name p c (cs ++ rest) s h.0
    ∙ run-token cs rest (record p { name = p.name ++ c ∷ [] }) s h.1
    ∙ rw append_assoc

pub run-digits :
    (ds rest : Bytes) (p : Reader)
    → p.state ≡ num_value
    → (p.base ≡ 10) ⊎ (p.base ≡ 16)
    → AreDigits p.base ds
    → run p (ds ++ rest) ≡ run (record p { num = push_digits p.base p.num ds }) rest
run-digits [] rest p s b h = refl
run-digits (d ∷ ds) rest p s b h =
    read_digit p d (ds ++ rest) s b h.0
    ∙ run-digits ds rest (record p { num = push_digit p.num p.base d p.base }) s b h.1

pub run-quotable :
    (cs rest : Bytes) (p : Reader)
    → (p.state ≡ str_value) ⊎ (p.state ≡ arr_str)
    → IsQuotable cs
    → run p (cs ++ rest) ≡ run (record p { str = p.str ++ cs }) rest
run-quotable [] rest p s h = rw append-nil
run-quotable (c ∷ cs) rest p s h =
    read_quotable p c (cs ++ rest) s h.0
    ∙ run-quotable cs rest (record p { str = p.str ++ c ∷ [] }) s h.1
    ∙ rw append_assoc

pub run-arr_digits :
    (ds rest : Bytes) (p : Reader)
    → p.state ≡ arr_num
    → p.base ≡ 16
    → AreDigits 16 ds
    → run p (ds ++ rest) ≡ run (record p { num = push_digits 16 p.num ds }) rest
run-arr_digits [] rest p s b h = refl
run-arr_digits (d ∷ ds) rest p s b h =
    read_arr_digit p d (ds ++ rest) s b h.0
    ∙ run-arr_digits ds rest (record p { num = push_digit p.num 16 d 16 }) s b h.1

pub run-blanks :
    (cs rest : Bytes) (p : Reader)
    → (p.state ≡ arr_space) ⊎ (p.state ≡ arr_str_space)
    → AreBlanks cs
    → run p (cs ++ rest) ≡ run p rest
run-blanks [] rest p s h = refl
run-blanks (c ∷ cs) rest p s h = read_blank p c (cs ++ rest) s h.0 ∙ run-blanks cs rest p s h.1

-- On 64 bits the digits give the number modulo 2 ^ 64.
push_digit-mod :
    (n d base : ℕ)
    → (base ≡ 10) ⊎ (base ≡ 16)
    → push_digit (n % 2 ^ 64) base d base ≡ (n * base + get_digit_value d base) % 2 ^ 64
push_digit-mod n d base (inl e) = rw e (omega arith)
push_digit-mod n d base (inr e) = rw e (omega arith)

pub push_digits-mod :
    (ds : Bytes) (base n : ℕ)
    → (base ≡ 10) ⊎ (base ≡ 16)
    → push_digits base (n % 2 ^ 64) ds ≡ digits_value base n ds % 2 ^ 64
push_digits-mod [] base n b = refl
push_digits-mod (d ∷ ds) base n b =
    rw (push_digit-mod n d base b) (push_digits-mod ds base (n * base + get_digit_value d base) b)
