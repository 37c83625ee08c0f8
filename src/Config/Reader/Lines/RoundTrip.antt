-- ===== src/Config/Reader/Lines/RoundTrip.antt =====
-- Reading back the lines of a configuration file.
use device_xiaomi_odin.Prelude.{
  ℕ, ◌≡◌, ◌≢◌, refl, ◌∙◌, true, List, [], ◌∷◌, ◌++◌, arith, Bytes, All,
}
use device_xiaomi_odin.Config.Chars.{is_printable}
use device_xiaomi_odin.Config.Reader.{
  begin_line, token, arr_space, begin_quote, end_line, Reader, step_in, after_step, is_end_line,
  run,
}
use device_xiaomi_odin.Config.Reader.Pieces.{IsPrintable, run-token}
use device_xiaomi_odin.Config.Reader.Lines.{numbers_text, IsValue, numbers}
use device_xiaomi_odin.Config.Reader.Lines.Numbers.{open_array, run-numbers}

open_line :
    (p : Reader) (c : ℕ) (rest : Bytes)
    → p.state ≡ begin_line
    → is_printable c ≡ true
    → run p (c ∷ rest)
      ≡ run
          (record p { name = c ∷ []; num = 0; str = []; arr = []; arr_strs = []; state = token })
          rest
unfolding run step_in after_step is_printable is_end_line
open_line p c rest s h = ground arith

read_equals :
    (p : Reader) (rest : Bytes)
    → p.state ≡ token
    → run p (b'=' ∷ rest) ≡ run (record p { state = begin_quote }) rest
unfolding run step_in after_step is_printable is_end_line
read_equals p rest s = ground arith

-- Nothing is read up to the end of the line.
pub run-end_line :
    (cs rest : Bytes) (p : Reader)
    → p.state ≡ end_line
    → All (λ c. (c ≢ b'\n') × (c ≢ b'\r')) cs
    → run p (cs ++ (b'\n' ∷ rest)) ≡ run (record p { state = begin_line }) rest
unfolding run step_in after_step is_end_line
run-end_line [] rest p s h = ground arith
run-end_line (c ∷ cs) rest p s h = ground (arith, run-end_line cs rest p s h.1)

-- The reader inside an array, behind some of its elements.
pub read_open_array :
    (c : ℕ) (cs : Bytes) (es : List (ℕ × Bytes × Bytes)) (rest : Bytes) (p : Reader)
    → p.state ≡ begin_line
    → (is_printable c ≡ true) × IsPrintable cs × IsValue (numbers es)
    → (q : Reader) × (run p (c ∷ (cs ++ (b'=' ∷ b'{' ∷ numbers_text es rest))) ≡ run q rest)
      × (q.state ≡ arr_space)
      × (q.settings ≡ p.settings)
read_open_array c cs es rest p s h =
    let p₁ : Reader = record p {
      name = c ∷ [];
      num = 0;
      str = [];
      arr = [];
      arr_strs = [];
      state = token;
    } in
    let p₂ : Reader = record p₁ { name = c ∷ cs } in
    let p₃ : Reader = record p₂ { state = begin_quote } in
    let inside = numbers_text es rest in
    let (q, r, i) =
      run-numbers es rest (record p₃ { state = arr_space; base = 16 }) refl refl h.2 in
    (
      q,
      open_line p c (cs ++ (b'=' ∷ b'{' ∷ inside)) s h.0
          ∙ run-token cs (b'=' ∷ b'{' ∷ inside) p₁ refl h.1
          ∙ read_equals p₂ (b'{' ∷ inside) refl
          ∙ open_array p₃ inside refl
          ∙ r,
      i.at,
      i.same_settings,
    )
