-- ===== src/Hal/CapsInfo/Report.antt =====
-- The whole response to CORE_GET_CAPS_INFO as it reaches the stack.
use mathlib.Core.List.{append_assoc}
use device_xiaomi_odin.Prelude.{
  ℕ, zero, suc, ◌+◌, ◌%◌, ◌≤◌, ◌<◌, ◌≡◌, refl, ap, ap₂, sym, ◌∙◌, true, false, some, List, [], ◌∷◌,
  ◌++◌, arith, ltb, if◌then◌else◌, Bytes, length, take, All, length-append,
}
use device_xiaomi_odin.Uci.Packet.{byte}
use device_xiaomi_odin.Uci.Blocking.{Params, params_bytes, byte-append}
use device_xiaomi_odin.Hal.CapsInfo.{
  Antenna, Walk, slice, walk, count_params, rewritten, add_vendor, walk_start, parse_get_caps_info,
}
use device_xiaomi_odin.Hal.CapsInfo.Rewrite.{
  Entry, plain, vendor, versions, IsEntry, entries_bytes, kept, kept_count, walk-Walks, Walks,
}

take-slice :
    (v xs : Bytes) (i m : ℕ)
    → i ≡ length xs
    → length v ≤ m
    → take (length v) (slice (xs ++ v) i m) ≡ v
unfolding slice
take-slice [] xs i m e l = refl
take-slice (x ∷ v) xs i zero e l = absurd (omega arith)
take-slice (x ∷ v) xs i (suc m) e l =
    let more = length-append xs (x ∷ []) in
    ap₂ ◌∷◌ (byte-append xs (x ∷ v) i 0 (omega arith)) (
      ap (λ l. take (length v) (slice l (i + 1) m)) (sym (append_assoc xs (x ∷ []) v))
      ∙ take-slice v (xs ++ x ∷ []) (i + 1) m (omega arith) (omega arith))

count_params-one :
    (n index size next : ℕ) (v : Bytes)
    → byte v (index + 1) ≡ size
    → index + 2 + size ≡ next
    → count_params (suc n) v index ≡ (if ltb next (length v) then count_params n v next + 1 else 1)
unfolding count_params
count_params-one n index size next v b e = rw b (rw e refl)

count_params-params :
    (t : ℕ) (v : Bytes) (ps : Params) (xs : Bytes) (n index : ℕ)
    → index ≡ length xs
    → length ps < n
    → count_params n (xs ++ params_bytes ((t, v) ∷ ps)) index ≡ suc (length ps)
count_params-params t v ps xs zero index e l = absurd (omega arith)
count_params-params t v [] xs (suc n) index e l =
    let p : Bytes = xs ++ params_bytes ((t, v) ∷ []) in
    let all = length-append xs (params_bytes ((t, v) ∷ [])) in
    let tail = length-append v [] in
    let next : ℕ = index + 2 + length v in
    let over : ltb next (length p) ≡ false = ground arith in
    count_params-one n index (length v) next p
      (byte-append xs (params_bytes ((t, v) ∷ [])) (index + 1) 1 (omega arith)) refl
    ∙ rw over refl
count_params-params t v ((t', v') ∷ ps) xs (suc n) index e l =
    let rest : Bytes = params_bytes ((t', v') ∷ ps) in
    let p : Bytes = xs ++ params_bytes ((t, v) ∷ (t', v') ∷ ps) in
    let ys : Bytes = xs ++ (t ∷ length v ∷ v) in
    let same : ys ++ rest ≡ p = append_assoc xs (t ∷ length v ∷ v) rest in
    let at = length-append xs (t ∷ length v ∷ v) in
    let all = length-append xs (params_bytes ((t, v) ∷ (t', v') ∷ ps)) in
    let tail = length-append v rest in
    let next : ℕ = index + 2 + length v in
    let more : ltb next (length p) ≡ true = ground arith in
    count_params-one n index (length v) next p
      (byte-append xs (params_bytes ((t, v) ∷ (t', v') ∷ ps)) (index + 1) 1 (omega arith)) refl
    ∙ rw more (
        ap (λ k. k + 1)
          (ap (λ q. count_params n q next) (sym same)
            ∙ count_params-params t' v' ps ys n next (omega arith) (omega arith))
        ∙ omega arith)

params-size : (ps : Params) → length ps + length ps ≤ length (params_bytes ps)
params-size [] = omega arith
params-size ((t, v) ∷ ps) = omega (arith, params-size ps, length-append v (params_bytes ps))

entries-size : (es : List Entry) → length es + length es ≤ length (entries_bytes es)
entries-size [] = omega arith
entries-size (plain tag v ∷ es) = omega (arith, entries-size es, length-append v (entries_bytes es))
entries-size (vendor tag sub v ∷ es) =
    omega (arith, entries-size es, length-append v (entries_bytes es))
entries-size (versions a b ∷ es) = omega (arith, entries-size es)

kept-size : (es : List Entry) → kept_count es + kept_count es ≤ length (kept es)
kept-size [] = omega arith
kept-size (plain tag v ∷ es) = omega (arith, kept-size es, length-append v (kept es))
kept-size (vendor tag sub v ∷ es) = kept-size es
kept-size (versions a b ∷ es) = omega (arith, kept-size es)

-- The response to CORE_GET_CAPS_INFO with status 0 and the given entries.
abbrev pub caps_info : ℕ → Bytes → Bytes
caps_info count body = 0x40 ∷ 0x03 ∷ 0x00 ∷ (2 + length body) ∷ 0x00 ∷ count ∷ body

rewritten-caps_info :
    (configured k : Bytes) (c m : ℕ) (w : Walk)
    → (w.device_caps ≡ k) × (w.caps_len ≡ c) × (w.data_len ≡ 2 + length k)
    → count_params (length configured) configured 0 ≡ m
    → (length k + length configured ≤ 253) × (c + m < 256)
    → rewritten configured w ≡ caps_info (c + m) (k ++ configured)
unfolding rewritten
rewritten-caps_info configured k c m w (caps, count, size) e (l, b) =
    let whole = length-append k configured in
    let size' : (w.data_len + length configured) % 256 ≡ 2 + length (k ++ configured) =
      omega arith in
    let count' : (w.caps_len + count_params (length configured) configured 0) % 256 ≡ c + m =
      omega arith in
    let n : ℕ = length (k ++ configured) in
    let long : 2 + n + 4 ≡ suc (suc (suc (suc (suc (suc n))))) = omega arith in
    rw (size', count', caps)
      (rw long (
        ap (λ l. 0x40 ∷ 0x03 ∷ 0x00 ∷ (2 + n) ∷ 0x00 ∷ (c + m) ∷ l)
          (take-slice (k ++ configured) [] 0 (2 + n) refl (omega arith))))

-- The entries that stand in a response are read to its end.
walk_caps_info :
    (a : Antenna) (es : List Entry)
    → All IsEntry es
    → length (entries_bytes es) ≤ 253
    → let p = caps_info (length es) (entries_bytes es) in
      Walks es (walk_start p) (walk (length p) a (length p) 6 (walk_start p))
walk_caps_info a es h l =
    let p : Bytes = caps_info (length es) (entries_bytes es) in
    let few = entries-size es in
    walk-Walks es (length p) a
      (0x40 ∷ 0x03 ∷ 0x00 ∷ (2 + length (entries_bytes es)) ∷ 0x00 ∷ length es ∷ []) (length p) 6
      (walk_start p) h refl refl (omega arith) (omega arith)
      (omega arith, omega arith, omega arith, omega arith)

-- Where UWB_VENDOR_CAPABILITY is configured, as well-formed parameters of which there is at least one,
-- a successful response to CORE_GET_CAPS_INFO whose entries are well formed, of at most 253 bytes,
-- and which does not report the AoA support, loses exactly the entries of the vendor, has the two
-- protocol versions of CCC swapped, and gets the configured capabilities at its end; the length and
-- the count are those of what is left, if that is not more than 253 bytes.
pub parse_get_caps_info_lem :
    (a : Antenna) (es : List Entry) (t : ℕ) (v : Bytes) (ps : Params)
    → All IsEntry es
    → length (entries_bytes es) ≤ 253
    → length (kept es) + length (params_bytes ((t, v) ∷ ps)) ≤ 253
    → parse_get_caps_info a
        (some (params_bytes ((t, v) ∷ ps)))
        (caps_info (length es) (entries_bytes es))
      ≡ some (caps_info (kept_count es + suc (length ps)) (kept es ++ params_bytes ((t, v) ∷ ps)))
unfolding parse_get_caps_info add_vendor Walks
parse_get_caps_info_lem a es t v ps h l k =
    let configured : Bytes = params_bytes ((t, v) ∷ ps) in
    let (w, read, caps, count, size) = walk_caps_info a es h l in
    let few = kept-size es in
    let params = params-size ((t, v) ∷ ps) in
    rw (parse_get_caps_info, read)
      (ap some (
        rewritten-caps_info configured (kept es) (kept_count es) (suc (length ps)) w
          (caps, omega arith, omega arith)
          (count_params-params t v ps [] (length configured) 0 refl (omega arith))
          (k, omega arith)))
