-- ===== src/Uci/AppConfig/Removal.antt =====
-- What handlingVendorSpecificAppConfig leaves of a well-formed command.
use mathlib.Core.List.{append_assoc, append-nil}
use device_xiaomi_odin.Prelude.{
  ℕ, zero, suc, ◌+◌, ◌-◌, ◌*◌, ◌/◌, ◌%◌, ◌≤◌, ◌≡◌, refl, ap, ap₂, sym, ◌∙◌, inl, inr, true, false,
  ◌&&◌, none, some, List, [], ◌∷◌, ◌++◌, arith, ltb, leb, ◌==◌, if◌then◌else◌, Bytes, length, drop,
  All, length-append, take-length_append, drop-length_append, Bool-cases,
}
use device_xiaomi_odin.Uci.Packet.{message_type, gid, oid, mt_cmd, uci_max_data_len}
use device_xiaomi_odin.Uci.Tlv.{is_extended, tag_bytes}
use device_xiaomi_odin.Uci.Tlv.RoundTrip.{IsTag}
use device_xiaomi_odin.Uci.AppConfig.{
  is_vendor_tag, Kept, read_param, Loop, finished, returned, out_of_fuel, keep, remove,
  filter_params, rebuild, nothing_kept, handle_vendor_config,
}

-- A parameter, as its tag and its values, and the bytes that stand for it.
abbrev pub Params : Type 0
Params = List (ℕ × Bytes)

abbrev pub param_bytes : ℕ → Bytes → Bytes
param_bytes tag v = tag_bytes tag ++ (length v ∷ v)

abbrev pub params_bytes : Params → Bytes
params_bytes [] = []
params_bytes ((tag, v) ∷ ps) = param_bytes tag v ++ params_bytes ps

-- The values leave room for the tag and the length in 255 bytes.
abbrev pub IsParam : ℕ × Bytes → Type 0
IsParam (tag, v) = IsTag tag × (length v ≤ 252)

-- The parameters that stay.
abbrev pub without_vendor : Params → Params
without_vendor [] = []
without_vendor ((tag, v) ∷ ps) =
    if is_vendor_tag tag then without_vendor ps else (tag, v) ∷ without_vendor ps

-- The number of those that go, and of their bytes.
abbrev removed : Params → ℕ
removed [] = 0
removed ((tag, v) ∷ ps) = if is_vendor_tag tag then suc (removed ps) else removed ps

abbrev removed_bytes : Params → ℕ
removed_bytes [] = 0
removed_bytes ((tag, v) ∷ ps) =
    if is_vendor_tag tag then length (param_bytes tag v) + removed_bytes ps else removed_bytes ps

pub read_param-short :
    (x y : ℕ) (r : Bytes) → is_extended x ≡ false → read_param (x ∷ y ∷ r) ≡ some (x, (2 + y) % 256)
unfolding read_param
read_param-short x y [] e = rw e refl
read_param-short x y (z ∷ r) e = rw e refl

read_param-long :
    (x y z : ℕ) (r : Bytes)
    → is_extended x ≡ true
    → read_param (x ∷ y ∷ z ∷ r) ≡ some (x * 256 + y, (3 + z) % 256)
unfolding read_param
read_param-long x y z r e = rw e refl

-- One round of the loop, over a parameter that is there in full.
filter_params-some :
    (n tag : ℕ) (x : ℕ) (p rest : Bytes) (k : Kept)
    → read_param (x ∷ (p ++ rest)) ≡ some (tag, length (x ∷ p))
    → filter_params (suc n) (x ∷ (p ++ rest)) k ≡ (
        if is_vendor_tag tag
        then filter_params n rest (remove (length (x ∷ p)) k)
        else filter_params n rest (keep (x ∷ p) k))
unfolding filter_params
filter_params-some n tag x p rest k e =
    let fits : leb (length (x ∷ p)) (length (x ∷ (p ++ rest))) ≡ true =
      ground (arith, length-append p rest) in
    rw (filter_params, e) (rw fits (rw (drop-length_append p rest, take-length_append p rest) refl))

-- The same, for the bytes of a parameter.
filter_params-param :
    (n tag : ℕ) (v rest : Bytes) (k : Kept)
    → IsParam (tag, v)
    → filter_params (suc n) (param_bytes tag v ++ rest) k ≡ (
        if is_vendor_tag tag
        then filter_params n rest (remove (length (param_bytes tag v)) k)
        else filter_params n rest (keep (param_bytes tag v) k))
unfolding tag_bytes
filter_params-param n tag v rest k (inl (s, e), l) =
    let short : is_extended (tag / 256) ≡ false = ground arith in
    let small : tag % 256 ≡ tag = omega arith in
    let fits : (2 + length v) % 256 ≡ suc (suc (length v)) = omega arith in
    rw short (
      rw (ap (λ t. t) small) (
        filter_params-some n tag tag (length v ∷ v) rest k
          (read_param-short tag (length v) (v ++ rest) e ∙ ap (λ n. some (tag, n)) fits)))
filter_params-param n tag v rest k (inr e, l) =
    let small : tag / 256 % 256 ≡ tag / 256 = ground arith in
    let whole : tag / 256 * 256 + tag % 256 ≡ tag = omega arith in
    let fits : (3 + length v) % 256 ≡ suc (suc (suc (length v))) = omega arith in
    rw e (
      rw small (
        filter_params-some n tag (tag / 256) (tag % 256 ∷ length v ∷ v) rest k (
          read_param-long (tag / 256) (tag % 256) (length v) (v ++ rest) e
          ∙ ap₂ (λ t n. some (t, n)) whole fits)))

-- What the loop gathers.
abbrev gathered : Params → Kept → Kept
gathered [] k = k
gathered ((tag, v) ∷ ps) k =
    if is_vendor_tag tag
    then gathered ps (remove (length (param_bytes tag v)) k)
    else gathered ps (keep (param_bytes tag v) k)

filter_params-params :
    (ps : Params) (n : ℕ) (k : Kept)
    → All IsParam ps
    → length ps ≤ n
    → filter_params n (params_bytes ps) k ≡ finished (gathered ps k)
unfolding filter_params
filter_params-params [] zero k h l = refl
filter_params-params [] (suc n) k h l = refl
filter_params-params ((tag, v) ∷ ps) zero k h l = ground arith
filter_params-params ((tag, v) ∷ ps) (suc n) k h l =
    filter_params-param n tag v (params_bytes ps) k h.0 ∙ (elim (Bool-cases (is_vendor_tag tag)) [
      | inl y ↦
          rw y (filter_params-params ps n (remove (length (param_bytes tag v)) k) h.1 (omega arith))
      | inr y ↦ rw y (filter_params-params ps n (keep (param_bytes tag v) k) h.1 (omega arith))
    ])

gathered_lem :
    (ps : Params) (k : Kept)
    → ((gathered ps k).bytes ≡ k.bytes ++ params_bytes (without_vendor ps))
      × ((gathered ps k).num_of_configs ≡ k.num_of_configs + removed ps)
      × ((gathered ps k).num_of_bytes ≡ k.num_of_bytes + removed_bytes ps)
gathered_lem [] k = (sym (append-nil k.bytes), omega arith, omega arith)
gathered_lem ((tag, v) ∷ ps) k = elim (Bool-cases (is_vendor_tag tag)) [
  | inl y ↦
      let (b, n, m) = gathered_lem ps (remove (length (param_bytes tag v)) k) in
      rw y (b, n ∙ omega arith, m ∙ omega arith)
  | inr y ↦
      let (b, n, m) = gathered_lem ps (keep (param_bytes tag v) k) in
      rw y (b ∙ append_assoc k.bytes (param_bytes tag v) (params_bytes (without_vendor ps)), n, m)
]

-- What goes and what stays make up the whole.
removed_lem : (ps : Params) → length ps ≡ length (without_vendor ps) + removed ps
removed_lem [] = refl
removed_lem ((tag, v) ∷ ps) = elim (Bool-cases (is_vendor_tag tag)) [
  | inl y ↦ rw y (omega (arith, removed_lem ps))
  | inr y ↦ rw y (omega (arith, removed_lem ps))
]

removed_bytes_lem :
    (ps : Params)
    → length (params_bytes ps) ≡ length (params_bytes (without_vendor ps)) + removed_bytes ps
removed_bytes_lem [] = refl
removed_bytes_lem ((tag, v) ∷ ps) = elim (Bool-cases (is_vendor_tag tag)) [
  | inl y ↦
      rw y
        (omega (arith, removed_bytes_lem ps, length-append (param_bytes tag v) (params_bytes ps)))
  | inr y ↦ rw y (
      omega (
        arith,
        removed_bytes_lem ps,
        length-append (param_bytes tag v) (params_bytes ps),
        length-append (param_bytes tag v) (params_bytes (without_vendor ps)),
      ))
]

pub handle_vendor_config-finished :
    (fuel : ℕ) (p : Bytes) (l : Loop)
    → (message_type p == mt_cmd && gid p == 0x01 && oid p == 0x03) ≡ true
    → ltb uci_max_data_len (length p) ≡ false
    → filter_params fuel (drop 9 p) nothing_kept ≡ l
    → handle_vendor_config fuel p ≡ elim l [
      | out_of_fuel ↦ none
      | returned ↦ some p
      | finished k ↦ elim (rebuild p k) [ none ↦ some p | some q ↦ some q ]
    ]
unfolding handle_vendor_config
handle_vendor_config-finished fuel p l c s e = rw (handle_vendor_config, c) (rw s (rw e refl))

-- SESSION_SET_APP_CONFIG for the session that four bytes name.
abbrev pub app_config : ℕ → ℕ → ℕ → ℕ → Params → Bytes
app_config s₀ s₁ s₂ s₃ ps =
    let len : ℕ = 5 + length (params_bytes ps) in
    0x21 ∷ 0x03 ∷ len / 256 ∷ len % 256 ∷ s₀ ∷ s₁ ∷ s₂ ∷ s₃ ∷ length ps ∷ params_bytes ps

rebuild-app_config :
    (s₀ s₁ s₂ s₃ : ℕ) (ps : Params)
    → length (params_bytes ps) ≤ 4000
    → rebuild (app_config s₀ s₁ s₂ s₃ ps) (gathered ps nothing_kept)
      ≡ some (app_config s₀ s₁ s₂ s₃ (without_vendor ps))
unfolding rebuild
rebuild-app_config s₀ s₁ s₂ s₃ ps l =
    let (b, n, m) = gathered_lem ps nothing_kept in
    let g : Kept = gathered ps nothing_kept in
    let configs : g.num_of_configs ≡ removed ps = n ∙ omega arith in
    let bytes : g.num_of_bytes ≡ removed_bytes ps = m ∙ omega arith in
    let len : ℕ = 5 + length (params_bytes ps) in
    let whole : len % 256 + len / 256 * 256 ≡ len = omega arith in
    let counts = removed_lem ps in
    let sizes = removed_bytes_lem ps in
    let t₁ : ltb (length ps) (removed ps) ≡ false = ground arith in
    let t₂ : ltb (length (app_config s₀ s₁ s₂ s₃ ps)) (removed_bytes ps) ≡ false = ground arith in
    let t₃ : ltb len (removed_bytes ps) ≡ false = ground arith in
    let left : len - removed_bytes ps ≡ 5 + length (params_bytes (without_vendor ps)) =
      omega arith in
    let count : length ps - removed ps ≡ length (without_vendor ps) = omega arith in
    let high : (5 + length (params_bytes (without_vendor ps))) / 256 % 256
        ≡ (5 + length (params_bytes (without_vendor ps))) / 256 =
      omega arith in
    rw (b, configs, bytes, whole) (rw (t₁, t₃, left, count) (rw (high, t₂) refl))

-- A well-formed SESSION_SET_APP_CONFIG keeps its session and exactly the parameters that are not the
-- vendor's, unchanged and in order, and its count and its length are those of what is left. As many
-- rounds of the loop are enough as there are parameters.
pub handle_vendor_config-app_config :
    (fuel s₀ s₁ s₂ s₃ : ℕ) (ps : Params)
    → All IsParam ps
    → length ps ≤ fuel
    → length (params_bytes ps) ≤ 4000
    → handle_vendor_config fuel (app_config s₀ s₁ s₂ s₃ ps)
      ≡ some (app_config s₀ s₁ s₂ s₃ (without_vendor ps))
handle_vendor_config-app_config fuel s₀ s₁ s₂ s₃ ps h n l =
    handle_vendor_config-finished fuel (app_config s₀ s₁ s₂ s₃ ps)
      (finished (gathered ps nothing_kept)) refl (ground arith)
      (filter_params-params ps fuel nothing_kept h n)
    ∙ ap (λ o. elim o [ none ↦ some (app_config s₀ s₁ s₂ s₃ ps) | some q ↦ some q ])
        (rebuild-app_config s₀ s₁ s₂ s₃ ps l)
