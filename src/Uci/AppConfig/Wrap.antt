-- ===== src/Uci/AppConfig/Wrap.antt =====
-- Where the loop of handlingVendorSpecificAppConfig does not end.
use device_xiaomi_odin.Prelude.{
  ℕ, zero, suc, ◌≤◌, ◌≡◌, refl, true, false, none, [], ◌∷◌, arith, leb, Bytes, length,
}
use device_xiaomi_odin.Uci.Tlv.{is_extended}
use device_xiaomi_odin.Uci.AppConfig.{
  is_vendor_tag, Kept, out_of_fuel, keep, filter_params, nothing_kept, handle_vendor_config,
}
use device_xiaomi_odin.Uci.AppConfig.Removal.{read_param-short, handle_vendor_config-finished}

filter_params_never :
    (n tag : ℕ) (rest : Bytes) (k : Kept)
    → (is_extended tag ≡ false) × (is_vendor_tag tag ≡ false)
    → filter_params n (tag ∷ 254 ∷ rest) k ≡ out_of_fuel
unfolding filter_params
filter_params_never zero tag rest k h = refl
filter_params_never (suc n) tag rest k h =
    let fits : leb 0 (length (tag ∷ 254 ∷ rest)) ≡ true = ground arith in
    rw (filter_params, read_param-short tag 254 rest h.0)
      (rw (h.1, fits) (filter_params_never n tag rest (keep [] k) h))

-- A SESSION_SET_APP_CONFIG, with at most 4000 bytes behind the length of its first parameter, whose
-- first parameter has a tag of one byte that is not the vendor's and the length 254, is never
-- finished: with its tag and length the parameter has the length 0 in the code's counter, and the
-- loop does not move on, whatever the fuel.
pub handle_vendor_config_never :
    (fuel tag : ℕ) (b₂ b₃ s₀ s₁ s₂ s₃ count : ℕ) (rest : Bytes)
    → (is_extended tag ≡ false) × (is_vendor_tag tag ≡ false)
    → length rest ≤ 4000
    → handle_vendor_config fuel
        (0x21 ∷ 0x03 ∷ b₂ ∷ b₃ ∷ s₀ ∷ s₁ ∷ s₂ ∷ s₃ ∷ count ∷ tag ∷ 254 ∷ rest)
      ≡ none
handle_vendor_config_never fuel tag b₂ b₃ s₀ s₁ s₂ s₃ count rest h l =
    handle_vendor_config-finished fuel
      (0x21 ∷ 0x03 ∷ b₂ ∷ b₃ ∷ s₀ ∷ s₁ ∷ s₂ ∷ s₃ ∷ count ∷ tag ∷ 254 ∷ rest) out_of_fuel refl
      (ground arith) (filter_params_never fuel tag rest nothing_kept h)
