-- ===== src/Uci/Country.antt =====
-- phNxpUciHal_resetRuntimeSettings and phNxpUciHal_applyCountryCaps of
-- uwb/halimpl/hal/phNxpUciHal_ext.cc: the settings of a country, from COUNTRY_CODE_CAPS.
pub mod Groups
use device_xiaomi_odin.Prelude.{
  ℕ, zero, suc, ◌+◌, ◌*◌, ◌/◌, ◌%◌, ◌-◌, ◌≤◌, ◌<◌, ◌≡◌, refl, ap, ◌∙◌, inl, inr, Bool, true, false,
  not, ◌&&◌, ◌||◌, Option, none, some, List, [], ◌∷◌, ◌++◌, ltb, leb, ◌==◌, if◌then◌else◌, Bytes,
  length, drop, Bool-cases, arith,
}
use device_xiaomi_odin.Uci.Packet.{byte}

-- phNxpUciHal_Runtime_Settings_t. The offset is a `short`, as its 16 bits; `power_updates` are the
-- offsets with which phNxpUciHal_setCalibParamTxPower has been called.
pub record RuntimeSettings : Type 0 where
  pub uwb_enable : Bool
  pub restricted_channel_mask : ℕ
  pub tx_power_offset : ℕ
  pub power_updates : List ℕ

abbrev pub reset_settings : RuntimeSettings
reset_settings = record {
  uwb_enable = true;
  restricted_channel_mask = 0;
  tx_power_offset = 0;
  power_updates = [];
}

-- `mask |= 1 << 5` and `mask |= 1 << 9`
abbrev pub set_bit : ℕ → ℕ → ℕ
set_bit bit mask = if mask / bit % 2 == 1 then mask else mask + bit

-- One entry behind the country's code; `v` starts at the values.
unfoldable pub apply_entry : ℕ → ℕ → Bytes → RuntimeSettings → RuntimeSettings
apply_entry tag len v s =
    let offset : ℕ = byte v 0 + byte v 1 * 256 in
    let power : RuntimeSettings = record s {
      tx_power_offset = offset;
      power_updates = s.power_updates ++ offset ∷ [];
    } in
    let enabled : RuntimeSettings = record s { uwb_enable = not (byte v 0 == 0) } in
    let without_5 : RuntimeSettings = record s {
      restricted_channel_mask = set_bit 32 s.restricted_channel_mask;
    } in
    let without_9 : RuntimeSettings = record s {
      restricted_channel_mask = set_bit 512 s.restricted_channel_mask;
    } in
    if tag == 0x01 && len == 1
    then enabled
    else if tag == 0x02 && len == 1 && byte v 0 == 0
    then without_5
    else if tag == 0x03 && len == 1 && byte v 0 == 0
    then without_9
    else if tag == 0x05 && len == 2
    then power
    else s

-- The loop over what is left of the data, on fuel; `found` says that the entries belong to the
-- country.
unfoldable pub apply_entries : ℕ → ℕ → ℕ → Bool → Bytes → RuntimeSettings → RuntimeSettings
unfolding apply_entry
apply_entries n c₀ c₁ found [] s = s
apply_entries zero c₀ c₁ found (x ∷ d) s = s
apply_entries (suc n) c₀ c₁ found (tag ∷ d) s =
    let len : ℕ = byte d 0 in
    let v : Bytes = drop 1 d in
    let s' : RuntimeSettings = if found then apply_entry tag len v s else s in
    let here : Bool = byte v 0 == c₀ && byte v 1 == c₁ in
    apply_entries n c₀ c₁ (if tag == 0x00 then here else found) (drop len v) s'

-- is_valid_country_code of uwb/halimpl/inc/common/phUwbCommon.h
abbrev pub is_alnum : ℕ → Bool
is_alnum c = leb b'0' c && leb c b'9' || leb b'A' c && leb c b'Z' || leb b'a' c && leb c b'z'

abbrev pub is_valid_country_code : ℕ → ℕ → Bool
is_valid_country_code c₀ c₁ = is_alnum c₀ && is_alnum c₁ && not (c₀ == b'0' && c₁ == b'0')

-- The two TLVs, as far as the buffer has room for them.
unfoldable pub country_channels : ℕ → ℕ → Bytes
country_channels mask room =
    let no_5 : Bool = mask / 32 % 2 == 1 in
    let no_9 : Bool = mask / 512 % 2 == 1 in
    let fira : ℕ = 0xFF - (if no_5 then 0x01 else 0) - (if no_9 then 0x08 else 0) in
    let ccc : ℕ = (if no_5 then 0 else 0x01) + (if no_9 then 0 else 0x02) in
    let first : Bytes = if leb 3 room then 0x0E ∷ 1 ∷ fira ∷ [] else [] in
    first ++ (if leb (length first + 3) room then 0xA3 ∷ 1 ∷ ccc ∷ [] else [])

-- phNxpUciHal_applyCountryCaps: the settings and the data for the map.
unfoldable pub apply_country_caps : ℕ → ℕ → Bytes → ℕ → RuntimeSettings × Bytes
unfolding apply_entries country_channels
apply_country_caps c₀ c₁ resp room =
    let d : Bytes = drop 1 resp in
    let s : RuntimeSettings = apply_entries (length d) c₀ c₁ false d reset_settings in
    let forced : RuntimeSettings = record s { uwb_enable = false } in
    let checked : RuntimeSettings =
      if not (is_valid_country_code c₀ c₁) && s.uwb_enable then forced else s in
    (checked, country_channels checked.restricted_channel_mask room)
