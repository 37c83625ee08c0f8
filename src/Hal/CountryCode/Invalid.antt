-- ===== src/Hal/CountryCode/Invalid.antt =====
-- An invalid country code.
use device_xiaomi_odin.Prelude.{
  ◌≤◌, ◌++◌, All, ℕ, ◌≡◌, Bool, false, Option, none, some, List, ◌∷◌, Bytes, length,
}
use device_xiaomi_odin.Config.Text.{codes}
use device_xiaomi_odin.Config.Cascade.{Cascade, get_byte_array}
use device_xiaomi_odin.Uci.Packet.{uci_max_data_len}
use device_xiaomi_odin.Uci.Country.{apply_country_caps}
use device_xiaomi_odin.Hal.CountryCode.{State, non_empty}

-- UWB is off, and nothing more has been sent.
IsOff : List Bytes → State → Type 0
IsOff sent s = (s.settings.uwb_enable ≡ false) × (s.sent ≡ sent)

-- A command that sets powers.
abbrev pub IsPowerCommand : Bytes → Type 0
IsPowerCommand c = (n : ℕ) × (g : Bytes) × (c ≡ 0x2F ∷ 0x21 ∷ 0x00 ∷ n ∷ g)

-- Nothing but so many such commands, at most, has been sent.
abbrev pub SetsPowers : ℕ → List Bytes → List Bytes → Type 0
SetsPowers k sent sent' =
    (cs : List Bytes) × (sent' ≡ sent ++ cs) × All IsPowerCommand cs × (length cs ≤ k)

-- The number of the powers that the country's group sets.
abbrev pub power_count : ℕ → ℕ → Option Bytes → ℕ
power_count c₀ c₁ none = 0
power_count c₀ c₁ (some caps) =
    length (apply_country_caps c₀ c₁ caps uci_max_data_len).0.power_updates

-- COUNTRY_CODE_CAPS are configured and not empty.
abbrev pub HasCaps : Cascade → Type 0
HasCaps config =
    (caps : Bytes) × (non_empty
        (get_byte_array (codes "UWB_COUNTRY_CODE_CAPS") uci_max_data_len config)
      ≡ some caps)

abbrev pub configured_caps : Cascade → Option Bytes
configured_caps config =
    non_empty (get_byte_array (codes "UWB_COUNTRY_CODE_CAPS") uci_max_data_len config)
