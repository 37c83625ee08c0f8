-- ===== src/Hal/TxPower/Shift.antt =====
-- What the offset of a country does to the powers of a calibration.
use device_xiaomi_odin.Prelude.{
  ℕ, ◌+◌, ◌-◌, ◌/◌, ◌%◌, ◌<◌, List, [], ◌∷◌, ◌++◌, ltb, if◌then◌else◌, Bytes, length,
}

-- The power with the offset added: below 0 it stays at 0.
abbrev pub shifted : ℕ → ℕ → ℕ
shifted o w = if ltb o 32768 then (w + o) % 65536 else w - (65536 - o)

-- An antenna with its peak power and its RMS power.
pub record Power : Type 0 where
  pub antenna : ℕ
  pub peak_low : ℕ
  pub peak_high : ℕ
  pub rms : ℕ

abbrev pub power_bytes : Power → Bytes
power_bytes p = p.antenna ∷ p.peak_low ∷ p.peak_high ∷ p.rms % 256 ∷ p.rms / 256 ∷ []

abbrev pub powers_bytes : List Power → Bytes
powers_bytes [] = []
powers_bytes (p ∷ ps) = power_bytes p ++ powers_bytes ps

abbrev pub shift_power : ℕ → Power → Power
shift_power o p = record p { rms = shifted o p.rms }

abbrev pub IsPower : Power → Type 0
IsPower p = p.rms < 65536

-- The parameters of a calibration: the channel, the tag, the length, the number of the antennas.
abbrev pub calibration : ℕ → ℕ → List Power → Bytes → Bytes
calibration ch len ps rest = (ch ∷ 0x04 ∷ len ∷ length ps ∷ []) ++ (powers_bytes ps ++ rest)
