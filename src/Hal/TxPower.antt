-- ===== src/Hal/TxPower.antt =====
-- The transmission power of uwb/halimpl/hal/phNxpUciHal_ext.cc: phNxpUciHal_updateTxPower,
-- phNxpUciHal_processCalibParamTxPowerPerAntenna and phNxpUciHal_setCalibParamTxPower. The offset is
-- a `short` of the settings, given by its 16 bits; gtx_power is an argument and a result.
pub mod Shift
mod Tests
use device_xiaomi_odin.Prelude.{
  ℕ, zero, suc, ◌+◌, ◌-◌, ◌*◌, ◌/◌, ◌%◌, List, ◌∷◌, ◌++◌, ltb, ◌==◌, if◌then◌else◌, Bytes, length,
  get_or, set, take, drop, [],
}
use device_xiaomi_odin.Int.{ℤ, pos, negsuc, ◌+ℤ◌}
use device_xiaomi_odin.Hal.Session.{Device, send_ext_cmd}

-- The number that 16 bits stand for.
abbrev pub signed : ℕ → ℤ
signed o = if ltb o 32768 then pos o else negsuc (65535 - o)

-- A negative power becomes 0, and the power is cut to 16 bits.
abbrev pub clamp : ℤ → ℕ
clamp (pos n) = n % 65536
clamp (negsuc n) = 0

-- The loop over the antennas. The index is a uint8_t.
unfoldable pub shift_powers : ℕ → ℕ → ℕ → Bytes → Bytes
shift_powers zero index o g = g
shift_powers (suc n) index o g =
    let i : ℕ = (index + 3) % 256 in
    let power : ℕ = get_or 0 g i + 256 * get_or 0 g (i + 1) in
    let u : ℕ = clamp (pos power +ℤ signed o) in
    let g' : Bytes = set (set g i (u % 256)) ((i + 1) % 256) (u / 256) in
    shift_powers n ((i + 2) % 256) o g'

-- phNxpUciHal_updateTxPower
unfoldable pub update_tx_power : ℕ → Bytes → Bytes
unfolding shift_powers
update_tx_power o g =
    let shifted : Bytes = shift_powers (get_or 0 g 3) 4 o g in
    if o == 0 then g else if length g == 0 then g else if get_or 0 g 2 == 0 then g else shifted

-- phNxpUciHal_processCalibParamTxPowerPerAntenna: gtx_power, and the command as it goes to the
-- device.
unfoldable pub process_calib_param : ℕ → Bytes → Bytes × Bytes
unfolding update_tx_power
process_calib_param o p = let g : Bytes = update_tx_power o (drop 4 p) in (g, take 4 p ++ g)

-- phNxpUciHal_setCalibParamTxPower: gtx_power, and the commands that have been sent.
unfoldable pub set_calib_param : Device → ℕ → Bytes → List Bytes → Bytes × List Bytes
unfolding update_tx_power send_ext_cmd
set_calib_param dev o g sent =
    let g' : Bytes = update_tx_power o g in
    ([], (send_ext_cmd dev (0x2F ∷ 0x21 ∷ 0x00 ∷ length g' % 256 ∷ g') sent).1)
