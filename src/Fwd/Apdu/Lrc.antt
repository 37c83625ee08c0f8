-- ===== src/Fwd/Apdu/Lrc.antt =====
-- The checksum of the boot ROM's messages.
use mathlib.Core.Logic.{◌↔◌}
use device_xiaomi_odin.Prelude.{ℕ, ◌+◌, ◌%◌, ◌<◌, ◌≡◌, arith, Bytes}
use device_xiaomi_odin.Fwd.Apdu.{sum, calc_lrc}

-- phHbci_CalcLrc gives the one byte that makes the sum of a message a multiple of 256.
pub calc_lrc_lem : (p : Bytes) (x : ℕ) → x < 256 → ((sum p + x) % 256 ≡ 0) ↔ (x ≡ calc_lrc p)
unfolding calc_lrc
calc_lrc_lem p x h = ((λ e. omega arith), (λ e. omega arith))
