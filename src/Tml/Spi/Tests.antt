-- ===== src/Tml/Spi/Tests.antt =====
-- The theorem on the resets, applied to a layer that reads.
use device_xiaomi_odin.Prelude.{◌-◌, ◌≡◌, inr, refl, true, false, some, [], ◌∷◌, arith, Bytes}
use device_xiaomi_odin.Tml.{abort_read_pending}
use device_xiaomi_odin.Tml.State.{no_transfer, fresh}
use device_xiaomi_odin.Tml.Threads.{System, start}
use device_xiaomi_odin.Tml.Spi.{
  srxxx_set_pwr, pwr_disable, pwr_enable, spi_read, finish_read, reset_spi,
}
use device_xiaomi_odin.Tml.Spi.Reset.{reset_spi-finish_read}

-- A read is asked for.
abbrev reading : System
reading = record (start 7) {
  tml = record (fresh 7) {
    rx_semaphore = 1;
    read_info = record no_transfer { enable = true; buffer = 16; on_complete = 3 };
  };
}

abbrev all_ones : Bytes
all_ones = 0xFF ∷ 0xFF ∷ 0xFF ∷ 0xFF ∷ []

reset_spi-finish_read_example :
    (finish_read true (some (4, all_ones)) reading ≡ reading)
    × (s' : System) × (reset_spi true (some (some (4, all_ones))) reading ≡ (
      s',
      srxxx_set_pwr abort_read_pending ∷ srxxx_set_pwr pwr_disable ∷ srxxx_set_pwr pwr_enable ∷ [],
    ))
    × (s'.reader ≡ reading.reader)
    × (s'.tml.rx_semaphore ≡ reading.tml.rx_semaphore - 1)
    × (s'.tml.read_info.enable ≡ false)
    × (s'.tml.is_read_abort ≡ false)
reset_spi-finish_read_example =
    reset_spi-finish_read true (some (4, all_ones)) reading refl refl (omega arith)
      (inr (4, all_ones, refl, inr (refl, refl)))

-- The same packet outside the download mode is one that the HAL gets.
read_outside : spi_read true false (some (4, all_ones)) ≡ some (4, 0xFF)
unfolding spi_read
read_outside = refl
