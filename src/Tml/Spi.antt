-- ===== src/Tml/Spi.antt =====
-- uwb/halimpl/tml/phTmlUwb_spi.cc, and the resets of uwb/halimpl/tml/phTmlUwb.cc that use it. What
-- the calls of the device file return is an argument, and the calls of it are results.
pub mod Reset
mod Tests
use device_xiaomi_odin.Prelude.{
  ℕ, Bool, true, false, not, ◌&&◌, ◌||◌, Option, none, some, List, [], ◌∷◌, ◌++◌, ◌==◌,
  if◌then◌else◌, Bytes,
}
use device_xiaomi_odin.Status.{success, invalid_device}
use device_xiaomi_odin.Uci.Packet.{byte}
use device_xiaomi_odin.Tml.State.{Context}
use device_xiaomi_odin.Tml.{abort_read_pending, read_abort}
use device_xiaomi_odin.Tml.Threads.{System, receive}

-- phTmlUwb_ControlCode_t
pub data ControlCode : Type 0 where
  invalid set_power enable_fwd_mode enable_through_put ese_reset : ControlCode

-- The calls of the device file, with the argument of an ioctl.
pub data FileCall : Type 0 where
  srxxx_set_pwr srxxx_set_fwd srxxx_ese_reset : ℕ → FileCall
  close_file : FileCall

abbrev pub pwr_disable : ℕ
pwr_disable = 0

abbrev pub pwr_enable : ℕ
pwr_enable = 1

abbrev ioctl_calls : ControlCode → ℕ → List FileCall
ioctl_calls invalid arg = []
ioctl_calls set_power arg = srxxx_set_pwr arg ∷ []
ioctl_calls enable_fwd_mode arg = srxxx_set_fwd arg ∷ []
ioctl_calls enable_through_put arg = []
ioctl_calls ese_reset arg = srxxx_ese_reset arg ∷ []

abbrev is_known : ControlCode → Bool
is_known invalid = false
is_known set_power = true
is_known enable_fwd_mode = true
is_known enable_through_put = true
is_known ese_reset = true

-- phTmlUwb_Spi_Ioctl, with none for -1. What ioctl returns is not looked at.
unfoldable pub spi_ioctl : Bool → ControlCode → ℕ → Option ℕ × List FileCall
spi_ioctl has_device code arg =
    if not has_device
    then (none, [])
    else (if is_known code then some 1 else none, ioctl_calls code arg)

-- phTmlUwb_spi_open_and_configure, with what open returns: the status, the handle and the calls.
unfoldable pub spi_open_and_configure : Option ℕ → ℕ × ℕ × List FileCall
unfolding spi_ioctl
spi_open_and_configure none = (invalid_device, 0, [])
spi_open_and_configure (some handle) =
    let there : Bool = not (handle == 0) in
    (
      success,
      handle,
      (spi_ioctl there set_power pwr_disable).1 ++ (spi_ioctl there set_power pwr_enable).1,
    )

-- phTmlUwb_spi_write, with what write returns; none is negative.
unfoldable pub spi_write : Bool → Option ℕ → Option ℕ
spi_write has_device none = none
spi_write has_device (some n) = if not has_device || n == 0 then none else some n

-- A packet that the chip has not sent: it is read behind a download.
abbrev pub is_spurious : Bytes → Bool
is_spurious p = byte p 0 == 0xFF || (byte p 0 == 0 && byte p 3 == 0)

-- phTmlUwb_spi_read, with what read returns and leaves in the buffer: the length and the first byte.
unfoldable pub spi_read : Bool → Bool → Option (ℕ × Bytes) → Option (ℕ × ℕ)
spi_read has_device fwd none = none
spi_read has_device fwd (some (n, buffer)) =
    if not has_device
    then none
    else if fwd && is_spurious buffer
    then some (0, byte buffer 0)
    else some (n, byte buffer 0)

-- phTmlUwb_spi_close
unfoldable pub close_spi : Bool → List FileCall
close_spi has_device = if has_device then close_file ∷ [] else []

-- phTmlUwb_eSE_Reset and phTmlUwb_Chip_Reset, of a layer that has its context.
unfoldable pub reset_ese : Context → List FileCall
unfolding spi_ioctl
reset_ese c = if c.has_device then (spi_ioctl c.has_device ese_reset 0).1 else []

unfoldable pub reset_chip : Context → List FileCall
unfolding spi_ioctl
reset_chip c =
    if c.has_device
    then (spi_ioctl c.has_device set_power pwr_disable).1
      ++ (spi_ioctl c.has_device set_power pwr_enable).1
    else []

-- The reader in front of its semaphore, with a read that is under way: what read gives.
unfoldable pub finish_read : Bool → Option (ℕ × Bytes) → System → System
unfolding receive spi_read
finish_read fwd raw s = receive (spi_read s.tml.has_device fwd raw) s

-- phTmlUwb_Spi_Reset, with what the read that is under way gives while it waits, or none for a wait
-- that times out.
unfoldable pub reset_spi : Bool → Option (Option (ℕ × Bytes)) → System → System × List FileCall
unfolding read_abort spi_ioctl reset_chip finish_read
reset_spi fwd pending s =
    let c : Context = record (read_abort s.tml) { is_read_abort = true } in
    let waits : System = record s { tml = c } in
    let waited : System = elim pending [ none ↦ waits | some raw ↦ finish_read fwd raw waits ] in
    let c' : Context = record (waited.tml) { is_read_abort = false } in
    (
      record waited { tml = read_abort c' },
      (spi_ioctl c.has_device set_power abort_read_pending).1 ++ reset_chip c,
    )
