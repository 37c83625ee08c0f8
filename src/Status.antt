-- ===== src/Status.antt =====
-- uwb/halimpl/inc/common/phUwbStatus.h and phUwbCompId.h: status words. A status is 16 bits: the
-- low byte names the outcome, the high byte the component that reports it.
use device_xiaomi_odin.Prelude.{ℕ, ◌+◌, ◌*◌, ◌%◌, ◌==◌, if◌then◌else◌}

abbrev pub success : ℕ
success = 0x00

abbrev pub invalid_device : ℕ
invalid_device = 0x01

abbrev pub pending : ℕ
pending = 0x02

abbrev pub invalid_parameter : ℕ
invalid_parameter = 0x04

abbrev pub not_initialised : ℕ
not_initialised = 0x07

abbrev pub already_initialised : ℕ
already_initialised = 0x08

abbrev pub busy : ℕ
busy = 0x0B

abbrev pub response_timeout : ℕ
response_timeout = 0x0E

abbrev pub command_retransmit : ℕ
command_retransmit = 0x13

abbrev pub file_not_found : ℕ
file_not_found = 0x14

abbrev pub invalid_command_length : ℕ
invalid_command_length = 0x15

abbrev pub failed : ℕ
failed = 0xFF

abbrev pub cid_osal : ℕ
cid_osal = 0x00

abbrev pub cid_tml : ℕ
cid_tml = 0x01

-- PHUWBSTVAL(component, status): `(status & 0xFF) | (component << 8)`, and plain success for
-- success. The two parts do not overlap, so the `|` is a sum.
abbrev pub ph_uwb_st_val : ℕ → ℕ → ℕ
ph_uwb_st_val component status =
    if status == success then success else status % 256 + component % 256 * 256
