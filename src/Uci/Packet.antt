-- ===== src/Uci/Packet.antt =====
-- The header of a UCI packet: uwb/extns/inc/uci_defs.h and uwb/halimpl/hal/phNxpUciHal.h.
use device_xiaomi_odin.Prelude.{ℕ, ◌/◌, ◌%◌, Bytes, get_or}

-- The byte of a packet; 0 stands for what lies behind the packet in its buffer.
abbrev pub byte : Bytes → ℕ → ℕ
byte = get_or 0

-- (p[0] & UCI_MT_MASK) >> UCI_MT_SHIFT: bits 5 to 7.
abbrev pub message_type : Bytes → ℕ
message_type p = byte p 0 / 32

-- p[0] & UCI_GID_MASK and p[1] & UCI_OID_MASK
abbrev pub gid : Bytes → ℕ
gid p = byte p 0 % 16

abbrev pub oid : Bytes → ℕ
oid p = byte p 1 % 64

abbrev pub mt_data : ℕ
mt_data = 0

abbrev pub mt_cmd : ℕ
mt_cmd = 1

abbrev pub mt_rsp : ℕ
mt_rsp = 2

abbrev pub mt_ntf : ℕ
mt_ntf = 3

abbrev pub uci_max_data_len : ℕ
uci_max_data_len = 4200
