-- ===== src/Fwd/Apdu.antt =====
-- The messages of the boot ROM, of uwb/halimpl/fwd/sr1xx/phNxpUciHal_fwd.cc and its header. The calls
-- on the device's file are a log, and the device is a function of the log. gOpts.capture is
-- Capture_Off: setOpts makes it so, and nothing changes it.
pub mod Log
pub mod Lrc
use device_xiaomi_odin.Prelude.{
  ℕ, ◌+◌, ◌-◌, ◌*◌, ◌/◌, ◌%◌, Bool, ◌||◌, Option, none, some, List, [], ◌∷◌, ◌++◌, ltb, ◌==◌,
  if◌then◌else◌, Bytes, length, take, drop,
}
use device_xiaomi_odin.Uci.Packet.{byte}

-- phHbci_Status_t
abbrev pub hbci_success : ℕ
hbci_success = 0x00

abbrev pub hbci_failure : ℕ
hbci_failure = 0x01

abbrev pub hbci_file_not_found : ℕ
hbci_file_not_found = 0x14

-- PHHBCI_LEN_HDR, PHHBCI_MAX_LEN_DATA_MOSI, PHHBCI_MAX_LEN_DATA_MISO, PHHBCI_MAX_LEN_PAYLOAD_MISO and
-- PHHBCI_APDU_SEG_FLAG
abbrev pub len_hdr : ℕ
len_hdr = 4

abbrev pub max_len_data_mosi : ℕ
max_len_data_mosi = 2048

abbrev pub max_len_data_miso : ℕ
max_len_data_miso = 256

abbrev pub max_len_payload_miso : ℕ
max_len_payload_miso = 257

abbrev pub seg_flag : ℕ
seg_flag = 0x8000

-- A call on the device's file: a write that it takes or does not, a read of that many bytes, and the
-- switch of the download mode.
pub data Call : Type 0 where
  wrote : Bytes → Call
  refused : Bytes → Call
  asked : ℕ → Call
  set_fwd : Bool → Call

-- The device behind the file: whether a write gives a positive number, and what a read gives, which
-- is none if it gives a negative one.
pub record Chip : Type 0 where
  pub accepts : List Call → Bytes → Bool
  pub answers : List Call → ℕ → Option Bytes

-- gphHbci_MosiApdu, gphHbci_MisoApdu as the bytes of the struct, chip_id and deviceLcInfo, and the
-- buffer hbciData of two functions. Of the payload that is sent only what has just been copied there
-- is used, so it is no field.
pub record Link : Type 0 where
  pub mosi_cls : ℕ
  pub mosi_ins : ℕ
  pub mosi_len : ℕ
  pub miso : Bytes
  pub chip_id : ℕ
  pub device_lc_info : ℕ
  pub hbci_data : Bytes
  pub log : List Call

-- What a function returns: success, another status, or nothing as its fuel is used up.
pub data Run : Type 0 where
  ok : Link → Run
  stop : ℕ → Link → Run
  out_of_fuel : Run

-- The next step, behind one that has succeeded.
infixl 5 ◌>>=◌
abbrev pub ◌>>=◌ : Run → (Link → Run) → Run
ok s >>= f = f s
stop n s >>= f = stop n s
out_of_fuel >>= f = out_of_fuel

-- The fields of the answer, the length in the order of the host's bytes.
abbrev pub miso_cls : Link → ℕ
miso_cls s = byte s.miso 0

abbrev pub miso_ins : Link → ℕ
miso_ins s = byte s.miso 1

abbrev pub miso_len : Link → ℕ
miso_len s = byte s.miso 2 + 256 * byte s.miso 3

-- The header of a message.
abbrev pub header : Link → Bytes
header s = s.mosi_cls ∷ s.mosi_ins ∷ s.mosi_len % 256 ∷ s.mosi_len / 256 % 256 ∷ []

abbrev pub sum : Bytes → ℕ
sum [] = 0
sum (x ∷ xs) = x + sum xs

-- phHbci_CalcLrc: the sum of the bytes, its complement, and one more.
unfoldable pub calc_lrc : Bytes → ℕ
calc_lrc p = (255 - sum p % 256 + 1) % 256

-- phHbci_PutApdu
unfoldable pub put_apdu : Chip → Bytes → Link → Run
put_apdu chip p s =
    if chip.accepts s.log p
    then ok (record s { log = s.log ++ wrote p ∷ [] })
    else stop hbci_failure (record s { log = s.log ++ refused p ∷ [] })

-- The bytes that a read puts at an offset of a buffer.
abbrev pub overlay : ℕ → Bytes → Bytes → Bytes
overlay at new old = take at old ++ (new ++ drop (at + length new) old)

abbrev pub is_refused : ℕ → Bool
is_refused sz = sz == 0 || ltb max_len_payload_miso sz

-- phHbci_GetApdu into the answer, from an offset on. A read that gives less than was asked for is a
-- success, and leaves the rest of the buffer as it was.
received : Option Bytes → ℕ → ℕ → Link → Run
received none at sz s = stop hbci_failure s
received (some p) at sz s = ok (record s { miso = overlay at (take sz p) s.miso })

unfoldable pub get_apdu : Chip → ℕ → ℕ → Link → Run
unfolding received
get_apdu chip at sz s =
    let s' : Link = record s { log = s.log ++ asked sz ∷ [] } in
    let done : Run = received (chip.answers s.log sz) at sz s' in
    if is_refused sz then stop hbci_failure s else done

-- A message without a payload, and the header of the answer.
unfoldable pub put_header : Chip → Link → Run
unfolding put_apdu
put_header chip s = put_apdu chip (header s) s

unfoldable pub get_header : Chip → Link → Run
unfolding get_apdu
get_header chip s = get_apdu chip 0 len_hdr s

-- phHbci_GetStatus
unfoldable pub get_status : Chip → Link → Run
unfolding put_header get_header
get_status chip s = do s₁ ← put_header chip (record s { mosi_len = 0 }); get_header chip s₁
