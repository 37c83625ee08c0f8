-- ===== src/Fwd/Info.antt =====
-- The queries of uwb/halimpl/fwd/sr1xx/phNxpUciHal_fwd.cc: phHbci_GetInfo and what it calls, and
-- phHbci_GetChipIdInfo and phHbci_GetDeviceLcInfo.
pub mod FwdMode
use device_xiaomi_odin.Prelude.{
  ℕ, true, ◌+◌, ◌-◌, ◌*◌, ◌/◌, ◌%◌, Bool, not, ◌&&◌, Option, none, some, [], ◌∷◌, ◌++◌, ltb, leb,
  ◌==◌, if◌then◌else◌, Bytes, take, drop,
}
use device_xiaomi_odin.Uci.Packet.{byte}
use device_xiaomi_odin.Fwd.Apdu.{
  asked, Chip, Link, Run, ok, stop, ◌>>=◌, hbci_failure, len_hdr, max_len_data_miso, miso_cls,
  miso_ins, miso_len, calc_lrc, put_header, get_apdu, get_header, is_refused, overlay,
}
use device_xiaomi_odin.Fwd.Command.{ack_cls, ack_ins}

-- The number of the bytes of an answer's data, less the LRC, and whether the answer is a segment.
abbrev pub data_size : Link → ℕ
data_size s = miso_len s - 1

abbrev pub is_segment : Link → Bool
is_segment s = ltb 0x7FFF (miso_len s)

-- What the answer is acknowledged with: phHbci_Ack_t.
abbrev pub verdict : ℕ → ℕ → ℕ → Bool → Link → ℕ
verdict cls ins max_size exact s =
    if not (miso_cls s == cls)
    then 0x82
    else if not (miso_ins s == ins)
    then 0x83
    else if is_segment s
    then 0x84
    else if ltb max_size (data_size s)
    then 0x84
    else if exact && not (data_size s == max_size)
    then 0x84
    else ack_ins

-- The data behind the header, with their LRC.
unfoldable pub get_data : Chip → Link → Run
unfolding get_apdu
get_data chip s = do
  s' ← get_apdu chip len_hdr (miso_len s) s
  let n = len_hdr + data_size s
  if byte s'.miso n == calc_lrc (take n s'.miso) then ok s' else stop hbci_failure s'

-- The answer, once it is known that it is not empty.
unfoldable pub acknowledge : Chip → ℕ → ℕ → ℕ → Bool → Link → Run
unfolding put_header get_data
acknowledge chip cls ins max_size exact s = do
  let v = verdict cls ins max_size exact s
  s' ← put_header chip (record s { mosi_cls = ack_cls; mosi_ins = v })
  if leb 0x80 v then stop hbci_failure s' else get_data chip s'

-- phHbci_QueryInfo, but for the data, which are in the answer's buffer.
unfoldable pub query : Chip → ℕ → Bool → Link → Run
unfolding put_header get_header acknowledge
query chip max_size exact s =
    let cls : ℕ = s.mosi_cls / 16 * 16 + 0x02 in
    let asked_for : Run = put_header chip (record s { mosi_len = 0 }) >>= λ s₁.
    get_header chip s₁ >>= λ s₂.
    if not (is_segment s₂) && data_size s₂ == 0
    then stop hbci_failure s₂
    else acknowledge chip cls s.mosi_ins max_size exact s₂ in
    if ltb max_len_data_miso max_size then stop hbci_failure s else asked_for

-- The data go behind the information that is there; a failure leaves it alone.
abbrev pub with_data : Bytes → Run → Run × Bytes
with_data info (ok s) = (ok s, info ++ take (data_size s) (drop len_hdr s.miso))
with_data info r = (r, info)

unfoldable pub query_info : Chip → Bytes → ℕ → Bool → Link → Run × Bytes
unfolding query
query_info chip info max_size exact s = with_data info (query chip max_size exact s)

-- The sizes of the chip id, the Helios id, the public key, the ROM version and the OTP information.
abbrev pub size_of : ℕ → Option ℕ
size_of ins =
    if ins == 0x31
    then some 16
    else if ins == 0x32
    then some 4
    else if ins == 0x33
    then some 64
    else if ins == 0x34
    then some 1
    else if ins == 0x36
    then some 44
    else none

queried : Option ℕ → Chip → Bytes → Link → Run × Bytes
unfolding query_info
queried none chip info s = (stop hbci_failure s, info)
queried (some n) chip info s = query_info chip info n true s

-- phHbci_GetGeneralInfo
unfoldable pub get_general_info : Chip → Bytes → Link → Run × Bytes
unfolding queried
get_general_info chip info s =
    if not (s.mosi_cls == 0x01)
    then (stop hbci_failure s, info)
    else queried (size_of s.mosi_ins) chip info s

-- phHbci_GetInfo
unfoldable pub get_info : Chip → Bytes → Link → Run × Bytes
unfolding get_general_info
get_info chip info s =
    if s.mosi_cls == 0x01 then get_general_info chip info s else (stop hbci_failure s, info)

-- phHbci_GetApdu into hbciData.
unfoldable pub local_received : Option Bytes → ℕ → Link → Run
local_received none sz s = stop hbci_failure s
local_received (some p) sz s = ok (record s { hbci_data = overlay 0 (take sz p) s.hbci_data })

unfoldable pub get_local : Chip → ℕ → Link → Run
unfolding local_received
get_local chip sz s =
    let s' : Link = record s { log = s.log ++ asked sz ∷ [] } in
    let done : Run = local_received (chip.answers s.log sz) sz s' in
    if is_refused sz then stop hbci_failure s else done

-- The length of the answer in hbciData: 12 bits.
abbrev pub local_len : Link → ℕ
local_len s = byte s.hbci_data 2 + 256 * (byte s.hbci_data 3 % 16)

-- The common part of phHbci_GetChipIdInfo and phHbci_GetDeviceLcInfo. The class and the instruction
-- of the second message are phHbci_SubClass_Ack and phHbci_SubClass_Query.
unfoldable pub get_local_info : ℕ → Chip → Link → Run
unfolding put_header get_local
get_local_info ins chip s = do
  s₁ ← put_header chip (record s { mosi_cls = 0x01; mosi_ins = ins; mosi_len = 0 })
  s₂ ← get_local chip len_hdr s₁
  let s₂' = record s₂ { mosi_cls = 0x04; mosi_ins = 0x01; mosi_len = 0 }
  let more = put_header chip s₂' >>= λ s₃. get_local chip (local_len s₂) s₃
  if local_len s₂ == 0 then stop hbci_failure s₂ else more

unfoldable pub get_chip_id_info : Chip → Link → Run
unfolding get_local_info
get_chip_id_info chip s = do
  s' ← get_local_info 0x31 chip s
  ok (record s' { chip_id = byte s'.hbci_data 8 })

unfoldable pub get_device_lc_info : Chip → Link → Run
unfolding get_local_info
get_device_lc_info chip s = do
  s' ← get_local_info 0x36 chip s
  ok (record s' { device_lc_info = byte s'.hbci_data 39 })
