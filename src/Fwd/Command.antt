-- ===== src/Fwd/Command.antt =====
-- phHbci_PutCommand of uwb/halimpl/fwd/sr1xx/phNxpUciHal_fwd.cc: a command with its data, in segments.
pub mod Packets
pub mod Blocks
use device_xiaomi_odin.Prelude.{
  ℕ, zero, suc, ◌+◌, ◌/◌, not, ◌||◌, List, [], ◌∷◌, ◌++◌, leb, ◌==◌, if◌then◌else◌, Bytes, length,
  take, drop,
}
use device_xiaomi_odin.Fwd.Apdu.{
  Chip, Link, Run, ok, stop, out_of_fuel, ◌>>=◌, hbci_failure, max_len_data_mosi, seg_flag, header,
  miso_cls, miso_ins, calc_lrc, put_apdu, put_header, get_header,
}

-- phHbci_Class_General | phHbci_SubClass_Ack and phHbci_Valid_APDU
abbrev pub ack_cls : ℕ
ack_cls = 0x04

abbrev pub ack_ins : ℕ
ack_ins = 0x01

unfoldable pub check_ack : Link → Run
check_ack s =
    if not (miso_cls s == ack_cls) || not (miso_ins s == ack_ins) then stop hbci_failure s else ok s

-- The header of the answer, which has to be an acknowledgement.
unfoldable pub get_ack : Chip → Link → Run
unfolding get_header check_ack
get_ack chip s = get_header chip s >>= check_ack

-- The length that the header of a segment has: the flag in front of others, or the data and the LRC.
abbrev pub payload_size : Bytes → ℕ
payload_size img =
    if leb (length img) max_len_data_mosi
    then if length img == 0 then 0 else length img + 1
    else seg_flag

-- The data of a segment, with the LRC over the header and them.
unfoldable pub put_data : Chip → Bytes → Link → Run
unfolding put_apdu get_ack
put_data chip block s = do
  s₁ ← put_apdu chip (block ++ calc_lrc (header s ++ block) ∷ []) s
  get_ack chip s₁

-- A round of the loop.
unfoldable pub put_segment : Chip → Bytes → Link → Run
unfolding put_header get_ack put_data
put_segment chip img s = do
  s₁ ← put_header chip (record s { mosi_len = payload_size img })
  s₂ ← get_ack chip s₁
  if length img == 0 then ok s₂ else put_data chip (take max_len_data_mosi img) s₂

-- The loop, on fuel.
unfoldable pub put_segments : ℕ → Chip → Bytes → Link → Run
unfolding put_segment
put_segments zero chip img s = out_of_fuel
put_segments (suc n) chip img s = do
  s' ← put_segment chip img s
  let rest = drop max_len_data_mosi img
  let again = put_segments n chip rest s'
  if length rest == 0 then ok s' else again

-- phHbci_PutCommand: a round for each segment that is full, and one more.
unfoldable pub put_command : Chip → Bytes → Link → Run
unfolding put_segments
put_command chip img s = put_segments (length img / max_len_data_mosi + 1) chip img s
