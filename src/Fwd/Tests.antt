-- ===== src/Fwd/Tests.antt =====
-- A download of three bytes to a boot ROM.
use device_xiaomi_odin.Prelude.{
  ℕ, ◌+◌, ◌-◌, ◌≡◌, refl, true, false, ◌||◌, Option, some, List, [], ◌∷◌, ◌++◌, arith, ◌==◌,
  if◌then◌else◌, Bytes, length,
}
use device_xiaomi_odin.Config.Text.{codes}
use device_xiaomi_odin.Config.Param.{lookup}
use device_xiaomi_odin.Config.Cascade.{no_cascade, get_str, find_param}
use device_xiaomi_odin.Fwd.Apdu.{Chip, Link, Run, ok, stop, out_of_fuel, put_header, put_apdu}
use device_xiaomi_odin.Fwd.Apdu.Log.{writes, Writes}
use device_xiaomi_odin.Fwd.Info.{
  get_local_info, get_local, local_received, get_device_lc_info, get_chip_id_info,
}
use device_xiaomi_odin.Fwd.Info.FwdMode.{is_fwd_on}
use device_xiaomi_odin.Fwd.Command.{put_command}
use device_xiaomi_odin.Fwd.Command.Packets.{packets, AreBlocks, concat, IsCommand}
use device_xiaomi_odin.Fwd.Command.Blocks.{put_command-packets}
use device_xiaomi_odin.Fwd.Master.{hif_image, master}
use device_xiaomi_odin.Fwd.Master.Rounds.{Transfers}
use device_xiaomi_odin.Fwd.Master.Transfer.{opening, image_round, master-Transfers}
use device_xiaomi_odin.Fwd.Master.Served.{reply, IsBootRom}
use device_xiaomi_odin.Fwd.Download.{calls_fwd, Files, fw_path, fw_download}
use device_xiaomi_odin.Fwd.Download.Image.{Outcome, fw_download_lem}
use device_xiaomi_odin.Fwd.Download.Complete.{fw_download-served}

abbrev image : Bytes
image = 0x10 ∷ 0x20 ∷ 0x30 ∷ []

-- The life cycle is at 39 of its answer.
abbrev fifteens : ℕ → Bytes
fifteens ℕ.zero = []
fifteens (ℕ.suc n) = 0x0F ∷ fifteens n

-- The first four messages are the queries for the life cycle and the chip.
answer_to : ℕ → Option Bytes
answer_to c =
    if c == 1 || c == 3
    then some (0x02 ∷ 0x36 ∷ 45 ∷ 0 ∷ [])
    else if c == 2 || c == 4
    then some (fifteens 45)
    else some (reply hif_image 2 (c - 5))

abbrev rom : Chip
rom = record { accepts = λ l p. true; answers = λ l n. answer_to (length (writes l)) }

answer_to-reply : (c k : ℕ) → c ≡ 5 + k → answer_to c ≡ some (reply hif_image 2 k)
unfolding answer_to
answer_to-reply c k e =
    let a : (c == 1 || c == 3) ≡ false = ground arith in
    let b : (c == 2 || c == 4) ≡ false = ground arith in
    let d : c - 5 ≡ k = omega arith in rw (a, b, d) refl

abbrev start : Link
start = record {
  mosi_cls = 0;
  mosi_ins = 0;
  mosi_len = 0;
  miso = [];
  chip_id = 0;
  device_lc_info = 0;
  hbci_data = [];
  log = [];
}

abbrev reached : Run → Link
reached (ok s) = s
reached (stop n s) = s
reached out_of_fuel = start

put_command-packets_example :
    (bs : List Bytes) × (concat bs ≡ image)
    × AreBlocks bs
    × ((s : Link)
        → IsCommand 0x53 0x01 s
        → Writes
            (writes s.log)
            (packets 0x53 0x01 bs)
            (IsCommand 0x53 0x01)
            (put_command rom image s))
put_command-packets_example = put_command-packets 0x53 0x01 rom image (omega arith)

master-Transfers_example :
    (bs : List Bytes) × (concat bs ≡ image)
    × AreBlocks bs
    × ((n : ℕ) (s : Link)
        → Transfers hif_image
            (writes s.log)
            (opening hif_image)
            (image_round hif_image bs)
            (master n rom hif_image image s))
master-Transfers_example = master-Transfers hif_image rom image (omega arith)

abbrev files : Files
files = record { open_file = λ path. some image; reads_all = true }

fw_download_lem_example : Outcome files (fw_download 2 rom no_cascade files start)
fw_download_lem_example = fw_download_lem 2 rom no_cascade files start

abbrev with_lc : Link
with_lc = reached (get_device_lc_info rom (calls_fwd true start))

abbrev with_chip : Link
with_chip = reached (get_chip_id_info rom with_lc)

with_lc_lem : get_device_lc_info rom (calls_fwd true start) ≡ ok with_lc
unfolding get_device_lc_info get_local_info get_local local_received put_header put_apdu answer_to
with_lc_lem = refl

with_chip_lem : get_chip_id_info rom with_lc ≡ ok with_chip
unfolding get_device_lc_info get_chip_id_info get_local_info get_local local_received put_header
    put_apdu answer_to
with_chip_lem = refl

path_lem :
    fw_path no_cascade with_chip.device_lc_info
    ≡ some (codes "/vendor/firmware/uwb/libsr100t_prod_fw.bin")
unfolding fw_path get_str find_param lookup get_device_lc_info get_chip_id_info get_local_info
    get_local local_received put_header put_apdu answer_to
path_lem = refl

four_sent : length (writes with_chip.log) ≡ 4
unfolding get_device_lc_info get_chip_id_info get_local_info get_local local_received put_header
    put_apdu answer_to
four_sent = refl

rom-IsBootRom : IsBootRom hif_image 2 (length (writes with_chip.log)) rom
rom-IsBootRom = record {
  takes = λ l p. refl;
  replies = λ l k e. answer_to-reply (length (writes l)) k (omega (arith, e, four_sent));
}

fw_download-served_example :
    (bs : List Bytes) × (s' : Link) × (concat bs ≡ image)
    × AreBlocks bs
    × (fw_download 2 rom no_cascade files start ≡ ok s')
    × (writes s'.log ≡ writes with_chip.log ++ (opening hif_image ++ image_round hif_image bs))
    × (is_fwd_on s' ≡ false)
fw_download-served_example =
    fw_download-served 0 rom no_cascade files start with_lc with_chip
      (codes "/vendor/firmware/uwb/libsr100t_prod_fw.bin") image with_lc_lem with_chip_lem path_lem
      refl refl (omega arith) (omega arith) rom-IsBootRom
