-- ===== src/Fwd/Download.antt =====
-- phNxpUciHal_fw_download of uwb/halimpl/fwd/sr1xx/phNxpUciHal_fwd.cc, with init and cleanup. The mode
-- is Mode_HIF_Image, as setOpts makes it.
pub mod Image
pub mod Complete
use device_xiaomi_odin.Prelude.{
  ℕ, ◌||◌, Option, none, some, [], ◌∷◌, ◌++◌, Bool, true, false, not, ltb, ◌==◌, if◌then◌else◌,
  Bytes, length, take, ◌%◌, ◌^◌,
}
use device_xiaomi_odin.Config.Text.{codes, until_nul}
use device_xiaomi_odin.Config.Cascade.{Cascade, get_str}
use device_xiaomi_odin.Fwd.Apdu.{
  set_fwd, Chip, Link, Run, ok, stop, out_of_fuel, ◌>>=◌, hbci_failure, hbci_file_not_found,
}
use device_xiaomi_odin.Fwd.Info.{get_device_lc_info, get_chip_id_info}
use device_xiaomi_odin.Fwd.Master.{hif_image, master}

abbrev pub fw_dir : Bytes
fw_dir = codes "/vendor/firmware/uwb/"

-- The configured name, or the default one.
abbrev pub named_path : Option Bytes → Bytes → Bytes
named_path none default_name = fw_dir ++ default_name
named_path (some name) default_name = fw_dir ++ until_nul name

-- init: the path of the firmware for the life cycle of the device, if it is known.
unfoldable pub fw_path : Cascade → ℕ → Option Bytes
unfolding get_str
fw_path config lc =
    if lc == 0x0F || lc == 0x3F
    then some (
        named_path (get_str (codes "NXP_UWB_PROD_FW_FILENAME") 500 config)
          (codes "libsr100t_prod_fw.bin"))
    else if lc == 0x00
    then some (
        named_path (get_str (codes "NXP_UWB_DEV_FW_FILENAME") 500 config)
          (codes "libsr100t_dev_fw.bin"))
    else none

-- PHHIF_MAX_IMAGE_SZ, which is the size of the buffer, too.
abbrev pub max_image_size : ℕ
max_image_size = 262144

abbrev pub calls_fwd : Bool → Link → Link
calls_fwd b s = record s { log = s.log ++ set_fwd b ∷ [] }

-- cleanup, behind which the status is returned.
abbrev pub cleaned : Run → Run
cleaned (ok s) = ok (calls_fwd false s)
cleaned (stop n s) = stop hbci_failure (calls_fwd false s)
cleaned out_of_fuel = out_of_fuel

-- The files that can be opened, with what they hold, and whether fread gives all of it.
pub record Files : Type 0 where
  pub open_file : Bytes → Option Bytes
  pub reads_all : Bool

-- The size that ftell gives, as a uint32_t.
abbrev pub image_size : Bytes → ℕ
image_size file = length file % 2 ^ 32

-- The image, once its file is open: so many bytes of it as the size says.
unfoldable pub download_image : ℕ → Chip → Files → Bytes → Link → Run
unfolding master
download_image n chip files file s =
    let size : ℕ = image_size file in
    if size == 0 || ltb max_image_size size
    then cleaned (stop hbci_failure s)
    else if not files.reads_all
    then cleaned (stop hbci_failure s)
    else cleaned (master n chip hif_image (take size file) s)

unfoldable pub opened : Option Bytes → ℕ → Chip → Files → Link → Run
unfolding download_image
opened none n chip files s = stop hbci_file_not_found s
opened (some img) n chip files s = download_image n chip files img s

unfoldable pub located : Option Bytes → ℕ → Chip → Files → Link → Run
unfolding opened
located none n chip files s = cleaned (stop hbci_failure s)
located (some path) n chip files s = opened (files.open_file path) n chip files s

-- phNxpUciHal_fw_download, on the fuel of the loop over the image's status.
unfoldable pub fw_download : ℕ → Chip → Cascade → Files → Link → Run
unfolding get_device_lc_info get_chip_id_info fw_path located
fw_download n chip config files s = do
  s₁ ← get_device_lc_info chip (calls_fwd true s)
  s₂ ← get_chip_id_info chip s₁
  located (fw_path config s₂.device_lc_info) n chip files s₂
