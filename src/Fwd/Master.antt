-- ===== src/Fwd/Master.antt =====
-- phHbci_Master, phHbci_MasterPatchROM and phHbci_MasterHIFImage of
-- uwb/halimpl/fwd/sr1xx/phNxpUciHal_fwd.cc: the image, once the boot ROM is ready for it.
pub mod Rounds
pub mod Transfer
pub mod Served
pub mod Once
pub mod Complete
use device_xiaomi_odin.Prelude.{
  ℕ, zero, suc, ◌+◌, Bool, false, ◌&&◌, ◌||◌, ◌==◌, if◌then◌else◌, Bytes, [],
}
use device_xiaomi_odin.Fwd.Apdu.{
  Chip, Link, Run, ok, stop, out_of_fuel, ◌>>=◌, hbci_failure, miso_cls, miso_ins, get_status,
}
use device_xiaomi_odin.Fwd.Command.{put_command}

-- Mode_t
pub data Mode : Type 0 where
  patch_rom hif_image : Mode

-- phHbci_General_Command_t: phHbci_General_Cmd_Mode_Patch_ROM and phHbci_General_Cmd_Mode_HIF_Image,
-- which are the answers that say that the mode is ready.
abbrev pub command_of : Mode → ℕ
command_of patch_rom = 0x23
command_of hif_image = 0x24

-- phHbci_Class_Patch_ROM and phHbci_Class_HIF_Image
abbrev pub class_of : Mode → ℕ
class_of patch_rom = 0x20
class_of hif_image = 0x50

-- phHbci_GeneralStatus: whether the answer is the one that the mode expects; mode 0 is that of no
-- mode. All the other answers, of an error or unknown, are failures.
unfoldable pub is_ready : ℕ → Link → Bool
is_ready mode s =
    miso_cls s == 0x02
    && (if miso_ins s == 0x21
        then mode == 0
        else if miso_ins s == 0x23
        then mode == 0x23
        else if miso_ins s == 0x24
        then mode == 0x24
        else false)

unfoldable pub general_status : ℕ → Link → Run
unfolding is_ready
general_status mode s = if is_ready mode s then ok s else stop hbci_failure s

-- phHbci_General_Qry_Status of the general class
abbrev pub status_query : Link → Link
status_query s = record s { mosi_cls = 0x01; mosi_ins = 0x21 }

-- The answer is of the general class, an answer or an acknowledgement.
abbrev pub is_general : Link → Bool
is_general s = miso_cls s == 0x02 || miso_cls s == 0x04

-- The image is sent, and the query for its status comes next.
unfoldable pub send_image : Chip → Mode → Bytes → Link → Run
unfolding general_status put_command
send_image chip mode img s = do
  s₁ ← general_status (command_of mode) s
  s₂ ← put_command chip img (record s₁ { mosi_cls = class_of mode + 3; mosi_ins = 0x01 })
  ok (record s₂ { mosi_cls = class_of mode + 1; mosi_ins = 0x01 })

-- The answer of the mode's class: a success, or one of the errors.
unfoldable pub image_status : Mode → Link → Run
image_status mode s =
    if miso_cls s == class_of mode + 2 && miso_ins s == 0x01 then ok s else stop hbci_failure s

-- The loop of both functions, on fuel: the boot ROM may ask for the image again.
unfoldable pub transfer : ℕ → Chip → Mode → Bytes → Link → Run
unfolding get_status send_image image_status
transfer zero chip mode img s = out_of_fuel
transfer (suc n) chip mode img s = do
  s₁ ← get_status chip s
  let again = send_image chip mode img s₁ >>= λ s₂. transfer n chip mode img s₂
  if is_general s₁ then again else image_status mode s₁

-- phHbci_Master
unfoldable pub master : ℕ → Chip → Mode → Bytes → Link → Run
unfolding get_status general_status put_command transfer
master n chip mode img s = do
  s₁ ← get_status chip (status_query s)
  s₂ ← general_status 0 s₁
  s₃ ← put_command chip [] (record s₂ { mosi_cls = 0x03; mosi_ins = command_of mode })
  transfer n chip mode img (status_query s₃)
