-- ===== src/Fwd/Download/Complete.antt =====
-- The download of a firmware that is there, to a boot ROM that answers as the protocol says.
use mathlib.Core.List.{append-nil}
use device_xiaomi_odin.Prelude.{
  ℕ, suc, ◌≤◌, ◌≡◌, refl, ap, ◌∙◌, true, false, ◌||◌, some, List, [], ◌∷◌, ◌++◌, arith, ltb, ◌==◌,
  Bytes, length, take,
}
use device_xiaomi_odin.Config.Cascade.{Cascade}
use device_xiaomi_odin.Fwd.Apdu.{set_fwd, Chip, Link, ok}
use device_xiaomi_odin.Fwd.Apdu.Log.{writes, writes-append}
use device_xiaomi_odin.Fwd.Info.{get_device_lc_info, get_chip_id_info}
use device_xiaomi_odin.Fwd.Info.FwdMode.{mode_after-append, is_fwd_on}
use device_xiaomi_odin.Fwd.Command.Blocks.{take-all}
use device_xiaomi_odin.Fwd.Command.Packets.{AreBlocks, concat}
use device_xiaomi_odin.Fwd.Master.{hif_image, master}
use device_xiaomi_odin.Fwd.Master.Transfer.{opening, image_round}
use device_xiaomi_odin.Fwd.Master.Served.{IsBootRom}
use device_xiaomi_odin.Fwd.Master.Complete.{packet_count, master-served}
use device_xiaomi_odin.Fwd.Download.{
  image_size, fw_path, max_image_size, calls_fwd, cleaned, Files, download_image, opened, located,
  fw_download,
}

in_range-size : (n : ℕ) → 1 ≤ n → n ≤ max_image_size → (n == 0 || ltb max_image_size n) ≡ false
in_range-size n h l = ground arith

download_image-master :
    (n : ℕ) (chip : Chip) (files : Files) (img : Bytes) (s : Link)
    → 1 ≤ length img
    → length img ≤ max_image_size
    → files.reads_all ≡ true
    → download_image n chip files img s ≡ cleaned (master n chip hif_image img s)
unfolding download_image
download_image-master n chip files img s h l r =
    let size : image_size img ≡ length img = omega arith in
    let whole : take (image_size img) img ≡ img = take-all (image_size img) img (omega arith) in
    let e : (image_size img == 0 || ltb max_image_size (image_size img)) ≡ false =
      in_range-size (image_size img) (omega arith) (omega arith) in
    rw (e, r) (ap (λ t. cleaned (master n chip hif_image t s)) whole)

located-image :
    (n : ℕ) (chip : Chip) (files : Files) (path img : Bytes) (s : Link)
    → files.open_file path ≡ some img
    → located (some path) n chip files s ≡ download_image n chip files img s
unfolding located opened
located-image n chip files path img s e = rw e refl

-- A download, whose device has told its life cycle and its id, whose life cycle has a file of 1 to 256
-- KB that can be read, and whose boot ROM answers as the protocol says, succeeds with two rounds of the
-- loop. The device has been sent the opening, the blocks of the image once, and the query for its
-- status, and the download mode is off.
pub fw_download-served :
    (n : ℕ) (chip : Chip) (config : Cascade) (files : Files) (s s₁ s₂ : Link) (path img : Bytes)
    → get_device_lc_info chip (calls_fwd true s) ≡ ok s₁
    → get_chip_id_info chip s₁ ≡ ok s₂
    → fw_path config s₂.device_lc_info ≡ some path
    → files.open_file path ≡ some img
    → files.reads_all ≡ true
    → 1 ≤ length img
    → length img ≤ max_image_size
    → IsBootRom hif_image (packet_count img) (length (writes s₂.log)) chip
    → (bs : List Bytes) × (s' : Link) × (concat bs ≡ img)
      × AreBlocks bs
      × (fw_download (suc (suc n)) chip config files s ≡ ok s')
      × (writes s'.log ≡ writes s₂.log ++ (opening hif_image ++ image_round hif_image bs))
      × (is_fwd_on s' ≡ false)
unfolding fw_download
fw_download-served n chip config files s s₁ s₂ path img a b p o r h l rom =
    let (bs, s', whole, are, e, sent) = master-served hif_image chip img n s₂ h rom in
    (
      bs,
      calls_fwd false s',
      whole,
      are,
      rw (a, b, p)
          (located-image (suc (suc n)) chip files path img s₂ o
            ∙ (download_image-master (suc (suc n)) chip files img s₂ h l r ∙ ap cleaned e)),
      writes-append s'.log (set_fwd false ∷ []) ∙ (append-nil (writes s'.log) ∙ sent),
      mode_after-append false s'.log (set_fwd false ∷ []),
    )
