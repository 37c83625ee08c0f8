-- ===== src/Fwd/Download/Image.antt =====
-- What phNxpUciHal_fw_download has done when it returns.
use mathlib.Core.List.{append-nil}
use device_xiaomi_odin.Prelude.{
  take, ◌%◌, ◌^◌, ℕ, ◌≤◌, ◌≡◌, ◌⊎◌, refl, subst, ◌∙◌, inl, inr, true, false, not, ◌||◌, Option,
  none, some, List, [], ◌∷◌, ◌++◌, arith, ltb, ◌==◌, if-both, Bytes, length,
}
use device_xiaomi_odin.Config.Cascade.{Cascade}
use device_xiaomi_odin.Fwd.Apdu.{
  set_fwd, Chip, Link, Run, ok, stop, out_of_fuel, ◌>>=◌, hbci_failure, hbci_file_not_found,
  miso_cls, miso_ins,
}
use device_xiaomi_odin.Fwd.Apdu.Log.{writes, writes-append}
use device_xiaomi_odin.Fwd.Info.{get_device_lc_info, get_chip_id_info}
use device_xiaomi_odin.Fwd.Command.Blocks.{length-take-of_le}
use device_xiaomi_odin.Fwd.Command.Packets.{AreBlocks, concat}
use device_xiaomi_odin.Fwd.Master.{hif_image, master}
use device_xiaomi_odin.Fwd.Master.Rounds.{repeat, Transfers}
use device_xiaomi_odin.Fwd.Master.Transfer.{opening, image_round, master-Transfers}
use device_xiaomi_odin.Fwd.Download.{
  image_size, fw_path, max_image_size, calls_fwd, cleaned, Files, download_image, opened, located,
  fw_download,
}
use device_xiaomi_odin.Fwd.Info.FwdMode.{
  mode_after-append, is_fwd_on, Stays, get_device_lc_info-Stays, get_chip_id_info-Stays,
}

-- The image is the beginning of a file, as long as the file's size in 32 bits, which is 1 to 256 KB;
-- the device has been sent the opening and a number of times the image in its blocks, and its last
-- answer is that it has the image.
abbrev pub IsDelivered : Files → Link → Type 0
IsDelivered files s =
    (path : Bytes) × (file : Bytes) × (bs : List Bytes) × (k : ℕ) × (before : List Bytes)
    × (files.open_file path ≡ some file)
    × (1 ≤ length file % 2 ^ 32)
    × (length file % 2 ^ 32 ≤ max_image_size)
    × (concat bs ≡ take (length file % 2 ^ 32) file)
    × AreBlocks bs
    × (writes s.log ≡ before ++ (opening hif_image ++ repeat k (image_round hif_image bs)))
    × (miso_cls s ≡ 0x52)
    × (miso_ins s ≡ 0x01)

-- What a download gives, by its result.
unfoldable pub Outcome : Files → Run → Type 0
Outcome files (ok s) = IsDelivered files s × (is_fwd_on s ≡ false)
Outcome files (stop n s) = (n ≡ hbci_failure) ⊎ (n ≡ hbci_file_not_found) × (is_fwd_on s ≡ true)
Outcome files out_of_fuel = Unit

cleaned-Outcome :
    (files : Files) (r : Run)
    → ((s : Link) → r ≡ ok s → IsDelivered files (calls_fwd false s))
    → Outcome files (cleaned r)
unfolding Outcome
cleaned-Outcome files (ok s) h = (h s refl, mode_after-append false s.log (set_fwd false ∷ []))
cleaned-Outcome files (stop n s) h = inl refl
cleaned-Outcome files out_of_fuel h = tt

-- What a transfer that succeeds has done.
transferred :
    (before round : List Bytes) (start : List Bytes) (r : Run) (s : Link)
    → Transfers hif_image start before round r
    → r ≡ ok s
    → (k : ℕ) × (writes s.log ≡ start ++ (before ++ repeat k round))
      × (miso_cls s ≡ 0x52)
      × (miso_ins s ≡ 0x01)
unfolding Transfers
transferred before round start r s t e = subst (λ q. Transfers hif_image start before round q) e t

size_in_range : (n : ℕ) → (n == 0 || ltb max_image_size n) ≡ false → (1 ≤ n) × (n ≤ max_image_size)
size_in_range n e = (ground arith, ground arith)

length-image : (file : Bytes) → length (take (image_size file) file) ≡ image_size file
length-image file = length-take-of_le (image_size file) file (omega arith)

master-Outcome :
    (n : ℕ) (chip : Chip) (files : Files) (path file : Bytes) (s : Link)
    → files.open_file path ≡ some file
    → 1 ≤ image_size file
    → image_size file ≤ max_image_size
    → Outcome files (cleaned (master n chip hif_image (take (image_size file) file) s))
master-Outcome n chip files path file s o l h =
    let img : Bytes = take (image_size file) file in
    let size : length img ≡ image_size file = length-image file in
    let (bs, whole, are, all) = master-Transfers hif_image chip img (omega arith) in
    cleaned-Outcome files (master n chip hif_image img s) λ s' e.
      let (k, sent, cls, ins) =
        transferred (opening hif_image) (image_round hif_image bs) (writes s.log)
          (master n chip hif_image img s) s' (all n s) e in
      (
        path,
        file,
        bs,
        k,
        writes s.log,
        o,
        l,
        h,
        whole,
        are,
        writes-append s'.log (set_fwd false ∷ []) ∙ (append-nil (writes s'.log) ∙ sent),
        cls,
        ins,
      )

download_image-Outcome :
    (n : ℕ) (chip : Chip) (files : Files) (path file : Bytes) (s : Link)
    → files.open_file path ≡ some file
    → Outcome files (download_image n chip files file s)
unfolding download_image Outcome
download_image-Outcome n chip files path file s o =
    let size : ℕ = image_size file in
    if-both (Outcome files) (size == 0 || ltb max_image_size size) _ _ (λ e. inl refl)
      λ e.
        if-both (Outcome files) (not files.reads_all) _ _ (λ f. inl refl)
          λ f. let (l, h) = size_in_range size e in master-Outcome n chip files path file s o l h

opened-Outcome :
    (n : ℕ) (chip : Chip) (files : Files) (path : Bytes) (o : Option Bytes) (s : Link)
    → files.open_file path ≡ o
    → is_fwd_on s ≡ true
    → Outcome files (opened o n chip files s)
unfolding opened Outcome
opened-Outcome n chip files path none s e h = inr (refl, h)
opened-Outcome n chip files path (some img) s e h = download_image-Outcome n chip files path img s e

located-Outcome :
    (n : ℕ) (chip : Chip) (files : Files) (path : Option Bytes) (s : Link)
    → is_fwd_on s ≡ true
    → Outcome files (located path n chip files s)
unfolding located Outcome
located-Outcome n chip files none s h = inl refl
located-Outcome n chip files (some path) s h =
    opened-Outcome n chip files path (files.open_file path) s refl h

bind-Outcome :
    (files : Files) (r : Run) (f : Link → Run)
    → Stays r
    → ((s : Link) → is_fwd_on s ≡ true → Outcome files (f s))
    → Outcome files (r >>= f)
unfolding Stays Outcome
bind-Outcome files (ok s) f h k = k s h
bind-Outcome files (stop n s) f h k = inl h.0
bind-Outcome files out_of_fuel f h k = absurd h

-- Whatever the device does: a download that succeeds has opened a file whose size, taken modulo 2 ^ 32,
-- is 1 to 256 KB; the device has then been sent the opening, and the image, which is that much of the
-- file, with the query for its status, as many times as phHbci_Master went round, which is not at all
-- if the device says at once that it has the image; its last answer is that it has the image, and the
-- driver's download mode is off. One that fails returns phHbci_Failure, or that the file is not there;
-- in the latter case the download mode is left on. It may use its fuel up.
pub fw_download_lem :
    (n : ℕ) (chip : Chip) (config : Cascade) (files : Files) (s : Link)
    → Outcome files (fw_download n chip config files s)
unfolding fw_download
fw_download_lem n chip config files s =
    let s₀ : Link = calls_fwd true s in
    bind-Outcome files (get_device_lc_info chip s₀) _
      (get_device_lc_info-Stays chip s₀ (mode_after-append false s.log (set_fwd true ∷ [])))
      λ s₁ e₁.
        bind-Outcome files (get_chip_id_info chip s₁) _ (get_chip_id_info-Stays chip s₁ e₁)
          λ s₂ e₂. located-Outcome n chip files (fw_path config s₂.device_lc_info) s₂ e₂
