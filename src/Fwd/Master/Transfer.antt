-- ===== src/Fwd/Master/Transfer.antt =====
-- What phHbci_Master writes to the device.
use mathlib.Core.List.{append-nil}
use device_xiaomi_odin.Prelude.{
  ℕ, zero, suc, ◌+◌, ◌≤◌, ◌≡◌, refl, sym, subst, inl, inr, ◌&&◌, List, [], ◌∷◌, ◌++◌, arith, ◌==◌,
  Bool-cases, if-both, ==→≡, Bytes, length,
}
use device_xiaomi_odin.Fwd.Apdu.{
  Chip, Link, Run, ok, ◌>>=◌, miso_cls, miso_ins, put_header, get_header, get_status,
}
use device_xiaomi_odin.Fwd.Apdu.Log.{
  writes, Writes, bind-Writes, weaken-Writes, ok-Writes, IsMosi, get_header-Writes, guard-Writes,
}
use device_xiaomi_odin.Fwd.Command.{put_command}
use device_xiaomi_odin.Fwd.Command.Packets.{
  header_of, packets, AreBlocks, concat, IsCommand, put_header-Writes,
}
use device_xiaomi_odin.Fwd.Command.Blocks.{put_command-packets, put_command-empty}
use device_xiaomi_odin.Fwd.Master.{
  Mode, command_of, class_of, is_ready, general_status, status_query, is_general, send_image,
  image_status, transfer, master,
}
use device_xiaomi_odin.Fwd.Master.Rounds.{Transfers, bind-Transfers, round-Transfers}

get_status-Writes :
    (c i : ℕ) (chip : Chip) (s : Link)
    → IsCommand c i s
    → Writes (writes s.log) (header_of c i 0 ∷ []) (IsCommand c i) (get_status chip s)
unfolding get_status
get_status-Writes c i chip s (e, f) =
    let s₀ : Link = record s { mosi_len = 0 } in
    bind-Writes (IsMosi c i 0) (IsCommand c i) (writes s.log) (header_of c i 0 ∷ []) []
      (put_header chip s₀) _ (put_header-Writes c i 0 chip s₀ (e, f, refl))
      λ s₁ h₁.
        weaken-Writes (IsMosi c i 0) (IsCommand c i) (writes s₁.log) [] (get_header chip s₁)
          (λ s' h'. (h'.0, h'.1)) (get_header-Writes c i 0 chip s₁ h₁)

general_status-Writes :
    (P : Link → Type 0) (mode : ℕ) (s : Link)
    → P s
    → Writes (writes s.log) [] P (general_status mode s)
unfolding general_status
general_status-Writes P mode s h = guard-Writes P (is_ready mode s) s h

-- The query for the status of the image.
abbrev pub image_query : Mode → Bytes
image_query mode = header_of (class_of mode + 1) 0x01 0

send_image-Writes :
    (mode : Mode) (chip : Chip) (img : Bytes) (ps : List Bytes)
    → ((s : Link)
        → IsCommand (class_of mode + 3) 0x01 s
        → Writes (writes s.log) ps (IsCommand (class_of mode + 3) 0x01) (put_command chip img s))
    → (s : Link)
    → Writes (writes s.log) ps (IsCommand (class_of mode + 1) 0x01) (send_image chip mode img s)
unfolding send_image
send_image-Writes mode chip img ps h s =
    let Any : Link → Type 0 = λ s. Unit {0} in
    let Done : Link → Type 0 = IsCommand (class_of mode + 3) 0x01 in
    let Next : Link → Type 0 = IsCommand (class_of mode + 1) 0x01 in
    bind-Writes Any Next (writes s.log) [] ps (general_status (command_of mode) s) _
      (general_status-Writes Any (command_of mode) s tt)
      λ s₁ h₁.
        let next : Link → Run =
          λ s. ok (record s { mosi_cls = class_of mode + 1; mosi_ins = 0x01 }) in
        let s₁' : Link = record s₁ { mosi_cls = class_of mode + 3; mosi_ins = 0x01 } in
        subst (λ t. Writes (writes s₁.log) t Next (put_command chip img s₁' >>= next))
          (append-nil ps)
          (bind-Writes Done Next (writes s₁.log) ps [] (put_command chip img s₁') _
            (h s₁' (refl, refl))
            λ s₂ h₂.
              ok-Writes Next (record s₂ { mosi_cls = class_of mode + 1; mosi_ins = 0x01 })
                (refl, refl))

image_status-Transfers :
    (mode : Mode) (round : List Bytes) (s : Link)
    → Transfers mode (writes s.log) [] round (image_status mode s)
unfolding image_status Transfers
image_status-Transfers mode round s =
    elim (Bool-cases (miso_cls s == class_of mode + 2 && miso_ins s == 0x01)) [
      | inl e ↦ rw e (
        zero,
        sym (append-nil (writes s.log)),
        ==→≡ (miso_cls s) (class_of mode + 2) (ground arith),
        ==→≡ (miso_ins s) 0x01 (ground arith),
      )
      | inr e ↦ rw e (zero, [], [], refl, refl, sym (append-nil (writes s.log)))
    ]

transfer-Transfers :
    (mode : Mode) (chip : Chip) (img : Bytes) (ps : List Bytes)
    → ((s : Link)
        → IsCommand (class_of mode + 3) 0x01 s
        → Writes (writes s.log) ps (IsCommand (class_of mode + 3) 0x01) (put_command chip img s))
    → (n c i : ℕ) (s : Link) → IsCommand c i s
    → Transfers mode
        (writes s.log)
        (header_of c i 0 ∷ [])
        (ps ++ image_query mode ∷ [])
        (transfer n chip mode img s)
unfolding transfer Transfers
transfer-Transfers mode chip img ps h zero c i s e = tt
transfer-Transfers mode chip img ps h (suc n) c i s e =
    let round : List Bytes = ps ++ image_query mode ∷ [] in
    let Next : Link → Type 0 = IsCommand (class_of mode + 1) 0x01 in
    bind-Transfers mode (IsCommand c i) (writes s.log) (header_of c i 0 ∷ []) [] round
      (get_status chip s) _ (get_status-Writes c i chip s e)
      λ s₁ h₁.
        if-both (Transfers mode (writes s₁.log) [] round) (is_general s₁)
          (send_image chip mode img s₁ >>= λ s₂. transfer n chip mode img s₂) (image_status mode s₁)
          (λ g.
            round-Transfers mode (writes s₁.log) round
              (send_image chip mode img s₁ >>= λ s₂. transfer n chip mode img s₂)
              (bind-Transfers mode Next (writes s₁.log) ps (image_query mode ∷ []) round
                (send_image chip mode img s₁) (λ s₂. transfer n chip mode img s₂)
                (send_image-Writes mode chip img ps h s₁)
                λ s₂ h₂. transfer-Transfers mode chip img ps h n (class_of mode + 1) 0x01 s₂ h₂))
          λ g. image_status-Transfers mode round s₁

-- What phHbci_Master writes in front of the image, and for each time that it sends the image.
abbrev pub opening : Mode → List Bytes
opening mode =
    header_of 0x01 0x21 0 ∷ header_of 0x03 (command_of mode) 0 ∷ header_of 0x01 0x21 0 ∷ []

abbrev pub image_round : Mode → List Bytes → List Bytes
image_round mode bs = packets (class_of mode + 3) 0x01 bs ++ image_query mode ∷ []

-- Whatever the device does, phHbci_Master with an image that is not empty writes the query for the
-- status, the command for the mode and the query again, and then any number of times the image in its
-- blocks and the query for its status. If it succeeds, the boot ROM's last answer is that it has the
-- image; if it fails, a part of this from the beginning is written. It may use its fuel up.
pub master-Transfers :
    (mode : Mode) (chip : Chip) (img : Bytes)
    → 1 ≤ length img
    → (bs : List Bytes) × (concat bs ≡ img)
      × AreBlocks bs
      × ((n : ℕ) (s : Link)
          → Transfers mode
              (writes s.log)
              (opening mode)
              (image_round mode bs)
              (master n chip mode img s))
unfolding master
master-Transfers mode chip img l =
    let (bs, whole, are, all) = put_command-packets (class_of mode + 3) 0x01 chip img l in
    let ps : List Bytes = packets (class_of mode + 3) 0x01 bs in
    let round : List Bytes = image_round mode bs in
    let Query : Link → Type 0 = IsCommand 0x01 0x21 in
    let Set : Link → Type 0 = IsCommand 0x03 (command_of mode) in
    let q : List Bytes = header_of 0x01 0x21 0 ∷ [] in
    let c : List Bytes = header_of 0x03 (command_of mode) 0 ∷ [] in
    (
      bs,
      whole,
      are,
      λ n s.
          bind-Transfers mode Query (writes s.log) q (c ++ q) round
            (get_status chip (status_query s)) _
            (get_status-Writes 0x01 0x21 chip (status_query s) (refl, refl))
            λ s₁ h₁.
              bind-Transfers mode Query (writes s₁.log) [] (c ++ q) round (general_status 0 s₁) _
                (general_status-Writes Query 0 s₁ h₁)
                λ s₂ h₂.
                  let s₂' : Link = record s₂ { mosi_cls = 0x03; mosi_ins = command_of mode } in
                  bind-Transfers mode Set (writes s₂.log) c q round (put_command chip [] s₂') _
                    (put_command-empty 0x03 (command_of mode) chip s₂' (refl, refl))
                    λ s₃ h₃.
                      transfer-Transfers mode chip img ps all n 0x01 0x21 (status_query s₃)
                        (refl, refl),
    )
