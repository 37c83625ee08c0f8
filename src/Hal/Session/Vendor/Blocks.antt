-- ===== src/Hal/Session/Vendor/Blocks.antt =====
-- phNxpUciHal_applyVendorConfig against the list of the configured blocks.
use mathlib.Core.List.{append-nil}
use device_xiaomi_odin.Prelude.{
  ℕ, ◌≤◌, ◌≡◌, ◌⊎◌, refl, ap, sym, ◌∙◌, inl, Option, none, some, List, [], ◌∷◌, ◌++◌, and_then,
  arith, ◌==◌, if-both, Bytes, length,
}
use device_xiaomi_odin.Status.{success}
use device_xiaomi_odin.Config.Text.{codes}
use device_xiaomi_odin.Config.Cascade.{Cascade, get_byte_array}
use device_xiaomi_odin.Config.Cascade.Values.{get_byte_array-fits}
use device_xiaomi_odin.Hal.CapsInfo.{Antenna}
use device_xiaomi_odin.Hal.Session.{Device, Sent}
use device_xiaomi_odin.Hal.Session.Vendor.{
  Session, sendable, send_block, send_device_block, max_config_len, block, user_fw_block,
  device_block, core_names, send_core_blocks, low_power_block, finish_low_power, low_power_cmd,
  parse_antenna_config, apply_vendor_config,
}
use device_xiaomi_odin.Hal.Session.Vendor.Sends.{
  Answered, IsAllSent, IsStopped, Sends, IsSmall, present, then_ok-Sends, send_block-Sends,
  sent-one, send_ext_cmd-small, nothing-Sends,
}

sendable-IsSmall :
    (o : Option Bytes)
    → ((a : Bytes) → o ≡ some a → length a ≤ max_config_len)
    → IsSmall (sendable o)
unfolding IsSmall
sendable-IsSmall none h = tt
sendable-IsSmall (some []) h = tt
sendable-IsSmall (some (x ∷ v)) h = omega (arith, h (x ∷ v) refl)

block-IsSmall : (config : Cascade) (name : Bytes) → IsSmall (block config name)
block-IsSmall config name =
    sendable-IsSmall (get_byte_array name max_config_len config)
      (get_byte_array-fits name max_config_len config)

device_block-IsSmall : (config : Cascade) (t : ℕ) → IsSmall (device_block config t)
device_block-IsSmall config t =
    if-both IsSmall (t == b'T') _ _
      (λ e. block-IsSmall config (codes "UWB_CORE_EXT_DEVICE_SR1XX_T_CONFIG"))
      λ e.
        if-both IsSmall (t == b'S') _ _
          (λ e. block-IsSmall config (codes "UWB_CORE_EXT_DEVICE_SR1XX_S_CONFIG"))
          λ e. block-IsSmall config (codes "UWB_CORE_EXT_DEVICE_DEFAULT_CONFIG")

user_fw_block-IsSmall : (config : Cascade) (m : ℕ) → IsSmall (user_fw_block config m)
unfolding IsSmall
user_fw_block-IsSmall config m =
    if-both IsSmall (m == 0x01) _ none
      (λ e. block-IsSmall config (codes "UWB_USER_FW_BOOT_MODE_CONFIG")) λ e. tt

-- The loop over the antennas ends.
abbrev pub AntennaEnds : ℕ → Bytes → Option Bytes → Type 0
AntennaEnds fuel behind none = Unit
AntennaEnds fuel behind (some p) =
    (a : Antenna) → (a' : Antenna) × (parse_antenna_config fuel behind p a ≡ some a')

send_device_block-Sends :
    (fuel : ℕ) (behind : Bytes) (dev : Device) (o : Option Bytes) (s : Session)
    → IsSmall o
    → AntennaEnds fuel behind o
    → Sends dev s (present o) [] (send_device_block fuel behind dev o s)
unfolding IsSmall
send_device_block-Sends fuel behind dev none s l h = nothing-Sends dev s
send_device_block-Sends fuel behind dev (some p) s l h =
    let (a, e) = h s.antenna in
    let s' : Session = record { sent = s.sent ++ p ∷ []; antenna = a } in
    let status : ℕ = dev (s.sent ++ p ∷ []) in
    sent-one dev s s' p _ refl (
      ap
        (λ (t : Sent).
          and_then (parse_antenna_config fuel behind p s.antenna)
            λ a. some (t.0, record { sent = t.1; antenna = a }))
        (send_ext_cmd-small dev p s.sent l)
      ∙ ap (λ o. and_then o λ a. some (status, record { sent = s.sent ++ p ∷ []; antenna = a })) e)

-- The configured blocks among the named ones.
abbrev pub named_blocks : Cascade → List Bytes → List Bytes
named_blocks config [] = []
named_blocks config (name ∷ names) = present (block config name) ++ named_blocks config names

send_core_blocks-Sends :
    (dev : Device) (config : Cascade) (names : List Bytes) (s : Session)
    → Sends dev s (named_blocks config names) [] (send_core_blocks dev config names s)
unfolding send_core_blocks
send_core_blocks-Sends dev config [] s = nothing-Sends dev s
send_core_blocks-Sends dev config (name ∷ names) s =
    then_ok-Sends dev s (present (block config name)) (named_blocks config names) [] _ _
      (send_block-Sends dev (block config name) s (block-IsSmall config name))
      λ s'. send_core_blocks-Sends dev config names s'

low_power-IsSmall : (o : Option ℕ) → IsSmall (low_power_cmd o)
unfolding IsSmall
low_power-IsSmall none = tt
low_power-IsSmall (some v) = omega arith

low_power-Sends :
    (dev : Device) (s : Session) (o : Option Bytes)
    → IsSmall o
    → Sends dev s [] (present o) (and_then (send_block dev o s) λ (_, s'). some (success, s'))
unfolding Sends IsAllSent IsSmall Answered
low_power-Sends dev s none l = (success, s, refl, inl (refl, sym (append-nil s.sent), tt))
low_power-Sends dev s (some p) l = (
  success,
  record s { sent = s.sent ++ p ∷ [] },
  ap (λ (t : Sent). some (success, record s { sent = t.1 })) (send_ext_cmd-small dev p s.sent l),
  inl (refl, refl, tt),
)

finish_low_power-Sends :
    (dev : Device) (config : Cascade) (s : Session)
    → Sends dev s [] (present (low_power_block config)) (finish_low_power dev config s)
unfolding finish_low_power
finish_low_power-Sends dev config s =
    low_power-Sends dev s (low_power_block config) (low_power-IsSmall _)

-- The configured blocks, in the order in which they are sent.
abbrev pub vendor_blocks : Cascade → ℕ → ℕ → List Bytes
vendor_blocks config boot_mode device_type =
    present (user_fw_block config boot_mode)
    ++ (present (block config (codes "NXP_UWB_EXTENDED_NTF_CONFIG"))
        ++ (present (device_block config device_type)
            ++ (present (block config (codes "NXP_UWB_XTAL_38MHZ_CONFIG"))
                ++ (named_blocks config core_names ++ []))))

-- phNxpUciHal_applyVendorConfig returns if the loop over the antennas of the device's block does. Its
-- blocks are, in this order: for the user firmware's boot mode that of this mode, that of the extended
-- notifications, that of the type of the device, that of the crystal, and the ten core blocks; those
-- that are not configured, are empty or have more than 260 bytes are left out. If it returns success,
-- then all these blocks have been sent, each answered with success, and the low power mode behind them
-- if it is configured; if it returns another status, then this is the answer to the first block that
-- failed, which is the last command that has been sent.
pub apply_vendor_config-Sends :
    (fuel : ℕ) (behind : Bytes) (dev : Device) (config : Cascade) (boot_mode device_type : ℕ)
    (s : Session)
    → AntennaEnds fuel behind (device_block config device_type)
    → let bs = vendor_blocks config boot_mode device_type in
      (status : ℕ) × (s' : Session) × (apply_vendor_config fuel behind dev config boot_mode
          device_type s
        ≡ some (status, s'))
      × (IsAllSent dev s.sent bs (present (low_power_block config)) status s'.sent
          ⊎ IsStopped dev s.sent bs status s'.sent)
unfolding apply_vendor_config Sends
apply_vendor_config-Sends fuel behind dev config boot_mode device_type s h =
    let ntf : Option Bytes = block config (codes "NXP_UWB_EXTENDED_NTF_CONFIG") in
    let xtal : Option Bytes = block config (codes "NXP_UWB_XTAL_38MHZ_CONFIG") in
    let low : List Bytes = present (low_power_block config) in
    then_ok-Sends dev s (present (user_fw_block config boot_mode)) _ low _ _
      (send_block-Sends dev (user_fw_block config boot_mode) s
        (user_fw_block-IsSmall config boot_mode))
      λ s₁.
        then_ok-Sends dev s₁ (present ntf) _ low _ _
          (send_block-Sends dev ntf s₁ (block-IsSmall config (codes "NXP_UWB_EXTENDED_NTF_CONFIG")))
          λ s₂.
            then_ok-Sends dev s₂ (present (device_block config device_type)) _ low _ _
              (send_device_block-Sends fuel behind dev (device_block config device_type) s₂
                (device_block-IsSmall config device_type) h)
              λ s₃.
                then_ok-Sends dev s₃ (present xtal) _ low _ _
                  (send_block-Sends dev xtal s₃
                    (block-IsSmall config (codes "NXP_UWB_XTAL_38MHZ_CONFIG")))
                  λ s₄.
                    then_ok-Sends dev s₄ (named_blocks config core_names) [] low _ _
                      (send_core_blocks-Sends dev config core_names s₄)
                      λ s₅. finish_low_power-Sends dev config s₅
