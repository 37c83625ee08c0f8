-- ===== src/Fwd/Info/FwdMode.antt =====
-- The download mode of the driver, which the queries leave on.
use device_xiaomi_odin.Prelude.{
  ℕ, ◌≡◌, refl, ◌∙◌, Bool, true, false, Option, none, some, List, [], ◌∷◌, ◌++◌, ◌==◌, if-both,
  Bytes,
}
use device_xiaomi_odin.Fwd.Apdu.{
  Call, wrote, refused, asked, set_fwd, Chip, Link, Run, ok, stop, out_of_fuel, ◌>>=◌, hbci_failure,
  len_hdr, put_apdu, put_header, header, is_refused,
}
use device_xiaomi_odin.Fwd.Info.{
  local_received, get_local, get_local_info, local_len, get_device_lc_info, get_chip_id_info,
}

-- The download mode of the driver behind some calls.
abbrev pub mode_after : Bool → List Call → Bool
mode_after m [] = m
mode_after m (wrote p ∷ l) = mode_after m l
mode_after m (refused p ∷ l) = mode_after m l
mode_after m (asked n ∷ l) = mode_after m l
mode_after m (set_fwd b ∷ l) = mode_after b l

pub mode_after-append :
    (m : Bool) (l k : List Call) → mode_after m (l ++ k) ≡ mode_after (mode_after m l) k
mode_after-append m [] k = refl
mode_after-append m (wrote p ∷ l) k = mode_after-append m l k
mode_after-append m (refused p ∷ l) k = mode_after-append m l k
mode_after-append m (asked n ∷ l) k = mode_after-append m l k
mode_after-append m (set_fwd b ∷ l) k = mode_after-append b l k

abbrev pub is_fwd_on : Link → Bool
is_fwd_on s = mode_after false s.log

-- The download mode is on behind the call, which can only fail with phHbci_Failure.
unfoldable pub Stays : Run → Type 0
Stays (ok s) = is_fwd_on s ≡ true
Stays (stop n s) = (n ≡ hbci_failure) × (is_fwd_on s ≡ true)
Stays out_of_fuel = ⊥

pub bind-Stays :
    (r : Run) (f : Link → Run)
    → Stays r
    → ((s : Link) → is_fwd_on s ≡ true → Stays (f s))
    → Stays (r >>= f)
unfolding Stays
bind-Stays (ok s) f h k = k s h
bind-Stays (stop n s) f h k = h
bind-Stays out_of_fuel f h k = h

put_header-Stays : (chip : Chip) (s : Link) → is_fwd_on s ≡ true → Stays (put_header chip s)
unfolding put_header put_apdu Stays
put_header-Stays chip s e =
    if-both Stays (chip.accepts s.log (header s)) _ _
      (λ a. mode_after-append false s.log (wrote (header s) ∷ []) ∙ e)
      λ a. (refl, mode_after-append false s.log (refused (header s) ∷ []) ∙ e)

local_received-Stays :
    (o : Option Bytes) (sz : ℕ) (s : Link) → is_fwd_on s ≡ true → Stays (local_received o sz s)
unfolding local_received Stays
local_received-Stays none sz s e = (refl, e)
local_received-Stays (some p) sz s e = e

get_local-Stays :
    (chip : Chip) (sz : ℕ) (s : Link) → is_fwd_on s ≡ true → Stays (get_local chip sz s)
unfolding get_local Stays
get_local-Stays chip sz s e =
    let s' : Link = record s { log = s.log ++ asked sz ∷ [] } in
    if-both Stays (is_refused sz) (stop hbci_failure s)
      (local_received (chip.answers s.log sz) sz s') (λ a. (refl, e))
      λ a.
        local_received-Stays (chip.answers s.log sz) sz s'
          (mode_after-append false s.log (asked sz ∷ []) ∙ e)

get_local_info-Stays :
    (ins : ℕ) (chip : Chip) (s : Link) → is_fwd_on s ≡ true → Stays (get_local_info ins chip s)
unfolding get_local_info Stays
get_local_info-Stays ins chip s e =
    let s₀ : Link = record s { mosi_cls = 0x01; mosi_ins = ins; mosi_len = 0 } in
    bind-Stays (put_header chip s₀) _ (put_header-Stays chip s₀ e) λ s₁ e₁.
      bind-Stays (get_local chip len_hdr s₁) _ (get_local-Stays chip len_hdr s₁ e₁) λ s₂ e₂.
        let s₂' : Link = record s₂ { mosi_cls = 0x04; mosi_ins = 0x01; mosi_len = 0 } in
        if-both Stays (local_len s₂ == 0) (stop hbci_failure s₂)
          (put_header chip s₂' >>= λ s₃. get_local chip (local_len s₂) s₃) (λ z. (refl, e₂))
          λ z.
            bind-Stays (put_header chip s₂') (λ s₃. get_local chip (local_len s₂) s₃)
              (put_header-Stays chip s₂' e₂) λ s₃ e₃. get_local-Stays chip (local_len s₂) s₃ e₃

pub get_device_lc_info-Stays :
    (chip : Chip) (s : Link) → is_fwd_on s ≡ true → Stays (get_device_lc_info chip s)
unfolding get_device_lc_info Stays
get_device_lc_info-Stays chip s e =
    bind-Stays (get_local_info 0x36 chip s) _ (get_local_info-Stays 0x36 chip s e) λ s' e'. e'

pub get_chip_id_info-Stays :
    (chip : Chip) (s : Link) → is_fwd_on s ≡ true → Stays (get_chip_id_info chip s)
unfolding get_chip_id_info Stays
get_chip_id_info-Stays chip s e =
    bind-Stays (get_local_info 0x31 chip s) _ (get_local_info-Stays 0x31 chip s e) λ s' e'. e'
