-- ===== src/Hal/Calibration/Delays.antt =====
-- What extcal_do_ant_delay of uwb/halimpl/hal/phNxpUciHal_ext.cc sends to the device.
use mathlib.Core.List.{append_assoc, append-nil}
use device_xiaomi_odin.Prelude.{
  ℕ, ◌+◌, ◌*◌, ◌/◌, ◌%◌, ◌≤◌, ◌<◌, ◌≡◌, refl, sym, ap, ap₂, ◌∙◌, Bool, true, false, Option, none,
  some, List, [], ◌∷◌, ◌++◌, arith, ◌==◌, if◌then◌else◌, Bytes, length, All, if-both,
}
use device_xiaomi_odin.Config.Text.{codes}
use device_xiaomi_odin.Config.Cascade.{Cascade, get_num}
use device_xiaomi_odin.Hal.Session.{Device, Sent, send_ext_cmd}
use device_xiaomi_odin.Hal.Session.Vendor.Sends.{send_ext_cmd-small}
use device_xiaomi_odin.Hal.Calibration.{
  rx_ant_delay, set_calibration, apply_calibration, antenna_key, cal_channels, antennas,
  has_antenna, delay_entry, add_entry, is_table, entries, do_channels, do_ant_delay,
}

-- The antennas of the mask that have a delay for the channel in the configuration, with the delay.
abbrev pub with_delay : ℕ → Option ℕ → List (ℕ × ℕ) → List (ℕ × ℕ)
with_delay ant none ps = ps
with_delay ant (some v) ps = (ant, v) ∷ ps

abbrev pub delays : Cascade → ℕ → ℕ → List ℕ → List (ℕ × ℕ)
delays config mask ch [] = []
delays config mask ch (ant ∷ ants) =
    let rest : List (ℕ × ℕ) = delays config mask ch ants in
    let o : Option ℕ = get_num (antenna_key ant ch (codes "ant_delay")) 2 config in
    if has_antenna mask ant then with_delay ant o rest else rest

abbrev pub delay_bytes : List (ℕ × ℕ) → Bytes
delay_bytes [] = []
delay_bytes ((ant, v) ∷ ps) = ant ∷ v % 256 ∷ v / 256 ∷ delay_bytes ps

-- The command for the delays of a channel, if there are any.
abbrev pub delay_command : ℕ → List (ℕ × ℕ) → List Bytes
delay_command ch [] = []
delay_command ch (p ∷ ps) =
    let n : ℕ = length (p ∷ ps) in
    (0x2F ∷ 0x21 ∷ 0x00 ∷ (3 * n + 4) ∷ ch ∷ 0x02 ∷ (3 * n + 1) ∷ n ∷ delay_bytes (p ∷ ps)) ∷ []

abbrev pub delay_commands : Cascade → ℕ → List ℕ → List Bytes
delay_commands config mask [] = []
delay_commands config mask (ch ∷ chs) =
    delay_command ch (delays config mask ch antennas) ++ delay_commands config mask chs

length-delay_bytes : (ps : List (ℕ × ℕ)) → length (delay_bytes ps) ≡ 3 * length ps
length-delay_bytes [] = refl
length-delay_bytes ((ant, v) ∷ ps) = omega (arith, length-delay_bytes ps)

length-with_delay :
    (ant : ℕ) (o : Option ℕ) (ps : List (ℕ × ℕ)) → length (with_delay ant o ps) ≤ length ps + 1
length-with_delay ant none ps = omega arith
length-with_delay ant (some v) ps = omega arith

length-delays :
    (config : Cascade) (mask ch : ℕ) (ants : List ℕ)
    → length (delays config mask ch ants) ≤ length ants
length-delays config mask ch [] = omega arith
length-delays config mask ch (ant ∷ ants) =
    let o : Option ℕ = get_num (antenna_key ant ch (codes "ant_delay")) 2 config in
    let rest : List (ℕ × ℕ) = delays config mask ch ants in
    let h : length rest ≤ length ants = length-delays config mask ch ants in
    if-both (λ (ps : List (ℕ × ℕ)). length ps ≤ length (ant ∷ ants)) (has_antenna mask ant)
      (with_delay ant o rest) rest (λ e. omega (arith, length-with_delay ant o rest))
      λ e. omega arith

add_entry-delay :
    (ant : ℕ) (o : Option ℕ) (ps : List (ℕ × ℕ))
    → add_entry (delay_entry ant o) (length ps, delay_bytes ps)
      ≡ (length (with_delay ant o ps), delay_bytes (with_delay ant o ps))
add_entry-delay ant none ps = refl
add_entry-delay ant (some v) ps = ap (λ n. (n, delay_bytes ((ant, v) ∷ ps))) (omega arith)

chosen_entry-delay :
    (b : Bool) (ant : ℕ) (o : Option ℕ) (ps : List (ℕ × ℕ))
    → let qs : List (ℕ × ℕ) = if b then with_delay ant o ps else ps in
      let es : ℕ × Bytes = (length ps, delay_bytes ps) in
      (if b then add_entry (delay_entry ant o) es else es) ≡ (length qs, delay_bytes qs)
chosen_entry-delay true ant o ps = add_entry-delay ant o ps
chosen_entry-delay false ant o ps = refl

entries-delays :
    (config : Cascade) (mask ch : ℕ) (ants : List ℕ)
    → entries config rx_ant_delay mask ch ants
      ≡ (length (delays config mask ch ants), delay_bytes (delays config mask ch ants))
unfolding entries
entries-delays config mask ch [] = refl
entries-delays config mask ch (ant ∷ ants) =
    let o : Option ℕ = get_num (antenna_key ant ch (codes "ant_delay")) 2 config in
    let ps : List (ℕ × ℕ) = delays config mask ch ants in
    rw (entries-delays config mask ch ants) (chosen_entry-delay (has_antenna mask ant) ant o ps)

table_holds :
    (ch n : ℕ) (v : Bytes) → 0 < ch → 0 < n → length v ≡ 3 * n → is_table ch 3 (n ∷ v) ≡ true
table_holds ch n v h k e = ground arith

-- The parameters of a channel that are not too long are sent.
set_calibration-small :
    (dev : Device) (ch : ℕ) (tlv : Bytes) (sent : List Bytes)
    → 0 < ch
    → length tlv < 255
    → (set_calibration dev ch tlv sent).1
      ≡ sent ++ (0x2F ∷ 0x21 ∷ 0x00 ∷ (length tlv + 1) ∷ ch ∷ tlv) ∷ []
unfolding set_calibration send_ext_cmd
set_calibration-small dev ch tlv sent h k =
    let p : Bytes = 0x2F ∷ 0x21 ∷ 0x00 ∷ (length tlv + 1) ∷ ch ∷ tlv in
    let channel : (ch == 0) ≡ false = ground arith in
    let len : (length tlv + 1) % 256 ≡ length tlv + 1 = omega arith in
    rw (channel, len) (ap (λ (t : Sent). t.1) (send_ext_cmd-small dev p sent (omega arith)))

apply-delays :
    (dev : Device) (ch : ℕ) (p : ℕ × ℕ) (ps : List (ℕ × ℕ)) (sent : List Bytes)
    → 0 < ch
    → length (p ∷ ps) ≤ 8
    → (apply_calibration dev rx_ant_delay ch (length (p ∷ ps) ∷ delay_bytes (p ∷ ps)) sent).1
      ≡ sent ++ delay_command ch (p ∷ ps)
unfolding apply_calibration
apply-delays dev ch p ps sent h k =
    let n : ℕ = length (p ∷ ps) in
    let v : Bytes = delay_bytes (p ∷ ps) in
    let l : length v ≡ 3 * n = length-delay_bytes (p ∷ ps) in
    rw (table_holds ch n v h (omega arith) l) (
      set_calibration-small dev ch (0x02 ∷ length (n ∷ v) % 256 ∷ n ∷ v) sent h (omega arith)
      ∙ ap₂ (λ x y. sent ++ (0x2F ∷ 0x21 ∷ 0x00 ∷ x ∷ ch ∷ 0x02 ∷ y ∷ n ∷ v) ∷ []) (omega arith)
          (omega arith))

-- What the loop does for a channel.
channel-delays :
    (dev : Device) (ch : ℕ) (ps : List (ℕ × ℕ)) (sent : List Bytes)
    → 0 < ch
    → length ps ≤ 8
    → (if length ps == 0
        then sent
        else (apply_calibration dev rx_ant_delay ch (length ps ∷ delay_bytes ps) sent).1)
      ≡ sent ++ delay_command ch ps
channel-delays dev ch [] sent h k = sym (append-nil sent)
channel-delays dev ch (p ∷ ps) sent h k =
    let some_entry : (length (p ∷ ps) == 0) ≡ false = ground arith in
    rw some_entry (apply-delays dev ch p ps sent h k)

do_channels-delays :
    (dev : Device) (config : Cascade) (mask : ℕ) (chs : List ℕ) (sent : List Bytes)
    → All (λ ch. 0 < ch) chs
    → do_channels dev config rx_ant_delay mask chs sent ≡ sent ++ delay_commands config mask chs
unfolding do_channels
do_channels-delays dev config mask [] sent h = sym (append-nil sent)
do_channels-delays dev config mask (ch ∷ chs) sent h =
    let ps : List (ℕ × ℕ) = delays config mask ch antennas in
    rw
      (
        entries-delays config mask ch antennas,
        channel-delays dev ch ps sent h.0 (length-delays config mask ch antennas),
        do_channels-delays dev config mask chs (sent ++ delay_command ch ps) h.1,
      )
      (append_assoc sent (delay_command ch ps) (delay_commands config mask chs))

-- The delays of the receiving antennas are sent behind what has been sent, in the order of the
-- channels: for each channel with a delay in the configuration for one of the antennas of the mask,
-- one command with exactly these delays, whatever the device answers to the others.
pub do_ant_delay_lem :
    (dev : Device) (config : Cascade) (mask : ℕ) (sent : List Bytes)
    → do_ant_delay dev config mask sent ≡ sent ++ delay_commands config mask cal_channels
unfolding do_ant_delay
do_ant_delay_lem dev config mask sent =
    do_channels-delays dev config mask cal_channels sent
      (omega arith, (omega arith, (omega arith, (omega arith, tt))))
