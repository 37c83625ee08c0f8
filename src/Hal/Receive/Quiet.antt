-- ===== src/Hal/Receive/Quiet.antt =====
-- The calls that phNxpUciHal_parse and phNxpUciHal_process_response make.
use device_xiaomi_odin.Prelude.{
  ℕ, zero, suc, ◌+◌, ◌≤◌, ◌≡◌, refl, ◌∙◌, inl, inr, Bool, true, false, not, ◌&&◌, ◌||◌, Option,
  none, some, List, [], ◌∷◌, ◌++◌, map, arith, ltb, ◌==◌, if◌then◌else◌, Bytes, length, Bool-cases,
  if-both,
}
use device_xiaomi_odin.Status.{success, failed}
use device_xiaomi_odin.Uci.Packet.{byte, message_type, gid, oid, mt_cmd, mt_rsp}
use device_xiaomi_odin.Uci.Tlv.{get_input_map}
use device_xiaomi_odin.Uci.Parse.{Caps, Parsed, parse, parse_caps}
use device_xiaomi_odin.Hal.Receive.{own_response, response_status}
use device_xiaomi_odin.Hal.Receive.Response.{
  crash_ntf, handle_thermal_error_status, clear_thermal_error_status, thermal_error, hw_reset,
  remember_device_info, is_awaited, take_calib_data, read_calib_data, is_optional_ext_param,
  process_response, ext_rsp_params, process_ext_rsp,
}
use device_xiaomi_odin.Hal.Receive.Calls.{
  total-append, is_delivery, is_read, delivered, reads, room, IsQuiet, Keeps, Keeps-refl, room-true,
  adds, skips,
}
use device_xiaomi_odin.Hal.Receive.State.{
  calib_data_ntf, Header, Event, deliver, post, start_recovery_timer, stop_recovery_timer,
  signal_recovery, Environment, DeviceInfo, Cookie, of_action, Work,
}

abbrev pub IsQuietParsed : Parsed → Type 0
IsQuietParsed r = delivered (map of_action r.actions) ≤ room r.caps.is_skip_packet

pub not-true : (a b c : Bool) → (not a && b && c) ≡ true → a ≡ false
not-true true b c e = ground arith
not-true false b c e = refl

parse_caps-IsQuietParsed :
    (p : Bytes) (s : Caps) → s.is_skip_packet ≡ false → IsQuietParsed (parse_caps p s)
unfolding parse_caps
parse_caps-IsQuietParsed p s h =
    let quiet : 0 ≤ room s.is_skip_packet = omega arith in
    if-both IsQuietParsed (not s.map_created) _ _ (λ e. quiet)
      λ e.
        if-both IsQuietParsed (not (byte p 4 == 0)) _ _ (λ e. quiet)
          λ e.
            if-both IsQuietParsed (not (get_input_map p 6 s.input_map).0) _ _ (λ e. quiet)
              λ e. omega arith

-- What phNxpUciHal_parse does to a packet that is no command.
pub parse-Quiet :
    (fuel : ℕ) (p : Bytes) (s : Caps)
    → (message_type p == mt_cmd) ≡ false
    → s.is_skip_packet ≡ false
    → (r : Parsed) × (parse fuel p s ≡ some r) × IsQuietParsed r
unfolding parse
parse-Quiet fuel p s c h =
    let nothing : Parsed = record { skip = false; caps = s; actions = [] } in
    let quiet : IsQuietParsed nothing = omega arith in
    elim (Bool-cases (message_type p == mt_rsp)) [
      | inr e ↦ rw (c, e) (nothing, refl, quiet)
      | inl e ↦ elim (Bool-cases (gid p == 0x00 && oid p == 0x03)) [
        | inr k ↦ rw (c, e) (rw k (nothing, refl, quiet))
        | inl k ↦ rw (c, e) (rw k (parse_caps p s, refl, parse_caps-IsQuietParsed p s h))
      ]
    ]

-- Only a report of the capabilities makes phNxpUciHal_parse call the stack then.
pub parse-nothing :
    (fuel : ℕ) (p : Bytes) (s : Caps)
    → (message_type p == mt_cmd) ≡ false
    → (gid p == 0x00 && oid p == 0x03) ≡ false
    → parse fuel p s ≡ some (record { skip = false; caps = s; actions = [] })
unfolding parse
parse-nothing fuel p s c o = elim (Bool-cases (message_type p == mt_rsp)) [
  | inr e ↦ rw (c, e) refl
  | inl e ↦ rw (c, e) (rw o refl)
]

clear_thermal_error_status-Keeps : (w : Work) → Keeps w (clear_thermal_error_status w)
unfolding clear_thermal_error_status
clear_thermal_error_status-Keeps w =
    if-both (Keeps w) w.control.recovery_timer_started _ _
      (λ e. skips w (signal_recovery ∷ stop_recovery_timer ∷ []) refl refl)
      λ e. skips w (signal_recovery ∷ []) refl refl

hw_reset-Keeps : (h : Header) (w : Work) → Keeps w (hw_reset h w)
unfolding hw_reset
hw_reset-Keeps h w =
    if-both (Keeps w) (h.gid == 0x00 && h.oid == 0x01 && byte w.packet 4 == 0xFE) _ _
      (λ e. clear_thermal_error_status-Keeps w) λ e. Keeps-refl w

take_calib_data-Keeps :
    (h : Header) (k : Option Cookie) (w : Work) → Keeps w (take_calib_data h k w)
unfolding take_calib_data
take_calib_data-Keeps h none w = Keeps-refl w
take_calib_data-Keeps h (some k) w =
    if-both (Keeps w) (is_awaited h w.packet k) _ _
      (λ e. adds w (post calib_data_ntf ∷ []) refl refl) λ e. Keeps-refl w

read_calib_data-Keeps : (h : Header) (w : Work) → Keeps w (read_calib_data h w)
unfolding read_calib_data
read_calib_data-Keeps h w = take_calib_data-Keeps h w.control.cookie w

-- A thermal error calls the stack once, and skips the packet.
unfoldable pub Calms : Work → Work → Type 0
Calms w w' =
    IsQuiet w' × (reads w'.events ≡ reads w.events) × (w'.control.is_open ≡ w.control.is_open)

Keeps→Calms : (w w' : Work) → IsQuiet w → Keeps w w' → Calms w w'
unfolding Calms
Keeps→Calms w w' q (d, r, s, o) = (omega arith, r, o)

pub delivers-once :
    (w : Work) (es : List Event)
    → delivered w.events ≡ 0
    → (delivered es ≡ 1) × (reads es ≡ 0)
    → (delivered (w.events ++ es) ≤ 1)
      × (reads (w.events ++ es) ≡ reads w.events)
      × (w.control.is_open ≡ w.control.is_open)
delivers-once w es z (d, r) = (
  omega (arith, total-append is_delivery w.events es),
  omega (arith, total-append is_read w.events es),
  refl,
)

thermal_error-Calms :
    (env : Environment) (h : Header) (w : Work)
    → IsQuiet w
    → ((h.oid == 0x07) ≡ true → delivered w.events ≡ 0)
    → Calms w (thermal_error env h w)
unfolding thermal_error handle_thermal_error_status Calms
thermal_error-Calms env h w q z =
    if-both (Calms w)
      (h.gid == 0x00 && h.oid == 0x07 && (byte w.packet 4 == 0x54 || byte w.packet 4 == 0x59)) _ _
      (λ e.
        let none_yet : delivered w.events ≡ 0 = z (ground arith) in
        if-both (Calms w) (env.timer_start == success) _ _
          (λ e.
            delivers-once w (deliver crash_ntf ∷ start_recovery_timer ∷ []) none_yet (refl, refl))
          λ e.
            delivers-once w (deliver crash_ntf ∷ start_recovery_timer ∷ signal_recovery ∷ [])
              none_yet (refl, refl))
      λ e. Keeps→Calms w w q (Keeps-refl w)

-- phNxpUciHal_process_response, if the device information can be read.
pub process_response-Calms :
    (env : Environment) (h : Header) (w : Work) (d : DeviceInfo)
    → IsQuiet w
    → ((h.oid == 0x07) ≡ true → delivered w.events ≡ 0)
    → let w₁ = hw_reset h (thermal_error env h w) in
      remember_device_info env.fuel h w₁.packet w₁.control.device_info ≡ some d
      → (w' : Work) × (process_response env h w ≡ some w') × Calms w w'
unfolding process_response Calms
process_response-Calms env h w d q z r =
    let w₁ : Work = thermal_error env h w in
    let w₂ : Work = hw_reset h w₁ in
    let w₃ : Work = record w₂ { control = record (w₂.control) { device_info = d } } in
    let (q₁, reads₁, open₁) = thermal_error-Calms env h w q z in
    let (d₂, reads₂, s₂, open₂) = hw_reset-Keeps h w₁ in
    let (d₃, reads₃, s₃, open₃) = read_calib_data-Keeps h w₃ in
    (
      read_calib_data h w₃,
      rw (process_response, r) refl,
      (omega arith, reads₃ ∙ (reads₂ ∙ reads₁), open₃ ∙ (open₂ ∙ open₁)),
    )

-- phNxpUciHal_process_ext_rsp ends.
ext_rsp_params-some :
    (n i : ℕ) (p : Bytes) (s : ℕ) → length p ≤ n + i → (s' : ℕ) × (ext_rsp_params n i p s ≡ some s')
unfolding ext_rsp_params
ext_rsp_params-some zero i p s l =
    let over : ltb i (length p) ≡ false = ground arith in (s, rw over refl)
ext_rsp_params-some (suc n) i p s l =
    let Ends : Option ℕ → Type 0 = λ r. (s' : ℕ) × (r ≡ some s') in
    let ext_id : ℕ = byte p (i + 1) in
    let optional : Bool = is_optional_ext_param ext_id in
    if-both Ends (not (ltb i (length p))) _ _ (λ e. (s, refl))
      λ e.
        if-both Ends (byte p i == 0xE4) _ _
          (λ e.
            if-both Ends (optional && not (byte p (i + 2) == 0x55)) (some failed) _
              (λ e. (failed, refl))
              λ e. ext_rsp_params-some n (i + 3) p (if optional then success else s) (omega arith))
          λ e.
            if-both Ends (byte p i == 0x01 && not (byte p (i + 1) == 0x55)) (some failed) _
              (λ e. (failed, refl))
              λ e.
                ext_rsp_params-some n (i + 2) p (if byte p i == 0x01 then success else s)
                  (omega arith)

response_status-some : (h : Header) (p : Bytes) → (s : ℕ) × (response_status h p ≡ some s)
unfolding response_status process_ext_rsp
response_status-some h p =
    let Ends : Option ℕ → Type 0 = λ r. (s : ℕ) × (r ≡ some s) in
    let code : ℕ = if ltb 4 (length p) then byte p 4 else 0x0B in
    if-both Ends (code == 0x00) _ _ (λ e. (success, refl))
      λ e.
        if-both Ends (h.gid == 0x00 && h.oid == 0x04) _ _
          (λ e.
            if-both Ends (byte p 4 == 0x00) _ _ (λ e. (success, refl))
              λ e. ext_rsp_params-some (length p) 6 p (byte p 4) (omega arith))
          λ e. (failed, refl)

pub own_response-Keeps :
    (h : Header) (w : Work) → (w' : Work) × (own_response h w ≡ some w') × Keeps w w'
unfolding own_response
own_response-Keeps h w =
    let (s, e) = response_status-some h w.packet in
    let w' : Work = record w { control = record (w.control) { ext_status = s }; skip = true } in
    if-both (λ r. (w' : Work) × (r ≡ some w') × Keeps w w')
      (not w.skip && h.mt == mt_rsp && w.control.ext_enabled) _ _
      (λ c. (w', rw e refl, (refl, refl, room-true w.skip, refl))) λ c. (w, refl, Keeps-refl w)
