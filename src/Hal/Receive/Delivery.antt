-- ===== src/Hal/Receive/Delivery.antt =====
-- How often the stack is called for one packet, and that the next one is read.
use mathlib.Core.Bool.{true≢false}
use device_xiaomi_odin.Prelude.{
  ◌≤◌, ◌≡◌, refl, ap, sym, subst, ◌∙◌, inl, inr, Bool, true, false, ◌&&◌, some, List, [], ◌∷◌, map,
  arith, ◌==◌, if◌then◌else◌, Bytes, and_then, Bool-cases, if-both,
}
use device_xiaomi_odin.Status.{success}
use device_xiaomi_odin.Uci.Packet.{message_type, gid, oid, mt_cmd}
use device_xiaomi_odin.Uci.Parse.{Caps, Parsed, to_stack, parse}
use device_xiaomi_odin.Hal.Receive.{
  leave_download, next_read, receive, caps_step, begin, read_complete, parse_step, parsed,
}
use device_xiaomi_odin.Hal.Receive.Response.{thermal_error, hw_reset, remember_device_info}
use device_xiaomi_odin.Hal.Receive.Calls.{
  total-append, is_delivery, is_read, delivered, reads, room, IsQuiet, Keeps, Keeps-refl,
}
use device_xiaomi_odin.Hal.Receive.Quiet.{IsQuietParsed, parse-Quiet, parse-nothing}
use device_xiaomi_odin.Hal.CapsInfo.{parse_get_caps_info}
use device_xiaomi_odin.Hal.CapsInfo.FirstByte.{parse_get_caps_info-command}
use device_xiaomi_odin.Uci.Parse.{Action, set_country_code, process_calibration}
use device_xiaomi_odin.Hal.Receive.Ends.{Ends, receive-Ends, untouched, remember-other}
use device_xiaomi_odin.Hal.Receive.State.{
  Header, header, Control, read_again, Environment, DeviceInfo, of_action, Work,
}

leave_download-Keeps : (h : Header) (w : Work) → Keeps w (leave_download h w)
unfolding leave_download
leave_download-Keeps h w =
    if-both (Keeps w) (w.control.fw_dwnld_mode && h.gid == 0x00 && h.oid == 0x01) _ _
      (λ e. (refl, refl, omega arith, refl)) λ e. Keeps-refl w

-- The stack is called once at most, and the next read is asked for unless the HAL is closed.
IsServed : Bool → Work → Type 0
IsServed is_open w = (delivered w.events ≤ 1) × (reads w.events ≡ room is_open)

next_read-IsServed :
    (w : Work)
    → delivered w.events ≤ 1
    → reads w.events ≡ 0
    → IsServed w.control.is_open (next_read w)
unfolding next_read IsServed
next_read-IsServed w d r = elim (Bool-cases w.control.is_open) [
  | inl e ↦ rw e (
    omega (arith, total-append is_delivery w.events (read_again ∷ [])),
    omega (arith, total-append is_read w.events (read_again ∷ [])),
  )
  | inr e ↦ rw e (d, r)
]

-- A packet that phNxpUciHal_parse has read goes on through the rest.
receive-IsServed :
    (env : Environment) (h : Header) (w w₁ : Work) (d : DeviceInfo)
    → parse_step env w ≡ some w₁
    → IsQuiet w₁
    → reads w₁.events ≡ 0
    → ((h.oid == 0x07) ≡ true → delivered w₁.events ≡ 0)
    → let w₂ = hw_reset h (thermal_error env h w₁) in
      remember_device_info env.fuel h w₂.packet w₂.control.device_info ≡ some d
      → (w' : Work) × (and_then (receive env h w) (λ w'. some (next_read (leave_download h w')))
          ≡ some w')
        × IsServed w₁.control.is_open w'
unfolding Ends IsServed
receive-IsServed env h w w₁ d p q n z r =
    let (w₂, e, (d₂, r₂, o₂)) = receive-Ends env h w w₁ d p q z r in
    let w₃ : Work = leave_download h w₂ in
    let (d₃, r₃, s₃, o₃) = leave_download-Keeps h w₂ in
    let served = next_read-IsServed w₃ (omega arith) (omega arith) in
    (next_read w₃, rw e refl, subst (λ b. IsServed b (next_read w₃)) (o₃ ∙ o₂) served)

reads-of_action : (acts : List Action) → reads (map of_action acts) ≡ 0
reads-of_action [] = refl
reads-of_action (set_country_code a b ∷ acts) = omega (arith, reads-of_action acts)
reads-of_action (process_calibration p ∷ acts) = omega (arith, reads-of_action acts)
reads-of_action (to_stack p ∷ acts) = omega (arith, reads-of_action acts)

-- What `receive` starts with, once phNxpUciHal_parse has given a result.
start-IsServed :
    (env : Environment) (h : Header) (p : Bytes) (c : Control) (r : Parsed) (d : DeviceInfo)
    → parse env.fuel p (record (c.caps) { is_skip_packet = false }) ≡ some r
    → IsQuietParsed r
    → ((h.oid == 0x07) ≡ true → r.actions ≡ [])
    → let w₂ = hw_reset h (thermal_error env h (parsed (begin p c) r)) in
      remember_device_info env.fuel h w₂.packet w₂.control.device_info ≡ some d
      → (w' : Work) × (and_then
            (receive env h (begin p c))
            (λ w'. some (next_read (leave_download h w')))
          ≡ some w')
        × IsServed c.is_open w'
unfolding parse_step parsed IsServed
start-IsServed env h p c r d e q z f =
    receive-IsServed env h (begin p c) (parsed (begin p c) r) d (rw e refl) q
      (reads-of_action r.actions) (λ o. ap (λ acts. delivered (map of_action acts)) (z o)) f

-- phNxpUciHal_read_complete, once phNxpUciHal_parse_get_capsInfo has been called or not.
served :
    (env : Environment) (p q : Bytes) (c : Control) (r : Parsed) (d : DeviceInfo)
    → caps_step env (header p) (begin p c) ≡ some (begin q c)
    → parse env.fuel q (record (c.caps) { is_skip_packet = false }) ≡ some r
    → IsQuietParsed r
    → (((header p).oid == 0x07) ≡ true → r.actions ≡ [])
    → let h = header p in
      let w₂ = hw_reset h (thermal_error env h (parsed (begin q c) r)) in
      remember_device_info env.fuel h w₂.packet w₂.control.device_info ≡ some d
      → (w : Work) × (read_complete env success p c ≡ some w)
        × (delivered w.events ≤ 1)
        × (reads w.events ≡ (if c.is_open then 1 else 0))
unfolding read_complete IsServed
served env p q c r d e f quiet z g =
    let (w, done, (most, again)) = start-IsServed env (header p) q c r d f quiet z g in
    (w, rw (read_complete, e) done, most, again)

caps_step-some :
    (env : Environment) (h : Header) (p q : Bytes) (c : Control)
    → (h.gid == 0x00 && h.oid == 0x03) ≡ true
    → parse_get_caps_info env.antenna env.vendor_capability p ≡ some q
    → caps_step env h (begin p c) ≡ some (begin q c)
unfolding caps_step
caps_step-some env h p q c e caps = rw (caps_step, e) (rw caps refl)

caps_step-other :
    (env : Environment) (h : Header) (p : Bytes) (c : Control)
    → (h.gid == 0x00 && h.oid == 0x03) ≡ false
    → caps_step env h (begin p c) ≡ some (begin p c)
unfolding caps_step
caps_step-other env h p c e = rw (caps_step, e) refl

header-caps :
    (p : Bytes)
    → ((header p).gid == 0x00 && (header p).oid == 0x03) ≡ (gid p == 0x00 && oid p == 0x03)
unfolding header
header-caps p = refl

not_thermal : (h : Header) → (h.gid == 0x00 && h.oid == 0x03) ≡ true → (h.oid == 0x07) ≡ false
not_thermal h e = ground arith

not_info : (h : Header) → (h.gid == 0x00 && h.oid == 0x03) ≡ true → (h.oid == 0x02) ≡ false
not_info h e = ground arith

-- A packet that has been read and is no command makes the stack be called once at most, and the next
-- read be asked for exactly once if the HAL is not closed, if the rewriting of the capabilities
-- gives a packet and the loop over a device information ends.
pub read_complete-delivers :
    (env : Environment) (p q : Bytes) (c : Control) (d : DeviceInfo)
    → (message_type p == mt_cmd) ≡ false
    → parse_get_caps_info env.antenna env.vendor_capability p ≡ some q
    → remember_device_info env.fuel (header p) p c.device_info ≡ some d
    → (w : Work) × (read_complete env success p c ≡ some w)
      × (delivered w.events ≤ 1)
      × (reads w.events ≡ (if c.is_open then 1 else 0))
unfolding parsed
read_complete-delivers env p q c d m caps info =
    let h : Header = header p in
    let cleared : Caps = record (c.caps) { is_skip_packet = false } in
    elim (Bool-cases (h.gid == 0x00 && h.oid == 0x03)) [
      | inl e ↦
          let (r, found, quiet) =
            parse-Quiet env.fuel q cleared
              (parse_get_caps_info-command env.antenna env.vendor_capability p q m caps) refl in
          let w₂ : Work = hw_reset h (thermal_error env h (parsed (begin q c) r)) in
          served env p q c r w₂.control.device_info (caps_step-some env h p q c e caps) found quiet
            (λ o. absurd (true≢false (sym o ∙ not_thermal h e)))
            (remember-other env.fuel h w₂.packet w₂.control.device_info (not_info h e))
      | inr e ↦
          let r : Parsed = record { skip = false; caps = cleared; actions = [] } in
          let w₁ : Work = parsed (begin p c) r in
          let w₂ : Work = hw_reset h (thermal_error env h w₁) in
          let found = parse-nothing env.fuel p cleared m (sym (header-caps p) ∙ e) in
          elim (Bool-cases (h.oid == 0x02)) [
            | inl o ↦
                served env p p c r d (caps_step-other env h p c e) found (omega arith) (λ o. refl)
                  (ap (λ w. remember_device_info env.fuel h w.packet w.control.device_info)
                      (untouched env h w₁ o)
                    ∙ info)
            | inr o ↦
                served env p p c r w₂.control.device_info (caps_step-other env h p c e) found
                  (omega arith) (λ o. refl)
                  (remember-other env.fuel h w₂.packet w₂.control.device_info o)
          ]
    ]
