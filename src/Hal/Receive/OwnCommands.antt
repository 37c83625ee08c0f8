-- ===== src/Hal/Receive/OwnCommands.antt =====
-- The responses to the commands that the HAL sends on its own account.
use mathlib.Core.List.{append-nil}
use mathlib.Core.Bool.{true≢false}
use device_xiaomi_odin.Prelude.{
  ℕ, ◌≡◌, refl, ap, ap₂, sym, ◌∙◌, inl, inr, Bool, true, false, not, ◌&&◌, ◌||◌, Option, none, some,
  List, [], ◌∷◌, ◌++◌, and_then, ◌==◌, if◌then◌else◌, Bytes, Bool-cases, if-both, arith,
}
use device_xiaomi_odin.Status.{success}
use device_xiaomi_odin.Uci.Packet.{mt_rsp, mt_ntf}
use device_xiaomi_odin.Hal.Receive.{
  parsed, parse_step, drop_debug, retransmission, response_status, own_response, wake, forward,
  leave_download, next_read, dispatch, receive, caps_step, begin, read_complete,
}
use device_xiaomi_odin.Hal.Receive.Startup.{
  device_status, binding_status_of, ese_binding, binding_check, startup,
}
use device_xiaomi_odin.Hal.Receive.Response.{
  thermal_error, hw_reset, remember_device_info, take_calib_data, read_calib_data, process_response,
}
use device_xiaomi_odin.Hal.Receive.Quiet.{parse-nothing}
use device_xiaomi_odin.Hal.Receive.State.{
  Header, header, DeviceInfo, Cookie, Control, Environment, ext_cb, Event, post, read_again, Work,
}

-- A response that is neither a status of the device, nor a generic error, nor a report of the
-- capabilities, nor a binding status.
abbrev pub is_plain_response : Header → Bool
is_plain_response h =
    h.mt == mt_rsp
    && not (h.gid == 0x00 && (h.oid == 0x01 || h.oid == 0x03 || h.oid == 0x07))
    && not (h.gid == 0x0E && h.oid == 0x06)

-- The tests that it does not meet.
Untouched : Header → Type 0
Untouched h =
    ((h.mt == mt_ntf) ≡ false)
    × ((h.gid == 0x00 && h.oid == 0x01) ≡ false)
    × ((h.gid == 0x00 && h.oid == 0x03) ≡ false)
    × ((h.gid == 0x00 && h.oid == 0x07) ≡ false)
    × ((h.gid == 0x0E && h.oid == 0x06) ≡ false)

Untouched-response : (h : Header) → is_plain_response h ≡ true → Untouched h
unfolding Untouched
Untouched-response h e = (ground arith, ground arith, ground arith, ground arith, ground arith)

take_calib_data-other :
    (h : Header) (k : Option Cookie) (w : Work)
    → (h.mt == mt_ntf) ≡ false
    → take_calib_data h k w ≡ w
unfolding take_calib_data
take_calib_data-other h none w e = refl
take_calib_data-other h (some k) w e = rw e refl

process_response-plain :
    (env : Environment) (h : Header) (w : Work) (d : DeviceInfo)
    → Untouched h
    → remember_device_info env.fuel h w.packet w.control.device_info ≡ some d
    → process_response env h w
      ≡ some (record w { control = record (w.control) { device_info = d } })
unfolding process_response thermal_error hw_reset read_calib_data Untouched
process_response-plain env h w d (n, s, c, t, b) e =
    rw (process_response, thermal_error, hw_reset, t, s)
      (rw e (ap some (take_calib_data-other h w.control.cookie _ n)))

startup-plain : (h : Header) (w : Work) → Untouched h → startup h w ≡ w
unfolding startup device_status binding_status_of ese_binding binding_check Untouched
startup-plain h w (n, s, c, t, b) = elim (Bool-cases w.control.device_initialized) [
  | inl e ↦ rw e refl
  | inr e ↦ rw e (rw (s, b, n) refl)
]

drop_debug-plain : (h : Header) (w : Work) → (h.mt == mt_ntf) ≡ false → drop_debug h w ≡ w
unfolding drop_debug
drop_debug-plain h w e = elim (Bool-cases w.skip) [ inl k ↦ rw k refl | inr k ↦ rw k (rw e refl) ]

retransmission-plain : (h : Header) (w : Work) → (h.mt == mt_ntf) ≡ false → retransmission h w ≡ w
unfolding retransmission
retransmission-plain h w e = elim (Bool-cases w.skip) [
  | inl k ↦ rw k refl
  | inr k ↦ elim (Bool-cases h.pbf) [ inl b ↦ rw k (rw b refl) | inr b ↦ rw k (rw b (rw e refl)) ]
]

-- The packet is taken, and the status is kept.
taken : Work → ℕ → Work
taken w s = record w { control = record (w.control) { ext_status = s }; skip = true; wakeup = true }

if-true {ℓ} : {A : Type ℓ} (b : Bool) (x y : A) → b ≡ true → (if b then x else y) ≡ x
if-true true x y e = refl
if-true false x y e = absurd (true≢false (sym e))

own_response-taken :
    (h : Header) (w : Work) (s : ℕ)
    → (h.mt == mt_rsp) ≡ true
    → w.skip ≡ false
    → w.control.ext_enabled ≡ true
    → response_status h w.packet ≡ some s
    → own_response h (record w { wakeup = true }) ≡ some (taken w s)
unfolding own_response taken
own_response-taken h w s m k x e =
    let test : (not w.skip && h.mt == mt_rsp && w.control.ext_enabled) ≡ true = ground arith in
    if-true (not w.skip && h.mt == mt_rsp && w.control.ext_enabled) _
      (some (record w { wakeup = true })) test
    ∙ rw e refl

forward-skipped : (w : Work) → w.skip ≡ true → forward w ≡ w
unfolding forward
forward-skipped w e = rw e refl

wake-skip : (w : Work) → (wake w).skip ≡ w.skip
unfolding wake
wake-skip w =
    if-both (λ (w' : Work). w'.skip ≡ w.skip) (w.wakeup && w.control.ext_waiting) _ _ (λ e. refl)
      λ e. refl

dispatch-own :
    (h : Header) (w : Work) (s : ℕ)
    → Untouched h
    → (h.mt == mt_rsp) ≡ true
    → w.skip ≡ false
    → w.control.ext_enabled ≡ true
    → response_status h w.packet ≡ some s
    → dispatch h w ≡ some (wake (taken w s))
unfolding dispatch Untouched taken
dispatch-own h w s u m k x e =
    let w₁ : Work = record w { wakeup = true } in
    let begun : record (startup h w) { wakeup = h.mt == mt_rsp } ≡ w₁ =
      ap₂ (λ (v : Work) (b : Bool). record v { wakeup = b }) (startup-plain h w u) m in
    let same =
      ap (λ v. retransmission h (drop_debug h v)) begun
      ∙ (ap (retransmission h) (drop_debug-plain h w₁ u.0) ∙ retransmission-plain h w₁ u.0) in
    ap (λ v. and_then (own_response h v) λ w'. some (forward (wake w'))) same
    ∙ (ap (λ r. and_then r λ w'. some (forward (wake w'))) (own_response-taken h w s m k x e)
        ∙ ap some (forward-skipped (wake (taken w s)) (wake-skip (taken w s))))

-- Calls that are made under a condition.
if-events :
    (b : Bool) (w : Work) (es : List Event)
    → (if b then record w { events = w.events ++ es } else w)
      ≡ record w { events = w.events ++ (if b then es else []) }
if-events true w es = refl
if-events false w es = ap (λ (l : List Event). record w { events = l }) (sym (append-nil w.events))

next_read-plain :
    (h : Header) (w : Work)
    → (h.gid == 0x00 && h.oid == 0x01) ≡ false
    → next_read (leave_download h w)
      ≡ record w { events = w.events ++ (if w.control.is_open then read_again ∷ [] else []) }
unfolding next_read leave_download
next_read-plain h w e =
    let kept : (w.control.fw_dwnld_mode && h.gid == 0x00 && h.oid == 0x01) ≡ false = ground arith in
    rw kept (if-events w.control.is_open w (read_again ∷ []))

wake-plain :
    (w : Work)
    → w.wakeup ≡ true
    → wake w
      ≡ record w { events = w.events ++ (if w.control.ext_waiting then post ext_cb ∷ [] else []) }
unfolding wake
wake-plain w e =
    ap
      (λ b.
        if b && w.control.ext_waiting
        then record w { events = w.events ++ post ext_cb ∷ [] }
        else w)
      e
    ∙ if-events w.control.ext_waiting w (post ext_cb ∷ [])

-- The work behind a response to a command of the HAL.
abbrev pub own_result : Bytes → Control → DeviceInfo → ℕ → Work
own_result p c d s = record {
  control = record c {
    caps = record (c.caps) { is_skip_packet = false };
    device_info = d;
    ext_status = s;
  };
  packet = p;
  skip = true;
  wakeup = true;
  events =
      (if c.ext_waiting then post ext_cb ∷ [] else [])
      ++ (if c.is_open then read_again ∷ [] else []);
}

parse_step-plain :
    (env : Environment) (p : Bytes) (c : Control)
    → is_plain_response (header p) ≡ true
    → parse_step env (begin p c)
      ≡ some (begin p (record c { caps = record (c.caps) { is_skip_packet = false } }))
unfolding parse_step parsed header
parse_step-plain env p c e =
    rw
      (parse-nothing env.fuel p (record (c.caps) { is_skip_packet = false }) (ground arith)
        (ground arith))
      refl

-- A plain response that comes while a command of the HAL is under way never reaches the stack, if it
-- holds a status and, where it is the device information, the loop over its entries ends: its status
-- is kept for the command, which is woken up if it waits, the device information is kept, and nothing
-- else changes; the next read is asked for unless the HAL is closed.
pub read_complete-own :
    (env : Environment) (p : Bytes) (c : Control) (d : DeviceInfo) (s : ℕ)
    → is_plain_response (header p) ≡ true
    → c.ext_enabled ≡ true
    → remember_device_info env.fuel (header p) p c.device_info ≡ some d
    → response_status (header p) p ≡ some s
    → read_complete env success p c ≡ some (own_result p c d s)
unfolding read_complete caps_step receive Untouched taken
read_complete-own env p c d s e x info status =
    let h : Header = header p in
    let u : Untouched h = Untouched-response h e in
    let (n, not_status, not_caps, not_error, not_binding) = u in
    let c₁ : Control = record c { caps = record (c.caps) { is_skip_packet = false } } in
    let w₂ : Work = begin p (record c₁ { device_info = d }) in
    let handled : process_response env h (begin p c₁) ≡ some w₂ =
      process_response-plain env h (begin p c₁) d u info in
    let sent : dispatch h w₂ ≡ some (wake (taken w₂ s)) =
      dispatch-own h w₂ s u (ground arith) refl x status in
    let received : receive env h (begin p c) ≡ some (wake (taken w₂ s)) =
      rw (receive, parse_step-plain env p c e) (rw handled sent) in
    let ended : next_read (leave_download h (wake (taken w₂ s))) ≡ own_result p c d s =
      ap (λ w. next_read (leave_download h w)) (wake-plain (taken w₂ s) refl)
      ∙ next_read-plain h _ not_status in
    rw (read_complete, not_caps) (rw received (ap some ended))
