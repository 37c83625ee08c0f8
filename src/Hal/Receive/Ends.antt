-- ===== src/Hal/Receive/Ends.antt =====
-- The branch of a packet that has been read, behind phNxpUciHal_parse.
use device_xiaomi_odin.Prelude.{
  ℕ, ◌≤◌, ◌≡◌, refl, ap, ◌∙◌, true, false, not, ◌&&◌, ◌||◌, some, [], ◌∷◌, arith, leb, ◌==◌, Bytes,
  length, if-both,
}
use device_xiaomi_odin.Uci.Packet.{byte, mt_rsp}
use device_xiaomi_odin.Hal.Receive.{
  uci_max_payload_len, drop_debug, retransmission, wake, forward, dispatch, receive, parse_step,
}
use device_xiaomi_odin.Hal.Receive.Startup.{startup}
use device_xiaomi_odin.Hal.Receive.Response.{thermal_error, hw_reset, remember_device_info}
use device_xiaomi_odin.Hal.Receive.Calls.{
  delivered, reads, room, IsQuiet, Keeps, Keeps-trans, room-true, startup-Keeps, drop_debug-Keeps,
  retransmission-Keeps, wake-Keeps,
}
use device_xiaomi_odin.Hal.Receive.Quiet.{
  not-true, Calms, delivers-once, process_response-Calms, own_response-Keeps,
}
use device_xiaomi_odin.Hal.Receive.State.{Header, deliver, Environment, DeviceInfo, Work}

-- The end of the branch calls the stack once at most, and not the transport layer.
unfoldable pub Ends : Work → Work → Type 0
Ends w w' =
    (delivered w'.events ≤ 1)
    × (reads w'.events ≡ reads w.events)
    × (w'.control.is_open ≡ w.control.is_open)

forward-Ends : (w : Work) → IsQuiet w → Ends w (forward w)
unfolding forward Ends
forward-Ends w q =
    if-both (Ends w)
      (not w.skip && w.control.has_stack && leb (length w.packet) uci_max_payload_len) _ _
      (λ e.
        let unskipped : room w.skip ≡ 0 = ap room (not-true w.skip w.control.has_stack _ e) in
        delivers-once w (deliver w.packet ∷ []) (omega arith) (refl, refl))
      λ e. (omega (arith, room-true w.skip), refl, refl)

dispatch-Ends :
    (h : Header) (w : Work) → IsQuiet w → (w' : Work) × (dispatch h w ≡ some w') × Ends w w'
unfolding dispatch Ends
dispatch-Ends h w q =
    let w₁ : Work = record (startup h w) { wakeup = h.mt == mt_rsp } in
    let w₂ : Work = drop_debug h w₁ in
    let w₃ : Work = retransmission h w₂ in
    let (w₄, found, k₄) = own_response-Keeps h w₃ in
    let w₅ : Work = wake w₄ in
    let (d, r, s, o) : Keeps w w₅ = Keeps-trans w w₁ w₅ (startup-Keeps h w) (
      Keeps-trans w₁ w₂ w₅ (drop_debug-Keeps h w₁) (
        Keeps-trans w₂ w₃ w₅ (retransmission-Keeps h w₂)
          (Keeps-trans w₃ w₄ w₅ k₄ (wake-Keeps w₄)))) in
    let (d', r', o') = forward-Ends w₅ (omega arith) in
    (forward w₅, rw (dispatch, found) refl, (d', r' ∙ r, o' ∙ o))

-- The parts of `receive` behind phNxpUciHal_parse.
pub receive-Ends :
    (env : Environment) (h : Header) (w w₁ : Work) (d : DeviceInfo)
    → parse_step env w ≡ some w₁
    → IsQuiet w₁
    → ((h.oid == 0x07) ≡ true → delivered w₁.events ≡ 0)
    → let w₂ = hw_reset h (thermal_error env h w₁) in
      remember_device_info env.fuel h w₂.packet w₂.control.device_info ≡ some d
      → (w' : Work) × (receive env h w ≡ some w') × Ends w₁ w'
unfolding receive Calms Ends
receive-Ends env h w w₁ d p q z r =
    let (w₂, e₂, (q₂, r₂, o₂)) = process_response-Calms env h w₁ d q z r in
    let (w₃, e₃, (d₃, r₃, o₃)) = dispatch-Ends h w₂ q₂ in
    (w₃, rw (receive, p) (rw e₂ e₃), (d₃, r₃ ∙ r₂, o₃ ∙ o₂))

-- A packet that carries the device information is not touched in front of it.
pub untouched :
    (env : Environment) (h : Header) (w : Work)
    → (h.oid == 0x02) ≡ true
    → hw_reset h (thermal_error env h w) ≡ w
unfolding hw_reset thermal_error
untouched env h w e =
    let thermal : (h.gid == 0x00
          && h.oid == 0x07
          && (byte w.packet 4 == 0x54 || byte w.packet 4 == 0x59))
        ≡ false =
      ground arith in
    let reset : (h.gid == 0x00 && h.oid == 0x01 && byte w.packet 4 == 0xFE) ≡ false =
      ground arith in
    rw thermal (rw reset refl)

pub remember-other :
    (fuel : ℕ) (h : Header) (p : Bytes) (d : DeviceInfo)
    → (h.oid == 0x02) ≡ false
    → remember_device_info fuel h p d ≡ some d
unfolding remember_device_info
remember-other fuel h p d e =
    let other : (h.mt == mt_rsp && h.gid == 0x00 && h.oid == 0x02 && not h.pbf) ≡ false =
      ground arith in
    rw other refl
