-- ===== src/Hal/Receive/Calls.antt =====
-- What the steps of phNxpUciHal_read_complete call: most of them neither the stack nor the transport
-- layer.
use device_xiaomi_odin.Prelude.{
  ℕ, ◌+◌, ◌≤◌, ◌≡◌, refl, ◌∙◌, Bool, true, false, not, ◌&&◌, ◌||◌, List, [], ◌∷◌, ◌++◌, arith, ◌==◌,
  if◌then◌else◌, if-both,
}
use device_xiaomi_odin.Uci.Packet.{byte, mt_ntf}
use device_xiaomi_odin.Hal.Receive.{drop_debug, retransmission, set_ext_status, wake}
use device_xiaomi_odin.Hal.Receive.Startup.{
  device_status, binding_status_of, ese_binding, binding_check, startup,
}
use device_xiaomi_odin.Hal.Receive.State.{
  dev_status_ntf, binding_status_ntf, get_binding_status_ntf, do_bind_ntf, ext_cb, Header, Event,
  deliver, post, read_again, Work,
}

-- The sum of a number for each call.
abbrev pub total : (Event → ℕ) → List Event → ℕ
total f [] = 0
total f (x ∷ xs) = f x + total f xs

pub total-append :
    (f : Event → ℕ) (xs ys : List Event) → total f (xs ++ ys) ≡ total f xs + total f ys
total-append f [] ys = omega arith
total-append f (x ∷ xs) ys = omega (arith, total-append f xs ys)

-- The calls of the stack's callback, and those of phTmlUwb_Read.
abbrev pub is_delivery : Event → ℕ
is_delivery (deliver p) = 1
is_delivery _ = 0

abbrev pub is_read : Event → ℕ
is_read read_again = 1
is_read _ = 0

abbrev pub delivered : List Event → ℕ
delivered = total is_delivery

abbrev pub reads : List Event → ℕ
reads = total is_read

-- A call in front of the end goes with the packet being skipped.
abbrev pub room : Bool → ℕ
room skip = if skip then 1 else 0

abbrev pub IsQuiet : Work → Type 0
IsQuiet w = delivered w.events ≤ room w.skip

-- A step that calls neither the stack nor the transport layer, and does not undo the skipping.
abbrev pub KeepsTo : Work → List Event → Bool → Bool → Type 0
KeepsTo w es skip is_open =
    (delivered es ≡ delivered w.events)
    × (reads es ≡ reads w.events)
    × (room w.skip ≤ room skip)
    × (is_open ≡ w.control.is_open)

abbrev pub Keeps : Work → Work → Type 0
Keeps w w' = KeepsTo w w'.events w'.skip w'.control.is_open

pub Keeps-refl : (w : Work) → Keeps w w
Keeps-refl w = (refl, refl, omega arith, refl)

pub Keeps-trans : (w w₁ w₂ : Work) → Keeps w w₁ → Keeps w₁ w₂ → Keeps w w₂
Keeps-trans w w₁ w₂ (d, r, s, o) (d', r', s', o') = (d' ∙ d, r' ∙ r, omega arith, o' ∙ o)

pub room-true : (b : Bool) → room b ≤ 1
room-true true = omega arith
room-true false = omega arith

-- Calls of other kinds are added.
pub adds :
    (w : Work) (es : List Event)
    → delivered es ≡ 0
    → reads es ≡ 0
    → KeepsTo w (w.events ++ es) w.skip w.control.is_open
adds w es d r = (
  total-append is_delivery w.events es ∙ omega arith,
  total-append is_read w.events es ∙ omega arith,
  omega arith,
  refl,
)

pub skips :
    (w : Work) (es : List Event)
    → delivered es ≡ 0
    → reads es ≡ 0
    → KeepsTo w (w.events ++ es) true w.control.is_open
skips w es d r = let (d', r', s, o) = adds w es d r in (d', r', room-true w.skip, o)

device_status-Keeps : (h : Header) (w : Work) → Keeps w (device_status h w)
unfolding device_status
device_status-Keeps h w =
    if-both (Keeps w) (h.gid == 0x00 && h.oid == 0x01) _ _
      (λ e.
        if-both (Keeps w) (byte w.packet 4 == 0 || byte w.packet 4 == 1) _ _
          (λ e. skips w (post dev_status_ntf ∷ []) refl refl) λ e. Keeps-refl w)
      λ e. Keeps-refl w

binding_status_of-Keeps : (h : Header) (w : Work) → Keeps w (binding_status_of h w)
unfolding binding_status_of
binding_status_of-Keeps h w =
    if-both (Keeps w) (h.gid == 0x0E && h.oid == 0x06) _ _
      (λ e. skips w (post binding_status_ntf ∷ []) refl refl) λ e. Keeps-refl w

ese_binding-Keeps : (h : Header) (w : Work) → Keeps w (ese_binding h w)
unfolding ese_binding
ese_binding-Keeps h w =
    if-both (Keeps w) (h.mt == mt_ntf && h.gid == 0x0F && h.oid == 0x31) _ _
      (λ e. skips w (post do_bind_ntf ∷ []) refl refl) λ e. Keeps-refl w

binding_check-Keeps : (h : Header) (w : Work) → Keeps w (binding_check h w)
unfolding binding_check
binding_check-Keeps h w =
    if-both (Keeps w) (h.mt == mt_ntf && h.gid == 0x0F && h.oid == 0x32) _ _
      (λ e. adds w (post get_binding_status_ntf ∷ []) refl refl) λ e. Keeps-refl w

pub startup-Keeps : (h : Header) (w : Work) → Keeps w (startup h w)
unfolding startup
startup-Keeps h w =
    let w₁ : Work = device_status h w in
    let w₂ : Work = binding_status_of h w₁ in
    let w₃ : Work = ese_binding h w₂ in
    let w₄ : Work = binding_check h w₃ in
    if-both (Keeps w) w.control.device_initialized w w₄ (λ e. Keeps-refl w)
      λ e. Keeps-trans w w₁ w₄ (device_status-Keeps h w) (
        Keeps-trans w₁ w₂ w₄ (binding_status_of-Keeps h w₁)
          (Keeps-trans w₂ w₃ w₄ (ese_binding-Keeps h w₂) (binding_check-Keeps h w₃)))

pub drop_debug-Keeps : (h : Header) (w : Work) → Keeps w (drop_debug h w)
unfolding drop_debug
drop_debug-Keeps h w =
    if-both (Keeps w) (not w.skip && h.mt == mt_ntf && h.gid == 0x0B && h.oid == 0x22) _ _
      (λ e. (refl, refl, room-true w.skip, refl)) λ e. Keeps-refl w

pub retransmission-Keeps : (h : Header) (w : Work) → Keeps w (retransmission h w)
unfolding retransmission set_ext_status
retransmission-Keeps h w =
    if-both (Keeps w) (not w.skip && not h.pbf && h.mt == mt_ntf && h.gid == 0x00 && h.oid == 0x07)
      _ _
      (λ e.
        if-both (Keeps w) (byte w.packet 4 == 0x0A) _ _ (λ e. (refl, refl, room-true w.skip, refl))
          λ e.
            if-both (Keeps w) (byte w.packet 4 == 0x06) _ _
              (λ e. (refl, refl, room-true w.skip, refl)) λ e. Keeps-refl w)
      λ e. Keeps-refl w

pub wake-Keeps : (w : Work) → Keeps w (wake w)
unfolding wake
wake-Keeps w =
    if-both (Keeps w) (w.wakeup && w.control.ext_waiting) _ _
      (λ e. adds w (post ext_cb ∷ []) refl refl) λ e. Keeps-refl w
