-- ===== src/Hal/Write/AppConfig.antt =====
-- SESSION_SET_APP_CONFIG from the stack to the device: the vendor's parameters are removed, and then
-- the channels are looked at.
use device_xiaomi_odin.Prelude.{
  ℕ, ◌+◌, ◌/◌, ◌%◌, ◌≤◌, ◌<◌, ◌≡◌, refl, ap, ap₂, sym, ◌∙◌, inl, Bool, true, false, ◌||◌, none,
  some, [], ◌∷◌, ◌++◌, arith, ltb, if◌then◌else◌, if-both, Bytes, length, All, length-append,
}
use device_xiaomi_odin.Status.{pending}
use device_xiaomi_odin.Uci.Packet.{uci_max_data_len}
use device_xiaomi_odin.Uci.Tlv.{is_extended, tag_bytes}
use device_xiaomi_odin.Uci.Parse.{Caps, Parsed, to_stack, blocked_response, parse}
use device_xiaomi_odin.Uci.AppConfig.{is_vendor_tag, handle_vendor_config}
use device_xiaomi_odin.Uci.AppConfig.Removal
use device_xiaomi_odin.Uci.AppConfig.Removal.{
  Params, IsParam, without_vendor, handle_vendor_config-app_config,
}
use device_xiaomi_odin.Uci.Blocking.{
  HasValue, params_bytes, app_config, asks_restricted, parse-app_config,
}
use device_xiaomi_odin.Hal.Write.{
  Environment, Written, rewritten_command, hand_over, write_unlocked,
}

-- A parameter with a tag of one byte and at least one value.
abbrev pub IsShort : ℕ × Bytes → Type 0
IsShort (tag, v) = (tag < 256) × (is_extended tag ≡ false) × (1 ≤ length v) × (length v ≤ 252)

tag_bytes-short : (tag : ℕ) → tag < 256 → tag_bytes tag ≡ tag ∷ []
unfolding tag_bytes
tag_bytes-short tag l =
    let none_above : tag / 256 ≡ 0 = omega arith in
    let same : tag % 256 ≡ tag = omega arith in rw (none_above, same) refl

params_bytes-short : (ps : Params) → All IsShort ps → Removal.params_bytes ps ≡ params_bytes ps
params_bytes-short [] h = refl
params_bytes-short ((tag, v) ∷ ps) (h, hs) =
    ap₂ ◌++◌ (ap (λ l. l ++ (length v ∷ v)) (tag_bytes-short tag h.0)) (params_bytes-short ps hs)

All-IsParam : (ps : Params) → All IsShort ps → All IsParam ps
All-IsParam [] h = tt
All-IsParam ((tag, v) ∷ ps) ((t, e, l, m), hs) = ((inl (t, e), m), All-IsParam ps hs)

-- What holds of the parameters holds of those that stay.
without_vendor-All : (P : ℕ × Bytes → Type 0) (ps : Params) → All P ps → All P (without_vendor ps)
without_vendor-All P [] h = tt
without_vendor-All P ((tag, v) ∷ ps) (h, hs) =
    if-both (All P) (is_vendor_tag tag) _ _ (λ e. without_vendor-All P ps hs)
      λ e. (h, without_vendor-All P ps hs)

All-HasValue : (ps : Params) → All IsShort ps → All HasValue ps
All-HasValue [] h = tt
All-HasValue ((tag, v) ∷ ps) (h, hs) = (h.2, All-HasValue ps hs)

without_vendor-shorter :
    (ps : Params)
    → (length (params_bytes (without_vendor ps)) ≤ length (params_bytes ps))
      × (length (without_vendor ps) ≤ length ps)
without_vendor-shorter [] = (omega arith, omega arith)
without_vendor-shorter ((tag, v) ∷ ps) =
    let (a, b) = without_vendor-shorter ps in
    let whole = length-append v (params_bytes ps) in
    let left = length-append v (params_bytes (without_vendor ps)) in
    if-both
      (λ (qs : Params).
        (length (params_bytes qs) ≤ length (params_bytes ((tag, v) ∷ ps)))
        × (length qs ≤ length ((tag, v) ∷ ps)))
      (is_vendor_tag tag) _ _ (λ e. (omega arith, omega arith)) λ e. (omega arith, omega arith)

-- The two forms of the packet are the same while the length fits into a byte.
app_config-short :
    (s₀ s₁ s₂ s₃ : ℕ) (ps : Params)
    → All IsShort ps
    → length (params_bytes ps) ≤ 246
    → Removal.app_config s₀ s₁ s₂ s₃ ps ≡ app_config s₀ s₁ s₂ s₃ ps
app_config-short s₀ s₁ s₂ s₃ ps h l =
    let high : (5 + length (params_bytes ps)) / 256 ≡ 0 = omega arith in
    let low : (5 + length (params_bytes ps)) % 256 ≡ 5 + length (params_bytes ps) = omega arith in
    ap
      (λ b.
        let len = 5 + length b in
        0x21 ∷ 0x03 ∷ len / 256 ∷ len % 256 ∷ s₀ ∷ s₁ ∷ s₂ ∷ s₃ ∷ length ps ∷ b)
      (params_bytes-short ps h)
    ∙ ap₂ (λ a b. 0x21 ∷ 0x03 ∷ a ∷ b ∷ s₀ ∷ s₁ ∷ s₂ ∷ s₃ ∷ length ps ∷ params_bytes ps) high low

-- The write, once the packet has been read.
write_unlocked-some :
    (env : Environment) (b : Bool) (p q : Bytes) (s : Caps) (r : Parsed)
    → env.sem_ok ≡ true
    → (ltb uci_max_data_len (length p) || ltb (length p) 4) ≡ false
    → handle_vendor_config env.fuel p ≡ some q
    → parse env.fuel q s ≡ some r
    → write_unlocked env b p s ≡ some (hand_over env (length p) q r)
unfolding write_unlocked
write_unlocked-some env b p q s r k l e f = rw (write_unlocked, e) (rw f (rw (k, l) refl))

-- What the caller gets for a packet that is answered here, and for one that is handed over.
abbrev pub answered : ℕ → Caps → Written
answered n s = record {
  result = n;
  parse_enabled = true;
  to_device = none;
  caps = s;
  actions = to_stack blocked_response ∷ [];
}

abbrev pub handed_over : ℕ → Bytes → Caps → Written
handed_over n q s = record {
  result = n;
  parse_enabled = false;
  to_device = some q;
  caps = s;
  actions = [];
}

hand_over-done :
    (env : Environment) (n : ℕ) (q : Bytes) (s : Caps) (blocked : Bool)
    → env.tml_write ≡ pending
    → env.waited ≡ true
    → hand_over env n q (record {
      skip = blocked;
      caps = s;
      actions = if blocked then to_stack blocked_response ∷ [] else [];
    })
      ≡ (if blocked then answered n s else handed_over n q s)
unfolding hand_over rewritten_command
hand_over-done env n q s true t w = refl
hand_over-done env n q s false t w = rw (t, w) refl

-- With a semaphore and a transport layer that work, a well-formed SESSION_SET_APP_CONFIG of at most
-- 255 bytes, whose tags have one byte and whose values are not empty, reaches the device without the
-- parameters of the vendor, the others unchanged and in order, unless one of those is a channel that
-- the country does not allow: then the device gets nothing, and the stack the response that says so.
-- The caller gets the length that it gave either way.
pub write_unlocked-app_config :
    (env : Environment) (b : Bool) (s₀ s₁ s₂ s₃ : ℕ) (ps : Params) (s : Caps)
    → All IsShort ps
    → length (params_bytes ps) ≤ 246
    → length ps < env.fuel
    → (env.sem_ok ≡ true) × (env.tml_write ≡ pending) × (env.waited ≡ true)
    → let p = app_config s₀ s₁ s₂ s₃ ps in
      let kept = without_vendor ps in
      write_unlocked env b p s
      ≡ some (
          if asks_restricted s.restricted_channel_mask kept
          then answered (length p) s
          else handed_over (length p) (app_config s₀ s₁ s₂ s₃ kept) s)
write_unlocked-app_config env b s₀ s₁ s₂ s₃ ps s h l f (k, t, w) =
    let p : Bytes = app_config s₀ s₁ s₂ s₃ ps in
    let kept : Params = without_vendor ps in
    let q : Bytes = app_config s₀ s₁ s₂ s₃ kept in
    let hk : All IsShort kept = without_vendor-All IsShort ps h in
    let (smaller, fewer) = without_vendor-shorter ps in
    let same_size = ap length (params_bytes-short ps h) in
    let removed : handle_vendor_config env.fuel p ≡ some q =
      ap (handle_vendor_config env.fuel) (sym (app_config-short s₀ s₁ s₂ s₃ ps h l))
      ∙ (handle_vendor_config-app_config env.fuel s₀ s₁ s₂ s₃ ps (All-IsParam ps h) (omega arith)
            (omega arith)
          ∙ ap some (app_config-short s₀ s₁ s₂ s₃ kept hk (omega arith))) in
    let read =
      parse-app_config env.fuel s₀ s₁ s₂ s₃ kept s (All-HasValue kept hk) (omega arith)
        (omega arith) in
    let fits : (ltb uci_max_data_len (length p) || ltb (length p) 4) ≡ false = ground arith in
    write_unlocked-some env b p q s _ k fits removed read
    ∙ ap some
        (hand_over-done env (length p) q s (asks_restricted s.restricted_channel_mask kept) t w)
