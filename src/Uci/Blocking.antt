-- ===== src/Uci/Blocking.antt =====
-- The channels that a country does not allow, in SESSION_SET_APP_CONFIG.
use mathlib.Core.List.{append_assoc}
use device_xiaomi_odin.Prelude.{
  ℕ, zero, suc, ◌+◌, ◌%◌, ◌≤◌, ◌<◌, ◌≡◌, refl, ap, sym, ◌∙◌, Bool, true, false, ◌&&◌, ◌||◌, some,
  List, [], ◌∷◌, ◌++◌, arith, ltb, ◌==◌, if◌then◌else◌, inl, inr, Bytes, length, All, length-append,
  Bool-cases,
}
use device_xiaomi_odin.Uci.Packet.{byte}
use device_xiaomi_odin.Uci.Parse.{
  Caps, to_stack, Parsed, channel_tag, is_restricted, blocks_channel, blocked_response, parse,
  parse_app_config,
}

-- Parameters with tags of one byte; the values are not empty.
abbrev pub Params : Type 0
Params = List (ℕ × Bytes)

abbrev pub params_bytes : Params → Bytes
params_bytes [] = []
params_bytes ((tag, v) ∷ ps) = tag ∷ length v ∷ (v ++ params_bytes ps)

abbrev pub HasValue : ℕ × Bytes → Type 0
HasValue (tag, v) = 1 ≤ length v

-- One of the parameters is a channel that the mask restricts.
abbrev pub asks_restricted : ℕ → Params → Bool
asks_restricted mask [] = false
asks_restricted mask ((tag, v) ∷ ps) =
    tag == channel_tag && is_restricted mask (byte v 0) || asks_restricted mask ps

pub byte-append : (xs ys : Bytes) (i k : ℕ) → i ≡ length xs + k → byte (xs ++ ys) i ≡ byte ys k
byte-append [] ys i k e = ap (byte ys) (e ∙ omega arith)
byte-append (x ∷ xs) ys zero k e = ground arith
byte-append (x ∷ xs) ys (suc i) k e = byte-append xs ys i k (omega arith)

-- One round of the loop.
blocks_channel-step :
    (n mask len i tag size first j : ℕ) (p : Bytes)
    → ltb i len ≡ true
    → (byte p i ≡ tag) × (byte p ((i + 1) % 256) ≡ size) × (byte p ((i + 2) % 256) ≡ first)
    → ((i + 2) % 256 + size) % 256 ≡ j
    → blocks_channel (suc n) mask len i p ≡ (
        if tag == channel_tag && is_restricted mask first
        then some true
        else blocks_channel n mask len j p)
unfolding blocks_channel
blocks_channel-step n mask len i tag size first j p a (b, c, d) e =
    rw (blocks_channel, a) (rw (b, c, d) (rw e refl))

blocks_channel-params :
    (ps : Params) (xs : Bytes) (n mask len i : ℕ)
    → All HasValue ps
    → i ≡ length xs
    → len ≡ length xs + length (params_bytes ps)
    → len ≤ 255
    → length ps < n
    → blocks_channel n mask len i (xs ++ params_bytes ps) ≡ some (asks_restricted mask ps)
unfolding blocks_channel
blocks_channel-params ps xs zero mask len i h e f l k = ground arith
blocks_channel-params [] xs (suc n) mask len i h e f l k =
    let over : ltb i len ≡ false = ground arith in rw (blocks_channel, over) refl
blocks_channel-params ((tag, []) ∷ ps) xs (suc n) mask len i h e f l k = ground arith
blocks_channel-params ((tag, x ∷ v) ∷ ps) xs (suc n) mask len i h e f l k =
    let p : Bytes = xs ++ params_bytes ((tag, x ∷ v) ∷ ps) in
    let rest : Bytes = params_bytes ps in
    let ys : Bytes = xs ++ (tag ∷ length (x ∷ v) ∷ x ∷ v) in
    let sizes = length-append v rest in
    let more = length-append xs (tag ∷ length (x ∷ v) ∷ x ∷ v) in
    let on : ltb i len ≡ true = ground arith in
    let at₁ : (i + 1) % 256 ≡ length xs + 1 = omega arith in
    let at₂ : (i + 2) % 256 ≡ length xs + 2 = omega arith in
    let j : ℕ = i + 2 + length (x ∷ v) in
    let next : ((i + 2) % 256 + length (x ∷ v)) % 256 ≡ j = omega arith in
    let ahead =
      blocks_channel-params ps ys n mask len j h.1 (omega arith) (omega arith) l (omega arith) in
    let same : ys ++ rest ≡ p = append_assoc xs (tag ∷ length (x ∷ v) ∷ x ∷ v) rest in
    let go : blocks_channel n mask len j p ≡ some (asks_restricted mask ps) =
      ap (blocks_channel n mask len j) (sym same) ∙ ahead in
    blocks_channel-step n mask len i tag (length (x ∷ v)) x j p on
      (
        byte-append xs (params_bytes ((tag, x ∷ v) ∷ ps)) i 0 (omega arith),
        byte-append xs (params_bytes ((tag, x ∷ v) ∷ ps)) ((i + 1) % 256) 1 at₁,
        byte-append xs (params_bytes ((tag, x ∷ v) ∷ ps)) ((i + 2) % 256) 2 at₂,
      )
      next
    ∙ (elim (Bool-cases (tag == channel_tag && is_restricted mask x)) [
      | inl y ↦ rw y refl
      | inr y ↦ rw y go
    ])

-- What the branch gives, from what its loop gives.
abbrev answer : Bool → Caps → Parsed
answer blocked s = record {
  skip = blocked;
  caps = s;
  actions = if blocked then to_stack blocked_response ∷ [] else [];
}

parse_app_config-some :
    (fuel : ℕ) (p : Bytes) (s : Caps) (b : Bool)
    → blocks_channel fuel s.restricted_channel_mask ((byte p 3 + 4) % 256) 9 p ≡ some b
    → parse_app_config fuel p s ≡ some (answer b s)
unfolding parse_app_config
parse_app_config-some fuel p s true e = rw (parse_app_config, e) refl
parse_app_config-some fuel p s false e = rw (parse_app_config, e) refl

-- SESSION_SET_APP_CONFIG for a session.
abbrev pub app_config : ℕ → ℕ → ℕ → ℕ → Params → Bytes
app_config s₀ s₁ s₂ s₃ ps =
    0x21
    ∷ 0x03
    ∷ 0x00
    ∷ (5 + length (params_bytes ps))
    ∷ s₀
    ∷ s₁
    ∷ s₂
    ∷ s₃
    ∷ length ps
    ∷ params_bytes ps

-- A well-formed SESSION_SET_APP_CONFIG of at most 255 bytes whose tags have one byte, and in which
-- each parameter has at least one byte of value, is skipped exactly if one of its parameters is a channel that the country does not allow, and the stack
-- then gets the response that says so; otherwise nothing is sent and nothing changes. One round
-- more than there are parameters is enough.
pub parse-app_config :
    (fuel s₀ s₁ s₂ s₃ : ℕ) (ps : Params) (s : Caps)
    → All HasValue ps
    → length (params_bytes ps) ≤ 246
    → length ps < fuel
    → parse fuel (app_config s₀ s₁ s₂ s₃ ps) s
      ≡ some (record {
        skip = asks_restricted s.restricted_channel_mask ps;
        caps = s;
        actions =
            if asks_restricted s.restricted_channel_mask ps
            then to_stack blocked_response ∷ []
            else [];
      })
unfolding parse
parse-app_config fuel s₀ s₁ s₂ s₃ ps s h l k =
    let mask : ℕ = s.restricted_channel_mask in
    let len : (5 + length (params_bytes ps) + 4) % 256 ≡ 9 + length (params_bytes ps) =
      omega arith in
    let header : Bytes =
      0x21 ∷ 0x03 ∷ 0x00 ∷ (5 + length (params_bytes ps)) ∷ s₀ ∷ s₁ ∷ s₂ ∷ s₃ ∷ length ps ∷ [] in
    let loop =
      blocks_channel-params ps header fuel mask (9 + length (params_bytes ps)) 9 h (omega arith)
        (omega arith) (omega arith) k in
    let wrapped = ap (λ n. blocks_channel fuel mask n 9 (app_config s₀ s₁ s₂ s₃ ps)) len in
    parse_app_config-some fuel (app_config s₀ s₁ s₂ s₃ ps) s (asks_restricted mask ps)
      (wrapped ∙ loop)
