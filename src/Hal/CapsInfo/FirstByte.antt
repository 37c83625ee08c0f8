-- ===== src/Hal/CapsInfo/FirstByte.antt =====
-- The rewriting of a response to CORE_GET_CAPS_INFO never makes a command of it.
use mathlib.Core.Option.{some-injective}
use device_xiaomi_odin.Prelude.{
  ℕ, zero, suc, ◌+◌, ◌/◌, ◌%◌, ◌≤◌, ◌≡◌, refl, ap, sym, ◌∙◌, false, not, ◌&&◌, ◌||◌, Option, none,
  some, [], ◌∷◌, arith, ltb, leb, ◌==◌, Bytes, length, set, if-both, and_then,
}
use device_xiaomi_odin.Uci.Packet.{byte, message_type, gid, oid, mt_cmd, mt_rsp}
use device_xiaomi_odin.Hal.CapsInfo.{
  Antenna, Walk, aoa_support_tag, set_aoa, copy_entry, aoa_entry, skip_entry, walk, rewritten,
  add_vendor, walk_start, parse_get_caps_info,
}

-- A write behind the first byte leaves it.
byte-set : (p : Bytes) (i v : ℕ) → 1 ≤ i → byte (set p i v) 0 ≡ byte p 0
byte-set [] i v l = refl
byte-set (x ∷ p) zero v l = absurd (omega arith)
byte-set (x ∷ p) (suc i) v l = refl

byte-set_aoa : (a : Antenna) (i : ℕ) (p : Bytes) → 1 ≤ i → byte (set_aoa a i p) 0 ≡ byte p 0
unfolding set_aoa
byte-set_aoa a i p l =
    let Same : Bytes → Type 0 = λ q. byte q 0 ≡ byte p 0 in
    if-both Same a.is_rx_pair_defined _ _
      (λ e.
        if-both Same (a.number_of_pairs == 1) _ _ (λ e. byte-set p i 1 l)
          λ e. if-both Same (ltb 1 a.number_of_pairs) _ _ (λ e. byte-set p i 5 l) λ e. refl)
      λ e. byte-set p i 0 l

-- The values that the loop points to lie behind the first byte.
IsBehind : Option ℕ → Type 0
IsBehind none = Unit
IsBehind (some i) = 1 ≤ i

-- The first byte of the packet behind the loop.
Starts : ℕ → Option Walk → Type 0
Starts x none = Unit
Starts x (some w) = byte w.packet 0 ≡ x

aoa_entry-Starts :
    (a : Antenna) (tag len x : ℕ) (at : Option ℕ) (w : Walk) (k : Walk → Option Walk)
    → IsBehind at
    → byte w.packet 0 ≡ x
    → ((w' : Walk) → IsBehind w'.caps_value → byte w'.packet 0 ≡ x → Starts x (k w'))
    → Starts x (and_then (aoa_entry a tag len at w) k)
unfolding aoa_entry copy_entry IsBehind Starts
aoa_entry-Starts a tag len x none w k l e f = tt
aoa_entry-Starts a tag len x (some at) w k l e f = f _ l (byte-set_aoa a at w.packet l ∙ e)

walk-Starts :
    (n : ℕ) (a : Antenna) (size index x : ℕ) (w : Walk)
    → IsBehind w.caps_value
    → byte w.packet 0 ≡ x
    → Starts x (walk n a size index w)
unfolding walk copy_entry skip_entry IsBehind Starts
walk-Starts zero a size index x w b e = if-both (Starts x) _ none (some w) (λ c. tt) λ c. e
walk-Starts (suc n) a size index x w b e =
    let tag : ℕ = byte w.packet index in
    let len : ℕ = byte w.packet (index + 1) in
    let skipped : ℕ = byte w.packet (index + 2) in
    if-both (Starts x) (not (ltb index size)) _ _ (λ c. e)
      λ c.
        if-both (Starts x) (tag == 0xE0 || tag == 0xE3) _ _
          (λ c.
            if-both (Starts x) (leb size (index + 2)) _ _ (λ c. e)
              λ c. walk-Starts n a size (index + 3 + skipped) x (skip_entry skipped w) b e)
          λ c.
            if-both (Starts x) (tag == aoa_support_tag) _ _
              (λ c.
                aoa_entry-Starts a tag len x w.caps_value w _ b e
                  λ w' b' e'. walk-Starts n a size (index + 2 + len) x w' b' e')
              λ c.
                walk-Starts n a size (index + 2 + len) x (copy_entry tag len (index + 2) w)
                  (omega arith) e

add_vendor-command :
    (config : Option Bytes) (x : ℕ) (w : Walk)
    → byte w.packet 0 ≡ x
    → ((x / 32) == mt_cmd) ≡ false
    → (message_type (add_vendor config w) == mt_cmd) ≡ false
unfolding add_vendor rewritten
add_vendor-command none x w e c = rw e c
add_vendor-command (some []) x w e c = rw e c
add_vendor-command (some (y ∷ v)) x w e c =
    let size : ℕ = (w.data_len + length (y ∷ v)) % 256 in
    let more : size + 4 ≡ suc (size + 3) = omega arith in rw more refl

get_caps_info-command :
    (a : Antenna) (config : Option Bytes) (x : ℕ) (r : Option Walk) (q : Bytes)
    → Starts x r
    → ((x / 32) == mt_cmd) ≡ false
    → and_then r (λ w. some (add_vendor config w)) ≡ some q
    → (message_type q == mt_cmd) ≡ false
unfolding Starts
get_caps_info-command a config x none q s c e = cc
get_caps_info-command a config x (some w) q s c e =
    ap (λ l. message_type l == mt_cmd) (sym (some-injective _ _ e))
    ∙ add_vendor-command config x w s c

pub parse_get_caps_info-command :
    (a : Antenna) (config : Option Bytes) (p q : Bytes)
    → (message_type p == mt_cmd) ≡ false
    → parse_get_caps_info a config p ≡ some q
    → (message_type q == mt_cmd) ≡ false
unfolding parse_get_caps_info IsBehind
parse_get_caps_info-command a config p q c =
    if-both (λ r. r ≡ some q → (message_type q == mt_cmd) ≡ false)
      (message_type p == mt_rsp && gid p == 0x00 && oid p == 0x03 && byte p 4 == 0) _ _
      (λ b.
        get_caps_info-command a config (byte p 0) _ q
          (walk-Starts (length p) a (length p) 6 (byte p 0) (walk_start p) tt refl) c)
      λ b e. ap (λ l. message_type l == mt_cmd) (sym (some-injective _ _ e)) ∙ c
