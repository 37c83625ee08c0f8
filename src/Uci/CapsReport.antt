-- ===== src/Uci/CapsReport.antt =====
-- The report of the device's capabilities that phNxpUciHal_parse rewrites for a country.
use Prim.Native.Nat.{bit_and}
use device_xiaomi_odin.Prelude.{
  zero, suc, ◌≤◌, ◌<◌, ◌≢◌, ◌⊎◌, ap₂, Bool, Option, get_or, if◌then◌else◌, false, ℕ, ◌+◌, ◌%◌, ◌≡◌,
  refl, ap, sym, ◌∙◌, inl, inr, true, false, none, some, [], ◌∷◌, arith, map, ◌==◌, Bytes, length,
  All, Bool-cases, ==→≡,
}
use device_xiaomi_odin.Uci.Tlv.{TagMap, find, get_input_map, get_conf_map, write_entries}
use device_xiaomi_odin.Uci.Tlv.RoundTrip.{IsEntry, IsSorted, get_conf_map-write_entries}
use device_xiaomi_odin.Uci.Parse.{
  Caps, to_stack, parse, parse_caps, mask_value, mask_channels, and_values, is_channels,
  caps_response,
}

-- A response to CORE_GET_CAPS_INFO with the status OK and the entries of a map.
abbrev pub caps_packet : ℕ → ℕ → TagMap → Bytes
caps_packet n count m = 0x40 ∷ 0x03 ∷ 0x00 ∷ n ∷ 0x00 ∷ count ∷ write_entries m

get_input_map-caps_packet :
    (n count : ℕ) (m : TagMap)
    → All IsEntry m
    → IsSorted m
    → get_input_map (caps_packet n count m) 6 [] ≡ (true, m)
unfolding get_input_map get_conf_map
get_input_map-caps_packet n count m h s = get_conf_map-write_entries m h s

-- UWB_CHANNELS and CCC_UWB_CHANNELS.
abbrev pub IsChannelTag : ℕ → Type 0
IsChannelTag tag = (tag ≡ 0x0E) ⊎ (tag ≡ 0xA3)

-- The values stay: the tag is another one, or the country does not describe it.
abbrev pub IsUnmasked : TagMap → ℕ → Type 0
IsUnmasked conf tag = (tag ≢ 0x0E) × (tag ≢ 0xA3) ⊎ (find tag conf ≡ none)

-- The country has as many values as are masked.
abbrev pub HasMask : TagMap → ℕ × Bytes → Type 0
HasMask conf (tag, v) =
    IsUnmasked conf tag
    ⊎ (c : Bytes) × IsChannelTag tag × (find tag conf ≡ some c) × (length v ≤ length c)

-- Each value is and-ed with the country's value in the same place.
abbrev pub IsMasked : TagMap → ℕ → Bytes → Bytes → Type 0
IsMasked conf tag v v' =
    IsUnmasked conf tag × (v' ≡ v)
    ⊎ (c : Bytes) × IsChannelTag tag
      × (find tag conf ≡ some c)
      × (length v' ≡ length v)
      × ((i : ℕ) → i < length v → get_or 0 v' i ≡ bit_and (get_or 0 c i) (get_or 0 v i))

-- The same tags in the same order, each with its masked values.
abbrev pub AreMasked : TagMap → TagMap → TagMap → Type 0
AreMasked conf [] [] = Unit
AreMasked conf [] (e' ∷ m') = ⊥
AreMasked conf (e ∷ m) [] = ⊥
AreMasked conf ((tag, v) ∷ m) ((tag', v') ∷ m') =
    (tag' ≡ tag) × IsMasked conf tag v v' × AreMasked conf m m'

length-and_values : (c v : Bytes) → length (and_values c v) ≡ length v
unfolding and_values
length-and_values c [] = refl
length-and_values [] (x ∷ v) = ap suc (length-and_values [] v)
length-and_values (a ∷ c) (x ∷ v) = ap suc (length-and_values c v)

get_or-and_values :
    (c v : Bytes) (i : ℕ)
    → length v ≤ length c
    → i < length v
    → get_or 0 (and_values c v) i ≡ bit_and (get_or 0 c i) (get_or 0 v i)
unfolding and_values
get_or-and_values c [] i l k = absurd (omega arith)
get_or-and_values [] (x ∷ v) i l k = absurd (omega arith)
get_or-and_values (a ∷ c) (x ∷ v) zero l k = refl
get_or-and_values (a ∷ c) (x ∷ v) (suc i) l k = get_or-and_values c v i (omega arith) (omega arith)

abbrev mask_with : Option Bytes → Bool → Bytes → Bytes
mask_with o b v = elim o [
  | none ↦ v
  | some c ↦ let masked = and_values c v in if b then masked else v
]

mask_value-mask_with :
    (conf : TagMap) (tag : ℕ) (v : Bytes)
    → mask_value conf tag v ≡ mask_with (find tag conf) (is_channels tag) v
unfolding mask_value
mask_value-mask_with conf tag v = refl

mask_with-false : (o : Option Bytes) (v : Bytes) → mask_with o false v ≡ v
mask_with-false none v = refl
mask_with-false (some c) v = refl

is_channels-IsChannelTag : (tag : ℕ) → IsChannelTag tag → is_channels tag ≡ true
is_channels-IsChannelTag tag (inl e) = ground arith
is_channels-IsChannelTag tag (inr e) = ground arith

mask_value-IsMasked :
    (conf : TagMap) (tag : ℕ) (v : Bytes)
    → HasMask conf (tag, v)
    → IsMasked conf tag v (mask_value conf tag v)
mask_value-IsMasked conf tag v (inl (inl (a, b))) =
    let other : is_channels tag ≡ false = ground arith in
    inl (
      inl (a, b),
      mask_value-mask_with conf tag v
          ∙ ap (λ t. mask_with (find tag conf) t v) other
          ∙ mask_with-false (find tag conf) v,
    )
mask_value-IsMasked conf tag v (inl (inr e)) =
    inl (inr e, mask_value-mask_with conf tag v ∙ ap (λ o. mask_with o (is_channels tag) v) e)
mask_value-IsMasked conf tag v (inr (c, t, e, l)) =
    let masked : mask_value conf tag v ≡ and_values c v =
      mask_value-mask_with conf tag v
      ∙ ap₂ (λ o b. mask_with o b v) e (is_channels-IsChannelTag tag t) in
    inr (
      c,
      t,
      e,
      ap length masked ∙ length-and_values c v,
      λ i k. ap (λ w. get_or 0 w i) masked ∙ get_or-and_values c v i l k,
    )

mask_channels-AreMasked :
    (conf m : TagMap) → All (HasMask conf) m → AreMasked conf m (mask_channels conf m)
unfolding mask_channels
mask_channels-AreMasked conf [] h = tt
mask_channels-AreMasked conf ((tag, v) ∷ m) (h, hs) =
    (refl, mask_value-IsMasked conf tag v h, mask_channels-AreMasked conf m hs)

-- A capability report whose entries are well formed and in order, at a time when the country is known
-- and the input map is empty, where the country has as many values for UWB_CHANNELS and
-- CCC_UWB_CHANNELS as the report, or none, is dropped and replaced by one report to the stack: the
-- same tags in the same order, the values of these two and-ed with the country's, all others
-- unchanged, with the count of the entries and the length of what follows. The input map is empty
-- again.
pub parse-caps_packet :
    (fuel n count : ℕ) (m : TagMap) (s : Caps)
    → All IsEntry m
    → IsSorted m
    → (s.map_created ≡ true) × (s.input_map ≡ [])
    → All (HasMask s.conf_map) m
    → (m' : TagMap) × AreMasked s.conf_map m m'
      × (parse fuel (caps_packet n count m) s
          ≡ some (record {
            skip = false;
            caps = record s { input_map = []; is_skip_packet = true };
            actions =
                to_stack (
                  0x40
                  ∷ 0x03
                  ∷ 0x00
                  ∷ (length (write_entries m') + 2) % 256
                  ∷ 0x00
                  ∷ length m' % 256
                  ∷ write_entries m')
                ∷ [];
          }))
unfolding parse parse_caps caps_response
parse-caps_packet fuel n count m s h o (made, empty) k =
    let read = get_input_map-caps_packet n count m h o in
    (
      mask_channels s.conf_map m,
      mask_channels-AreMasked s.conf_map m k,
      rw empty (rw read (rw made refl)),
    )

-- Masking.
find-mask_channels :
    (conf m : TagMap) (tag : ℕ) (v : Bytes)
    → find tag m ≡ some v
    → find tag (mask_channels conf m) ≡ some (mask_value conf tag v)
unfolding find mask_channels
find-mask_channels conf [] tag v e = ground arith
find-mask_channels conf ((j, w) ∷ m) tag v e = elim (Bool-cases (tag == j)) [
  | inl y ↦
      let at : tag ≡ j = ==→≡ tag j y in
      let here : some w ≡ some v = rw y at e in
      rw y (
        rw (sym at) (
          ap
            (λ o. elim o [
              | none ↦ some (mask_value conf tag w)
              | some u ↦ some (mask_value conf tag u)
            ])
            here))
  | inr n ↦ rw n (find-mask_channels conf m tag v (rw n at e))
]

keys-mask_channels : (conf m : TagMap) → map (λ e. e.0) (mask_channels conf m) ≡ map (λ e. e.0) m
unfolding mask_channels
keys-mask_channels conf [] = refl
keys-mask_channels conf ((k, v) ∷ m) = ap (◌∷◌ k) (keys-mask_channels conf m)

-- Masking keeps the tags and their order. A channel entry of one byte that the country also
-- describes by one byte has the values and-ed, and its length stays.
pub mask_channels_lem :
    (conf m : TagMap) (tag c x : ℕ)
    → is_channels tag ≡ true
    → find tag conf ≡ some (1 ∷ c ∷ [])
    → find tag m ≡ some (1 ∷ x ∷ [])
    → (map (λ e. e.0) (mask_channels conf m) ≡ map (λ e. e.0) m)
      × (find tag (mask_channels conf m) ≡ some (1 ∷ bit_and c x ∷ []))
unfolding mask_value and_values
mask_channels_lem conf m tag c x h i j =
    let masked : mask_value conf tag (1 ∷ x ∷ []) ≡ 1 ∷ bit_and c x ∷ [] =
      rw (mask_value, i) (rw h refl) in
    (keys-mask_channels conf m, find-mask_channels conf m tag (1 ∷ x ∷ []) j ∙ ap some masked)
