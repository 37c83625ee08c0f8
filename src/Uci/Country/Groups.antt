-- ===== src/Uci/Country/Groups.antt =====
-- COUNTRY_CODE_CAPS as groups of entries, one for each country, and what they set.
use device_xiaomi_odin.Prelude.{
  ℕ, zero, suc, ◌≤◌, ◌≡◌, ◌≢◌, refl, ap, ap₂, ◌∙◌, Bool, true, false, not, ◌&&◌, List, [], ◌∷◌,
  ◌++◌, arith, ◌==◌, if◌then◌else◌, Bytes, length, All, length-append, drop-length_append,
}
use device_xiaomi_odin.Uci.Packet.{byte}
use device_xiaomi_odin.Uci.Country.{
  RuntimeSettings, reset_settings, apply_entry, apply_entries, apply_country_caps, country_channels,
  is_valid_country_code,
}

-- An entry is its tag and its values; a group is the code of a country and its entries.
abbrev pub Entries : Type 0
Entries = List (ℕ × Bytes)

abbrev pub Groups : Type 0
Groups = List ((ℕ × ℕ) × Entries)

abbrev pub entries_bytes : Entries → Bytes → Bytes
entries_bytes [] rest = rest
entries_bytes ((tag, v) ∷ es) rest = tag ∷ length v ∷ (v ++ entries_bytes es rest)

abbrev pub groups_bytes : Groups → Bytes
groups_bytes [] = []
groups_bytes (((a, b), es) ∷ gs) = 0 ∷ 2 ∷ a ∷ b ∷ entries_bytes es (groups_bytes gs)

-- The entries of one country do not have the tag of a country's code.
abbrev pub AreGroups : Groups → Type 0
AreGroups [] = Unit
AreGroups (((a, b), es) ∷ gs) = All (λ e. e.0 ≢ 0) es × AreGroups gs

-- What the entries of a country set, and what those of its groups set.
abbrev pub apply_all : Entries → RuntimeSettings → RuntimeSettings
apply_all [] s = s
apply_all ((tag, v) ∷ es) s = apply_all es (apply_entry tag (length v) v s)

abbrev pub country_settings : ℕ → ℕ → Groups → RuntimeSettings → RuntimeSettings
country_settings c₀ c₁ [] s = s
country_settings c₀ c₁ (((a, b), es) ∷ gs) s =
    country_settings c₀ c₁ gs (if a == c₀ && b == c₁ then apply_all es s else s)

-- An entry reads its own values only.
apply_entry-append :
    (tag : ℕ) (v rest : Bytes) (s : RuntimeSettings)
    → apply_entry tag (length v) (v ++ rest) s ≡ apply_entry tag (length v) v s
unfolding apply_entry
apply_entry-append tag [] rest s = ground arith
apply_entry-append tag (x ∷ []) rest s = ground arith
apply_entry-append tag (x ∷ y ∷ v) rest s = ground arith

apply_entry-zero : (len : ℕ) (v : Bytes) (s : RuntimeSettings) → apply_entry 0 len v s ≡ s
unfolding apply_entry
apply_entry-zero len v s = refl

apply_entries-groups :
    (es : Entries) (gs : Groups) (n c₀ c₁ : ℕ) (found : Bool) (s : RuntimeSettings)
    → All (λ e. e.0 ≢ 0) es
    → AreGroups gs
    → length (entries_bytes es (groups_bytes gs)) ≤ n
    → apply_entries n c₀ c₁ found (entries_bytes es (groups_bytes gs)) s
      ≡ country_settings c₀ c₁ gs (if found then apply_all es s else s)
unfolding apply_entries
apply_entries-groups [] [] zero c₀ c₁ true s h k l = refl
apply_entries-groups [] [] zero c₀ c₁ false s h k l = refl
apply_entries-groups [] [] (suc n) c₀ c₁ true s h k l = refl
apply_entries-groups [] [] (suc n) c₀ c₁ false s h k l = refl
apply_entries-groups [] (((a, b), es) ∷ gs) zero c₀ c₁ found s h k l = ground arith
apply_entries-groups [] (((a, b), es) ∷ gs) (suc n) c₀ c₁ true s h k l =
    rw (apply_entry-zero 2 (a ∷ b ∷ entries_bytes es (groups_bytes gs)) s)
      (apply_entries-groups es gs n c₀ c₁ (a == c₀ && b == c₁) s k.0 k.1 (omega arith))
apply_entries-groups [] (((a, b), es) ∷ gs) (suc n) c₀ c₁ false s h k l =
    apply_entries-groups es gs n c₀ c₁ (a == c₀ && b == c₁) s k.0 k.1 (omega arith)
apply_entries-groups ((tag, v) ∷ es) gs zero c₀ c₁ found s h k l = ground arith
apply_entries-groups ((tag, v) ∷ es) gs (suc n) c₀ c₁ true s h k l =
    let other : (tag == 0) ≡ false = ground arith in
    let rest = entries_bytes es (groups_bytes gs) in
    let v' : Bytes = v ++ rest in
    let here : Bool = byte v' 0 == c₀ && byte v' 1 == c₁ in
    let found : (if tag == 0 then here else true) ≡ true = rw other refl in
    ap₂ (λ f d. apply_entries n c₀ c₁ f d (apply_entry tag (length v) v' s)) found
      (drop-length_append v rest)
    ∙ ap (apply_entries n c₀ c₁ true rest) (apply_entry-append tag v rest s)
    ∙ apply_entries-groups es gs n c₀ c₁ true (apply_entry tag (length v) v s) h.1 k
        (omega (arith, length-append v rest))
apply_entries-groups ((tag, v) ∷ es) gs (suc n) c₀ c₁ false s h k l =
    let other : (tag == 0) ≡ false = ground arith in
    let rest = entries_bytes es (groups_bytes gs) in
    let v' : Bytes = v ++ rest in
    let here : Bool = byte v' 0 == c₀ && byte v' 1 == c₁ in
    let found : (if tag == 0 then here else false) ≡ false = rw other refl in
    ap₂ (λ f d. apply_entries n c₀ c₁ f d s) found (drop-length_append v rest)
    ∙ apply_entries-groups es gs n c₀ c₁ false s h.1 k (omega (arith, length-append v rest))

-- Switching off for a code that is not valid.
checked :
    (valid : Bool) (s : RuntimeSettings)
    → (if not valid && s.uwb_enable then record s { uwb_enable = false } else s)
      ≡ record s { uwb_enable = valid && s.uwb_enable }
checked true s = refl
checked false s = ground arith

checked-mask :
    (b : Bool) (s : RuntimeSettings)
    → (if b then record s { uwb_enable = false } else s).restricted_channel_mask
      ≡ s.restricted_channel_mask
checked-mask true s = refl
checked-mask false s = refl

-- On data that is a count and groups, the settings are the defaults changed by exactly the entries
-- of the groups of this country, in their order, but for UWB being switched off for a code that is
-- no valid one; the data for the map is that of the channels which the settings restrict.
pub apply_country_caps-groups :
    (c₀ c₁ count room : ℕ) (gs : Groups)
    → AreGroups gs
    → ((apply_country_caps c₀ c₁ (count ∷ groups_bytes gs) room).0
        ≡ record (country_settings c₀ c₁ gs reset_settings) {
          uwb_enable =
              is_valid_country_code c₀ c₁ && (country_settings c₀ c₁ gs reset_settings).uwb_enable;
        })
      × ((apply_country_caps c₀ c₁ (count ∷ groups_bytes gs) room).1
          ≡ country_channels
              (country_settings c₀ c₁ gs reset_settings).restricted_channel_mask
              room)
unfolding apply_country_caps
apply_country_caps-groups c₀ c₁ count room gs h =
    let loop =
      apply_entries-groups [] gs (length (groups_bytes gs)) c₀ c₁ false reset_settings tt h
        (omega arith) in
    let valid : Bool = is_valid_country_code c₀ c₁ in
    let s : RuntimeSettings = country_settings c₀ c₁ gs reset_settings in
    rw loop (
      checked valid s,
      ap (λ m. country_channels m room) (checked-mask (not valid && s.uwb_enable) s),
    )
