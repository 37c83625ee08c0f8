-- ===== src/Init/Settings.antt =====
-- The properties that a device has behind vendor_load_properties.
use device_xiaomi_odin.Prelude.{
  ℕ, if◌then◌else◌, ◌≡◌, ◌⊎◌, inl, inr, refl, ◌∙◌, Bool, true, false, not, ◌&&◌, Option, none, some,
  List, [], ◌∷◌, ◌++◌, arith, ltb, Bytes, length, Bool-cases, All,
}
use device_xiaomi_odin.Config.Text.{codes}
use device_xiaomi_odin.Config.Param.{bytes_eq}
use device_xiaomi_odin.Init.{
  PropertyArea, heap_info, property_override, set_dalvik_heap, set_device_names, override_snet,
  workaround_snet_properties, vendor_load_properties,
}

-- PROP_VALUE_MAX
abbrev prop_value_max : ℕ
prop_value_max = 92

-- What the system promises of an area with room: a value that is not too long is found again, and no
-- other property changes.
pub record IsPropertyArea (P : PropertyArea) : Type 0 where
  pub find-update :
      (a : P.Area) (k v w : Bytes)
      → P.find a k ≡ some w
      → ltb (length v) prop_value_max ≡ true
      → P.find (P.update a k v) k ≡ some v
  pub find-add :
      (a : P.Area) (k v : Bytes)
      → P.find a k ≡ none
      → ltb (length v) prop_value_max ≡ true
      → P.find (P.add a k v) k ≡ some v
  pub find-update_other :
      (a : P.Area) (k j v : Bytes) → bytes_eq k j ≡ false → P.find (P.update a k v) j ≡ P.find a j
  pub find-add_other :
      (a : P.Area) (k j v : Bytes) → bytes_eq k j ≡ false → P.find (P.add a k v) j ≡ P.find a j

abbrev pub Settings : Type 0
Settings = List (Bytes × Bytes)

abbrev pub absent : Bytes → Settings → Bool
absent k [] = true
absent k ((j, v) ∷ ps) = not (bytes_eq j k) && absent k ps

-- No key is given twice, and no value is too long.
abbrev are_valid : Settings → Bool
are_valid [] = true
are_valid ((k, v) ∷ ps) = absent k ps && ltb (length v) prop_value_max && are_valid ps

-- The properties of the heap, by start size, growth limit, size, utilization, and the least and the
-- most free space.
abbrev pub heap_properties : Bytes → Bytes → Bytes → Bytes → Bytes → Bytes → Settings
heap_properties start limit size utilization min_free max_free =
    (codes "dalvik.vm.heapstartsize", start)
    ∷ (codes "dalvik.vm.heapgrowthlimit", limit)
    ∷ (codes "dalvik.vm.heapsize", size)
    ∷ (codes "dalvik.vm.heaptargetutilization", utilization)
    ∷ (codes "dalvik.vm.heapminfree", min_free)
    ∷ (codes "dalvik.vm.heapmaxfree", max_free)
    ∷ []

-- More than 5 GB, more than 3 GB, and less.
abbrev pub heap_settings : ℕ → Settings
heap_settings total_ram =
    if ltb 5368709120 total_ram
    then heap_properties (codes "16m") (codes "256m") (codes "512m") (codes "0.5") (codes "8m")
        (codes "32m")
    else if ltb 3221225472 total_ram
    then heap_properties (codes "8m") (codes "256m") (codes "512m") (codes "0.6") (codes "8m")
        (codes "16m")
    else heap_properties (codes "8m") (codes "192m") (codes "512m") (codes "0.75") (codes "512k")
        (codes "8m")

abbrev device_names : Settings
device_names =
    (codes "bluetooth.device.default_name", codes "Xiaomi MIX 4")
    ∷ (codes "ro.product.marketname", codes "Xiaomi MIX 4")
    ∷ (codes "vendor.usb.product_string", codes "Xiaomi MIX 4")
    ∷ []

-- A device that is locked, verified and not debuggable.
abbrev snet_settings : Settings
snet_settings =
    (codes "ro.boot.vbmeta.device_state", codes "locked")
    ∷ (codes "ro.boot.verifiedbootstate", codes "green")
    ∷ (codes "ro.boot.flash.locked", codes "1")
    ∷ (codes "ro.boot.selinux", codes "enforcing")
    ∷ (codes "ro.boot.veritymode", codes "enforcing")
    ∷ (codes "ro.boot.warranty_bit", codes "0")
    ∷ (codes "ro.warranty_bit", codes "0")
    ∷ (codes "ro.debuggable", codes "0")
    ∷ (codes "ro.secure", codes "1")
    ∷ (codes "ro.build.type", codes "user")
    ∷ (codes "ro.system.build.tags", codes "release-keys")
    ∷ (codes "ro.build.tags", codes "release-keys")
    ∷ (codes "ro.build.keys", codes "release-keys")
    ∷ (codes "ro.build.selinux", codes "0")
    ∷ []

abbrev pub settings : ℕ → Settings
settings total_ram = heap_settings total_ram ++ (device_names ++ snet_settings)

settings-valid : (total_ram : ℕ) → are_valid (settings total_ram) ≡ true
unfolding bytes_eq
settings-valid total_ram = elim (Bool-cases (ltb 5368709120 total_ram)) [
  | inl e ↦ rw e refl
  | inr e ↦ elim (Bool-cases (ltb 3221225472 total_ram)) [
    | inl f ↦ rw (e, f) refl
    | inr f ↦ rw (e, f) refl
  ]
]

Option-cases {ℓ} : {A : Type ℓ} (o : Option A) → (o ≡ none) ⊎ (v : A) × (o ≡ some v)
Option-cases none = inl refl
Option-cases (some v) = inr (v, refl)

absent-head : (k j v : Bytes) (ps : Settings) → absent k ((j, v) ∷ ps) ≡ true → bytes_eq j k ≡ false
absent-head k j v ps e = ground arith

absent-tail : (k j v : Bytes) (ps : Settings) → absent k ((j, v) ∷ ps) ≡ true → absent k ps ≡ true
absent-tail k j v ps e = ground arith

valid-head :
    (k v : Bytes) (ps : Settings)
    → are_valid ((k, v) ∷ ps) ≡ true
    → (absent k ps ≡ true) × (ltb (length v) prop_value_max ≡ true) × (are_valid ps ≡ true)
valid-head k v ps e = (ground arith, ground arith, ground arith)

module _ (P : PropertyArea) (laws : IsPropertyArea P) where
  find-property_override :
      (k v : Bytes) (a : P.Area)
      → ltb (length v) prop_value_max ≡ true
      → P.find (property_override P true k v a) k ≡ some v
  unfolding property_override
  find-property_override k v a s = elim (Option-cases (P.find a k)) [
    | inl e ↦ rw (property_override, e) (laws.find-add a k v e s)
    | inr (w, e) ↦ rw (property_override, e) (laws.find-update a k v w e s)
  ]

  find-property_override_other :
      (k j v : Bytes) (a : P.Area)
      → bytes_eq k j ≡ false
      → P.find (property_override P true k v a) j ≡ P.find a j
  unfolding property_override
  find-property_override_other k j v a n = elim (Option-cases (P.find a k)) [
    | inl e ↦ rw (property_override, e) (laws.find-add_other a k j v n)
    | inr (w, e) ↦ rw (property_override, e) (laws.find-update_other a k j v n)
  ]

  abbrev override_all : Settings → P.Area → P.Area
  override_all [] a = a
  override_all ((k, v) ∷ ps) a = override_all ps (property_override P true k v a)

  find-override_all_other :
      (k : Bytes) (ps : Settings) (a : P.Area)
      → absent k ps ≡ true
      → P.find (override_all ps a) k ≡ P.find a k
  find-override_all_other k [] a e = refl
  find-override_all_other k ((j, v) ∷ ps) a e =
      find-override_all_other k ps (property_override P true j v a) (absent-tail k j v ps e)
      ∙ find-property_override_other j k v a (absent-head k j v ps e)

  find-override_all :
      (ps : Settings) (a : P.Area)
      → are_valid ps ≡ true
      → All (λ p. P.find (override_all ps a) p.0 ≡ some p.1) ps
  find-override_all [] a e = tt
  find-override_all ((k, v) ∷ ps) a e =
      let (only, short, rest) = valid-head k v ps e in
      (
        find-override_all_other k ps (property_override P true k v a) only
            ∙ find-property_override k v a short,
        find-override_all ps (property_override P true k v a) rest,
      )

  vendor_load_properties-eq :
      (total_ram : ℕ) (a : P.Area)
      → vendor_load_properties P total_ram a ≡ some (override_all (settings total_ram) a)
  unfolding vendor_load_properties set_dalvik_heap set_device_names workaround_snet_properties
      override_snet heap_info
  vendor_load_properties-eq total_ram a = elim (Bool-cases (ltb 5368709120 total_ram)) [
    | inl e ↦ rw e refl
    | inr e ↦ elim (Bool-cases (ltb 3221225472 total_ram)) [
      | inl f ↦ rw (e, f) refl
      | inr f ↦ rw (e, f) refl
    ]
  ]

  -- vendor_load_properties, on an area of properties that takes values and has room: each property of
  -- the heap has its value for a memory of more than 5 GB, of more than 3 GB, or less, each of the
  -- device's names and of a locked device has its value, and every other property stays as it was.
  pub vendor_load_properties-IsSet :
      (total_ram : ℕ) (a : P.Area)
      → (a' : P.Area) × (vendor_load_properties P total_ram a ≡ some a')
        × All (λ p. P.find a' p.0 ≡ some p.1) (settings total_ram)
        × ((k : Bytes) → absent k (settings total_ram) ≡ true → P.find a' k ≡ P.find a k)
  vendor_load_properties-IsSet total_ram a = (
    override_all (settings total_ram) a,
    vendor_load_properties-eq total_ram a,
    find-override_all (settings total_ram) a (settings-valid total_ram),
    λ k e. find-override_all_other k (settings total_ram) a e,
  )
