-- ===== src/Init.antt =====
-- init: what is done of the properties when the device starts. The property area of the system is an
-- argument: find, with the value that a property has, update and add.
pub mod Settings
mod Tests
use device_xiaomi_odin.Prelude.{
  ℕ, ◌*◌, Bool, true, Option, none, some, List, [], ◌∷◌, if◌then◌else◌, ltb, Bytes,
}
use device_xiaomi_odin.Config.Text.{codes}

pub record PropertyArea : Type 1 where
  pub Area : Type 0
  pub find : Area → Bytes → Option Bytes
  pub update : Area → Bytes → Bytes → Area
  pub add : Area → Bytes → Bytes → Area

-- dalvik_heap_info_t
pub record DalvikHeapInfo : Type 0 where
  pub heapstartsize : Bytes
  pub heapgrowthlimit : Bytes
  pub heapsize : Bytes
  pub heapminfree : Bytes
  pub heapmaxfree : Bytes
  pub heaptargetutilization : Bytes

abbrev pub dalvik_heap_info_6144 : DalvikHeapInfo
dalvik_heap_info_6144 = record {
  heapstartsize = codes "16m";
  heapgrowthlimit = codes "256m";
  heapsize = codes "512m";
  heapminfree = codes "8m";
  heapmaxfree = codes "32m";
  heaptargetutilization = codes "0.5";
}

abbrev pub dalvik_heap_info_4096 : DalvikHeapInfo
dalvik_heap_info_4096 = record {
  heapstartsize = codes "8m";
  heapgrowthlimit = codes "256m";
  heapsize = codes "512m";
  heapminfree = codes "8m";
  heapmaxfree = codes "16m";
  heaptargetutilization = codes "0.6";
}

abbrev pub dalvik_heap_info_2048 : DalvikHeapInfo
dalvik_heap_info_2048 = record {
  heapstartsize = codes "8m";
  heapgrowthlimit = codes "192m";
  heapsize = codes "512m";
  heapminfree = codes "512k";
  heapmaxfree = codes "8m";
  heaptargetutilization = codes "0.75";
}

abbrev gb : ℕ → ℕ
gb n = n * 1073741824

-- The choice of set_dalvik_heap by the memory that sysinfo gives.
unfoldable pub heap_info : ℕ → DalvikHeapInfo
heap_info total_ram =
    if ltb (gb 5) total_ram
    then dalvik_heap_info_6144
    else if ltb (gb 3) total_ram
    then dalvik_heap_info_4096
    else dalvik_heap_info_2048

abbrev pub snet_prop_key : List Bytes
snet_prop_key =
    codes "ro.boot.vbmeta.device_state"
    ∷ codes "ro.boot.verifiedbootstate"
    ∷ codes "ro.boot.flash.locked"
    ∷ codes "ro.boot.selinux"
    ∷ codes "ro.boot.veritymode"
    ∷ codes "ro.boot.warranty_bit"
    ∷ codes "ro.warranty_bit"
    ∷ codes "ro.debuggable"
    ∷ codes "ro.secure"
    ∷ codes "ro.build.type"
    ∷ codes "ro.system.build.tags"
    ∷ codes "ro.build.tags"
    ∷ codes "ro.build.keys"
    ∷ codes "ro.build.selinux"
    ∷ []

abbrev pub snet_prop_value : List Bytes
snet_prop_value =
    codes "locked"
    ∷ codes "green"
    ∷ codes "1"
    ∷ codes "enforcing"
    ∷ codes "enforcing"
    ∷ codes "0"
    ∷ codes "0"
    ∷ codes "0"
    ∷ codes "1"
    ∷ codes "user"
    ∷ codes "release-keys"
    ∷ codes "release-keys"
    ∷ codes "release-keys"
    ∷ codes "0"
    ∷ []

module _ (P : PropertyArea) where
  unfoldable pub property_override : Bool → Bytes → Bytes → P.Area → P.Area
  property_override adds prop value a = elim (P.find a prop) [
    | none ↦ if adds then P.add a prop value else a
    | some old ↦ P.update a prop value
  ]

  unfoldable pub set_dalvik_heap : ℕ → P.Area → P.Area
  unfolding property_override heap_info
  set_dalvik_heap total_ram a₀ =
      let dhi : DalvikHeapInfo = heap_info total_ram in
      let a₁ = property_override true (codes "dalvik.vm.heapstartsize") dhi.heapstartsize a₀ in
      let a₂ = property_override true (codes "dalvik.vm.heapgrowthlimit") dhi.heapgrowthlimit a₁ in
      let a₃ = property_override true (codes "dalvik.vm.heapsize") dhi.heapsize a₂ in
      let a₄ =
        property_override true (codes "dalvik.vm.heaptargetutilization") dhi.heaptargetutilization
          a₃ in
      let a₅ = property_override true (codes "dalvik.vm.heapminfree") dhi.heapminfree a₄ in
      property_override true (codes "dalvik.vm.heapmaxfree") dhi.heapmaxfree a₅

  unfoldable pub set_device_names : P.Area → P.Area
  unfolding property_override
  set_device_names a₀ =
      let name : Bytes = codes "Xiaomi MIX 4" in
      let a₁ = property_override true (codes "bluetooth.device.default_name") name a₀ in
      let a₂ = property_override true (codes "ro.product.marketname") name a₁ in
      property_override true (codes "vendor.usb.product_string") name a₂

  -- The loop over the two tables; without a value for a key it reads a NULL, which is none.
  unfoldable pub override_snet : List Bytes → List Bytes → P.Area → Option P.Area
  unfolding property_override
  override_snet [] values a = some a
  override_snet (k ∷ ks) [] a = none
  override_snet (k ∷ ks) (v ∷ vs) a = override_snet ks vs (property_override true k v a)

  unfoldable pub workaround_snet_properties : P.Area → Option P.Area
  unfolding override_snet
  workaround_snet_properties a = override_snet snet_prop_key snet_prop_value a

  unfoldable pub vendor_load_properties : ℕ → P.Area → Option P.Area
  unfolding set_dalvik_heap set_device_names workaround_snet_properties
  vendor_load_properties total_ram a =
      workaround_snet_properties (set_device_names (set_dalvik_heap total_ram a))
