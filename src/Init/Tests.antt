-- ===== src/Init/Tests.antt =====
-- The theorem on the properties, applied to an area that is a function.
use device_xiaomi_odin.Prelude.{
  ◌≡◌, refl, true, false, Option, none, some, Bytes, All, if◌then◌else◌,
}
use device_xiaomi_odin.Config.Text.{codes}
use device_xiaomi_odin.Config.Param.{bytes_eq, bytes_eq_refl}
use device_xiaomi_odin.Init.{PropertyArea, vendor_load_properties, heap_info, dalvik_heap_info_6144}
use device_xiaomi_odin.Init.Settings.{
  IsPropertyArea, absent, settings, vendor_load_properties-IsSet,
}

abbrev write : (Bytes → Option Bytes) → Bytes → Bytes → Bytes → Option Bytes
write a k v j = if bytes_eq k j then some v else a j

abbrev table : PropertyArea
table = record { Area = Bytes → Option Bytes; find = λ a k. a k; update = write; add = write }

find-write : (a : Bytes → Option Bytes) (k v : Bytes) → write a k v k ≡ some v
find-write a k v = rw (bytes_eq_refl k) refl

find-write_other :
    (a : Bytes → Option Bytes) (k j v : Bytes) → bytes_eq k j ≡ false → write a k v j ≡ a j
find-write_other a k j v n = rw n refl

table-laws : IsPropertyArea table
table-laws = record {
  find-update = λ a k v w e s. find-write a k v;
  find-add = λ a k v e s. find-write a k v;
  find-update_other = find-write_other;
  find-add_other = find-write_other;
}

-- A device of 8 GB on which the names are set already.
abbrev before : Bytes → Option Bytes
before = write (λ k. none) (codes "ro.product.marketname") (codes "odin")

vendor_load_properties-IsSet_example :
    (a' : Bytes → Option Bytes) × (vendor_load_properties table 8000000000 before ≡ some a')
    × All (λ p. a' p.0 ≡ some p.1) (settings 8000000000)
    × ((k : Bytes) → absent k (settings 8000000000) ≡ true → a' k ≡ before k)
vendor_load_properties-IsSet_example =
    vendor_load_properties-IsSet table table-laws 8000000000 before

heap_of_eight : heap_info 8000000000 ≡ dalvik_heap_info_6144
unfolding heap_info
heap_of_eight = refl
