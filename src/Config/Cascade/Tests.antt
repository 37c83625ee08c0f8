-- ===== src/Config/Cascade/Tests.antt =====
-- The configuration on a small file system.
use mathlib.Core.List.{reverse}
use device_xiaomi_odin.Prelude.{
  ◌%◌, ◌≡◌, refl, ◌⊎◌, true, none, some, [], ◌∷◌, ◌++◌, All, Bytes, ◌≤◌, ◌<◌, length, if◌then◌else◌,
}
use device_xiaomi_odin.Int.{ℤ, pos, negsuc}
use device_xiaomi_odin.Config.Param.{string, number, string_array, lookup, bytes_eq}
use device_xiaomi_odin.Config.Text.{codes, until_nul}
use device_xiaomi_odin.Config.File.{File, FileSystem, no_file, find}
use device_xiaomi_odin.Config.Cascade.{
  Cascade, Environment, no_cascade, find_param, get_str, Picked, pick_caps, version_of,
}
use device_xiaomi_odin.Config.Cascade.Priority.{
  tables, find_param-lookup, AtMost, candidates, Any, IsPicked, pick_caps_highest,
}
use device_xiaomi_odin.Config.Cascade.Values.{get_str_lem}

abbrev fs : FileSystem
fs path =
    if bytes_eq path (codes "/a/libuwb-countrycode.conf")
    then some (codes "VERSION=\"2\"\n")
    else none

-- The number of a one-digit text.
abbrev digit : Bytes → ℤ
digit [] = pos 0
digit (c ∷ s) = pos (c % 16)

abbrev env : Environment
env = record { files = fs; sku = codes "sku"; atoi = digit }

abbrev extra_file : File
extra_file = record no_file { settings = (codes "K", number 700) ∷ []; valid = true }

abbrev cascade : Cascade
cascade = record no_cascade {
  main = record no_file {
    settings =
        (codes "K", number 1)
        ∷ (codes "S", string (codes "text"))
        ∷ (codes "COUNTRY_CODE_CAP_FILE_LOCATION", string_array (codes "/a/" ∷ []))
        ∷ [];
    valid = true;
  };
  extra = extra_file ∷ [];
}

found_number : find_param (codes "K") cascade ≡ some (number 700)
unfolding find_param lookup bytes_eq
found_number = refl

found_string : find_param (codes "S") cascade ≡ some (string (codes "text"))
unfolding find_param lookup bytes_eq
found_string = refl

find_param-lookup_example :
    find_param (codes "K") cascade
    ≡ lookup (codes "K") (
        cascade.caps.settings
        ++ (tables (reverse cascade.extra) ++ (cascade.main.settings ++ cascade.uci.settings)))
find_param-lookup_example = find_param-lookup (codes "K") cascade

abbrev none_picked : Picked
none_picked = record { file = none; version = negsuc 0 }

pick_caps_highest_example :
    All
      (λ f.
        AtMost
          (version_of env (find (codes "VERSION") f))
          (pick_caps env cascade 1 0 none_picked).version)
      (candidates env cascade 1 0)
    × ((pick_caps env cascade 1 0 none_picked ≡ none_picked)
        ⊎ Any (IsPicked env (pick_caps env cascade 1 0 none_picked)) (candidates env cascade 1 0))
pick_caps_highest_example = pick_caps_highest env cascade 1 0 none_picked

abbrev text : Bytes
text = codes "text"

get_str_lem_example :
    ((10 ≤ length text) × (get_str (codes "S") 10 cascade ≡ none))
    ⊎ ((length text < 10)
        × (b : Bytes) × (get_str (codes "S") 10 cascade ≡ some b)
        × (length b ≡ 10)
        × (until_nul b ≡ until_nul text))
get_str_lem_example = get_str_lem (codes "S") 10 cascade text found_string
