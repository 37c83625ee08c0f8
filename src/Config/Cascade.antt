-- ===== src/Config/Cascade.antt =====
-- The class CascadeConfig of uwb/halimpl/utils/phNxpConfig.cc, and the NxpConfig_ functions around
-- its one instance. `atoi` of the C library is an argument; the contents of the files, and the
-- property that names the SKU, are in the environment.
pub mod Values
pub mod Priority
pub mod Country
mod Tests
use mathlib.Core.List.{reverse}
use device_xiaomi_odin.Prelude.{
  ℕ, zero, suc, ◌+◌, ◌*◌, ◌%◌, ◌^◌, Bool, true, false, not, ◌&&◌, ◌||◌, Option, none, some, List,
  [], ◌∷◌, ◌++◌, map, ltb, leb, ◌==◌, if◌then◌else◌, Bytes, length, get_elem?,
}
use device_xiaomi_odin.Int.{ℤ, pos, negsuc, ltb_ℤ}
use device_xiaomi_odin.Config.Param.{
  Param, string, number, byte_array, string_array, str_value, bytes_eq, Settings,
}
use device_xiaomi_odin.Config.Text.{codes, strncpy, until_nul}
use device_xiaomi_odin.Config.File.{File, FileSystem, no_file, open_file, set_country, find, reset}
use device_xiaomi_odin.Config.Region.{
  RegionMap, no_regions, load_mapping, xlate_country_code, reset_regions,
}

pub record Environment : Type 0 where
  pub files : FileSystem
  pub sku : Bytes
  pub atoi : Bytes → ℤ

pub record Cascade : Type 0 where
  pub main : File
  pub uci : File
  pub extra : List File
  pub caps : File
  pub region_map : RegionMap
  pub cur_region_code : Bytes

abbrev pub no_cascade : Cascade
no_cascade = record {
  main = no_file;
  uci = no_file;
  extra = [];
  caps = no_file;
  region_map = no_regions;
  cur_region_code = [];
}

abbrev pub or_else : Option Param → Option Param → Option Param
or_else none r = r
or_else (some p) r = some p

-- The loop over `rbegin()` to `rend()`; the list is the reversed one.
pub find_first : Bytes → List File → Option Param
find_first name [] = none
find_first name (f ∷ fs) = or_else (find name f) (find_first name fs)

-- CascadeConfig::find
unfoldable pub find_param : Bytes → Cascade → Option Param
unfolding find_first
find_param name c =
    or_else (find name c.caps)
      (or_else (find_first name (reverse c.extra)) (or_else (find name c.main) (find name c.uci)))

-- getValue for strings: what is copied into a buffer of `len` bytes, or `none` for false.
pub string_value : Option Param → ℕ → Option Bytes
unfolding strncpy
string_value (some (string s)) len = if ltb len (length s + 1) then none else some (strncpy s len)
string_value _ len = none

-- CascadeConfig::getValue(name, char*, len) and NxpConfig_GetStr
unfoldable pub get_str : Bytes → ℕ → Cascade → Option Bytes
unfolding string_value
get_str name len c = string_value (find_param name c) len

pub array_value : Option Param → ℕ → Option Bytes
array_value (some (byte_array a)) len = if ltb len (length a) then none else some a
array_value _ len = none

-- CascadeConfig::getValue(name, uint8_t*, len, readlen) and NxpConfig_GetByteArray: the bytes that
-- are copied, whose number goes to `*readlen`.
unfoldable pub get_byte_array : Bytes → ℕ → Cascade → Option Bytes
unfolding array_value
get_byte_array name len c = array_value (find_param name c) len

pub number_value : Option Param → Option ℕ
number_value (some (number n)) = some n
number_value _ = none

-- The `switch` of NxpConfig_GetNum on the size of the variable, on a 64-bit target.
pub narrow : ℕ → Option ℕ → Option ℕ
narrow len none = none
narrow len (some v) =
    if len == 8
    then some (v % 2 ^ 64)
    else if len == 2
    then some (v % 2 ^ 16)
    else if len == 1
    then some (v % 2 ^ 8)
    else none

-- NxpConfig_GetNum, for a pointer that is not NULL: the number that is stored.
unfoldable pub get_num : Bytes → ℕ → Cascade → Option ℕ
unfolding number_value narrow
get_num name len c = narrow len (number_value (find_param name c))

strings_value : Option Param → Option (List Bytes)
strings_value (some (string_array a)) = some a
strings_value _ = none

-- NxpConfig_GetStrArrayLen
unfoldable pub get_str_array_len : Bytes → Cascade → Option ℕ
unfolding strings_value
get_str_array_len name c = elim (strings_value (find_param name c)) [
  | none ↦ none
  | some a ↦ some (length a)
]

nth_string : Option Bytes → ℕ → Option Bytes
unfolding strncpy
nth_string none len = none
nth_string (some s) len = if ltb len (length s + 1) then none else some (strncpy s len)

-- NxpConfig_GetStrArrayVal, for an index that is not negative.
unfoldable pub get_str_array_val : Bytes → ℕ → ℕ → Cascade → Option Bytes
unfolding strings_value nth_string
get_str_array_val name index len c = elim (strings_value (find_param name c)) [
  | none ↦ none
  | some a ↦ nth_string (get_elem? a index) len
]

-- "EXTRA_CONF_PATH_%d", for 1 to 10.
abbrev extra_keys : List Bytes
extra_keys =
    codes "EXTRA_CONF_PATH_1"
    ∷ codes "EXTRA_CONF_PATH_2"
    ∷ codes "EXTRA_CONF_PATH_3"
    ∷ codes "EXTRA_CONF_PATH_4"
    ∷ codes "EXTRA_CONF_PATH_5"
    ∷ codes "EXTRA_CONF_PATH_6"
    ∷ codes "EXTRA_CONF_PATH_7"
    ∷ codes "EXTRA_CONF_PATH_8"
    ∷ codes "EXTRA_CONF_PATH_9"
    ∷ codes "EXTRA_CONF_PATH_10"
    ∷ []

-- One round of the loop over EXTRA_CONF_PATH_<i>.
add_extra : Environment → Option Param → List File → List File
unfolding open_file str_value
add_extra e none fs = fs
add_extra e (some p) fs =
    let f = open_file e.files e.sku (str_value p) in
    if f.valid || f.country_specific then fs ++ f ∷ [] else fs

read_extra : Environment → File → List Bytes → List File → List File
unfolding add_extra
read_extra e main [] fs = fs
read_extra e main (k ∷ ks) fs = read_extra e main ks (add_extra e (find k main) fs)

-- The file picked so far and its VERSION, which is -1 where none is.
pub record Picked : Type 0 where
  pub file : Option File
  pub version : ℤ

-- The VERSION of a file, or -2.
pub version_of : Environment → Option Param → ℤ
unfolding str_value
version_of e none = negsuc 1
version_of e (some p) = e.atoi (str_value p)

unfoldable pub pick : Environment → File → Picked → Picked
unfolding version_of
pick e f p =
    let v = version_of e (find (codes "VERSION") f) in
    if ltb_ℤ p.version v then record { file = some f; version = v } else p

-- One round of the loop over COUNTRY_CODE_CAP_FILE_LOCATION. A location is read into a buffer of
-- 260 bytes, and the name of the file appended.
pub try_caps : Environment → Option Bytes → Picked → Picked
unfolding pick until_nul open_file
try_caps e none p = p
try_caps e (some loc) p =
    pick e (open_file e.files e.sku (until_nul loc ++ codes "libuwb-countrycode.conf")) p

-- The loop, from index `i`, with `n` rounds left.
unfoldable pub pick_caps : Environment → Cascade → ℕ → ℕ → Picked → Picked
unfolding try_caps
pick_caps e c zero i p = p
pick_caps e c (suc n) i p =
    pick_caps e c n (i + 1)
      (try_caps e (get_str_array_val (codes "COUNTRY_CODE_CAP_FILE_LOCATION") i 260 c) p)

abbrev set_caps : Cascade → Option File → Cascade
set_caps c none = c
set_caps c (some f) = record c { caps = f }

load_caps : Environment → Cascade → Option ℕ → Cascade
unfolding pick_caps
load_caps e c none = c
load_caps e c (some n) =
    set_caps c (pick_caps e c n 0 (record { file = none; version = negsuc 0 })).file

load_regions : Environment → Cascade → Option Param → Cascade
unfolding load_mapping str_value
load_regions e c none = c
load_regions e c (some p) = record c {
  region_map = load_mapping e.files e.sku (str_value p) c.region_map;
}

-- CascadeConfig::init
unfoldable pub init : Environment → Bytes → Cascade → Cascade
unfolding read_extra load_caps load_regions open_file
init e main_config c =
    let main = open_file e.files e.sku main_config in
    let uci = open_file e.files e.sku (codes "/vendor/etc/libuwb-uci.conf") in
    let c₁ = record c { main = main } in
    let c₂ = record c₁ { uci = if uci.valid then uci else c.uci } in
    let c₃ = record c₂ { extra = read_extra e main extra_keys c.extra } in
    let c₄ = load_caps e c₃ (get_str_array_len (codes "COUNTRY_CODE_CAP_FILE_LOCATION") c₃) in
    let c₅ = load_regions e c₄ (find_param (codes "REGION_MAP_PATH") c₄) in
    if main.valid then c₅ else c

-- NxpConfig_Init
unfoldable pub nxp_config_init : Environment → Cascade → Cascade
unfolding init
nxp_config_init e = init e (codes "/vendor/etc/libuwb-nxp.conf")

-- CascadeConfig::deinit
unfoldable pub deinit : Cascade → Cascade
deinit c = record {
  main = reset c.main;
  uci = reset c.uci;
  extra = [];
  caps = reset c.caps;
  region_map = reset_regions c.region_map;
  cur_region_code = [];
}

-- CascadeConfig::setCountryCode
unfoldable pub set_country_code : Environment → Bytes → Cascade → Cascade × Bool
unfolding xlate_country_code set_country bytes_eq
set_country_code e code c =
    let region = xlate_country_code code c.region_map in
    if bytes_eq region c.cur_region_code then (c, false) else (
      record c { cur_region_code = region; extra = map (set_country e.files region) c.extra },
      true,
    )

-- phNxpUciHal_getBindingConfig of uwb/halimpl/hal/phNxpUciHal.cc: its variable is a `uint32_t`.
unfoldable pub get_binding_config : Cascade → Bool
get_binding_config c = elim (get_num (codes "UWB_BINDING_LOCKING_ALLOWED") 4 c) [
  | none ↦ false
  | some n ↦ not (n == 0)
]
