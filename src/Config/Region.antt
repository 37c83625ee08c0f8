-- ===== src/Config/Region.antt =====
-- The class RegionCodeMap of uwb/halimpl/utils/phNxpConfig.cc: the regions and their country codes.
-- The order of the list stands for the order in which the unordered map is iterated.
use device_xiaomi_odin.Prelude.{
  ℕ, Bool, false, ◌&&◌, ◌||◌, List, [], ◌∷◌, ◌++◌, leb, if◌then◌else◌, Bytes,
}
use device_xiaomi_odin.Config.Param.{str_value, bytes_eq, Settings}
use device_xiaomi_odin.Config.Text.{words_from}
use device_xiaomi_odin.Config.File.{File, FileSystem, no_file, open_file, reset}

pub record RegionMap : Type 0 where
  pub config : File
  pub regions : List (Bytes × List Bytes)

abbrev pub no_regions : RegionMap
no_regions = record { config = no_file; regions = [] }

abbrev is_upper : ℕ → Bool
is_upper c = leb b'A' c && leb c b'Z'

-- A word of two capital letters.
pub is_country : Bytes → Bool
is_country (a ∷ b ∷ []) = is_upper a && is_upper b
is_country _ = false

unfoldable pub member : Bytes → List Bytes → Bool
unfolding bytes_eq
member c [] = false
member c (d ∷ ds) = bytes_eq d c || member c ds

-- unordered_set::emplace
unfoldable pub set_emplace : Bytes → List Bytes → List Bytes
unfolding member
set_emplace c s = if member c s then s else s ++ c ∷ []

countries : List Bytes → List Bytes → List Bytes
unfolding set_emplace is_country
countries s [] = s
countries s (w ∷ ws) = countries (if is_country w then set_emplace w s else s) ws

-- unordered_set::merge
merge : List Bytes → List Bytes → List Bytes
unfolding set_emplace
merge s [] = s
merge s (c ∷ cs) = merge (set_emplace c s) cs

-- try_emplace of a region, or the merge of its countries.
add_region : Bytes → List Bytes → List (Bytes × List Bytes) → List (Bytes × List Bytes)
unfolding merge bytes_eq
add_region r cs [] = (r, cs) ∷ []
add_region r cs ((q, ds) ∷ m) =
    if bytes_eq q r then (q, merge ds cs) ∷ m else (q, ds) ∷ add_region r cs m

add_regions : Settings → List (Bytes × List Bytes) → List (Bytes × List Bytes)
unfolding add_region countries words_from str_value
add_regions [] m = m
add_regions ((r, p) ∷ ps) m =
    add_regions ps (add_region r (countries [] (words_from [] (str_value p))) m)

-- RegionCodeMap::loadMapping
unfoldable pub load_mapping : FileSystem → Bytes → Bytes → RegionMap → RegionMap
unfolding add_regions open_file
load_mapping fs sku path r =
    let config = open_file fs sku path in
    if config.valid
    then record { config = config; regions = add_regions config.settings r.regions }
    else r

-- The first region that holds the country.
unfoldable pub region_of : Bytes → List (Bytes × List Bytes) → Bytes
unfolding member
region_of code [] = code
region_of code ((r, cs) ∷ m) = if member code cs then r else region_of code m

-- RegionCodeMap::xlateCountryCode
unfoldable pub xlate_country_code : Bytes → RegionMap → Bytes
unfolding region_of
xlate_country_code code r = if r.config.valid then region_of code r.regions else code

-- RegionCodeMap::reset
abbrev pub reset_regions : RegionMap → RegionMap
reset_regions r = record { config = reset r.config; regions = [] }
