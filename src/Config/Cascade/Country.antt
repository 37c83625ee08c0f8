-- ===== src/Config/Cascade/Country.antt =====
-- What a change of country does to the settings.
use device_xiaomi_odin.Prelude.{
  ◌≡◌, refl, false, List, [], ◌∷◌, arith, Bytes, All, Bool-cases, inl, inr, map,
}
use device_xiaomi_odin.Config.Param.{bytes_eq, bytes_eq_refl}
use device_xiaomi_odin.Config.File.{File, set_country, FileSystem}
use device_xiaomi_odin.Config.Region.{xlate_country_code}
use device_xiaomi_odin.Config.Cascade.{Cascade, Environment, set_country_code}

-- Setting a country whose region is in force changes nothing; in particular, setting the same
-- country twice loads its files once, and the second call says so.
pub set_country_code_twice :
    (e : Environment) (code : Bytes) (c : Cascade)
    → set_country_code e code (set_country_code e code c).0 ≡ ((set_country_code e code c).0, false)
unfolding set_country_code
set_country_code_twice e code c = elim (Bool-cases (bytes_eq region c.cur_region_code)) [
  | inl same ↦ rw same (rw same)
  | inr other ↦ rw other (rw (bytes_eq_refl region))
]
  where
    region : Bytes
    region = xlate_country_code code c.region_map

map-set_country :
    (fs : FileSystem) (region : Bytes) (xs : List File)
    → All (λ f. f.country_specific ≡ false) xs
    → map (set_country fs region) xs ≡ xs
unfolding set_country
map-set_country fs region [] h = refl
map-set_country fs region (f ∷ xs) h = rw (h.0, map-set_country fs region xs h.1)

-- A country leaves the main, UCI and capability files and the region mapping alone; and where no
-- extra file has `<country>` in its path, the extra files too.
pub set_country_code_frame :
    (e : Environment) (code : Bytes) (c : Cascade)
    → All (λ f. f.country_specific ≡ false) c.extra
    → let d = (set_country_code e code c).0 in
      (d.main ≡ c.main)
      × (d.uci ≡ c.uci)
      × (d.caps ≡ c.caps)
      × (d.region_map ≡ c.region_map)
      × (d.extra ≡ c.extra)
unfolding set_country_code
set_country_code_frame e code c h =
    ground (arith, map-set_country e.files (xlate_country_code code c.region_map) c.extra h)
