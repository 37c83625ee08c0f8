-- ===== src/Config/File.antt =====
-- The class CUwbNxpConfig of uwb/halimpl/utils/phNxpConfig.cc. The file system is a function from
-- paths to contents, and the value of the property `persist.vendor.uwb.cal.sku` an argument.
use device_xiaomi_odin.Prelude.{
  ℕ, Bool, true, false, Option, none, some, [], length, if◌then◌else◌, Bytes,
}
use device_xiaomi_odin.Config.Param.{Param, lookup, Settings}
use device_xiaomi_odin.Config.Reader.{read_config, valid_file}
use device_xiaomi_odin.Config.Text.{codes, find_from, replace}

abbrev pub FileSystem : Type 0
FileSystem = Bytes → Option Bytes

pub record File : Type 0 where
  pub settings : Settings
  pub valid : Bool
  pub file_path : Bytes
  pub current_file : Bytes
  pub country_specific : Bool

abbrev pub country_code_specifier : Bytes
country_code_specifier = codes "<country>"

abbrev pub sku_specifier : Bytes
sku_specifier = codes "<sku>"

-- The class's default constructor.
abbrev pub no_file : File
no_file = record {
  settings = [];
  valid = false;
  file_path = [];
  current_file = [];
  country_specific = false;
}

-- readConfig, on `mCurrentFile`.
unfoldable pub read : FileSystem → File → File
unfolding valid_file
read fs f =
    let m = read_config (fs f.current_file) in record f { settings = m; valid = valid_file m }

-- Replaces the first `w` of the text, if there is one.
unfoldable pub substitute : Bytes → Bytes → Bytes → Option Bytes
unfolding find_from
substitute w v s = elim (find_from 0 w s) [
  | none ↦ none
  | some pos ↦ some (replace pos (length w) v s)
]

-- The file path behind the replacement of `<sku>`.
abbrev sku_path : Option Bytes → Bytes → Bytes
sku_path none path = path
sku_path (some p) path = p

open_path : FileSystem → Bytes → Option ℕ → File
unfolding read
open_path fs path none = read fs (record no_file { file_path = path; current_file = path })
open_path fs path (some pos) = record no_file { file_path = path; country_specific = true }

-- CUwbNxpConfig::CUwbNxpConfig(const char*)
unfoldable pub open_file : FileSystem → Bytes → Bytes → File
unfolding open_path substitute
open_file fs sku path =
    let p = sku_path (substitute sku_specifier sku path) path in
    open_path fs p (find_from 0 country_code_specifier p)

current_path : FileSystem → File → Option Bytes → File
unfolding read
current_path fs f none = record f { current_file = f.file_path }
current_path fs f (some p) = read fs (record f { current_file = p })

-- CUwbNxpConfig::setCountry
unfoldable pub set_country : FileSystem → Bytes → File → File
unfolding current_path substitute
set_country fs country f =
    if f.country_specific
    then current_path fs f (substitute country_code_specifier country f.file_path)
    else f

-- CUwbNxpConfig::find
abbrev pub find : Bytes → File → Option Param
find name f = lookup name f.settings

-- CUwbNxpConfig::reset
abbrev pub reset : File → File
reset f = record f { settings = []; valid = false }
