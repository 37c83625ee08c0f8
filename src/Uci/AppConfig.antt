-- ===== src/Uci/AppConfig.antt =====
-- handlingVendorSpecificAppConfig of uwb/halimpl/hal/phNxpUciHal.cc: parameters that the firmware
-- does not know are removed from SESSION_SET_APP_CONFIG.
pub mod Removal
pub mod Wrap
use device_xiaomi_odin.Prelude.{
  ℕ, zero, suc, ◌+◌, ◌-◌, ◌*◌, ◌/◌, ◌%◌, Bool, true, false, not, ◌&&◌, ◌||◌, Option, none, some,
  List, [], ◌∷◌, ◌++◌, ltb, leb, ◌==◌, if◌then◌else◌, Bytes, length, set, take, drop,
}
use device_xiaomi_odin.Uci.Packet.{byte, message_type, gid, oid, mt_cmd, uci_max_data_len}
use device_xiaomi_odin.Uci.Tlv.{is_extended}

-- tags_to_del
abbrev pub is_vendor_tag : ℕ → Bool
is_vendor_tag tag = tag == 0x1C || tag == 0xE3 || tag == 0xE4 || tag == 0xE5

-- What the loop has gathered: the parameters that stay, and how many parameters and bytes go.
pub record Kept : Type 0 where
  pub bytes : Bytes
  pub num_of_configs : ℕ
  pub num_of_bytes : ℕ

-- The tag and the length of the parameter, its own bytes included, at the start of the data; none
-- where the code returns. The length is a byte and wraps around.
unfoldable pub read_param : Bytes → Option (ℕ × ℕ)
read_param [] = none
read_param (x ∷ []) = none
read_param (x ∷ y ∷ []) = if is_extended x then none else some (x, (2 + y) % 256)
read_param (x ∷ y ∷ z ∷ r) =
    if is_extended x then some (x * 256 + y, (3 + z) % 256) else some (x, (2 + y) % 256)

-- How the loop ends: at the end of the data, with a return, or not before the fuel is used up.
pub data Loop : Type 0 where
  finished : Kept → Loop
  returned : Loop
  out_of_fuel : Loop

abbrev pub keep : Bytes → Kept → Kept
keep param k = record k { bytes = k.bytes ++ param }

abbrev pub remove : ℕ → Kept → Kept
remove n k = record k { num_of_configs = k.num_of_configs + 1; num_of_bytes = k.num_of_bytes + n }

-- The loop over what is left of the packet.
unfoldable pub filter_params : ℕ → Bytes → Kept → Loop
unfolding read_param
filter_params n [] k = finished k
filter_params zero (x ∷ d) k = out_of_fuel
filter_params (suc n) (x ∷ d) k = elim (read_param (x ∷ d)) [
  | none ↦ returned
  | some (tag, len) ↦
      let removed = filter_params n (drop len (x ∷ d)) (remove len k) in
      let kept = filter_params n (drop len (x ∷ d)) (keep (take len (x ∷ d)) k) in
      if not (leb len (length (x ∷ d)))
      then returned
      else if is_vendor_tag tag
      then removed
      else kept
]

-- The packet behind the loop, from its first nine bytes, or none where the code returns early: the
-- count of the parameters and the length in the header go down.
unfoldable pub rebuild : Bytes → Kept → Option Bytes
rebuild p k =
    let header_len : ℕ = byte p 3 + byte p 2 * 256 in
    let left : ℕ = header_len - k.num_of_bytes in
    let counted : Bytes = set (take 9 p) 8 (byte p 8 - k.num_of_configs) in
    let sized : Bytes = set (set counted 2 (left / 256 % 256)) 3 (left % 256) in
    if ltb (byte p 8) k.num_of_configs
    then none
    else if ltb (length p) k.num_of_bytes
    then none
    else if ltb header_len k.num_of_bytes
    then none
    else some (sized ++ k.bytes)

abbrev pub nothing_kept : Kept
nothing_kept = record { bytes = []; num_of_configs = 0; num_of_bytes = 0 }

-- handlingVendorSpecificAppConfig; none is a loop that is not over when the fuel is.
unfoldable pub handle_vendor_config : ℕ → Bytes → Option Bytes
unfolding filter_params rebuild
handle_vendor_config fuel p =
    let changed : Option Bytes = elim (filter_params fuel (drop 9 p) nothing_kept) [
      | out_of_fuel ↦ none
      | returned ↦ some p
      | finished k ↦ elim (rebuild p k) [ none ↦ some p | some q ↦ some q ]
    ] in
    if not (message_type p == mt_cmd && gid p == 0x01 && oid p == 0x03)
    then some p
    else if ltb uci_max_data_len (length p)
    then some p
    else changed
