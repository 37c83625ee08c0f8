-- ===== src/Hal/CapsInfo.antt =====
-- phNxpUciHal_parse_get_capsInfo of uwb/halimpl/hal/phNxpUciHal.cc: the response to
-- CORE_GET_CAPS_INFO, rewritten in place with the capabilities of the configuration.
pub mod Rewrite
pub mod Report
pub mod FirstByte
use device_xiaomi_odin.Prelude.{
  ℕ, zero, suc, ◌+◌, ◌-◌, ◌%◌, Bool, true, false, not, ◌&&◌, ◌||◌, Option, none, some, List, [],
  ◌∷◌, ◌++◌, ltb, leb, ◌==◌, if◌then◌else◌, Bytes, length, set, take, and_then,
}
use device_xiaomi_odin.Uci.Packet.{byte, message_type, gid, oid, mt_rsp}

-- isAntennaRxPairDefined and numberOfAntennaPairs
pub record Antenna : Type 0 where
  pub is_rx_pair_defined : Bool
  pub number_of_pairs : ℕ

-- The variables of the loop: what is written to pDeviceCapsInfo, the two counts, where p_caps_value
-- points (none before it is set), and the packet.
pub record Walk : Type 0 where
  pub device_caps : Bytes
  pub caps_len : ℕ
  pub data_len : ℕ
  pub caps_value : Option ℕ
  pub packet : Bytes

-- ARRAY_TO_STREAM: `n` bytes from `i` on.
unfoldable pub slice : Bytes → ℕ → ℕ → Bytes
slice p i zero = []
slice p i (suc n) = byte p i ∷ slice p (i + 1) n

abbrev pub aoa_support_tag : ℕ
aoa_support_tag = 0x13

abbrev pub ccc_protocol_versions_tag : ℕ
ccc_protocol_versions_tag = 0xA4

-- The write through p_caps_value for the tag of the AoA support.
unfoldable pub set_aoa : Antenna → ℕ → Bytes → Bytes
set_aoa a at p =
    if a.is_rx_pair_defined
    then if a.number_of_pairs == 1
      then set p at 1
      else if ltb 1 a.number_of_pairs
      then set p at 5
      else p
    else set p at 0

-- An entry with a tag of one byte, whose values p_caps_value points to.
unfoldable pub copy_entry : ℕ → ℕ → ℕ → Walk → Walk
unfolding slice
copy_entry tag len at w =
    let p : Bytes = w.packet in
    let versions : Bytes = byte p (at + len - 1) ∷ byte p at ∷ [] in
    let copied : Bytes = slice p at len in
    record w {
      device_caps =
          w.device_caps
          ++ tag ∷ len ∷ (if tag == ccc_protocol_versions_tag then versions else copied);
      caps_value = some at;
    }

-- The entry of the AoA support. It does not set p_caps_value, so the values are those of the entry
-- in front; none stands for a pointer that has not been set.
unfoldable pub aoa_entry : Antenna → ℕ → ℕ → Option ℕ → Walk → Option Walk
unfolding set_aoa copy_entry
aoa_entry a tag len none w = none
aoa_entry a tag len (some at) w =
    some (copy_entry tag len at (record w { packet = set_aoa a at w.packet }))

-- An entry of a vendor is left out: three bytes and its values.
unfoldable pub skip_entry : ℕ → Walk → Walk
skip_entry len w = record w {
  caps_len = (w.caps_len + 255) % 256;
  data_len = (w.data_len + 512 - (len + 3)) % 256;
}

-- The loop from `index` on; it ends within as many rounds as the packet has bytes.
unfoldable pub walk : ℕ → Antenna → ℕ → ℕ → Walk → Option Walk
unfolding copy_entry aoa_entry skip_entry
walk zero a size index w = if ltb index size then none else some w
walk (suc n) a size index w =
    let tag : ℕ = byte w.packet index in
    let len : ℕ = byte w.packet (index + 1) in
    let skipped : ℕ = byte w.packet (index + 2) in
    let copied : Walk = copy_entry tag len (index + 2) w in
    let aoa : Option Walk =
      and_then (aoa_entry a tag len w.caps_value w) λ w'. walk n a size (index + 2 + len) w' in
    let rest : Option Walk = walk n a size (index + 2 + len) copied in
    let behind : Option Walk = walk n a size (index + 3 + skipped) (skip_entry skipped w) in
    if not (ltb index size)
    then some w
    else if tag == 0xE0 || tag == 0xE3
    then if leb size (index + 2) then some w else behind
    else if tag == aoa_support_tag
    then aoa
    else rest

-- The entries of the configured capabilities, counted by a loop that runs once at least.
unfoldable pub count_params : ℕ → Bytes → ℕ → ℕ
count_params zero v index = 0
count_params (suc n) v index =
    let next : ℕ = index + 2 + byte v (index + 1) in
    let rest : ℕ = count_params n v next in if ltb next (length v) then rest + 1 else 1

-- The packet that is written over the received one, as long as rx_data_len says; 0 stands for what
-- pDeviceCapsInfo holds behind the entries.
unfoldable pub rewritten : Bytes → Walk → Bytes
unfolding slice count_params
rewritten vendor w =
    let size : ℕ = (w.data_len + length vendor) % 256 in
    let count : ℕ = (w.caps_len + count_params (length vendor) vendor 0) % 256 in
    let body : Bytes = slice (w.device_caps ++ vendor) 0 size in
    take (size + 4) (0x40 ∷ 0x03 ∷ 0x00 ∷ size ∷ 0x00 ∷ count ∷ body)

-- The configured capabilities are added if there are any.
unfoldable pub add_vendor : Option Bytes → Walk → Bytes
unfolding rewritten
add_vendor none w = w.packet
add_vendor (some []) w = w.packet
add_vendor (some (x ∷ v)) w = rewritten (x ∷ v) w

abbrev pub walk_start : Bytes → Walk
walk_start p = record {
  device_caps = [];
  caps_len = byte p 5;
  data_len = byte p 3;
  caps_value = none;
  packet = p;
}

-- phNxpUciHal_parse_get_capsInfo, for UWB_VENDOR_CAPABILITY as the configuration gives it.
unfoldable pub parse_get_caps_info : Antenna → Option Bytes → Bytes → Option Bytes
unfolding walk add_vendor
parse_get_caps_info a config p =
    let done : Option Bytes =
      and_then (walk (length p) a (length p) 6 (walk_start p)) λ w. some (add_vendor config w) in
    if message_type p == mt_rsp && gid p == 0x00 && oid p == 0x03 && byte p 4 == 0
    then done
    else some p
