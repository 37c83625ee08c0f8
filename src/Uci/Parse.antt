-- ===== src/Uci/Parse.antt =====
-- phNxpUciHal_parse of uwb/halimpl/hal/phNxpUciHal.cc: what is done to a packet on its way.
use Prim.Native.Nat.{bit_and}
use device_xiaomi_odin.Prelude.{
  ℕ, zero, suc, ◌+◌, ◌/◌, ◌%◌, Bool, true, false, not, ◌&&◌, ◌||◌, Option, none, some, List, [],
  ◌∷◌, ltb, ◌==◌, if◌then◌else◌, Bytes, length,
}
use device_xiaomi_odin.Uci.Packet.{byte, message_type, gid, oid, mt_cmd, mt_rsp}
use device_xiaomi_odin.Uci.Tlv.{TagMap, find, get_input_map, write_entries}

-- The state that the function reads and writes: the two maps, whether the country has been set,
-- the channels that are blocked, and the flag that drops a packet.
pub record Caps : Type 0 where
  pub input_map : TagMap
  pub conf_map : TagMap
  pub map_created : Bool
  pub restricted_channel_mask : ℕ
  pub is_skip_packet : Bool

-- The calls it makes: phNxpUciHal_handle_set_country_code, the handling of a calibration
-- command, and the callback of the stack.
pub data Action : Type 0 where
  set_country_code : ℕ → ℕ → Action
  process_calibration : Bytes → Action
  to_stack : Bytes → Action

pub record Parsed : Type 0 where
  pub skip : Bool
  pub caps : Caps
  pub actions : List Action

abbrev pub channel_tag : ℕ
channel_tag = 0x04

-- The mask has a bit for each channel.
abbrev pub is_restricted : ℕ → ℕ → Bool
is_restricted mask ch = ch == 5 && mask / 32 % 2 == 1 || ch == 9 && mask / 512 % 2 == 1

-- The loop over the parameters of SESSION_SET_APP_CONFIG: whether a blocked channel is asked for.
-- The index is a byte and wraps around; none stands for a loop that is not over when the fuel is.
unfoldable pub blocks_channel : ℕ → ℕ → ℕ → ℕ → Bytes → Option Bool
blocks_channel zero mask len index p = none
blocks_channel (suc n) mask len index p =
    let tag : ℕ = byte p index in
    let at : ℕ = (index + 2) % 256 in
    let size : ℕ = byte p ((index + 1) % 256) in
    let rest : Option Bool = blocks_channel n mask len ((at + size) % 256) p in
    if not (ltb index len)
    then some false
    else if tag == channel_tag && is_restricted mask (byte p at)
    then some true
    else rest

abbrev pub blocked_response : Bytes
blocked_response = 0x41 ∷ 0x03 ∷ 0x04 ∷ 0x04 ∷ 0x02 ∷ 0x01 ∷ 0x04 ∷ 0x56 ∷ []

-- The values of the response, masked by those of the country. Where the country has fewer values
-- the code reads behind its vector: what it finds there is not modelled, and 0 only stands in for it.
unfoldable pub and_values : Bytes → Bytes → Bytes
and_values c [] = []
and_values [] (x ∷ v) = bit_and 0 x ∷ and_values [] v
and_values (a ∷ c) (x ∷ v) = bit_and a x ∷ and_values c v

-- UWB_CHANNELS and CCC_UWB_CHANNELS
abbrev pub is_channels : ℕ → Bool
is_channels tag = tag == 0x0E || tag == 0xA3

unfoldable pub mask_value : TagMap → ℕ → Bytes → Bytes
unfolding find and_values
mask_value conf tag v = elim (find tag conf) [
  | none ↦ v
  | some c ↦ let masked = and_values c v in if is_channels tag then masked else v
]

unfoldable pub mask_channels : TagMap → TagMap → TagMap
unfolding mask_value
mask_channels conf [] = []
mask_channels conf ((tag, v) ∷ m) = (tag, mask_value conf tag v) ∷ mask_channels conf m

-- The response that is sent in place of the one that came.
unfoldable pub caps_response : Bytes → TagMap → Bytes
unfolding write_entries
caps_response p m =
    let body = write_entries m in
    byte p 0 ∷ byte p 1 ∷ byte p 2 ∷ (length body + 2) % 256 ∷ byte p 4 ∷ length m % 256 ∷ body

-- The branch of CORE_GET_CAPS_INFO. A failure leaves what was read in the input map.
unfoldable pub parse_caps : Bytes → Caps → Parsed
unfolding get_input_map mask_channels caps_response
parse_caps p s =
    let (ok, m) = get_input_map p 6 s.input_map in
    let failed : Caps = record s { input_map = m } in
    let sent : Caps = record s { input_map = []; is_skip_packet = true } in
    let response = caps_response p (mask_channels s.conf_map m) in
    if not s.map_created
    then record { skip = false; caps = s; actions = [] }
    else if not (byte p 4 == 0)
    then record { skip = false; caps = s; actions = [] }
    else if not ok
    then record { skip = false; caps = failed; actions = [] }
    else record { skip = false; caps = sent; actions = to_stack response ∷ [] }

-- The branch of SESSION_SET_APP_CONFIG.
unfoldable pub parse_app_config : ℕ → Bytes → Caps → Option Parsed
unfolding blocks_channel
parse_app_config fuel p s =
    elim (blocks_channel fuel s.restricted_channel_mask ((byte p 3 + 4) % 256) 9 p) [
      | none ↦ none
      | some true ↦
          some (record { skip = true; caps = s; actions = to_stack blocked_response ∷ [] })
      | some false ↦ some (record { skip = false; caps = s; actions = [] })
    ]

-- phNxpUciHal_parse
unfoldable pub parse : ℕ → Bytes → Caps → Option Parsed
unfolding parse_caps parse_app_config
parse fuel p s =
    let nothing : Parsed = record { skip = false; caps = s; actions = [] } in
    let calibrated : Parsed = record nothing { actions = process_calibration p ∷ [] } in
    let country : Parsed = record {
      skip = true;
      caps = s;
      actions =
          (if length p == 6
            then set_country_code (byte p 4) (byte p 5) ∷ []
            else set_country_code b'0' b'0' ∷ []);
    } in
    let configured = parse_app_config fuel p s in
    let reported = parse_caps p s in
    if message_type p == mt_cmd
    then if gid p == 0x0C && oid p == 0x01
      then some country
      else if gid p == 0x0F && oid p == 0x21
      then if byte p 5 == 0x04 then some calibrated else some nothing
      else if gid p == 0x01 && oid p == 0x03
      then configured
      else some nothing
    else if message_type p == mt_rsp
    then if gid p == 0x00 && oid p == 0x03 then some reported else some nothing
    else some nothing
