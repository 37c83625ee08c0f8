-- ===== src/Uci/Tests.antt =====
-- The theorems on UCI packets, applied to small packets.
use device_xiaomi_odin.Prelude.{
  ℕ, ◌≢◌, Bytes, ◌+◌, ◌%◌, ◌≤◌, ◌≡◌, refl, inl, inr, true, false, ◌&&◌, none, some, [], ◌∷◌, arith,
  length, All, if◌then◌else◌,
}
use device_xiaomi_odin.Status.{success, response_timeout}
use device_xiaomi_odin.Uci.Tlv.{TagMap, tag_bytes, write_entries, find}
use device_xiaomi_odin.Uci.Tlv.RoundTrip.{IsEntry, IsSorted}
use device_xiaomi_odin.Uci.Parse.{Caps, blocked_response, to_stack, parse}
use device_xiaomi_odin.Uci.CapsReport.{caps_packet, HasMask, AreMasked, parse-caps_packet}
use device_xiaomi_odin.Uci.Blocking
use device_xiaomi_odin.Uci.Blocking.{asks_restricted, parse-app_config}
use device_xiaomi_odin.Uci.AppConfig.{handle_vendor_config}
use device_xiaomi_odin.Uci.AppConfig.Removal.{
  Params, without_vendor, app_config, handle_vendor_config-app_config,
}
use device_xiaomi_odin.Uci.AppConfig.Wrap.{handle_vendor_config_never}
use device_xiaomi_odin.Uci.Country.{
  reset_settings, apply_country_caps, country_channels, is_valid_country_code,
}
use device_xiaomi_odin.Uci.Country.Groups.{
  Groups, groups_bytes, country_settings, apply_country_caps-groups,
}
use device_xiaomi_odin.Uci.Command.{Attempt, Outcome, is_retry_required, process_ext_cmd_rsp}
use device_xiaomi_odin.Uci.Command.Retries.{process_ext_cmd_rsp-ends, process_ext_cmd_rsp-unwritten}

-- A short tag, the channels, and an extended tag.
abbrev three_entries : TagMap
three_entries = (0x01, 2 ∷ 5 ∷ 6 ∷ []) ∷ (0x0E, 1 ∷ 0x09 ∷ []) ∷ (0xE012, 1 ∷ 7 ∷ []) ∷ []

three-IsEntry : All IsEntry three_entries
three-IsEntry =
    ((inl (omega arith, refl), refl), ((inl (omega arith, refl), refl), ((inr refl, refl), tt)))

three-IsSorted : IsSorted three_entries
three-IsSorted = ((omega arith, (omega arith, tt)), ((omega arith, tt), (tt, tt)))

-- A country without channel 9.
abbrev restricted : Caps
restricted = record {
  input_map = [];
  conf_map = (0x0E, 1 ∷ 0xF7 ∷ []) ∷ [];
  map_created = true;
  restricted_channel_mask = 512;
  is_skip_packet = false;
}

found_conf : find 0x0E restricted.conf_map ≡ some (1 ∷ 0xF7 ∷ [])
unfolding find
found_conf = refl

found_channels : find 0x0E three_entries ≡ some (1 ∷ 0x09 ∷ [])
unfolding find
found_channels = refl

not_channels :
    (tag : ℕ) → tag ≢ 0x0E → tag ≢ 0xA3 → (v : Bytes) → HasMask restricted.conf_map (tag, v)
not_channels tag a b v = inl (inl (a, b))

parse-caps_packet_example :
    (m' : TagMap) × AreMasked restricted.conf_map three_entries m'
    × (parse 9 (caps_packet 13 3 three_entries) restricted
        ≡ some (record {
          skip = false;
          caps = record restricted { input_map = []; is_skip_packet = true };
          actions =
              to_stack (
                0x40
                ∷ 0x03
                ∷ 0x00
                ∷ (length (write_entries m') + 2) % 256
                ∷ 0x00
                ∷ length m' % 256
                ∷ write_entries m')
              ∷ [];
        }))
parse-caps_packet_example =
    parse-caps_packet 9 13 3 three_entries restricted three-IsEntry three-IsSorted (refl, refl)
      (
        not_channels 0x01 (ground arith) (ground arith) (2 ∷ 5 ∷ 6 ∷ []),
        (
          inr (1 ∷ 0xF7 ∷ [], inl refl, found_conf, omega arith),
          (not_channels 0xE012 (ground arith) (ground arith) (1 ∷ 7 ∷ []), tt),
        ),
      )

-- Two parameters of the vendor among four.
abbrev four_params : Params
four_params = (0x04, 9 ∷ []) ∷ (0xE3, 1 ∷ 2 ∷ []) ∷ (0xE012, 7 ∷ []) ∷ (0x1C, []) ∷ []

handle_vendor_config-app_config_example :
    handle_vendor_config 4 (app_config 1 2 3 4 four_params)
    ≡ some (app_config 1 2 3 4 (without_vendor four_params))
unfolding tag_bytes
handle_vendor_config-app_config_example =
    handle_vendor_config-app_config 4 1 2 3 4 four_params
      (
        (inl (omega arith, refl), omega arith),
        (
          (inl (omega arith, refl), omega arith),
          ((inr refl, omega arith), ((inl (omega arith, refl), omega arith), tt)),
        ),
      )
      (omega arith) (omega arith)

handle_vendor_config_never_example :
    handle_vendor_config 5 (0x21 ∷ 0x03 ∷ 1 ∷ 4 ∷ 0 ∷ 0 ∷ 0 ∷ 0 ∷ 1 ∷ 0x06 ∷ 254 ∷ 0 ∷ []) ≡ none
handle_vendor_config_never_example =
    handle_vendor_config_never 5 0x06 1 4 0 0 0 0 1 (0 ∷ []) (refl, refl) (omega arith)

-- Korea has no channel 9, and the second group is Japan's.
abbrev two_countries : Groups
two_countries =
    ((b'K', b'R'), (0x01, 1 ∷ []) ∷ (0x03, 0 ∷ []) ∷ []) ∷ ((b'J', b'P'), (0x01, 0 ∷ []) ∷ []) ∷ []

apply_country_caps-groups_example :
    ((apply_country_caps b'K' b'R' (2 ∷ groups_bytes two_countries) 6).0
      ≡ record (country_settings b'K' b'R' two_countries reset_settings) {
        uwb_enable =
            is_valid_country_code b'K' b'R'
            && (country_settings b'K' b'R' two_countries reset_settings).uwb_enable;
      })
    × ((apply_country_caps b'K' b'R' (2 ∷ groups_bytes two_countries) 6).1
        ≡ country_channels
            (country_settings b'K' b'R' two_countries reset_settings).restricted_channel_mask
            6)
apply_country_caps-groups_example =
    apply_country_caps-groups b'K' b'R' 2 6 two_countries
      ((ground arith, (ground arith, tt)), ((ground arith, tt), tt))

-- A round without an answer, and one that cannot write.
abbrev silent : Attempt
silent = record {
  written = true;
  parse_enabled = false;
  timer_start = success;
  waited = true;
  response = response_timeout;
}

abbrev unwritten : Attempt
unwritten = record silent { written = false }

process_ext_cmd_rsp-ends_example :
    (o : Outcome) × (process_ext_cmd_rsp true 0x20 0
        (silent ∷ silent ∷ silent ∷ silent ∷ silent ∷ silent ∷ silent ∷ [])
      ≡ some o)
    × (o.writes ≤ 7)
process_ext_cmd_rsp-ends_example =
    process_ext_cmd_rsp-ends true 0x20 0
      (silent ∷ silent ∷ silent ∷ silent ∷ silent ∷ silent ∷ silent ∷ []) (omega arith)

waits : is_retry_required 0x20 ≡ false
unfolding is_retry_required
waits = refl

process_ext_cmd_rsp-unwritten_example :
    process_ext_cmd_rsp true 0x20 0 (silent ∷ unwritten ∷ [])
    ≡ some (record { status = success; writes = 2; notifications = 0 })
process_ext_cmd_rsp-unwritten_example =
    process_ext_cmd_rsp-unwritten 0x20 0 silent unwritten [] waits (refl, refl, refl, refl, refl)
      refl

-- Channel 9 is asked for where it is not allowed.
parse-app_config_example :
    parse 3 (Blocking.app_config 1 2 3 4 ((0x06, 7 ∷ 8 ∷ []) ∷ (0x04, 9 ∷ []) ∷ [])) restricted
    ≡ some (record {
      skip = asks_restricted 512 ((0x06, 7 ∷ 8 ∷ []) ∷ (0x04, 9 ∷ []) ∷ []);
      caps = restricted;
      actions =
          if asks_restricted 512 ((0x06, 7 ∷ 8 ∷ []) ∷ (0x04, 9 ∷ []) ∷ [])
          then to_stack blocked_response ∷ []
          else [];
    })
parse-app_config_example =
    parse-app_config 3 1 2 3 4 ((0x06, 7 ∷ 8 ∷ []) ∷ (0x04, 9 ∷ []) ∷ []) restricted
      (omega arith, (omega arith, tt)) (omega arith) (omega arith)
