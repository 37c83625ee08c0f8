-- ===== src/Hal/Write.antt =====
-- phNxpUciHal_write_unlocked, phNxpUciHal_write_complete and phNxpUciHal_write of
-- uwb/halimpl/hal/phNxpUciHal.cc: a packet of the stack on its way to the device.
pub mod AppConfig
use device_xiaomi_odin.Prelude.{
  ℕ, ◌+◌, ◌%◌, Bool, true, false, not, ◌&&◌, ◌||◌, Option, none, some, List, [], ◌∷◌, and_then, ltb,
  ◌==◌, if◌then◌else◌, Bytes, length,
}
use device_xiaomi_odin.Status.{success, failed, pending}
use device_xiaomi_odin.Uci.Packet.{uci_max_data_len}
use device_xiaomi_odin.Uci.Parse.{
  Caps, Action, set_country_code, process_calibration, to_stack, Parsed, parse,
}
use device_xiaomi_odin.Uci.AppConfig.{handle_vendor_config}
use device_xiaomi_odin.Hal.TxPower.{process_calib_param}
use device_xiaomi_odin.Uci.Command.{Attempt, Outcome, process_ext_cmd_rsp}

-- What the write meets: phNxpUciHal_init_cb_data, phTmlUwb_Write, SEM_WAIT, the country's offset of
-- the powers (tx_power_offset, by its 16 bits), and the fuel of the loops over the packet.
pub record Environment : Type 0 where
  pub fuel : ℕ
  pub sem_ok : Bool
  pub tml_write : ℕ
  pub waited : Bool
  pub tx_power_offset : ℕ

-- The result, hal_parse_enabled, the packet that phTmlUwb_Write has been given, what phNxpUciHal_parse
-- leaves behind and what it has called.
pub record Written : Type 0 where
  pub result : ℕ
  pub parse_enabled : Bool
  pub to_device : Option Bytes
  pub caps : Caps
  pub actions : List Action

-- The packet as phNxpUciHal_parse leaves it in p_cmd_data: for a calibration of the powers
-- phNxpUciHal_processCalibParamTxPowerPerAntenna has written over it.
unfoldable pub rewritten_command : ℕ → List Action → Bytes → Bytes
unfolding process_calib_param
rewritten_command o [] q = q
rewritten_command o (process_calibration p ∷ actions) q = (process_calib_param o p).1
rewritten_command o (set_country_code c₀ c₁ ∷ actions) q = q
rewritten_command o (to_stack b ∷ actions) q = q

-- The part behind phNxpUciHal_parse; `len` is the length that the caller gave, and `q` the packet
-- without the parameters of the vendor.
unfoldable pub hand_over : Environment → ℕ → Bytes → Parsed → Written
unfolding rewritten_command
hand_over env len q r =
    let kept : Written = record {
      result = len;
      parse_enabled = true;
      to_device = none;
      caps = r.caps;
      actions = r.actions;
    } in
    let given : Written = record kept {
      parse_enabled = false;
      to_device = some (rewritten_command env.tx_power_offset r.actions q);
    } in
    let nothing : Written = record given { result = 0 } in
    if r.skip
    then kept
    else if not (env.tml_write == pending)
    then nothing
    else if not env.waited
    then nothing
    else given

-- phNxpUciHal_write_unlocked. `parse_enabled` is the flag of an earlier call where nothing is parsed.
unfoldable pub write_unlocked : Environment → Bool → Bytes → Caps → Option Written
unfolding hand_over
write_unlocked env parse_enabled p s =
    let refused : Written = record {
      result = 0;
      parse_enabled = parse_enabled;
      to_device = none;
      caps = s;
      actions = [];
    } in
    let written : Option Written =
      and_then (handle_vendor_config env.fuel p)
        λ q. and_then (parse env.fuel q s) λ r. some (hand_over env (length p) q r) in
    if not env.sem_ok
    then some refused
    else if ltb uci_max_data_len (length p) || ltb (length p) 4
    then some refused
    else written

-- phNxpUciHal_write_complete: the status that is left for the waiting write, which is woken up.
unfoldable pub write_complete : ℕ → ℕ × ℕ → ℕ × ℕ
write_complete status (s, posts) = (status, posts + 1)

-- What a round of phNxpUciHal_process_ext_cmd_rsp sees of the write.
abbrev pub attempt_of : Written → ℕ → ℕ → Bool → ℕ → Attempt
attempt_of w cmd_len timer_start waited response = record {
  written = w.result == cmd_len;
  parse_enabled = w.parse_enabled;
  timer_start = timer_start;
  waited = waited;
  response = response;
}
