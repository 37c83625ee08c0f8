-- ===== src/Hal/Receive.antt =====
-- phNxpUciHal_read_complete of uwb/halimpl/hal/phNxpUciHal.cc, which is called for each packet that
-- the transport layer has read: what is kept of the packet, whom it wakes up, and whether the stack
-- gets it. phNxpUciHal_process_response is in Hal/Receive/Response.antt.
pub mod State
pub mod Response
pub mod Startup
pub mod Calls
pub mod Quiet
pub mod Ends
pub mod Delivery
pub mod OwnCommands
use device_xiaomi_odin.Prelude.{
  ℕ, ◌+◌, ◌/◌, ◌%◌, Bool, true, false, not, ◌&&◌, ◌||◌, Option, none, some, List, [], ◌∷◌, ◌++◌,
  map, and_then, ltb, leb, ◌==◌, if◌then◌else◌, Bytes, length,
}
use device_xiaomi_odin.Status.{success, failed, command_retransmit, invalid_command_length}
use device_xiaomi_odin.Uci.Packet.{byte, mt_rsp, mt_ntf}
use device_xiaomi_odin.Uci.Parse.{Caps, Action, Parsed, parse}
use device_xiaomi_odin.Hal.CapsInfo.{parse_get_caps_info}
use State.{
  Header, header, Control, Environment, Wait, ext_cb, Event, deliver, post, read_again, of_action,
  Work,
}
use Response.{process_response, process_ext_rsp}
use Startup.{startup}

-- phNxpUciHal_parse, whose result is not looked at.
unfoldable pub parsed : Work → Parsed → Work
parsed w p = record w {
  control = record (w.control) { caps = p.caps };
  skip = p.caps.is_skip_packet;
  events = w.events ++ map of_action p.actions;
}

unfoldable pub parse_step : Environment → Work → Option Work
unfolding parsed
parse_step env w =
    let cleared : Caps = record (w.control.caps) { is_skip_packet = false } in
    and_then (parse env.fuel w.packet cleared) λ p. some (parsed w p)

-- The notifications of the debug log are dropped.
unfoldable pub drop_debug : Header → Work → Work
drop_debug h w =
    let dropped : Work = record w { skip = true } in
    if not w.skip && h.mt == mt_ntf && h.gid == 0x0B && h.oid == 0x22 then dropped else w

-- A generic error that concerns the command: its status, and the flag that wakes the command up.
unfoldable pub set_ext_status : ℕ → Work → Work
set_ext_status s w = record w {
  control = record (w.control) { ext_status = s };
  skip = true;
  wakeup = true;
}

unfoldable pub retransmission : Header → Work → Work
unfolding set_ext_status
retransmission h w =
    let again : Work = set_ext_status command_retransmit w in
    let shorter : Work = set_ext_status invalid_command_length w in
    if not w.skip && not h.pbf && h.mt == mt_ntf && h.gid == 0x00 && h.oid == 0x07
    then if byte w.packet 4 == 0x0A then again else if byte w.packet 4 == 0x06 then shorter else w
    else w

-- The status of a response to a command of the HAL itself.
unfoldable pub response_status : Header → Bytes → Option ℕ
unfolding process_ext_rsp
response_status h p =
    let code : ℕ = if ltb 4 (length p) then byte p 4 else 0x0B in
    let config : Option ℕ = process_ext_rsp p in
    if code == 0x00
    then some success
    else if h.gid == 0x00 && h.oid == 0x04
    then config
    else some failed

unfoldable pub own_response : Header → Work → Option Work
unfolding response_status
own_response h w =
    let consumed : Option Work =
      and_then (response_status h w.packet)
        λ s. some (record w { control = record (w.control) { ext_status = s }; skip = true }) in
    if not w.skip && h.mt == mt_rsp && w.control.ext_enabled then consumed else some w

-- The waiting command is woken up, and the stack gets the packet.
unfoldable pub wake : Work → Work
wake w =
    let posted : Work = record w { events = w.events ++ post ext_cb ∷ [] } in
    if w.wakeup && w.control.ext_waiting then posted else w

abbrev pub uci_max_payload_len : ℕ
uci_max_payload_len = 4200

unfoldable pub forward : Work → Work
forward w =
    let sent : Work = record w { events = w.events ++ deliver w.packet ∷ [] } in
    if not w.skip && w.control.has_stack && leb (length w.packet) uci_max_payload_len
    then sent
    else w

-- The end of the download mode, and the next read.
unfoldable pub leave_download : Header → Work → Work
leave_download h w =
    let left : Work = record w { control = record (w.control) { fw_dwnld_mode = false } } in
    if w.control.fw_dwnld_mode && h.gid == 0x00 && h.oid == 0x01 then left else w

unfoldable pub next_read : Work → Work
next_read w =
    let again : Work = record w { events = w.events ++ read_again ∷ [] } in
    if w.control.is_open then again else w

-- What is done to a packet behind the calls of phNxpUciHal_parse and phNxpUciHal_process_response.
unfoldable pub dispatch : Header → Work → Option Work
unfolding startup drop_debug retransmission own_response wake forward
dispatch h w =
    let begun : Work = record (startup h w) { wakeup = h.mt == mt_rsp } in
    and_then (own_response h (retransmission h (drop_debug h begun))) λ w'. some (forward (wake w'))

-- The branch of a packet that has been read.
unfoldable pub receive : Environment → Header → Work → Option Work
unfolding parse_step process_response dispatch
receive env h w =
    and_then (parse_step env w) λ w₁. and_then (process_response env h w₁) λ w₂. dispatch h w₂

-- phNxpUciHal_parse_get_capsInfo in front of it.
unfoldable pub caps_step : Environment → Header → Work → Option Work
caps_step env h w =
    let rewritten : Option Work =
      and_then (parse_get_caps_info env.antenna env.vendor_capability w.packet)
        λ p. some (record w { packet = p }) in
    if h.gid == 0x00 && h.oid == 0x03 then rewritten else some w

abbrev pub begin : Bytes → Control → Work
begin p c = record { control = c; packet = p; skip = false; wakeup = false; events = [] }

-- phNxpUciHal_read_complete for a status and the bytes that were read. After a failure the header is
-- 0; none stands for a loop that is not over when the fuel is, or a pointer that has not been set.
unfoldable pub read_complete : Environment → ℕ → Bytes → Control → Option Work
unfolding caps_step receive leave_download next_read
read_complete env status p c =
    let h : Header = header p in
    let idle : Work = begin [] c in
    let done : Option Work =
      and_then (caps_step env h (begin p c))
        λ w. and_then (receive env h w) λ w'. some (next_read (leave_download h w')) in
    if status == success then done else some (next_read idle)
