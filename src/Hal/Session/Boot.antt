-- ===== src/Hal/Session/Boot.antt =====
-- phNxpUciHal_coreInitialization of uwb/halimpl/hal/phNxpUciHal.cc: the firmware is downloaded, again
-- after a reset if need be, and the device is brought into operation. The download, the semaphores
-- and the parts that are modelled elsewhere are in the environment: what each gives is an argument.
pub mod Reports
use device_xiaomi_odin.Prelude.{
  ℕ, zero, suc, ◌+◌, Bool, true, false, not, ◌&&◌, Option, none, some, List, [], ◌∷◌, ◌++◌, ltb,
  leb, ◌==◌, if◌then◌else◌,
}
use device_xiaomi_odin.Status.{success, failed, pending, file_not_found}
use device_xiaomi_odin.Hal.Receive.Startup.{uwb_device_init, uwb_device_ready}

-- A wait for dev_status_ntf_wait: whether it was posted in time, and uwbc_device_state then.
pub record Wait : Type 0 where
  pub posted : Bool
  pub state : ℕ

-- What one round after a successful download meets: phTmlUwb_Read, the three waits for a status of
-- the device, the board's configuration, the reset, the device information, whether the binding
-- status arrived, the firmware's mode, whether binding is allowed, and the vendor's configuration,
-- which gives none if it does not return.
pub record Round : Type 0 where
  pub read : ℕ
  pub init_wait : Wait
  pub board_config : ℕ
  pub ready_wait : Wait
  pub reset : ℕ
  pub reset_wait : Wait
  pub device_info : ℕ
  pub binding_posted : Bool
  pub user_boot_mode : Bool
  pub binding_allowed : Bool
  pub vendor_config : Option ℕ

-- phNxpUciHal_init_cb_data for the four semaphores, in the order in which they are created.
pub record Semaphores : Type 0 where
  pub dev_status : Bool
  pub binding_status : Bool
  pub get_binding_status : Bool
  pub do_bind : Bool

-- What is called: the download, phTmlUwb_Chip_Reset, phNxpUciHal_parse_binding_status_ntf,
-- phNxpUciHal_extcal_handle_coreinit, phNxpUciHal_init_complete, the callback of the stack with
-- UWB_DEVICE_READY, and the clean-up of the four semaphores.
pub data Call : Type 0 where
  fw_download chip_reset bind extcal : Call
  init_complete : ℕ → Call
  device_ready : Call
  cleanup : Call

-- A status, the calls, and uwb_device_initialized.
pub record Outcome : Type 0 where
  pub status : ℕ
  pub calls : List Call
  pub initialized : Bool

-- The label `failure`.
abbrev pub failure : List Call → Outcome
failure calls = record {
  status = failed;
  calls = calls ++ init_complete failed ∷ cleanup ∷ [];
  initialized = false;
}

abbrev pub reached : Wait → ℕ → Bool
reached w state = w.posted && w.state == state

-- The end of a round: the binding, whose failure is not reported, the vendor's configuration, the
-- calibration, and the reports.
unfoldable pub configure : Round → List Call → Option Outcome
configure r calls =
    let binds : Bool = r.binding_posted && r.user_boot_mode && r.binding_allowed in
    let bound : List Call = if binds then calls ++ bind ∷ [] else calls in
    let done : Outcome = record {
      status = success;
      calls = bound ++ extcal ∷ init_complete success ∷ device_ready ∷ cleanup ∷ [];
      initialized = true;
    } in
    elim (r.vendor_config) [
      | none ↦ none
      | some status ↦ some (if status == success then done else failure bound)
    ]

-- The round behind a successful download. A device information that fails returns at once.
unfoldable pub start_device : Round → List Call → Option Outcome
unfolding configure
start_device r calls =
    let returned : Outcome = record {
      status = r.device_info;
      calls = calls;
      initialized = false;
    } in
    let configured : Option Outcome = configure r calls in
    if not (r.read == pending)
    then some (failure calls)
    else if not (reached r.init_wait uwb_device_init)
    then some (failure calls)
    else if not (r.board_config == success)
    then some (failure calls)
    else if not (reached r.ready_wait uwb_device_ready)
    then some (failure calls)
    else if not (r.reset == success)
    then some (failure calls)
    else if not (reached r.reset_wait uwb_device_ready)
    then some (failure calls)
    else if not (r.device_info == success)
    then some returned
    else configured

abbrev pub fwd_max_retry_count : ℕ
fwd_max_retry_count = 5

-- What follows a download, with the rounds that come if it is made again; `retries` is
-- fwd_retry_count.
unfoldable pub after_download : Option Outcome → Round → ℕ → List Call → ℕ → Option Outcome
unfolding start_device
after_download rest r retries calls status =
    let started : Option Outcome = start_device r calls in
    let given_up : Option Outcome = some (failure calls) in
    if status == success
    then started
    else if status == file_not_found
    then given_up
    else if leb (retries + 1) fwd_max_retry_count
    then rest
    else given_up

-- The loop of the label `fwd_retry`, where the n-th download gives the n-th status, or none if it does
-- not return. It is on fuel, and none stands for a loop that is not over, too.
unfoldable pub fwd_retry : ℕ → (ℕ → Option ℕ) → Round → ℕ → List Call → Option Outcome
unfolding after_download
fwd_retry zero download r retries calls = none
fwd_retry (suc n) download r retries calls =
    let calls' : List Call = calls ++ fw_download ∷ [] in
    let rest : Option Outcome = fwd_retry n download r (retries + 1) (calls' ++ chip_reset ∷ []) in
    elim (download retries) [
      | none ↦ none
      | some status ↦ after_download rest r retries calls' status
    ]

abbrev pub all_created : Semaphores → Bool
all_created s = s.dev_status && s.binding_status && s.get_binding_status && s.do_bind

-- phNxpUciHal_coreInitialization. Without one of the semaphores it returns at once; those that have
-- been created are left as they are.
unfoldable pub core_initialization :
    ℕ → Bool → Semaphores → (ℕ → Option ℕ) → Round → Bool → Option Outcome
unfolding fwd_retry
core_initialization fuel is_open sems download r initialized =
    let refused : Outcome = record { status = failed; calls = []; initialized = initialized } in
    let booted : Option Outcome = fwd_retry fuel download r 0 [] in
    if not is_open then some refused else if not (all_created sems) then some refused else booted
