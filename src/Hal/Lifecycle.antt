-- ===== src/Hal/Lifecycle.antt =====
-- phNxpUciHal_open and phNxpUciHal_close of uwb/halimpl/hal/phNxpUciHal.cc, with their reports. The
-- transport layer is the one of Tml.antt.
pub mod OpenClose
use device_xiaomi_odin.Prelude.{
  ℕ, Bool, true, false, not, Option, none, some, List, [], ◌∷◌, ◌++◌, ◌==◌, if◌then◌else◌,
}
use device_xiaomi_odin.Status.{success, failed}
use device_xiaomi_odin.Timer
use device_xiaomi_odin.Timer.Slots.{Table}
use device_xiaomi_odin.Config.Cascade.{Cascade, Environment, nxp_config_init, deinit}
use device_xiaomi_odin.Tml
use device_xiaomi_odin.Tml.{DeviceCall, read_abort, write_abort}
use device_xiaomi_odin.Tml.State.{Context}

-- halStatus, whether the callbacks of the stack are set, hal_open_status, uwb_device_initialized,
-- gpphTmlUwb_Context, whether the lock of CONCURRENCY_LOCK is held, apTimerInfo, timeoutTimerId, and
-- the configuration.
pub record Hal : Type 0 where
  pub is_open : Bool
  pub has_stack : Bool
  pub open_status : Bool
  pub device_initialized : Bool
  pub tml : Option Context
  pub is_locked : Bool
  pub timers : Table
  pub timeout_timer_id : ℕ
  pub config : Cascade

-- What opening meets: the files of the configuration, timer_create, phNxpUciHal_init_monitor, the message queue, and pthread_create.
pub record OpenEnvironment : Type 0 where
  pub files : Environment
  pub timer_create : Option ℕ
  pub monitor : Bool
  pub queue : ℕ
  pub tml : Tml.Environment
  pub thread_created : Bool

-- HAL_UWB_ERROR_EVT to the callback of the stack, and the messages of phNxpUciHal_open_complete and
-- phNxpUciHal_close_complete.
pub data Report : Type 0 where
  error_evt open_cplt_msg close_cplt_msg error_msg : Report

-- phNxpUciHal_open_complete
unfoldable pub open_complete : ℕ → Hal → Hal × List Report
open_complete status h =
    let opened : Hal = record h { is_open = true; open_status = true } in
    if status == success then (opened, open_cplt_msg ∷ []) else (h, error_msg ∷ [])

-- phNxpUciHal_close_complete
unfoldable pub close_complete : ℕ → List Report
close_complete status = if status == success then close_cplt_msg ∷ [] else error_msg ∷ []

-- The control block behind `memset`, with the lock that is not in it.
abbrev pub zeroed : Hal → Hal
zeroed h = record h { is_open = false; has_stack = false; open_status = false }

-- The label `clean_and_return` of phNxpUciHal_open: the lock is released.
abbrev pub clean_and_return : Hal → Hal × List Report
clean_and_return h =
    (record h { is_open = false; has_stack = false; is_locked = false }, error_evt ∷ [])

-- What follows phTmlUwb_Init, from its status and its context. When the client thread cannot be
-- created, the status is that of phTmlUwb_Shutdown.
unfoldable pub start_client : Bool → Hal → ℕ → Option Context → ℕ × Hal × List Report
unfolding open_complete
start_client created h status c =
    let initialised : Hal = record h { tml = c } in
    let (no_tml, not_initialised) = clean_and_return initialised in
    let (shut, c', calls) = Tml.shutdown c in
    let (no_thread, reported) = clean_and_return (record h { tml = c' }) in
    let (opened, complete) = open_complete status (record initialised { is_locked = false }) in
    if not (status == success)
    then (status, no_tml, not_initialised)
    else if not created
    then (shut, no_thread, reported)
    else (status, opened, complete)

-- NxpConfig_Init and phOsalUwb_Timer_Create, whose result is not looked at.
unfoldable pub set_up : OpenEnvironment → Hal → Hal
set_up env h =
    let timer = Timer.create env.timer_create h.timers in
    record h {
      config = nxp_config_init env.files h.config;
      timers = timer.table;
      timeout_timer_id = timer.result;
    }

-- phNxpUciHal_open
unfoldable pub open_hal : OpenEnvironment → Hal → ℕ × Hal × List Report
unfolding start_client set_up
open_hal env h =
    let ready : Hal = set_up env h in
    let locked : Hal = record (zeroed ready) {
      is_open = true;
      has_stack = true;
      is_locked = true;
    } in
    let (status, c, calls) = Tml.init env.tml (some env.queue) h.tml in
    let started : ℕ × Hal × List Report = start_client env.thread_created locked status c in
    if h.is_open then (success, h, []) else if not env.monitor then (failed, ready, []) else started

abbrev pub has_device : Option Context → Bool
has_device none = false
has_device (some c) = c.has_device

abbrev pub aborted : Option Context → Option Context
aborted none = none
aborted (some c) = some (write_abort (read_abort c))

-- phNxpUciHal_close; `sem_ok` says that phNxpUciHal_init_cb_data gives a semaphore. Without one it
-- returns with the lock held.
unfoldable pub close_hal : Bool → Hal → ℕ × Hal × List Report
unfolding close_complete
close_hal sem_ok h =
    let locked : Hal = record h { device_initialized = false; is_locked = true; is_open = false } in
    let (status, c, calls) = Tml.shutdown (aborted h.tml) in
    let (timers, deleted) = Timer.cleanup h.timers in
    let closed : Hal =
      zeroed
        (record locked { tml = c; is_locked = false; timers = timers; config = deinit h.config }) in
    let unlocked : Hal = record locked { is_locked = false; config = deinit h.config } in
    if not h.is_open
    then (failed, h, [])
    else if has_device h.tml
    then if not sem_ok then (failed, locked, []) else (success, closed, close_complete success)
    else (success, unlocked, [])
