-- ===== src/Udfps.antt =====
-- udfps/UdfpsHandler.cpp: the handler of the fingerprint sensor under the display. The writes to the
-- files of the touchscreen and the commands of the fingerprint device are results. What AcquiredInfo
-- calls GOOD is an argument; a thread that sleeps ends with an event of its own.
pub mod SensorOff
pub mod LastState
mod Tests
use device_xiaomi_odin.Prelude.{
  ℕ, ◌+◌, ◌-◌, Bool, true, false, not, ◌&&◌, Option, none, some, List, [], ◌∷◌, ◌++◌, ◌==◌,
  if◌then◌else◌,
}

abbrev pub command_nit : ℕ
command_nit = 10

abbrev pub command_fod_press_status : ℕ
command_fod_press_status = 1

abbrev pub fod_on : ℕ
fod_on = 1

abbrev pub fod_off : ℕ
fod_off = 0

-- A number that set writes to FOD_STATUS_PATH or FOD_HBM_PATH.
pub data FileWrite : Type 0 where
  fod_status fod_hbm : ℕ → FileWrite

-- mAuthSuccess, and the number of the threads that sleep for half a second.
pub record Handler : Type 0 where
  pub auth_success : Bool
  pub sleeping : ℕ

-- The calls of the handler, and the end of the oldest thread's sleep.
pub data Event : Type 0 where
  finger_down finger_up cancelled authentication_succeeded authentication_failed sleep_over : Event
  acquired : ℕ → ℕ → Event

-- onAcquired
abbrev pub on_acquired : ℕ → ℕ → ℕ → List FileWrite
on_acquired good result vendor_code =
    if result == good
    then fod_hbm fod_off ∷ fod_status fod_off ∷ []
    else if vendor_code == 21
    then fod_status fod_on ∷ []
    else []

unfoldable pub handle : ℕ → Event → Handler → Handler × List FileWrite
handle good finger_down h = (h, (if h.auth_success then [] else fod_status fod_on ∷ []))
handle good finger_up h = (h, fod_status fod_off ∷ [])
handle good (acquired result vendor_code) h = (h, on_acquired good result vendor_code)
handle good cancelled h = (h, fod_status fod_off ∷ fod_hbm fod_off ∷ [])
handle good authentication_succeeded h =
    (record { auth_success = true; sleeping = h.sleeping + 1 }, fod_status fod_off ∷ [])
handle good authentication_failed h = (h, fod_status fod_off ∷ [])
handle good sleep_over h = (
  (if h.sleeping == 0 then h else record { auth_success = false; sleeping = h.sleeping - 1 }),
  [],
)

-- A history of events.
unfoldable pub run : ℕ → List Event → Handler → Handler × List FileWrite
unfolding handle
run good [] h = (h, [])
run good (e ∷ es) h =
    let (h', ws) = handle good e h in let (h'', vs) = run good es h' in (h'', ws ++ vs)

-- readBool: whether lseek works, and the character that read gives.
unfoldable pub read_bool : Bool → Option ℕ → Bool
read_bool false c = false
read_bool true none = false
read_bool true (some c) = not (c == b'0')

-- What poll gives: a failure, or the states that are read of the files with an event.
pub data Poll : Type 0 where
  poll_failed : Poll
  polled : Option Bool → Option Bool → Poll

-- The command and its parameter.
pub data ExtCmd : Type 0 where
  ext_cmd : ℕ → ℕ → ExtCmd

abbrev pub param_of : Bool → ℕ
param_of state = if state then 1 else 0

abbrev pub told : ℕ → Option Bool → List ExtCmd
told command none = []
told command (some state) = ext_cmd command (param_of state) ∷ []

-- A round of the thread's loop.
unfoldable pub poll_round : Poll → List ExtCmd
poll_round poll_failed = []
poll_round (polled ui press) = told command_nit ui ++ told command_fod_press_status press

-- The loop, up to a round.
unfoldable pub poll_loop : List Poll → List ExtCmd
unfolding poll_round
poll_loop [] = []
poll_loop (p ∷ ps) = poll_round p ++ poll_loop ps

-- The thread that init starts, with whether its files can be opened.
unfoldable pub watch : Bool → Bool → List Poll → List ExtCmd
unfolding poll_loop
watch ui_opened press_opened ps = if ui_opened && press_opened then poll_loop ps else []
