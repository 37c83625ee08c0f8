-- ===== src/Timer.antt =====
-- uwb/halimpl/tml/phOsalUwb_Timer.cc: the table `apTimerInfo` of five timers. The POSIX timer calls
-- are not part of the repository: what such a call returns is an argument, and the calls that the
-- code makes are part of the result, in order. Function pointers and contexts are numbers.
pub mod Slots
pub mod Invariant
pub mod Lifecycle
pub mod Running
pub mod Cleanup
mod Tests
use device_xiaomi_odin.Prelude.{
  ℕ, zero, suc, ◌+◌, ◌-◌, ◌*◌, ◌/◌, ◌%◌, ◌^◌, Bool, true, false, not, ◌&&◌, Option, none, some,
  List, [], ◌∷◌, ◌++◌, ltb, leb, ◌==◌, if◌then◌else◌, get_or, set,
}
use device_xiaomi_odin.Status.{success, invalid_parameter, cid_osal, ph_uwb_st_val}
use Slots.{TimerState, idle, running, stopped, Timer, blank, Table, available, presence}

abbrev pub base_address : ℕ
base_address = 100

abbrev pub max_timer : ℕ
max_timer = 5

abbrev pub id_invalid : ℕ
id_invalid = 0xFFFF

abbrev start_error : ℕ
start_error = 0xE1

abbrev stop_error : ℕ
stop_error = 0xE2

abbrev delete_error : ℕ
delete_error = 0xE3

-- The calls that leave the component. `msgsnd` posts the deferred call of the given timer id.
pub data Call : Type 0 where
  timer_create : ℕ → Call
  timer_settime : ℕ → ℕ → ℕ → Call
  timer_delete : ℕ → Call
  msgsnd : ℕ → Call
  callback : ℕ → ℕ → ℕ → Call

pub record Outcome : Type 0 where
  pub table : Table
  pub result : ℕ
  pub calls : List Call

-- `(uint32_t)(dwTimerId - PH_UWB_TIMER_BASE_ADDRESS - 1)`
abbrev pub index_of : ℕ → ℕ
index_of id = (id + (2 ^ 32 - 101)) % 2 ^ 32

-- The branches of phOsalUwb_Timer_Create once a slot is found.
pub create_at : Option ℕ → ℕ → ℕ → Table → Outcome
create_at none i id t = record { table = t; result = id_invalid; calls = timer_create id ∷ [] }
create_at (some h) i id t = record {
  table = set t i (record (get_or blank t i) { handle = h; state = idle; timer_id = id });
  result = id;
  calls = timer_create id ∷ [];
}

-- phOsalUwb_Timer_Create; the first argument is what timer_create stores, `none` for its -1.
pub create : Option ℕ → Table → Outcome
unfolding create_at available
create os t =
    let slot = available 0 t in
    if not (slot == 0) && leb slot max_timer
    then create_at os (slot - 1) (slot + base_address) t
    else record { table = t; result = id_invalid; calls = [] }

-- The `it_value` that phOsalUwb_Timer_Start builds from milliseconds.
pub it_value : ℕ → ℕ × ℕ
it_value ms =
    let sec = ms / 1000 in
    let nsec = 1000000 * (ms % 1000) in if sec == 0 && nsec == 0 then (sec, 1) else (sec, nsec)

-- The arming branch of phOsalUwb_Timer_Start. The last argument but one says whether timer_settime
-- returns 0; the slot is changed in either case.
pub arm : ℕ → ℕ → ℕ → ℕ → Bool → Table → Outcome
unfolding it_value
arm i ms f context settime_ok t =
    let timer = get_or blank t i in
    let (sec, nsec) = it_value ms in
    record {
      table =
          set t i
            (record timer { application_callback = some f; context = context; state = running });
      result = if settime_ok then success else ph_uwb_st_val cid_osal start_error;
      calls = timer_settime timer.handle sec nsec ∷ [];
    }

abbrev refuse : Table → Outcome
refuse t = record { table = t; result = ph_uwb_st_val cid_osal invalid_parameter; calls = [] }

-- phOsalUwb_Timer_Start; a callback of `none` is NULL.
pub start : ℕ → ℕ → Option ℕ → ℕ → Bool → Table → Outcome
unfolding arm
start id ms none context settime_ok t = refuse t
start id ms (some f) context settime_ok t =
    let i = index_of id in
    if leb max_timer i
    then refuse t
    else if not ((get_or blank t i).timer_id == 0)
    then arm i ms f context settime_ok t
    else refuse t

-- phOsalUwb_Timer_Stop on a slot in use, by the slot's state.
pub stop_in : TimerState → ℕ → Bool → Table → Outcome
stop_in idle i settime_ok t = refuse t
stop_in stopped i settime_ok t = record { table = t; result = success; calls = [] }
stop_in running i settime_ok t =
    let timer = get_or blank t i in
    let call = timer_settime timer.handle 0 0 in
    if settime_ok
    then record {
      table = set t i (record timer { state = stopped });
      result = success;
      calls = call ∷ [];
    }
    else record { table = t; result = ph_uwb_st_val cid_osal stop_error; calls = call ∷ [] }

-- phOsalUwb_Timer_Stop.
pub stop : ℕ → Bool → Table → Outcome
unfolding stop_in
stop id settime_ok t =
    let i = index_of id in
    if leb max_timer i
    then refuse t
    else if not ((get_or blank t i).timer_id == 0)
    then stop_in (get_or blank t i).state i settime_ok t
    else refuse t

-- phOsalUwb_Timer_Delete. The slot is cleared also where timer_delete fails.
pub delete : ℕ → Bool → Table → Outcome
unfolding presence
delete id delete_ok t =
    let i = index_of id in
    let timer = get_or blank t i in
    if leb max_timer i
    then refuse t
    else if not (timer.timer_id == 0) && presence 0 i t == success
    then record {
      table = set t i blank;
      result = if delete_ok then success else ph_uwb_st_val cid_osal delete_error;
      calls = timer_delete timer.handle ∷ [];
    }
    else refuse t

-- One round of the loop of phOsalUwb_Timer_Cleanup.
pub cleanup_slot : ℕ → Table → Table × List Call
unfolding presence
cleanup_slot i t =
    let timer = get_or blank t i in
    if not (timer.timer_id == 0) && presence 0 i t == success
    then (set t i blank, timer_delete timer.handle ∷ [])
    else (t, [])

-- The rounds that are left, from `dwIndex` on.
pub cleanup_from : ℕ → ℕ → Table → Table × List Call
unfolding cleanup_slot
cleanup_from zero i t = (t, [])
cleanup_from (suc n) i t =
    let (t', calls) = cleanup_slot i t in
    let (t'', more) = cleanup_from n (i + 1) t' in (t'', calls ++ more)

-- phOsalUwb_Timer_Cleanup.
pub cleanup : Table → Table × List Call
unfolding cleanup_from
cleanup = cleanup_from max_timer 0

-- phOsalUwb_Timer_Expired, on the id that timer_create was given. The slot is not checked. The ids are
-- those that phOsalUwb_Timer_Create gives out, 101 to 105, for which the slot is in the table; for
-- another one, which no timer has, the code would write outside it, and here nothing is written.
pub expired : ℕ → Table → Table × List Call
expired id t =
    let i = index_of id in (set t i (record (get_or blank t i) { state = stopped }), msgsnd id ∷ [])

pub deferred_callback : Option ℕ → ℕ → ℕ → List Call
deferred_callback none id context = []
deferred_callback (some f) id context = callback f id context ∷ []

-- phOsalUwb_DeferredCall: what the posted message does when the client thread runs it.
pub deferred_call : ℕ → Table → List Call
unfolding deferred_callback
deferred_call id t =
    let timer = get_or blank t (index_of id) in
    if id == 0 then [] else deferred_callback timer.application_callback id timer.context

abbrev pub empty : Table
empty = blank ∷ blank ∷ blank ∷ blank ∷ blank ∷ []
