-- ===== src/Timer/Slots.antt =====
-- The timer table and its two searches, phUtilUwb_CheckForAvailableTimer and
-- phOsalUwb_CheckTimerPresence.
use device_xiaomi_odin.Prelude.{ℕ, ◌+◌, not, ◌&&◌, Option, none, List, [], ◌∷◌, ◌==◌, if◌then◌else◌}
use device_xiaomi_odin.Status.{success, invalid_parameter}

pub data TimerState : Type 0 where
  idle running stopped : TimerState

-- phOsalUwb_TimerHandle_t. `timer_id` is 0 in a slot that is not in use. The message and the
-- deferred call that the slot also holds are written just before they are posted.
pub record Timer : Type 0 where
  pub timer_id : ℕ
  pub handle : ℕ
  pub application_callback : Option ℕ
  pub context : ℕ
  pub state : TimerState

-- What memset to 0 leaves.
abbrev pub blank : Timer
blank = record { timer_id = 0; handle = 0; application_callback = none; context = 0; state = idle }

abbrev pub Table : Type 0
Table = List Timer

-- One more than the index of the first slot that is not in use, or 0. The first argument is the
-- loop's `dwIndex`; the loop ends when `dwRetval` is set.
unfoldable pub available : ℕ → Table → ℕ
available i [] = 0
available i (t ∷ ts) = if t.timer_id == 0 then i + 1 else available (i + 1) ts

-- Is slot `obj` one of the table's, and in use? The source compares the slots' addresses.
unfoldable pub presence : ℕ → ℕ → Table → ℕ
presence i obj [] = invalid_parameter
presence i obj (t ∷ ts) =
    if i == obj && not (t.timer_id == 0) then success else presence (i + 1) obj ts
